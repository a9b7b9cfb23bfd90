-- ===== src/Engine/Dialog/Holding.antt =====
-- Hold, as the side that asks for it and the other side see it.
use xk6_sip.Common.{
  ℕ, suc, ◌+◌, ◌≡◌, refl, sym, ap, ap₂, ◌∙◌, subst, inl, inr, Bool, true, false, not, ◌&&◌, ◌||◌,
  Option, none, some, List, [], ◌∷◌, arith, if◌then◌else◌, ◌==◌, Bool-cases,
}
use xk6_sip.Common.Text.{codes}
use xk6_sip.Media.Sdp.{Direction, Resolver}
use xk6_sip.Media.Stream.State.{Stream, set_direction}
use xk6_sip.Media.Stream.Negotiation.{offer}
use xk6_sip.Engine.Call.{Call, is_connected, is_ended}
use xk6_sip.Engine.Session.{session_refreshed, session_headers}
use xk6_sip.Engine.Dialog.{
  Dialog, Asked, Reply, no_reply, reply, is_success, is_send_recv, make_offer, ask, restore,
  refresh, reinvite_failed, reinvite_done, reinvite_replied, reinvite_once, unlocked,
  reinvite_again, reinvite, media_direction,
}

abbrev pub succeeds : Reply → Bool
succeeds no_reply = false
succeeds (reply status body) = is_success status

abbrev pub is_pending : Reply → Bool
is_pending no_reply = false
is_pending (reply status body) = status == 491

abbrev count : List Asked → ℕ
count [] = 0
count (a ∷ rest) = suc (count rest)

-- After a re-INVITE that was sent `n` times: with success the hold is that of the direction and the
-- session is refreshed; without, the hold, the session and the direction of the stream are as before.
pub record IsAsked (d q : Dialog) (dir : Direction) (n : ℕ) (ok : Bool) : Type 0 where
  pub call : q.call ≡ d.call
  pub clock : q.now ≡ d.now
  pub remote : q.remote_hold ≡ d.remote_hold
  pub held : q.local_hold ≡ (if ok then not (is_send_recv dir) else d.local_hold)
  pub timer : q.session ≡ (if ok then session_refreshed (is_ended d.call) d.session else d.session)
  pub direction : ok ≡ false → media_direction q.media ≡ media_direction d.media
  pub acked : q.acks ≡ (if ok then d.acks + 1 else d.acks)
  pub asked : count q.asked ≡ n + count d.asked

restore-direction :
    (d : Dialog) (s : Option Stream) (dir : Direction)
    → media_direction (restore s ((make_offer d s dir).0)) ≡ media_direction s
unfolding restore make_offer set_direction offer
restore-direction d none dir = refl
restore-direction d (some s) dir = refl

replied-IsAsked :
    (r : Resolver) (d q : Dialog) (dir : Direction) (answer : Reply)
    → q.call ≡ d.call
    → q.now ≡ d.now
    → q.remote_hold ≡ d.remote_hold
    → q.local_hold ≡ d.local_hold
    → q.session ≡ d.session
    → q.acks ≡ d.acks
    → count q.asked ≡ 1 + count d.asked
    → media_direction (restore d.media q.media) ≡ media_direction d.media
    → IsAsked d ((reinvite_replied r q d.media dir answer).0) dir 1 (succeeds answer)
unfolding reinvite_replied reinvite_failed reinvite_done refresh
replied-IsAsked r d q dir no_reply call clock remote held timer acks asked back = record {
  call = call;
  clock = clock;
  remote = remote;
  held = held;
  timer = timer;
  direction = λ h. back;
  acked = acks;
  asked = asked;
}
replied-IsAsked r d q dir (reply status body) call clock remote held timer acks asked back =
    elim (Bool-cases (is_success status)) [
      | inl e ↦ rw e (record {
        call = call;
        clock = clock;
        remote = remote;
        held = refl;
        timer = ap₂ (λ c s. session_refreshed (is_ended c) s) call timer;
        direction = λ h. absurd (ground (arith, h));
        acked = ap (λ n. n + 1) acks;
        asked = asked;
      })
      | inr e ↦ rw e (record {
        call = call;
        clock = clock;
        remote = remote;
        held = held;
        timer = timer;
        direction = λ h. back;
        acked = acks;
        asked = asked;
      })
    ]

replied-flags :
    (r : Resolver) (q : Dialog) (old : Option Stream) (dir : Direction) (answer : Reply)
    → ((reinvite_replied r q old dir answer).1 ≡ succeeds answer)
      × ((reinvite_replied r q old dir answer).2 ≡ is_pending answer)
unfolding reinvite_replied
replied-flags r q old dir no_reply = (refl, refl)
replied-flags r q old dir (reply status body) = (ground arith, ground arith)

reinvite_once-IsAsked :
    (r : Resolver) (d : Dialog) (dir : Direction) (answer : Reply)
    → IsAsked d ((reinvite_once r d dir answer).0) dir 1 (succeeds answer)
      × ((reinvite_once r d dir answer).1 ≡ succeeds answer)
      × ((reinvite_once r d dir answer).2 ≡ is_pending answer)
unfolding reinvite_once ask
reinvite_once-IsAsked r d dir answer =
    let o = make_offer d d.media dir in
    let q : Dialog = record d { media = o.0 } in
    let s = ask q (codes "INVITE") (o.1) (session_headers d.session) in
    (
      replied-IsAsked r d s dir answer refl refl refl refl refl refl (omega arith)
          (restore-direction d d.media dir),
      (replied-flags r s d.media dir answer).0,
      (replied-flags r s d.media dir answer).1,
    )

twice-IsAsked :
    (d q s : Dialog) (dir : Direction) (ok : Bool)
    → IsAsked d q dir 1 false
    → IsAsked q s dir 1 ok
    → IsAsked d s dir 2 ok
twice-IsAsked d q s dir ok v w = record {
  call = w.call ∙ v.call;
  clock = w.clock ∙ v.clock;
  remote = w.remote ∙ v.remote;
  held = w.held ∙ ap (λ b. if ok then not (is_send_recv dir) else b) v.held;
  timer =
      w.timer
      ∙ ap₂ (λ (c : Call) m. if ok then session_refreshed (is_ended c) m else m) v.call v.timer;
  direction = λ h. w.direction h ∙ v.direction refl;
  acked = w.acked ∙ ap (λ n. if ok then n + 1 else n) v.acked;
  asked = omega (arith, v.asked, w.asked);
}

-- How often a re-INVITE is sent.
abbrev pub attempts : Reply → ℕ
attempts first = if is_pending first then 2 else 1

unlocked-IsAsked :
    (d q : Dialog) (dir : Direction) (n : ℕ) (ok : Bool)
    → IsAsked d q dir n ok
    → IsAsked d (unlocked q) dir n ok
unlocked-IsAsked d q dir n ok v = record {
  call = v.call;
  clock = v.clock;
  remote = v.remote;
  held = v.held;
  timer = v.timer;
  direction = v.direction;
  acked = v.acked;
  asked = v.asked;
}

pending-fails : (a : Reply) → is_pending a ≡ true → succeeds a ≡ false
pending-fails no_reply h = refl
pending-fails (reply status body) h = ground (arith, h)

reinvite_again-IsAsked :
    (r : Resolver) (d : Dialog) (dir : Direction) (first second : Reply) (a : Dialog × Bool × Bool)
    → IsAsked d (a.0) dir 1 (succeeds first)
    → a.1 ≡ succeeds first
    → a.2 ≡ is_pending first
    → IsAsked d
        ((reinvite_again r dir second a).0)
        dir
        (attempts first)
        (succeeds first || is_pending first && succeeds second)
      × ((reinvite_again r dir second a).1
          ≡ (succeeds first || is_pending first && succeeds second))
unfolding reinvite_again
reinvite_again-IsAsked r d dir first second (q, ok, false) v e h = rw (sym h) (
  subst (IsAsked d (unlocked q) dir 1) (ground arith)
      (unlocked-IsAsked d q dir 1 (succeeds first) v),
  e ∙ ground arith,
)
reinvite_again-IsAsked r d dir first second (q, ok, true) v e h =
    let (w, flag, again) = reinvite_once-IsAsked r q dir second in
    let s = (reinvite_once r q dir second).0 in
    let none_yet = pending-fails first (sym h) in
    rw (sym h, none_yet)
      (
        unlocked-IsAsked d s dir 2 (succeeds second)
            (twice-IsAsked d q s dir (succeeds second) (subst (IsAsked d q dir 1) none_yet v) w),
        flag,
      )

locked-IsAsked :
    (d q : Dialog) (dir : Direction) (n : ℕ) (ok : Bool)
    → IsAsked (record d { locked = true }) q dir n ok
    → IsAsked d q dir n ok
locked-IsAsked d q dir n ok v = record {
  call = v.call;
  clock = v.clock;
  remote = v.remote;
  held = v.held;
  timer = v.timer;
  direction = v.direction;
  acked = v.acked;
  asked = v.asked;
}

unasked-IsAsked : (d : Dialog) (dir : Direction) → IsAsked d d dir 0 false
unasked-IsAsked d dir = record {
  call = refl;
  clock = refl;
  remote = refl;
  held = refl;
  timer = refl;
  direction = λ h. refl;
  acked = refl;
  asked = omega arith;
}

pub reinvite-IsAsked :
    (r : Resolver) (d : Dialog) (dir : Direction) (first second : Reply)
    → ((reinvite r d dir first second).1
        ≡ (is_connected d.call && (succeeds first || is_pending first && succeeds second)))
      × IsAsked d
          ((reinvite r d dir first second).0)
          dir
          (if is_connected d.call then attempts first else 0)
          ((reinvite r d dir first second).1)
unfolding reinvite
reinvite-IsAsked r d dir first second =
    let locked : Dialog = record d { locked = true } in
    let (v, flag, again) = reinvite_once-IsAsked r locked dir first in
    let once = reinvite_once r locked dir first in
    let a = reinvite_again r dir second once in
    let (w, ok) = reinvite_again-IsAsked r locked dir first second once v flag again in
    elim (Bool-cases (is_connected d.call)) [
      | inl e ↦ rw e (
        ok,
        subst (IsAsked d (a.0) dir (attempts first)) (sym ok) (
            locked-IsAsked d (a.0) dir (attempts first)
              (succeeds first || is_pending first && succeeds second) w),
      )
      | inr e ↦ rw e (refl, unasked-IsAsked d dir)
    ]
