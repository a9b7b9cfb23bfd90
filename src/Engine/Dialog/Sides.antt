-- ===== src/Engine/Dialog/Sides.antt =====
-- A hold from both sides: the re-INVITE of one call is answered by the other.
use xk6_sip.Common.{◌≡◌, refl, sym, ap, ◌∙◌, ◌⊎◌, inl, inr, true, false, not, Option, none, some}
use xk6_sip.Common.Text.{Text, is_empty}
use xk6_sip.Media.Sdp.{
  Direction, send_recv, send_only, reverse, Remote, Resolver, parsed, parse_sdp, choose, sends,
  receives,
}
use xk6_sip.Media.Codec.{Codec}
use xk6_sip.Media.Stream.State.{Stream}
use xk6_sip.Media.Stream.Negotiation.{offer, update, apply_answer, apply_with, answer_sdp}
use xk6_sip.Engine.Call.{is_connected}
use xk6_sip.Engine.Session.{SessionExpires, echoed}
use xk6_sip.Engine.Dialog.{
  Dialog, Reply, reply, is_send_recv, make_offer, ask, applied, take_parsed, take_answer, refresh,
  reinvite_done, reinvite_replied, reinvite_once, reinvite_again, reinvite, media_direction, holds,
  reoffer_parsed, reoffer_stream, reoffer_answer, answered, on_re_invite,
}
use xk6_sip.Engine.Dialog.Holding.{reinvite-IsAsked}

-- The directions that `Hold` and `Unhold` ask for.
abbrev pub IsAsking : Direction → Type 0
IsAsking dir = (dir ≡ send_recv) ⊎ (dir ≡ send_only)

reverse_twice : (dir : Direction) → reverse (reverse dir) ≡ dir
unfolding reverse
reverse_twice Direction.send_recv = refl
reverse_twice Direction.send_only = refl
reverse_twice Direction.recv_only = refl
reverse_twice Direction.inactive = refl

applied-direction :
    (r : Resolver) (s : Stream) (m : Remote) (dir : Direction) (c : Option Codec)
    → s.dir ≡ dir
    → m.dir ≡ reverse dir
    → (applied s (apply_with r s m c)).dir ≡ dir
unfolding apply_with
applied-direction r s m dir none e h = e
applied-direction r s m dir (some c) e h = ap reverse h ∙ reverse_twice dir

-- The side that is asked.
answers-re_invite :
    (r : Resolver) (b : Dialog) (s : Stream) (m : Remote) (body : Text)
    (timer : Option SessionExpires)
    → b.locked ≡ false
    → b.media ≡ some s
    → is_empty body ≡ false
    → parse_sdp r body ≡ parsed m
    → ((on_re_invite r b body timer).1 ≡ answered 200 ((update r s m).1) (echoed timer))
      × ((on_re_invite r b body timer).0.remote_hold ≡ holds m.dir)
      × (media_direction ((on_re_invite r b body timer).0.media) ≡ reverse m.dir)
unfolding on_re_invite reoffer_answer reoffer_stream reoffer_parsed refresh update answer_sdp
answers-re_invite r b s m body timer free media full read =
    rw (free, media, full, read) (refl, refl, refl)

-- The side that asks, when the answer comes at once.
asks-reinvite :
    (r : Resolver) (a : Dialog) (s : Stream) (dir : Direction) (m : Remote) (body : Text)
    (second : Reply)
    → is_connected a.call ≡ true
    → a.media ≡ some s
    → is_empty body ≡ false
    → parse_sdp r body ≡ parsed m
    → m.dir ≡ reverse dir
    → media_direction ((reinvite r a dir (reply 200 body) second).0.media) ≡ dir
unfolding reinvite reinvite_again reinvite_once reinvite_replied reinvite_done refresh make_offer
    ask take_answer take_parsed apply_answer offer
asks-reinvite r a s dir m body second up media full read back =
    rw (up, media, full, read)
      (applied-direction r ((offer s dir).0) m dir (choose ((offer s dir).0).codecs m.codecs false)
        refl back)

holds_asked : (dir : Direction) → IsAsking dir → holds dir ≡ not (is_send_recv dir)
holds_asked dir (inl e) = rw e refl
holds_asked dir (inr e) = rw e refl

sends-reverse : (dir : Direction) → sends dir ≡ receives (reverse dir)
unfolding sends receives reverse
sends-reverse Direction.send_recv = refl
sends-reverse Direction.send_only = refl
sends-reverse Direction.recv_only = refl
sends-reverse Direction.inactive = refl

receives-reverse : (dir : Direction) → receives dir ≡ sends (reverse dir)
unfolding sends receives reverse
receives-reverse Direction.send_recv = refl
receives-reverse Direction.send_only = refl
receives-reverse Direction.recv_only = refl
receives-reverse Direction.inactive = refl

-- When one side of a call asks for a hold, or for its end, and the other side answers the re-INVITE, the
-- re-INVITE succeeds, the first says that it holds the call exactly where the second says that it
-- is held, and each sends audio exactly where the other one takes it. The first is connected, the
-- second is not sending a re-INVITE itself, both have media, and offer and answer, which are not
-- empty, are read with the direction that was written.
pub hold-remote_hold :
    (r : Resolver) (a b : Dialog) (s t : Stream) (dir : Direction) (m n : Remote)
    (timer : Option SessionExpires) (second : Reply)
    → IsAsking dir
    → is_connected a.call ≡ true
    → a.media ≡ some s
    → b.media ≡ some t
    → b.locked ≡ false
    → is_empty ((offer s dir).1) ≡ false
    → parse_sdp r ((offer s dir).1) ≡ parsed m
    → m.dir ≡ dir
    → is_empty ((update r t m).1) ≡ false
    → parse_sdp r ((update r t m).1) ≡ parsed n
    → n.dir ≡ reverse dir
    → ((on_re_invite r b ((offer s dir).1) timer).1
        ≡ answered 200 ((update r t m).1) (echoed timer))
      × ((reinvite r a dir (reply 200 ((update r t m).1)) second).1 ≡ true)
      × ((reinvite r a dir (reply 200 ((update r t m).1)) second).0.local_hold
          ≡ (on_re_invite r b ((offer s dir).1) timer).0.remote_hold)
      × (sends (media_direction ((reinvite r a dir (reply 200 ((update r t m).1)) second).0.media))
          ≡ receives (media_direction ((on_re_invite r b ((offer s dir).1) timer).0.media)))
      × (receives
            (media_direction ((reinvite r a dir (reply 200 ((update r t m).1)) second).0.media))
          ≡ sends (media_direction ((on_re_invite r b ((offer s dir).1) timer).0.media)))
hold-remote_hold r a b s t dir m n timer second asking up ma mb free full read same full' read'
      back =
    let o = (offer s dir).1 in
    let body = (update r t m).1 in
    let (reply_is, held, answered_dir) = answers-re_invite r b t m o timer free mb full read in
    let (ok, v) = reinvite-IsAsked r a dir (reply 200 body) second in
    let done : (reinvite r a dir (reply 200 body) second).1 ≡ true = ok ∙ rw up refl in
    let asked_dir = asks-reinvite r a s dir n body second up ma full' read' back in
    (
      reply_is,
      done,
      v.held ∙ (rw done (sym (held ∙ (ap holds same ∙ holds_asked dir asking)))),
      ap sends asked_dir ∙ (sends-reverse dir ∙ ap receives (sym (answered_dir ∙ ap reverse same))),
      ap receives asked_dir
          ∙ (receives-reverse dir ∙ ap sends (sym (answered_dir ∙ ap reverse same))),
    )
