-- ===== src/TestPbx/Dialling.antt =====
-- testpbx/calls.go: what the requests that the PBX sends leave as it is.
use xk6_sip.Common.{
  ℕ, suc, ◌≡◌, ◌≢◌, refl, ap, ◌∙◌, Bool, true, false, ◌&&◌, Option, none, some, List, [], ◌∷◌,
  arith, if_both, if_cases,
}
use xk6_sip.Common.Text.{Text, codes, is_empty}
use xk6_sip.TestPbx.{
  User, Leg, Pbx, Sent, caller_id, send, set_sdp, leg_do, leg_ack, contact_of, is_there,
}
use xk6_sip.TestPbx.Calls.{
  InviteEnd, broken, refused, answered, Dialled, no_leg, rejected, leg, dial, call_contact, dialled,
  relay_ringing, Reply, failed, response, is_ringing, uac_leg_of,
}
use xk6_sip.TestPbx.Transfers.{reinvite, accepted, Answer, notify}

-- The table of calls and the count of allocations are as before.
pub record IsQuiet (p q : Pbx) : Type 0 where
  pub legs : q.legs ≡ p.legs
  pub orphans : q.orphans ≡ p.orphans
  pub next : q.next ≡ p.next

pub IsQuiet-refl : (p : Pbx) → IsQuiet p p
IsQuiet-refl p = record { legs = refl; orphans = refl; next = refl }

pub IsQuiet-trans : (p q r : Pbx) → IsQuiet p q → IsQuiet q r → IsQuiet p r
IsQuiet-trans p q r v w = record {
  legs = w.legs ∙ v.legs;
  orphans = w.orphans ∙ v.orphans;
  next = w.next ∙ v.next;
}

pub set_sdp-IsQuiet : (p : Pbx) (l : Leg) (b : Text) → IsQuiet p (set_sdp p l b)
unfolding set_sdp
set_sdp-IsQuiet p l b =
    if_both (λ q. IsQuiet p q) (is_empty b) (IsQuiet-refl p)
      (record { legs = refl; orphans = refl; next = refl })

pub relay_ringing-IsQuiet : (p : Pbx) (rs : List (ℕ × Text)) → IsQuiet p (relay_ringing p rs)
unfolding relay_ringing
relay_ringing-IsQuiet p [] = IsQuiet-refl p
relay_ringing-IsQuiet p ((status, reason) ∷ rs) =
    if_both (λ q. IsQuiet p (relay_ringing q rs)) (is_ringing status)
      (let v = relay_ringing-IsQuiet (send p (Sent.respond status reason [])) rs in
        record { legs = v.legs; orphans = v.orphans; next = v.next })
      (relay_ringing-IsQuiet p rs)

-- The Call-ID of the dialog that an INVITE makes, if it does.
abbrev pub new_id : InviteEnd → Text
new_id broken = []
new_id (refused status reason) = []
new_id (answered id contact body acked) = id

-- A call that was placed left the table as it was; a new leg is the next allocation.
abbrev pub Placed : Pbx → Text → Pbx × Dialled → Type 0
Placed p id (q, no_leg) = IsQuiet p q
Placed p id (q, rejected status reason) = IsQuiet p q
Placed p id (q, leg l) =
    (q.legs ≡ p.legs)
    × (q.orphans ≡ p.orphans)
    × (q.next ≡ suc p.next)
    × (l.handle ≡ p.next)
    × (l.call_id ≡ id)

dialled-Placed :
    (p : Pbx) (u : User) (recipient : Text) (end : InviteEnd)
    → Placed p (new_id end) (dialled p u recipient end)
unfolding dialled leg_ack uac_leg_of
dialled-Placed p u recipient broken = IsQuiet-refl p
dialled-Placed p u recipient (refused status reason) = IsQuiet-refl p
dialled-Placed p u recipient (answered id contact body acked) =
    let l = uac_leg_of p u recipient id contact in
    let q : Pbx = leg_ack p l in
    let grown : Pbx = record q { next = suc q.next } in
    let v = set_sdp-IsQuiet grown l body in
    if_both (λ r. Placed p id r) acked (v.legs, v.orphans, v.next, refl, refl)
      (record { legs = refl; orphans = refl; next = refl })

quiet-Placed :
    (p q : Pbx) (id : Text) (r : Pbx × Dialled) → IsQuiet p q → Placed q id r → Placed p id r
quiet-Placed p q id (s, no_leg) v w = IsQuiet-trans p q s v w
quiet-Placed p q id (s, rejected status reason) v w = IsQuiet-trans p q s v w
quiet-Placed p q id (s, leg l) v (a, b, c, d, e) =
    (a ∙ v.legs, b ∙ v.orphans, c ∙ ap suc v.next, d ∙ v.next, e)

call_contact-Placed :
    (p : Pbx) (u from : User) (offer : Text) (relayed : List (ℕ × Text)) (end : InviteEnd)
    (c : Option Text)
    → Placed p (new_id end) (call_contact p u from offer relayed end c)
unfolding call_contact
call_contact-Placed p u from offer relayed end none = IsQuiet-refl p
call_contact-Placed p u from offer relayed end (some target) =
    let sent_p = send p (Sent.invite target (caller_id from) (caller_id u) offer) in
    let rung = relay_ringing sent_p relayed in
    let v = relay_ringing-IsQuiet sent_p relayed in
    quiet-Placed p rung (new_id end) (dialled rung u target end)
      (record { legs = v.legs; orphans = v.orphans; next = v.next })
      (dialled-Placed rung u target end)

pub dial-Placed :
    (p : Pbx) (u from : User) (offer : Text) (relayed : List (ℕ × Text)) (end : InviteEnd)
    → Placed p (new_id end) (dial p u from offer relayed end)
unfolding dial
dial-Placed p u from offer relayed end =
    call_contact-Placed p u from offer relayed end (contact_of p u)

-- A refusal is not a 200.
abbrev pub IsRefusal : InviteEnd → Type 0
IsRefusal broken = Unit {0}
IsRefusal (refused status reason) = status ≢ 200
IsRefusal (answered id contact body acked) = Unit {0}

abbrev pub answers : InviteEnd → Bool
answers broken = false
answers (refused status reason) = false
answers (answered id contact body acked) = acked

abbrev pub Answers : Bool → Dialled → Type 0
Answers w no_leg = w ≡ false
Answers w (rejected status reason) = (w ≡ false) × (status ≢ 200)
Answers w (leg l) = w ≡ true

dialled-Answers :
    (p : Pbx) (u : User) (recipient : Text) (end : InviteEnd)
    → IsRefusal end
    → Answers (answers end) ((dialled p u recipient end).1)
unfolding dialled
dialled-Answers p u recipient broken h = refl
dialled-Answers p u recipient (refused status reason) h = (refl, h)
dialled-Answers p u recipient (answered id contact body acked) h =
    if_cases (λ (r : Pbx × Dialled). Answers acked (r.1)) acked (λ e. e) (λ e. e)

call_contact-Answers :
    (p : Pbx) (u from : User) (offer : Text) (relayed : List (ℕ × Text)) (end : InviteEnd)
    (c : Option Text)
    → IsRefusal end
    → Answers (is_there c && answers end) ((call_contact p u from offer relayed end c).1)
unfolding call_contact
call_contact-Answers p u from offer relayed end none h = (refl, λ t. absurd (omega (arith, t)))
call_contact-Answers p u from offer relayed end (some c) h =
    dialled-Answers
      (relay_ringing (send p (Sent.invite c (caller_id from) (caller_id u) offer)) relayed) u c end
      h

-- A call gets a leg exactly where the called is registered and answers.
pub dial-Answers :
    (p : Pbx) (u from : User) (offer : Text) (relayed : List (ℕ × Text)) (end : InviteEnd)
    → IsRefusal end
    → Answers (is_there (contact_of p u) && answers end) ((dial p u from offer relayed end).1)
unfolding dial
dial-Answers p u from offer relayed end h =
    call_contact-Answers p u from offer relayed end (contact_of p u) h

pub leg_do-IsQuiet :
    (p : Pbx) (l : Leg) (method body : Text) (hs : List (Text × Text))
    → IsQuiet p (leg_do p l method body hs)
unfolding leg_do
leg_do-IsQuiet p l method body hs = record { legs = refl; orphans = refl; next = refl }

pub notify-IsQuiet : (p : Pbx) (l : Leg) (t : Text) (final : Bool) → IsQuiet p (notify p l t final)
unfolding notify leg_do
notify-IsQuiet p l t final = record { legs = refl; orphans = refl; next = refl }

accepted-IsQuiet : (p : Pbx) (l : Leg) (a : Answer) (r : Reply) → IsQuiet p ((accepted p l a r).0)
unfolding accepted leg_ack
accepted-IsQuiet p l a failed = IsQuiet-refl p
accepted-IsQuiet p l a (response status ok reason body) =
    let v = set_sdp-IsQuiet p l body in
    if_both (λ (r : Pbx × Bool). IsQuiet p (r.0)) ok
      (record { legs = v.legs; orphans = v.orphans; next = v.next }) (IsQuiet-refl p)

pub reinvite-IsQuiet :
    (p : Pbx) (l : Leg) (offer : Text) (a : Answer) → IsQuiet p ((reinvite p l offer a).0)
unfolding reinvite
reinvite-IsQuiet p l offer a =
    let q = leg_do p l (codes "INVITE") offer [] in
    IsQuiet-trans p q ((accepted q l a a.reply).0) (leg_do-IsQuiet p l (codes "INVITE") offer [])
      (accepted-IsQuiet q l a a.reply)
