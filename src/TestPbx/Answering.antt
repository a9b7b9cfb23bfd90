-- ===== src/TestPbx/Answering.antt =====
-- testpbx/calls.go: the final responses to an INVITE.
use xk6_sip.Common.{
  ℕ, suc, ◌+◌, ◌≤◌, ◌≡◌, refl, ap, ◌∙◌, Bool, true, false, Option, none, some, List, [], ◌∷◌, arith,
  if◌then◌else◌, leb, if_both, if_cases,
}
use xk6_sip.Common.Text.{Text, codes, is_empty}
use xk6_sip.Common.Table.{get}
use xk6_sip.TestPbx.{
  User, Leg, Pbx, Request, Sent, respond, caller_id, send, set_sdp, leg_do, leg_ack, other, link,
  lookup, contact_of, Found, in_bridge, orphan, unknown, find,
}
use xk6_sip.TestPbx.Registrar.{Credentials, Question, authorized, accepts}
use xk6_sip.TestPbx.Calls.{
  InviteEnd, broken, refused, answered, Dialled, no_leg, rejected, leg, dial, call_contact, dialled,
  relay_ringing, is_ringing, uac_leg_of, Reply, failed, response, Serving, uas_leg_of, connect,
  after_dial, invite_read, read_then, route_to, route_invite, invite_from, invite_caller, on_invite,
  relay_reply, relay_invite, on_re_invite, success_sdp,
}

-- How many final responses to a request of ours were sent.
abbrev pub finals : List Sent → ℕ
finals [] = 0
finals (Sent.respond status reason body ∷ log) =
    let rest = finals log in if leb 200 status then suc rest else rest
finals (Sent.challenge status header realm nonce ∷ log) = suc (finals log)
finals (Sent.registered c ∷ log) = suc (finals log)
finals (Sent.invite target from to offer ∷ log) = finals log
finals (Sent.in_dialog l m ∷ log) = finals log
finals (Sent.bye l ∷ log) = finals log
finals (Sent.read_bye l ∷ log) = finals log
finals (Sent.read_ack l ∷ log) = finals log
finals (Sent.close_dialog ∷ log) = finals log

-- What refuses an INVITE is a final response, and so is what ends a request inside of a dialog.
abbrev pub RefusesFinally : InviteEnd → Type 0
RefusesFinally broken = Unit {0}
RefusesFinally (refused status reason) = 200 ≤ status
RefusesFinally (answered id contact body acked) = Unit {0}

abbrev pub EndsFinally : Reply → Type 0
EndsFinally failed = Unit {0}
EndsFinally (response status ok reason body) = 200 ≤ status

set_sdp-sent : (p : Pbx) (l : Leg) (b : Text) → (set_sdp p l b).sent ≡ p.sent
unfolding set_sdp
set_sdp-sent p l b = if_both (λ (q : Pbx). q.sent ≡ p.sent) (is_empty b) refl refl

relay_ringing-finals :
    (p : Pbx) (rs : List (ℕ × Text)) → finals (relay_ringing p rs).sent ≡ finals p.sent
unfolding relay_ringing
relay_ringing-finals p [] = refl
relay_ringing-finals p ((status, reason) ∷ rs) =
    if_cases (λ (q : Pbx). finals (relay_ringing q rs).sent ≡ finals p.sent) (is_ringing status)
      (λ h. relay_ringing-finals (send p (respond status reason [])) rs ∙ ground (arith, h))
      (λ h. relay_ringing-finals p rs)

-- A refusal that `dial` passes on is final, and `dial` answers nothing itself.
abbrev pub Unanswered : Pbx → Pbx × Dialled → Type 0
Unanswered p (q, no_leg) = finals q.sent ≡ finals p.sent
Unanswered p (q, rejected status reason) = (finals q.sent ≡ finals p.sent) × (200 ≤ status)
Unanswered p (q, leg l) = finals q.sent ≡ finals p.sent

dialled-Unanswered :
    (p : Pbx) (u : User) (recipient : Text) (end : InviteEnd)
    → RefusesFinally end
    → Unanswered p (dialled p u recipient end)
unfolding dialled leg_ack
dialled-Unanswered p u recipient broken h = refl
dialled-Unanswered p u recipient (refused status reason) h = (refl, h)
dialled-Unanswered p u recipient (answered id contact body acked) h =
    let l = uac_leg_of p u recipient id contact in
    let q : Pbx = leg_ack p l in
    if_both (Unanswered p) acked (ap finals (set_sdp-sent (record q { next = suc q.next }) l body))
      refl

from-Unanswered :
    (p q : Pbx) (r : Pbx × Dialled)
    → finals q.sent ≡ finals p.sent
    → Unanswered q r
    → Unanswered p r
from-Unanswered p q (s, no_leg) h u = u ∙ h
from-Unanswered p q (s, rejected status reason) h u = (u.0 ∙ h, u.1)
from-Unanswered p q (s, leg l) h u = u ∙ h

call_contact-Unanswered :
    (p : Pbx) (u from : User) (offer : Text) (relayed : List (ℕ × Text)) (end : InviteEnd)
    (c : Option Text)
    → RefusesFinally end
    → Unanswered p (call_contact p u from offer relayed end c)
unfolding call_contact
call_contact-Unanswered p u from offer relayed end none h = (refl, omega arith)
call_contact-Unanswered p u from offer relayed end (some c) h =
    let q = send p (Sent.invite c (caller_id from) (caller_id u) offer) in
    from-Unanswered p (relay_ringing q relayed) (dialled (relay_ringing q relayed) u c end)
      (relay_ringing-finals q relayed) (dialled-Unanswered (relay_ringing q relayed) u c end h)

after_dial-finals :
    (p : Pbx) (a : Leg) (run : Serving) (d : Pbx × Dialled)
    → run.cancelled ≡ false
    → run.written ≡ true
    → Unanswered p d
    → finals (after_dial a run d).sent ≡ suc (finals p.sent)
unfolding after_dial connect link
after_dial-finals p a run (q, no_leg) c w u = rw c (ap suc u)
after_dial-finals p a run (q, rejected status reason) c w u = ground (arith, u.0, u.1)
after_dial-finals p a run (q, leg l) c w u = rw w (ap suc u)

invite_read-finals :
    (p : Pbx) (req : Request) (caller callee : User) (run : Serving) (contact : Text)
    → run.cancelled ≡ false
    → run.written ≡ true
    → RefusesFinally run.end
    → finals (invite_read p req caller callee run contact).sent ≡ suc (finals p.sent)
unfolding invite_read dial
invite_read-finals p req caller callee run contact c w h =
    let a = uas_leg_of p req caller contact in
    let tried : Pbx = send (record p { next = suc p.next }) (respond 100 (codes "Trying") []) in
    let s = set_sdp tried a req.body in
    after_dial-finals s a run (dial s callee caller req.body run.provisional run.end) c w (
      call_contact-Unanswered s callee caller req.body run.provisional run.end (contact_of s callee)
        h)
    ∙ ap (λ l. suc (finals l)) (set_sdp-sent tried a req.body)

read_then-finals :
    (p : Pbx) (req : Request) (caller callee : User) (run : Serving) (o : Option Text)
    → run.cancelled ≡ false
    → run.written ≡ true
    → RefusesFinally run.end
    → finals (read_then p req caller callee run o).sent ≡ suc (finals p.sent)
unfolding read_then
read_then-finals p req caller callee run none c w h = refl
read_then-finals p req caller callee run (some contact) c w h =
    invite_read-finals p req caller callee run contact c w h

route_to-finals :
    (p : Pbx) (req : Request) (caller : User) (run : Serving) (o : Option User)
    → run.cancelled ≡ false
    → run.written ≡ true
    → RefusesFinally run.end
    → finals (route_to p req caller run o).sent ≡ suc (finals p.sent)
unfolding route_to
route_to-finals p req caller run none c w h = refl
route_to-finals p req caller run (some u) c w h = read_then-finals p req caller u run run.read c w h

success_sdp-sent :
    (p : Pbx) (o : Leg) (ok : Bool) (body : Text)
    → finals (success_sdp p o ok body).sent ≡ finals p.sent
unfolding success_sdp leg_ack
success_sdp-sent p o ok body =
    if_both (λ (q : Pbx). finals q.sent ≡ finals p.sent) ok
      (ap finals (set_sdp-sent (leg_ack p o) o body)) refl

relay_reply-finals :
    (p : Pbx) (o : Leg) (r : Reply)
    → EndsFinally r
    → finals (relay_reply p o r).sent ≡ suc (finals p.sent)
unfolding relay_reply
relay_reply-finals p o failed h = refl
relay_reply-finals p o (response status ok reason body) h =
    ground (arith, h, success_sdp-sent p o ok body)

relay_invite-finals :
    (p : Pbx) (body : Text) (r : Reply) (f : Found)
    → EndsFinally r
    → finals (relay_invite p body r f).sent ≡ suc (finals p.sent)
unfolding relay_invite leg_do
relay_invite-finals p body r unknown h = refl
relay_invite-finals p body r (orphan l) h = refl
relay_invite-finals p body r (in_bridge b l) h =
    relay_reply-finals (leg_do (set_sdp p l body) (other b l) (codes "INVITE") body []) (other b l)
      r h
    ∙ ap (λ l. suc (finals l)) (set_sdp-sent p l body)

module _ (parse_credentials : Text → Option Credentials) (digest : Question → Option Text) where
  invite_from-finals :
      (p : Pbx) (req : Request) (caller : User) (run : Serving) (now : ℕ)
      → run.cancelled ≡ false
      → run.written ≡ true
      → RefusesFinally run.end
      → finals (invite_from parse_credentials digest p req caller run now).sent
        ≡ suc (finals p.sent)
  unfolding invite_from route_invite authorized
  invite_from-finals p req caller run now c w h =
      let Once : Pbx → Type 0 = λ q. finals q.sent ≡ suc (finals p.sent) in
      let routed = route_to-finals p req caller run (lookup p req.recipient) c w h in
      if_both Once p.auth_invite
        (if_both (λ (r : Pbx × Bool). Once (if r.1 then route_invite (r.0) req caller run else r.0))
          (accepts parse_credentials digest req.method caller req.proxy_authorization) routed refl)
        routed

  invite_caller-finals :
      (p : Pbx) (req : Request) (run : Serving) (now : ℕ) (o : Option User)
      → run.cancelled ≡ false
      → run.written ≡ true
      → RefusesFinally run.end
      → finals (invite_caller parse_credentials digest p req run now o).sent ≡ suc (finals p.sent)
  unfolding invite_caller
  invite_caller-finals p req run now none c w h = refl
  invite_caller-finals p req run now (some u) c w h = invite_from-finals p req u run now c w h

  -- Every INVITE, whether it begins a call or is inside of one, whatever goes wrong, is answered with
  -- exactly one final response: the caller did not cancel, the transport takes the 200, and
  -- what the other endpoint ends a request with is a final response itself.
  pub finals-on_invite :
      (p : Pbx) (req : Request) (run : Serving) (reply : Reply) (now : ℕ)
      → run.cancelled ≡ false
      → run.written ≡ true
      → RefusesFinally run.end
      → EndsFinally reply
      → finals (on_invite parse_credentials digest p req run reply now).sent ≡ suc (finals p.sent)
  unfolding on_invite on_re_invite
  finals-on_invite p req run reply now c w h e =
      let counted : Pbx = record p { invites = p.invites + 1 } in
      if_both (λ (q : Pbx). finals q.sent ≡ suc (finals p.sent)) req.to_tag
        (relay_invite-finals p req.body reply (find p req.call_id) e)
        (invite_caller-finals counted req run now (get p.users req.from_user) c w h)
