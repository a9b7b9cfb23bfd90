-- ===== src/TestPbx/Serving/Outcome.antt =====
-- testpbx/calls.go: what a whole INVITE leaves in the table.
use xk6_sip.Common.{
  ℕ, suc, ◌+◌, ◌≡◌, refl, ap, ◌∙◌, inl, Bool, false, Option, none, some, [], arith, if_both,
}
use xk6_sip.Common.Text.{Text, codes}
use xk6_sip.Common.Table.{Table, get}
use xk6_sip.TestPbx.{
  User, Leg, Bridge, Pbx, Request, Sent, respond, send, set_sdp, other, lookup, Found, in_bridge,
  orphan, unknown, find, leg_ack, leg_do,
}
use xk6_sip.TestPbx.Registrar.{Credentials, Question, authorized, accepts}
use xk6_sip.TestPbx.Calls.{
  dial, Reply, failed, response, Serving, uas_leg_of, after_dial, invite_read, read_then, route_to,
  route_invite, invite_from, invite_caller, on_invite, relay_reply, relay_invite, on_re_invite,
  success_sdp,
}
use xk6_sip.TestPbx.Dialling.{
  IsQuiet, IsQuiet-refl, IsQuiet-trans, new_id, dial-Placed, set_sdp-IsQuiet, leg_do-IsQuiet,
}
use xk6_sip.TestPbx.Relinking.{Free}
use xk6_sip.TestPbx.Serving.Inviting.{
  InviteOutcome, quiet-IsUnmoved, after_dial-outcome, sent-outcome, quiet-outcome,
}

invite_read-outcome :
    (p : Pbx) (req : Request) (caller callee : User) (run : Serving) (contact : Text)
    → Free (get p.legs) (get p.orphans) req.call_id
    → Free (get p.legs) (get p.orphans) (new_id run.end)
    → InviteOutcome p req.call_id (new_id run.end) (invite_read p req caller callee run contact)
unfolding invite_read uas_leg_of
invite_read-outcome p req caller callee run contact fa fb =
    let a = uas_leg_of p req caller contact in
    let tried : Pbx = send (record p { next = suc p.next }) (respond 100 (codes "Trying") []) in
    let s = set_sdp tried a req.body in
    let v = set_sdp-IsQuiet tried a req.body in
    let d = dial s callee caller req.body run.provisional run.end in
    sent-outcome p (after_dial a run d) req.call_id (new_id run.end) Sent.close_dialog (
      after_dial-outcome p s a run (new_id run.end) d fa fb refl v.legs v.orphans v.next
        (dial-Placed s callee caller req.body run.provisional run.end))

unmoved : (p q : Pbx) (a_id b_id : Text) → IsQuiet p q → InviteOutcome p a_id b_id q
unmoved p q a_id b_id w = inl (quiet-IsUnmoved p q 0 w.legs w.orphans (omega (arith, w.next)))

answered_with : (p : Pbx) (a_id b_id : Text) (m : Sent) → InviteOutcome p a_id b_id (send p m)
answered_with p a_id b_id m =
    unmoved p (send p m) a_id b_id (record { legs = refl; orphans = refl; next = refl })

read_then-outcome :
    (p : Pbx) (req : Request) (caller callee : User) (run : Serving) (c : Option Text)
    → Free (get p.legs) (get p.orphans) req.call_id
    → Free (get p.legs) (get p.orphans) (new_id run.end)
    → InviteOutcome p req.call_id (new_id run.end) (read_then p req caller callee run c)
unfolding read_then
read_then-outcome p req caller callee run none fa fb =
    answered_with p req.call_id (new_id run.end) (respond 400 (codes "Bad Request") [])
read_then-outcome p req caller callee run (some c) fa fb =
    invite_read-outcome p req caller callee run c fa fb

route_to-outcome :
    (p : Pbx) (req : Request) (caller : User) (run : Serving) (u : Option User)
    → Free (get p.legs) (get p.orphans) req.call_id
    → Free (get p.legs) (get p.orphans) (new_id run.end)
    → InviteOutcome p req.call_id (new_id run.end) (route_to p req caller run u)
unfolding route_to
route_to-outcome p req caller run none fa fb =
    answered_with p req.call_id (new_id run.end) (respond 404 (codes "Not Found") [])
route_to-outcome p req caller run (some u) fa fb =
    read_then-outcome p req caller u run run.read fa fb

route_invite-outcome :
    (p : Pbx) (req : Request) (caller : User) (run : Serving)
    → Free (get p.legs) (get p.orphans) req.call_id
    → Free (get p.legs) (get p.orphans) (new_id run.end)
    → InviteOutcome p req.call_id (new_id run.end) (route_invite p req caller run)
unfolding route_invite
route_invite-outcome p req caller run fa fb =
    route_to-outcome p req caller run (lookup p req.recipient) fa fb

success_sdp-IsQuiet :
    (p : Pbx) (o : Leg) (ok : Bool) (body : Text) → IsQuiet p (success_sdp p o ok body)
unfolding success_sdp leg_ack
success_sdp-IsQuiet p o ok body =
    let v = set_sdp-IsQuiet (leg_ack p o) o body in
    if_both (IsQuiet p) ok (record { legs = v.legs; orphans = v.orphans; next = v.next })
      (IsQuiet-refl p)

relay_reply-IsQuiet : (p : Pbx) (o : Leg) (r : Reply) → IsQuiet p (relay_reply p o r)
unfolding relay_reply
relay_reply-IsQuiet p o failed = record { legs = refl; orphans = refl; next = refl }
relay_reply-IsQuiet p o (response status ok reason body) =
    let v = success_sdp-IsQuiet p o ok body in
    record { legs = v.legs; orphans = v.orphans; next = v.next }

relay_invite-IsQuiet :
    (p : Pbx) (body : Text) (r : Reply) (f : Found) → IsQuiet p (relay_invite p body r f)
unfolding relay_invite
relay_invite-IsQuiet p body r unknown = record { legs = refl; orphans = refl; next = refl }
relay_invite-IsQuiet p body r (orphan l) = record { legs = refl; orphans = refl; next = refl }
relay_invite-IsQuiet p body r (in_bridge b l) =
    let q = set_sdp p l body in
    let s = leg_do q (other b l) (codes "INVITE") body [] in
    IsQuiet-trans p s (relay_reply s (other b l) r)
      (IsQuiet-trans p q s (set_sdp-IsQuiet p l body)
        (leg_do-IsQuiet q (other b l) (codes "INVITE") body []))
      (relay_reply-IsQuiet s (other b l) r)

pub on_re_invite-IsQuiet : (p : Pbx) (req : Request) (r : Reply) → IsQuiet p (on_re_invite p req r)
unfolding on_re_invite
on_re_invite-IsQuiet p req r = relay_invite-IsQuiet p req.body r (find p req.call_id)

module _ (parse_credentials : Text → Option Credentials) (digest : Question → Option Text) where
  pub authorized-IsQuiet :
      (p : Pbx) (method : Text) (u : User) (header : Option Text) (code now : ℕ)
      → IsQuiet p ((authorized parse_credentials digest p method u header code now).0)
  unfolding authorized
  authorized-IsQuiet p method u header code now =
      if_both (λ (r : Pbx × Bool). IsQuiet p (r.0))
        (accepts parse_credentials digest method u header) (IsQuiet-refl p)
        (record { legs = refl; orphans = refl; next = refl })

  invite_from-outcome :
      (p : Pbx) (req : Request) (caller : User) (run : Serving) (now : ℕ)
      → Free (get p.legs) (get p.orphans) req.call_id
      → Free (get p.legs) (get p.orphans) (new_id run.end)
      → InviteOutcome p req.call_id
          (new_id run.end)
          (invite_from parse_credentials digest p req caller run now)
  unfolding invite_from
  invite_from-outcome p req caller run now fa fb =
      let r =
        authorized parse_credentials digest p req.method caller req.proxy_authorization 407 now in
      let w = authorized-IsQuiet p req.method caller req.proxy_authorization 407 now in
      let same : (id : Text)
          → Free (get p.legs) (get p.orphans) id
          → Free (get (r.0).legs) (get (r.0).orphans) id =
        λ id f. (
          ap (λ (t : Table Bridge). get t id) w.legs ∙ f.0,
          ap (λ (t : Table Leg). get t id) w.orphans ∙ f.1,
        ) in
      if_both (InviteOutcome p req.call_id (new_id run.end)) p.auth_invite
        (if_both (InviteOutcome p req.call_id (new_id run.end)) (r.1)
          (quiet-outcome p (r.0) (route_invite (r.0) req caller run) req.call_id (new_id run.end) w
            (route_invite-outcome (r.0) req caller run (same req.call_id fa)
              (same (new_id run.end) fb)))
          (unmoved p (r.0) req.call_id (new_id run.end) w))
        (route_invite-outcome p req caller run fa fb)

  invite_caller-outcome :
      (p : Pbx) (req : Request) (run : Serving) (now : ℕ) (u : Option User)
      → Free (get p.legs) (get p.orphans) req.call_id
      → Free (get p.legs) (get p.orphans) (new_id run.end)
      → InviteOutcome p req.call_id
          (new_id run.end)
          (invite_caller parse_credentials digest p req run now u)
  unfolding invite_caller
  invite_caller-outcome p req run now none fa fb =
      answered_with p req.call_id (new_id run.end) (respond 403 (codes "Forbidden") [])
  invite_caller-outcome p req run now (some u) fa fb = invite_from-outcome p req u run now fa fb

  -- An INVITE that begins a call leaves all calls as they were, or it connects the caller's leg with a new
  -- one, under their two Call-IDs, which were not in use, and leaves every other call as it was.
  pub on_invite-outcome :
      (p : Pbx) (req : Request) (run : Serving) (reply : Reply) (now : ℕ)
      → req.to_tag ≡ false
      → Free (get p.legs) (get p.orphans) req.call_id
      → Free (get p.legs) (get p.orphans) (new_id run.end)
      → InviteOutcome p req.call_id
          (new_id run.end)
          (on_invite parse_credentials digest p req run reply now)
  unfolding on_invite
  on_invite-outcome p req run reply now first fa fb =
      let counted : Pbx = record p { invites = p.invites + 1 } in
      rw first (
        quiet-outcome p counted
          (invite_caller parse_credentials digest counted req run now (get p.users req.from_user))
          req.call_id (new_id run.end) (record { legs = refl; orphans = refl; next = refl })
          (invite_caller-outcome counted req run now (get p.users req.from_user) fa fb))
