-- ===== src/TestPbx/Calls.antt =====
-- testpbx/calls.go: dial, onInvite, onReInvite, onAck and onBye. What the network answers is an
-- argument: sipgo's dialogs are not of this repository.
use xk6_sip.Common.{ℕ, suc, ◌+◌, Bool, ◌||◌, Option, none, some, List, [], ◌∷◌, if◌then◌else◌, ◌==◌}
use xk6_sip.Common.Text.{Text, codes}
use xk6_sip.Common.Table.{get}
use xk6_sip.TestPbx.{
  User, Leg, LegKind, uas_leg, uac_leg, Pbx, Request, respond, invite, bye, read_bye, read_ack,
  close_dialog, send, set_sdp, sdp, leg_do, leg_ack, other, link, Found, in_bridge, orphan, unknown,
  find, unlink, caller_id, contact_of, lookup,
}
use xk6_sip.TestPbx.Registrar.{Credentials, Question, authorized}

-- What comes of an INVITE that the PBX sends: an error of the dialog library, a final response that
-- refuses it, or a dialog with its Call-ID, its Contact if any and the body of the 200,
-- and whether the ACK was sent.
pub data InviteEnd : Type 0 where
  broken : InviteEnd
  refused : ℕ → Text → InviteEnd
  answered : Text → Option Text → Text → Bool → InviteEnd

-- What `do` comes to: an error, or the final response, with what IsSuccess says of it.
pub data Reply : Type 0 where
  failed : Reply
  response : ℕ → Bool → Text → Text → Reply

pub data Dialled : Type 0 where
  no_leg : Dialled
  rejected : ℕ → Text → Dialled  -- an `ErrDialogResponse`
  leg : Leg → Dialled

abbrev pub is_ringing : ℕ → Bool
is_ringing status = status == 180 || status == 183

-- `onRinging` of onInvite, for each provisional response.
unfoldable pub relay_ringing : Pbx → List (ℕ × Text) → Pbx
relay_ringing p [] = p
relay_ringing p ((status, reason) ∷ rs) =
    relay_ringing (if is_ringing status then send p (respond status reason []) else p) rs

abbrev pub or_else {ℓ} : {A : Type ℓ} → Option A → A → A
or_else none a = a
or_else (some a) b = a

unfoldable pub uac_leg_of : Pbx → User → Text → Text → Option Text → Leg
uac_leg_of p u recipient call_id contact = record {
  handle = p.next;
  kind = uac_leg;
  call_id = call_id;
  target = or_else contact recipient;
  owner = u;
}

unfoldable pub dialled : Pbx → User → Text → InviteEnd → Pbx × Dialled
unfolding uac_leg_of leg_ack set_sdp
dialled p u recipient broken = (p, no_leg)
dialled p u recipient (refused status reason) = (p, rejected status reason)
dialled p u recipient (answered call_id contact body acked) =
    let l = uac_leg_of p u recipient call_id contact in
    let q = leg_ack p l in
    if acked then (set_sdp (record q { next = suc q.next }) l body, leg l) else (q, no_leg)

unfoldable pub call_contact :
    Pbx → User → User → Text → List (ℕ × Text) → InviteEnd → Option Text → Pbx × Dialled
unfolding caller_id relay_ringing dialled
call_contact p u from offer relayed end none = (p, rejected 480 (codes "Temporarily Unavailable"))
call_contact p u from offer relayed end (some target) =
    dialled (relay_ringing (send p (invite target (caller_id from) (caller_id u) offer)) relayed) u
      target end

-- `relayed` are the provisional responses that `onRinging` passes on, none where it is not set.
unfoldable pub dial : Pbx → User → User → Text → List (ℕ × Text) → InviteEnd → Pbx × Dialled
unfolding contact_of call_contact
dial p u from offer relayed end = call_contact p u from offer relayed end (contact_of p u)

-- What the libraries and the network do while an INVITE is served: the Contact that ReadInvite found,
-- none where it refused the INVITE; the responses of the called; whether the caller
-- cancelled, and whether the answer could be written.
pub record Serving : Type 0 where
  pub read : Option Text
  pub provisional : List (ℕ × Text)
  pub end : InviteEnd
  pub cancelled : Bool
  pub written : Bool

unfoldable pub uas_leg_of : Pbx → Request → User → Text → Leg
uas_leg_of p req caller contact = record {
  handle = p.next;
  kind = uas_leg;
  call_id = req.call_id;
  target = contact;
  owner = caller;
}

unfoldable pub connect : Pbx → Leg → Leg → Bool → Pbx
unfolding link sdp unlink
connect p a b written =
    let q =
      link (record p { answered = p.answered + 1; next = suc p.next })
        (record { number = p.next; x = a; y = b }) in
    if written
    then send q (respond 200 (codes "OK") (sdp q b))
    else send (unlink q (a ∷ b ∷ [])) (bye b)

unfoldable pub after_dial : Leg → Serving → Pbx × Dialled → Pbx
unfolding connect
after_dial a run (p, no_leg) =
    if run.cancelled then p else send p (respond 408 (codes "Request Timeout") [])
after_dial a run (p, rejected status reason) = send p (respond status reason [])
after_dial a run (p, leg b) = connect p a b run.written

unfoldable pub invite_read : Pbx → Request → User → User → Serving → Text → Pbx
unfolding uas_leg_of set_sdp dial after_dial
invite_read p req caller callee run contact =
    let a = uas_leg_of p req caller contact in
    let tried = send (record p { next = suc p.next }) (respond 100 (codes "Trying") []) in
    send
      (after_dial a run
        (dial (set_sdp tried a req.body) callee caller req.body run.provisional run.end))
      close_dialog

unfoldable pub read_then : Pbx → Request → User → User → Serving → Option Text → Pbx
unfolding invite_read
read_then p req caller callee run none = send p (respond 400 (codes "Bad Request") [])
read_then p req caller callee run (some contact) = invite_read p req caller callee run contact

unfoldable pub route_to : Pbx → Request → User → Serving → Option User → Pbx
unfolding read_then
route_to p req caller run none = send p (respond 404 (codes "Not Found") [])
route_to p req caller run (some callee) = read_then p req caller callee run run.read

unfoldable pub route_invite : Pbx → Request → User → Serving → Pbx
unfolding lookup route_to
route_invite p req caller run = route_to p req caller run (lookup p req.recipient)

unfoldable pub success_sdp : Pbx → Leg → Bool → Text → Pbx
unfolding leg_ack set_sdp
success_sdp p o ok body = if ok then set_sdp (leg_ack p o) o body else p

unfoldable pub relay_reply : Pbx → Leg → Reply → Pbx
unfolding success_sdp
relay_reply p o failed = send p (respond 500 (codes "Server Internal Error") [])
relay_reply p o (response status ok reason body) =
    send (success_sdp p o ok body) (respond status reason body)

abbrev pub no_call : Pbx → Pbx
no_call p = send p (respond 481 (codes "Call/Transaction Does Not Exist") [])

unfoldable pub relay_invite : Pbx → Text → Reply → Found → Pbx
unfolding set_sdp other leg_do relay_reply
relay_invite p body reply (in_bridge b l) =
    let o = other b l in relay_reply (leg_do (set_sdp p l body) o (codes "INVITE") body []) o reply
relay_invite p body reply (orphan l) = no_call p
relay_invite p body reply unknown = no_call p

unfoldable pub on_re_invite : Pbx → Request → Reply → Pbx
unfolding find relay_invite
on_re_invite p req reply = relay_invite p req.body reply (find p req.call_id)

module _ (parse_credentials : Text → Option Credentials) (digest : Question → Option Text) where
  unfoldable pub invite_from : Pbx → Request → User → Serving → ℕ → Pbx
  unfolding route_invite authorized
  invite_from p req caller run now =
      if p.auth_invite
      then (let r =
            authorized parse_credentials digest p req.method caller req.proxy_authorization 407
              now in
          if r.1 then route_invite (r.0) req caller run else r.0)
      else route_invite p req caller run

  unfoldable pub invite_caller : Pbx → Request → Serving → ℕ → Option User → Pbx
  unfolding invite_from
  invite_caller p req run now none = send p (respond 403 (codes "Forbidden") [])
  invite_caller p req run now (some caller) = invite_from p req caller run now

  -- `reply` is that of the other leg, for an INVITE inside of a dialog.
  unfoldable pub on_invite : Pbx → Request → Serving → Reply → ℕ → Pbx
  unfolding on_re_invite invite_caller
  on_invite p req run reply now =
      if req.to_tag
      then on_re_invite p req reply
      else invite_caller (record p { invites = p.invites + 1 }) req run now
          (get p.users req.from_user)

abbrev pub ack_leg : Pbx → Leg → LegKind → Pbx
ack_leg p l uas_leg = send p (read_ack l)
ack_leg p l uac_leg = p

abbrev pub found_ack : Pbx → Found → Pbx
found_ack p (in_bridge b l) = ack_leg p l l.kind
found_ack p (orphan l) = ack_leg p l l.kind
found_ack p unknown = p

unfoldable pub on_ack : Pbx → Request → Pbx
unfolding find
on_ack p req = found_ack p (find p req.call_id)

unfoldable pub bye_found : Pbx → Found → Pbx
unfolding unlink other
bye_found p unknown = no_call p
bye_found p (orphan l) = unlink (send p (read_bye l)) (l ∷ [])
bye_found p (in_bridge b l) =
    let o = other b l in send (unlink (send p (read_bye l)) (l ∷ o ∷ [])) (bye o)

unfoldable pub on_bye : Pbx → Request → Pbx
unfolding find bye_found
on_bye p req = bye_found p (find p req.call_id)
