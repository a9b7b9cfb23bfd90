-- ===== src/Engine/Transfer/Referring.antt =====
-- engine/transfer.go: the two ends of a REFER. The transferor sends it and takes in the NOTIFYs on its
-- progress; the transferee places the call it was asked for and reports what becomes of it.
-- A response is an Option, `none` for an error of the request. The call that `Device.Call` places is
-- given as it stands when the wait for its answer is over, `none` where no call could be placed.
pub mod Followed
use xk6_sip.Common.{
  ℕ, zero, suc, ◌+◌, ◌-◌, ◌*◌, ◌/◌, ◌%◌, Bool, true, false, not, ◌&&◌, ◌||◌, Option, none, some,
  List, [], ◌∷◌, ◌++◌, if◌then◌else◌, ltb, leb, ◌==◌,
}
use xk6_sip.Common.Int.{ℤ, pos, leb_ℤ}
use xk6_sip.Common.Text.{
  Text, codes, cut, decimal, fields, atoi_value, has_prefix, is_empty, to_lower, trim_space,
}
use xk6_sip.Engine.Call.{Call, is_connected, expect_connected}
use xk6_sip.Engine.Device.{Calls, find_call}
use xk6_sip.Engine.Transfer.{
  Progress, progress_update, is_transferred, ReferTo, refer_to, missing_header, empty_target,
  bad_escape, parse_refer_to, attended_refer_to, replaces_value,
}

-- What both ends use of a NOTIFY: two of its headers and its body.
pub record Notify : Type 0 where
  pub event : Option Text
  pub subscription_state : Option Text
  pub body : Text

unfoldable pub second_field : List Text → ℤ
second_field [] = pos 0
second_field (f ∷ []) = pos 0
second_field (f ∷ g ∷ gs) = atoi_value g

unfoldable pub sipfrag_status : Text → ℤ
unfolding second_field
sipfrag_status body = second_field (fields ((cut b'\n' body).0))

-- `strings.HasPrefix(strings.ToLower(strings.TrimSpace(h.Value())), prefix)` of a header that is there.
abbrev pub header_begins : Option Text → Text → Bool
header_begins none prefix = false
header_begins (some h) prefix = has_prefix (to_lower (trim_space h)) prefix

unfoldable pub notify_progress : Option Progress → ℤ → Bool → Option Progress
notify_progress none status terminated = none
notify_progress (some p) status terminated =
    some (progress_update p status (leb_ℤ (pos 200) status || terminated))

-- `onNotify` of a call that was found, whose transfer stands at the first argument. The 200 is sent
-- whatever the NOTIFY is.
unfoldable pub on_notify : Option Progress → Notify → Option Progress
unfolding notify_progress
on_notify xfer n =
    if header_begins n.event (codes "refer")
    then notify_progress xfer (sipfrag_status n.body)
        (header_begins n.subscription_state (codes "terminated"))
    else xfer

unfoldable pub on_notifies : Option Progress → List Notify → Option Progress
on_notifies xfer [] = xfer
on_notifies xfer (n ∷ ns) = on_notifies (on_notify xfer n) ns

-- The transferor: its call, the transfer it has started, and the Refer-To of each REFER, newest first.
pub record Transferor : Type 0 where
  pub call : Call
  pub xfer : Option Progress
  pub asked : List Text

abbrev pub new_progress : Progress
new_progress = record { status = pos 0; done_closes = 0 }

-- `err != nil || !res.IsSuccess()`, turned around.
abbrev pub is_accepted : Option ℕ → Bool
is_accepted none = false
is_accepted (some status) = leb 200 status && ltb status 300

unfoldable pub refer : Transferor → Text → Option ℕ → Transferor × Bool
refer t to res =
    let sent : Transferor = record t { xfer = some new_progress; asked = to ∷ t.asked } in
    if not (is_connected t.call)
    then (t, false)
    else if is_accepted res
    then (sent, true)
    else (record sent { xfer = some (progress_update new_progress (pos 0) true) }, false)

-- `Transfer` to a target that `targetURI` has made a URI, if it could.
unfoldable pub transfer : Transferor → Option Text → Option ℕ → Transferor × Bool
transfer t none res = (t, false)
transfer t (some uri) res = refer t (b'<' ∷ (uri ++ b'>' ∷ [])) res

-- The consultation call: its Call-ID, the two tags of its dialog and its other party.
pub record Consultation : Type 0 where
  pub call : Call
  pub call_id : Text
  pub local : Text
  pub remote : Text
  pub party : Text

unfoldable pub attended_transfer : Transferor → Option Consultation → Option ℕ → Transferor × Bool
unfolding refer
attended_transfer t none res = (t, false)
attended_transfer t (some k) res =
    if not (is_connected k.call)
    then (t, false)
    else refer t (attended_refer_to k.party (replaces_value k.call_id k.remote k.local)) res

-- `ExpectTransferred` when it returns before its timeout and when the timeout comes first.
unfoldable pub expect_transferred : Option Progress → Bool
unfolding is_transferred
expect_transferred none = false
expect_transferred (some p) = is_transferred p

-- What the transferee makes of a REFER: the response, and what to follow.
pub data Referred : Type 0 where
  no_dialog bad_refer_to : Referred  -- 481 and 400
  follows : ℕ → Text → List (Text × Text) → Referred  -- 202: the call, the target, the headers

abbrev pub response : Referred → ℕ × Text
response no_dialog = (481, codes "Call/Transaction Does Not Exist")
response bad_refer_to = (400, codes "Bad Refer-To")
response (follows c target headers) = (202, codes "Accepted")

abbrev pub referred_by : Option Text → List (Text × Text)
referred_by none = []
referred_by (some h) = (codes "Referred-By", h) ∷ []

unfoldable pub refer_headers : Option Text → Text → List (Text × Text)
refer_headers by replaces =
    referred_by by ++ (if is_empty replaces then [] else (codes "Replaces", replaces) ∷ [])

unfoldable pub referred_to : ℕ → Option Text → ReferTo → Referred
unfolding refer_headers
referred_to c by missing_header = bad_refer_to
referred_to c by empty_target = bad_refer_to
referred_to c by bad_escape = bad_refer_to
referred_to c by (refer_to target replaces) = follows c target (refer_headers by replaces)

unfoldable pub refer_in : Option ℕ → Option Text → Option Text → Referred
unfolding referred_to
refer_in none to by = no_dialog
refer_in (some c) to by = referred_to c by (parse_refer_to to)

-- `onRefer`: the calls, the Call-ID of the REFER, its Refer-To and its Referred-By.
unfoldable pub on_refer : Calls → Text → Option Text → Option Text → Referred
unfolding refer_in
on_refer cs call_id to by = refer_in (find_call cs call_id) to by

unfoldable pub notify_refer : Text → Bool → Notify
notify_refer frag final = record {
  event = some (codes "refer");
  subscription_state =
      some (if final then codes "terminated;reason=noresource" else codes "active;expires=60");
  body = frag ++ codes "\r\n";
}

-- The channel `referred`, which holds one call.
abbrev pub push_referred : Option Call → Call → Option Call
push_referred none nc = some nc
push_referred (some c) nc = some c

-- `fmt.Sprintf("SIP/2.0 %d Transfer failed", code)`
unfoldable pub failed_frag : ℕ → Text
failed_frag status =
    let code = if ltb status 300 then 487 else status in
    codes "SIP/2.0 " ++ (decimal code ++ codes " Transfer failed")

unfoldable pub outcome_frag : Call → Text
unfolding failed_frag
outcome_frag nc = if expect_connected nc then codes "SIP/2.0 200 OK" else failed_frag nc.status

unfoldable pub follow_placed : Option Call → Option Call → Option Call × List Notify
unfolding notify_refer outcome_frag
follow_placed referred none =
    (referred, notify_refer (codes "SIP/2.0 503 Service Unavailable") true ∷ [])
follow_placed referred (some nc) =
    (push_referred referred nc, notify_refer (outcome_frag nc) true ∷ [])

-- `followRefer`: what it leaves in `referred`, and the NOTIFYs it sends, in order.
unfoldable pub follow_refer : Option Call → Option Call → Option Call × List Notify
unfolding follow_placed notify_refer
follow_refer referred placed =
    let done = follow_placed referred placed in
    (done.0, notify_refer (codes "SIP/2.0 100 Trying") false ∷ done.1)
