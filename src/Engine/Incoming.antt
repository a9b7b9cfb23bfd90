-- ===== src/Engine/Incoming.antt =====
-- engine/device.go: onInvite as a whole, with the media that engine/callmedia.go sets up. A new call is
-- known by its identity `id`; the handler of one INVITE runs to its end.
pub mod Handled
use xk6_sip.Common.{
  ℕ, suc, ◌+◌, Bool, true, false, not, ◌&&◌, ◌||◌, Option, none, some, List, [], ◌∷◌, ◌++◌,
  if◌then◌else◌, ◌==◌,
}
use xk6_sip.Common.Int.{ℤ}
use xk6_sip.Common.Text.{Text, codes, is_empty}
use xk6_sip.Media.Sdp.{
  send_recv, Remote, Resolver, Parsed, parsed, bad_syntax, no_audio, bad_address, parse_sdp,
}
use xk6_sip.Media.Stream.State.{Stream}
use xk6_sip.Media.Stream.Negotiation.{offer, answer}
use xk6_sip.Engine.Call.{
  Call, incoming, by_local, by_error, new_call, mark_ringing, finish, accept, is_ended,
  is_connected,
}
use xk6_sip.Engine.Session.{SessionExpires, Decided, for_answer}
use xk6_sip.Engine.Device.{Calls, Incoming, Inbox, deliver, add_call, remove_call}
use xk6_sip.Engine.Transfer.{Tags, replaced_call}
use xk6_sip.Engine.Handlers.{Wake, on_wake}

-- What the handler reads of an INVITE. `asserted` is the user of P-Asserted-Identity, if it can be
-- parsed.
pub record Invite : Type 0 where
  pub call_id : Text
  pub asserted : Option Text
  pub from_user : Text
  pub replaces : Option Text
  pub timer : Option SessionExpires
  pub timer_supported : Bool
  pub body : Text

-- The device, and what it is configured for.
pub record Device : Type 0 where
  pub calls : Calls
  pub inbox : Inbox
  pub tags : ℕ → Tags
  pub session_expires : ℤ

-- `stream` is what `newStream` gives, none for an error; `media` is not asked for where it is disabled.
pub record Net : Type 0 where
  pub read : Bool
  pub media : Bool
  pub stream : Option Stream
  pub rang : Bool
  pub wake : Wake
  pub written : Bool
  pub start : ℕ
  pub now : ℕ
  pub text : Text

unfoldable pub from_number : Text → Text → Text
from_number user from = if is_empty user then from else user

unfoldable pub caller_number : Invite → Text
unfolding from_number
caller_number req = elim (req.asserted) [
  | none ↦ req.from_user
  | some u ↦ from_number u req.from_user
]

-- The stream of a call, the answer to the INVITE, and whether the ACK brings the answer to our
-- offer.
pub record Setup : Type 0 where
  pub stream : Stream
  pub answer_sdp : Text
  pub ack_sdp : Bool

abbrev pub answer_setup : Option (Stream × Text) → Option Setup
answer_setup none = none
answer_setup (some r) = some (record { stream = r.0; answer_sdp = r.1; ack_sdp = false })

unfoldable pub answer_offer : Resolver → Stream → Parsed Remote → Option Setup
unfolding answer
answer_offer r s (parsed m) = answer_setup (answer r s m)
answer_offer r s bad_syntax = none
answer_offer r s no_audio = none
answer_offer r s bad_address = none

unfoldable pub setup_stream : Resolver → Text → Option Stream → Option Setup
unfolding answer_offer offer
setup_stream r body none = none
setup_stream r body (some s) =
    let o = offer s send_recv in
    if is_empty body
    then some (record { stream = o.0; answer_sdp = o.1; ack_sdp = true })
    else answer_offer r s (parse_sdp r body)

pub data Media : Type 0 where
  no_media refused : Media
  set_up : Setup → Media

abbrev pub media_of : Option Setup → Media
media_of none = refused
media_of (some s) = set_up s

unfoldable pub incoming_media : Resolver → Text → Net → Media
unfolding setup_stream
incoming_media r body net =
    if net.media then media_of (setup_stream r body net.stream) else no_media

-- How far the handler came.
pub data Stage : Type 0 where
  unread no_dialog bad_media not_rung : Stage
  waited : Wake → Stage

-- `replaced` is the call that is hung up when the new one is connected.
pub record Outcome : Type 0 where
  pub device : Device
  pub stage : Stage
  pub call : Option Call
  pub responses : List ℕ
  pub media : Media
  pub session : Option Decided
  pub replaced : Option ℕ

abbrev pub no_call_by : Option Text → Option ℕ → Bool
no_call_by none old = false
no_call_by (some value) none = true
no_call_by (some value) (some c) = false

abbrev pub found_old : Option Text → Option ℕ → Option ℕ
found_old none old = none
found_old (some value) old = old

-- `replacedCall`: there is a header, and what it names.
unfoldable pub old_call : Device → Option Text → Option ℕ
unfolding replaced_call
old_call d none = none
old_call d (some value) = replaced_call d.calls d.tags value

-- `removeCall`, which `finish` ends with.
unfoldable pub after_finish : Device → Text → ℕ → Call → Device
unfolding remove_call
after_finish d call_id id c =
    if is_ended c then record d { calls = remove_call d.calls call_id id } else d

unfoldable pub refuse : Device → Invite → ℕ → Stage → Call → ℕ → Text → ℕ → Outcome
unfolding after_finish
refuse d req id stage c status reason now =
    let ended = finish c by_local status reason now in
    record {
      device = after_finish d req.call_id id ended;
      stage = stage;
      call = some ended;
      responses = status ∷ [];
      media = no_media;
      session = none;
      replaced = none;
    }

unfoldable pub wake_responses : Wake → Call → Bool → List ℕ
wake_responses (Wake.decided dec) c written =
    if dec.code == 200 && not written then [] else dec.code ∷ []
wake_responses Wake.cancelled c written = []
wake_responses Wake.ring_timeout c written = 480 ∷ []
wake_responses Wake.destroyed c written = 480 ∷ []

-- The call is in the inbox, and the handler waits for what becomes of it.
unfoldable pub wait_for :
    Device → Invite → ℕ → Call → Net → Media → Option Decided → Option ℕ → Outcome
unfolding on_wake after_finish deliver wake_responses caller_number
wait_for d req id c net media session old =
    let delivered : Device = record d {
      inbox =
          deliver d.inbox
            (record { id = id; remote = caller_number req; ended = false; t_start = net.start });
    } in
    let last = on_wake c net.wake net.written net.text net.now in
    record {
      device = after_finish delivered req.call_id id last;
      stage = waited net.wake;
      call = some last;
      responses = wake_responses net.wake last net.written;
      media = media;
      session = session;
      replaced = if is_connected last then old else none;
    }

unfoldable pub ring_failed : Device → Invite → ℕ → Call → Net → Media → Option Decided → Outcome
unfolding after_finish
ring_failed d req id c net media session =
    let ended = finish c by_error 0 net.text net.now in
    record {
      device = after_finish d req.call_id id ended;
      stage = not_rung;
      call = some ended;
      responses = [];
      media = media;
      session = session;
      replaced = none;
    }

-- The new call is in the table: it is accepted at once where it replaces another one, or else it rings.
unfoldable pub ring_or_accept :
    Device → Invite → ℕ → Call → Net → Media → Option Decided → Option ℕ → Outcome
unfolding wait_for ring_failed mark_ringing accept
ring_or_accept d req id c net media session (some old) =
    wait_for d req id (mark_ringing ((accept c).0) net.start) net media session (some old)
ring_or_accept d req id c net media session none =
    if net.rang
    then wait_for d req id (mark_ringing c net.start) net media session none
    else ring_failed d req id c net media session

unfoldable pub with_media :
    Device → Invite → ℕ → Call → Net → Option Decided → Option ℕ → Media → Outcome
unfolding refuse ring_or_accept add_call
with_media d req id c net session old refused = refuse d req id bad_media c 488 net.text net.now
with_media d req id c net session old no_media =
    ring_or_accept (record d { calls = add_call d.calls req.call_id id }) req id c net no_media
      session old
with_media d req id c net session old (set_up s) =
    ring_or_accept (record d { calls = add_call d.calls req.call_id id }) req id c net (set_up s)
      session old

unfoldable pub on_invite : Resolver → Device → Invite → ℕ → Net → Outcome
unfolding new_call for_answer old_call refuse incoming_media with_media
on_invite r d req id net =
    let c = new_call incoming net.start in
    let old = old_call d req.replaces in
    if not net.read
    then record {
      device = d;
      stage = unread;
      call = none;
      responses = 400 ∷ [];
      media = no_media;
      session = none;
      replaced = none;
    }
    else if no_call_by req.replaces old
    then refuse d req id no_dialog c 481 (codes "Replaces: no such dialog") net.now
    else with_media d req id c net (for_answer d.session_expires req.timer_supported req.timer) old
        (incoming_media r req.body net)
