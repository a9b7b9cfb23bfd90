-- ===== src/Engine/Handlers.antt =====
-- engine/call.go and engine/device.go: the two handlers that bring a call to its end or to an answer.
-- `runOutgoing` follows the INVITE loop; `answer` and the wait of `onInvite` follow the script.
-- Whether a message could be written is an argument, and so is the text of an error.
pub mod Settled
use xk6_sip.Common.{ℕ, Bool, true, false, not, ◌&&◌, Option, none, some, if◌then◌else◌, ltb, ◌==◌}
use xk6_sip.Common.Text.{Text, codes}
use xk6_sip.Engine.Call.{
  Call, EndedBy, by_local, by_remote, by_timeout, by_error, Decision, mark_connected, finish,
  cancelled_by, bye, is_some,
}
use xk6_sip.Engine.Uac.{Response, InviteResult, is_success}

-- `CallSetupEvent`
pub record Setup : Type 0 where
  pub success : Bool
  pub cancelled : Bool
  pub status : ℕ
  pub has_pdd : Bool

pub record Outcome : Type 0 where
  pub call : Call
  pub setup : Setup
  pub starts : Bool  -- the audio and the session timer are started

-- What the writes of a handler come to, when it returns, and the text of its error or response.
pub record Network : Type 0 where
  pub ack : Bool
  pub bye : Bool
  pub now : ℕ
  pub text : Text

abbrev status_of : Option Response → ℕ
status_of none = 0
status_of (some res) = res.status

unfoldable pub set_up : Call → InviteResult → Bool → Setup
set_up c r success = record {
  success = success;
  cancelled = r.cancelled;
  status = status_of r.res;
  has_pdd = is_some c.t_ring;
}

-- A 2xx: the ACK, and a BYE if the answer has crossed a CANCEL.
unfoldable pub answered : Call → InviteResult → Network → Outcome
unfolding set_up
answered c r net =
    if not net.ack
    then record {
      call = finish c by_error 0 net.text net.now;
      setup = set_up c r false;
      starts = false;
    }
    else if r.cancelled
    then record {
      call = (bye (mark_connected c net.now) net.bye net.now).0;
      setup = set_up c r false;
      starts = false;
    }
    else record { call = mark_connected c net.now; setup = set_up c r true; starts = true }

unfoldable pub failed : Call → InviteResult → Option Response → Network → Outcome
unfolding set_up
failed c r none net = record {
  call = finish c by_error 0 net.text net.now;
  setup = set_up c r false;
  starts = false;
}
failed c r (some res) net = record {
  call = finish c by_remote res.status net.text net.now;
  setup = set_up c r false;
  starts = false;
}

unfoldable pub not_answered : Call → InviteResult → Network → Outcome
unfolding failed set_up
not_answered c r net =
    if r.cancelled
    then record {
      call = finish c (cancelled_by c) 487 (codes "cancelled") net.now;
      setup = set_up c r false;
      starts = false;
    }
    else failed c r r.res net

abbrev pub is_answered : Option Response → Bool
is_answered none = false
is_answered (some res) = is_success res

unfoldable pub run_outgoing : Call → InviteResult → Network → Outcome
run_outgoing c r net = if is_answered r.res then answered c r net else not_answered c r net

-- `answer`: the 200 OK, and whether it could be written.
unfoldable pub answer_call : Call → Bool → Text → ℕ → Call
answer_call c ok text now = if ok then mark_connected c now else finish c by_error 0 text now

-- What ends the wait of `onInvite`.
pub data Wake : Type 0 where
  decided : Decision → Wake
  cancelled ring_timeout destroyed : Wake

unfoldable pub on_decision : Call → Decision → Bool → Text → ℕ → Call
on_decision c dec ok text now =
    if dec.code == 200 then answer_call c ok text now else finish c by_local dec.code dec.reason now

unfoldable pub on_wake : Call → Wake → Bool → Text → ℕ → Call
unfolding on_decision
on_wake c (decided dec) ok text now = on_decision c dec ok text now
on_wake c cancelled ok text now = finish c by_remote 487 (codes "CANCEL") now
on_wake c ring_timeout ok text now = finish c by_timeout 480 (codes "ring timeout") now
on_wake c destroyed ok text now = finish c by_local 480 (codes "device destroyed") now

-- The status of the final response that the wait ends with.
abbrev pub final_status : Wake → ℕ
final_status (decided dec) = dec.code
final_status cancelled = 487
final_status ring_timeout = 480
final_status destroyed = 480
