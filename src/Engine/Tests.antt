-- ===== src/Engine/Tests.antt =====
-- Concrete runs of engine/, and what the theorems say of them.
mod Devices
mod Transfers
mod Holding
mod Arrivals
use xk6_sip.Common.{
  ℕ, ◌≤◌, ◌⊎◌, ◌&&◌, if◌then◌else◌, inl, inr, ◌*◌, ◌≡◌, refl, true, false, none, some, List, [],
  ◌∷◌, arith,
}
use xk6_sip.Common.Text.{codes, text_eq, has_prefix, cut, to_lower, trim_space}
use xk6_sip.Engine.Call.{
  Call, outgoing, incoming, connected, ringing, is_connected, ended, by_remote, new_call, is_ended,
  hangup, hangup_wakes,
}
use xk6_sip.Engine.Call.Invariant
use xk6_sip.Engine.Call.Invariant.{
  rings, connects, finishes, accepts, rejects, cancels, hangs_up, wakes, run-new_call-IsValid,
}
use xk6_sip.Engine.Call.Outcome.{Settled, Forward, run-Settled, run-Forward, hangup-ends}
use xk6_sip.Engine.Uac.{
  Invite, Response, Event, responds, transaction_ends, cancel_asked, no_answer, Authorise,
}
use xk6_sip.Engine.Uac
use xk6_sip.Engine.Uac.Cancel
use xk6_sip.Common.Int.{pos}
use xk6_sip.Engine.Session.{
  SessionExpires, Session, Decided, Header, second, session_value, parse_session_expires,
  start_session, from_answer, for_answer, decided,
}
use xk6_sip.Engine.Session.Agreement.{
  value_of, Agree, parse_session_expires-session_value, for_answer-Agree,
}
use xk6_sip.Engine.Uac.{InviteResult}
use xk6_sip.Engine.Handlers
use xk6_sip.Engine.Handlers.{Network, Wake, on_wake, final_status}
use xk6_sip.Engine.Handlers.Settled.{on_wake-settles}
use xk6_sip.Engine.Device.{
  Incoming, scan, numbers_match, Calls, find_call, add_call, remove_call, is_call, Registration,
  Reply, Contact, register,
}
use xk6_sip.Engine.Device.Claiming.{Claim, scan-Claim}
use xk6_sip.Engine.Device.Table.{find_call-remove_call}
use xk6_sip.Engine.Device.Registering.{IsDone}
use xk6_sip.Engine.Saving.{Saving, use_media, on_failure, auto_save, mark_failed}
use xk6_sip.Engine.Saving.Once
use xk6_sip.Engine.Saving.Once.{fails, saves, IsOnce, mark_failed-auto_save}
use xk6_sip.Engine.Retransmission.{
  Message, Socket, message_key, check_retransmission, retransmit_memory,
}
use xk6_sip.Engine.Retransmission.Memory.{write_all}

-- An answer that crosses a hangup: the call ends once.
abbrev crossing : List Invariant.Operation
crossing =
    rings 10
    ∷ hangs_up true 20
    ∷ connects 21
    ∷ wakes true 22
    ∷ finishes by_remote 486 (codes "Busy") 23
    ∷ hangs_up true 24
    ∷ []

run-new_call-IsValid_example : Invariant.IsValid (Invariant.run (new_call outgoing 5) crossing)
run-new_call-IsValid_example = run-new_call-IsValid outgoing 5 crossing

abbrev over : Call
over = record {
  dir = outgoing;
  state = ended;
  status = 486;
  reason = codes "Busy";
  ended_by = some by_remote;
  bye_by = none;
  bye_reason = [];
  t_start = 5;
  t_ring = none;
  t_answer = none;
  t_end = some 20;
  decision = none;
  cancel_closes = 0;
  ringing_closes = 1;
  connected_closes = 0;
  done_closes = 1;
  events = [];
}

run-Settled_example : Settled over (Invariant.run over crossing)
run-Settled_example = run-Settled over crossing refl

abbrev talking : Call
talking = record over {
  state = connected;
  status = 200;
  t_answer = some 9;
  t_end = none;
  connected_closes = 1;
  done_closes = 0;
}

talking-IsValid : Invariant.IsValid talking
talking-IsValid = record {
  ringing_once = refl;
  connected_once = refl;
  done_once = refl;
  cancel_once = ground arith;
  not_yet = λ h. ground arith;
  talking = λ h. refl;
  answered = λ h. refl;
  rang = λ h. refl;
  ended_at = refl;
  one_event = refl;
}

abbrev invite : Invite
invite = record {
  recipient = codes "sip:200@pbx";
  cseq = 4294967295;
  session_expires = none;
  min_se = none;
  authorization = none;
  proxy_authorization = none;
}

abbrev reply : ℕ → Response
reply status = record {
  status = status;
  min_se = some (codes " 90;x");
  www_authenticate = some (codes "Digest");
  proxy_authenticate = none;
  contact = none;
  record_route = [];
  require = codes "timer, 100REL" ∷ [];
  rseq = some (codes "7");
}

abbrev echo : Authorise
echo challenge = some challenge

-- A challenge, a cancel before anything rang, a reliable 183 twice, and the 487.
abbrev events : List Event
events =
    responds (reply 401) true
    ∷ cancel_asked
    ∷ responds (reply 183) true
    ∷ responds (reply 183) true
    ∷ responds (reply 487) true
    ∷ []

parse_session_expires-session_value_example :
    (parse_session_expires (some (session_value (pos (1800 * second)) (codes "uas"))) none
      ≡ some (record { expires = pos (1800 * second); refresher = codes "uas" }))
    × (parse_session_expires none (some (session_value (pos (1800 * second)) (codes "uas")))
        ≡ some (record { expires = pos (1800 * second); refresher = codes "uas" }))
parse_session_expires-session_value_example =
    parse_session_expires-session_value 1800 (codes "uas") (ground arith) (ground arith) (inr refl)

-- An INVITE that asks for 90 s and names no refresher.
abbrev asked : SessionExpires
asked = record { expires = pos (90 * second); refresher = [] }

abbrev agreed : Decided
agreed = decided true (pos (90 * second)) []

agreed_expires : agreed.expires ≡ pos (90 * second)
unfolding decided
agreed_expires = refl

agreed_decided : for_answer (pos 0) true (some asked) ≡ some agreed
unfolding for_answer
agreed_decided = refl

for_answer-Agree_example :
    (a : Session) × (b : Session) × (start_session false none agreed.expires agreed.we_refresh
      ≡ some a)
    × (from_answer false none (parse_session_expires (value_of agreed.headers) none) ≡ some b)
    × Agree a b
for_answer-Agree_example =
    for_answer-Agree (pos 0) true (some asked) agreed 90 (inl refl) agreed_decided agreed_expires
      (ground arith) (ground arith)

abbrev dialled : Call
dialled = record over { state = ringing; status = 0; t_end = none; done_closes = 0 }

-- The answer has crossed a CANCEL.
abbrev late_answer : InviteResult
late_answer = record { res = some (reply 200); err = none; cancelled = true }

abbrev network : Network
network = record { ack = true; bye = false; now = 40; text = codes "OK" }

abbrev ringing_in : Call
ringing_in = record dialled { dir = incoming }

abbrev declines : Wake
declines = Handlers.decided (record { code = 603; reason = codes "Decline" })
