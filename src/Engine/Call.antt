-- ===== src/Engine/Call.antt =====
-- engine/call.go: the state of a call and the operations that move it.
-- Each `close` of a channel is counted: closing one twice is a panic. A `time.Time` is an Option,
-- `none` for the zero time. `events` is what `finish` hands to other components, in order.
pub mod Invariant
pub mod Outcome
use xk6_sip.Common.{
  ℕ, ◌+◌, Bool, true, false, not, ◌&&◌, ◌||◌, Option, none, some, List, [], ◌∷◌, ◌++◌,
  if◌then◌else◌, ltb, leb, ◌==◌,
}
use xk6_sip.Common.Int.{ℤ, pos, ◌-ℤ◌}
use xk6_sip.Common.Text.{Text, codes}

pub data Side : Type 0 where
  outgoing incoming : Side

pub data State : Type 0 where
  calling ringing connected ended : State

abbrev pub is_outgoing : Side → Bool
is_outgoing outgoing = true
is_outgoing incoming = false

-- The constants' values, which the code compares.
abbrev pub rank : State → ℕ
rank calling = 0
rank ringing = 1
rank connected = 2
rank ended = 3

pub data EndedBy : Type 0 where
  by_local by_remote by_timeout by_error : EndedBy

pub record Decision : Type 0 where
  pub code : ℕ
  pub reason : Text

pub data Event : Type 0 where
  stop_session : Event
  remove_call : Event
  close_media : Bool → Event
  call_end : Side → ℤ → EndedBy → Event

pub record Call : Type 0 where
  pub dir : Side
  pub state : State
  pub status : ℕ
  pub reason : Text
  pub ended_by : Option EndedBy
  pub bye_by : Option EndedBy
  pub bye_reason : Text
  pub t_start : ℕ
  pub t_ring : Option ℕ
  pub t_answer : Option ℕ
  pub t_end : Option ℕ
  pub decision : Option Decision  -- the channel's buffer of one
  pub cancel_closes : ℕ
  pub ringing_closes : ℕ
  pub connected_closes : ℕ
  pub done_closes : ℕ
  pub events : List Event

unfoldable pub new_call : Side → ℕ → Call
new_call dir now = record {
  dir = dir;
  state = calling;
  status = 0;
  reason = [];
  ended_by = none;
  bye_by = none;
  bye_reason = [];
  t_start = now;
  t_ring = none;
  t_answer = none;
  t_end = none;
  decision = none;
  cancel_closes = 0;
  ringing_closes = 0;
  connected_closes = 0;
  done_closes = 0;
  events = [];
}

unfoldable pub mark_ringing : Call → ℕ → Call
mark_ringing c t =
    if leb 1 (rank c.state)
    then c
    else record c { state = ringing; t_ring = some t; ringing_closes = c.ringing_closes + 1 }

-- `if c.state < StateRinging { close(c.ringing) }`
unfoldable pub ringing_closed : Call → ℕ
ringing_closed c = if ltb (rank c.state) 1 then c.ringing_closes + 1 else c.ringing_closes

unfoldable pub mark_connected : Call → ℕ → Call
unfolding ringing_closed
mark_connected c t = if leb 2 (rank c.state) then c else record c {
  state = connected;
  status = 200;
  t_answer = some t;
  ringing_closes = ringing_closed c;
  connected_closes = c.connected_closes + 1;
}

abbrev pub is_ended : Call → Bool
is_ended c = rank c.state == 3

abbrev pub is_connected : Call → Bool
is_connected c = rank c.state == 2

-- `tEnd.Sub(tAnswer)`: meaningful when the call was answered.
unfoldable pub talk_time : ℕ → Option ℕ → ℤ
talk_time now none = pos now
talk_time now (some t) = pos now -ℤ pos t

-- What `finish` does behind the lock, before it wakes the waiters.
unfoldable pub finish_events : Call → EndedBy → ℕ → List Event
unfolding talk_time
finish_events c by now =
    stop_session
    ∷ remove_call
    ∷ close_media (is_connected c)
    ∷ (if is_connected c then call_end c.dir (talk_time now c.t_answer) by ∷ [] else [])

unfoldable pub finish : Call → EndedBy → ℕ → Text → ℕ → Call
unfolding ringing_closed finish_events
finish c by status reason now = if is_ended c then c else record c {
  state = ended;
  ended_by = some by;
  status = if not (status == 0) && not (is_connected c) then status else c.status;
  reason = reason;
  t_end = some now;
  ringing_closes = ringing_closed c;
  done_closes = c.done_closes + 1;
  events = c.events ++ finish_events c by now;
}

unfoldable pub push_decision : Call → Option Decision → Decision → Call × Bool
push_decision c (some d) dec = (c, false)
push_decision c none dec = (record c { decision = some dec }, true)

unfoldable pub decide : Call → Decision → Call × Bool
unfolding push_decision
decide c dec =
    if is_outgoing c.dir || leb 2 (rank c.state) then (c, false) else push_decision c c.decision dec

unfoldable pub accept : Call → Call × Bool
accept c = decide c (record { code = 200; reason = codes "OK" })

abbrev or_rejected : Text → Text
or_rejected [] = codes "Rejected"
or_rejected (x ∷ xs) = x ∷ xs

-- The final status and the reason that `Reject` sends.
unfoldable pub rejection : ℕ → Text → Decision
rejection code reason =
    if ltb code 300 || ltb 699 code
    then record { code = 603; reason = codes "Decline" }
    else record { code = code; reason = or_rejected reason }

unfoldable pub reject : Call → ℕ → Text → Call × Bool
unfolding rejection
reject c code reason = decide c (rejection code reason)

-- `cancelOnce.Do`
unfoldable pub request_cancel : Call → EndedBy → Call
request_cancel c by =
    if ltb 0 c.cancel_closes
    then c
    else record c { ended_by = some by; cancel_closes = c.cancel_closes + 1 }

abbrev get_or_else : Option EndedBy → EndedBy → EndedBy
get_or_else none d = d
get_or_else (some by) d = by

unfoldable pub cancelled_by : Call → EndedBy
cancelled_by c = get_or_else c.ended_by by_timeout

pub record Completion : Type 0 where
  pub ended_by : Option EndedBy
  pub status : ℕ
  pub reason : Text
  pub duration : ℤ

abbrev duration_of : Option ℕ → Option ℕ → ℤ
duration_of (some t) (some e) = pos e -ℤ pos t
duration_of (some t) none = pos 0 -ℤ pos t
duration_of none e = pos 0

unfoldable pub completion : Call → Option Completion
completion c =
    if is_ended c
    then some (record {
      ended_by = c.ended_by;
      status = c.status;
      reason = c.reason;
      duration = duration_of c.t_answer c.t_end;
    })
    else none

unfoldable pub bye_ends_by : Option EndedBy → Text → EndedBy × Text
bye_ends_by none reason = (by_local, codes "BYE")
bye_ends_by (some by) reason = (by, reason)

-- `bye` with what the peer answered: whether the BYE succeeded, and when that was known.
unfoldable pub bye : Call → Bool → ℕ → Call × Bool
unfolding bye_ends_by
bye c ok now = let w = bye_ends_by c.bye_by c.bye_reason in (finish c w.0 0 w.1 now, ok)

-- `byeWith`: an established call is hung up for a reason of its own, as by the session timer.
unfoldable pub bye_with : Call → EndedBy → Text → Bool → ℕ → Call
unfolding bye
bye_with c by reason ok now = (bye (record c { bye_by = some by; bye_reason = reason }) ok now).0

-- `sessionExpired`: no refresh has come from the peer.
unfoldable pub session_expired : Call → Bool → ℕ → Call
unfolding bye_with
session_expired c ok now =
    if is_connected c then bye_with c by_timeout (codes "session expired") ok now else c

-- `Hangup` up to its wait: what it asks for in the state it finds.
unfoldable pub hangup_asks : Call → Call
hangup_asks c =
    if is_outgoing c.dir then request_cancel c by_local else (reject c 603 (codes "Decline")).0

-- `Hangup` when it returns at once, `none` when it waits.
unfoldable pub hangup : Call → Bool → ℕ → Call × Option Bool
unfolding hangup_asks
hangup c ok now =
    if is_ended c
    then (c, some true)
    else if is_connected c
    then (let r = bye c ok now in (r.0, some r.1))
    else (hangup_asks c, none)

-- How the wait of `Hangup` ends: one of the channels is closed, or 32 seconds have passed.
unfoldable pub hangup_wakes : Call → Bool → ℕ → Call × Bool
hangup_wakes c ok now =
    if ltb 0 c.done_closes
    then (c, true)
    else if ltb 0 c.connected_closes
    then bye c ok now
    else (c, false)

abbrev pub is_some : Option ℕ → Bool
is_some none = false
is_some (some t) = true

-- `ExpectRinging` and `ExpectConnected` when they return before their timeout.
unfoldable pub expect_ringing : Call → Bool
expect_ringing c = ltb 0 c.ringing_closes && is_some c.t_ring

unfoldable pub expect_connected : Call → Bool
expect_connected c = ltb 0 c.connected_closes
