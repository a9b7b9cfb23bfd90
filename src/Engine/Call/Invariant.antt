-- ===== src/Engine/Call/Invariant.antt =====
-- Which channels of a call are closed, in any order of the operations on it.
use xk6_sip.Common.{
  ℕ, ◌+◌, ◌≤◌, ◌≡◌, refl, Bool, true, false, ◌||◌, Option, none, some, List, [], ◌∷◌, ◌++◌, arith,
  if◌then◌else◌, ltb, leb, if_both,
}
use xk6_sip.Common.Text.{Text, codes}
use xk6_sip.Engine.Call.{
  bye_with, session_expired, by_timeout, Side, rank, EndedBy, by_local, Call, Decision, Event,
  new_call, mark_ringing, mark_connected, ringing_closed, finish, decide, push_decision, accept,
  reject, rejection, request_cancel, bye, hangup, hangup_asks, hangup_wakes, is_some, is_ended,
  is_connected, is_outgoing, finish_events, bye_ends_by,
}

abbrev pub shut : Bool → ℕ
shut b = if b then 1 else 0

abbrev pub call_ends : List Event → ℕ
call_ends [] = 0
call_ends (Event.call_end d t by ∷ es) = call_ends es + 1
call_ends (Event.stop_session ∷ es) = call_ends es
call_ends (Event.remove_call ∷ es) = call_ends es
call_ends (Event.close_media b ∷ es) = call_ends es

-- Each channel was closed at most once, and exactly when the state says so.
pub record IsValid (c : Call) : Type 0 where
  pub ringing_once : c.ringing_closes ≡ shut (leb 1 (rank c.state))
  pub connected_once : c.connected_closes ≡ shut (is_some c.t_answer)
  pub done_once : c.done_closes ≡ shut (is_ended c)
  pub cancel_once : c.cancel_closes ≤ 1
  pub not_yet : rank c.state ≤ 1 → is_some c.t_answer ≡ false
  pub talking : rank c.state ≡ 2 → is_some c.t_answer ≡ true
  pub answered : is_some c.t_answer ≡ true → c.status ≡ 200
  pub rang : rank c.state ≡ 0 → is_some c.t_ring ≡ false
  pub ended_at : is_some c.t_end ≡ is_ended c
  pub one_event : call_ends c.events ≡ (if is_ended c then shut (is_some c.t_answer) else 0)

new_call-IsValid : (dir : Side) (now : ℕ) → IsValid (new_call dir now)
unfolding new_call
new_call-IsValid dir now = record {
  ringing_once = refl;
  connected_once = refl;
  done_once = refl;
  cancel_once = omega arith;
  not_yet = λ h. refl;
  talking = λ h. absurd (omega (arith, h));
  answered = λ h. ground (arith, h);
  rang = λ h. refl;
  ended_at = refl;
  one_event = refl;
}

call_ends-append : (es fs : List Event) → call_ends (es ++ fs) ≡ call_ends es + call_ends fs
call_ends-append [] fs = omega arith
call_ends-append (Event.call_end d t by ∷ es) fs = omega (arith, call_ends-append es fs)
call_ends-append (Event.stop_session ∷ es) fs = call_ends-append es fs
call_ends-append (Event.remove_call ∷ es) fs = call_ends-append es fs
call_ends-append (Event.close_media b ∷ es) fs = call_ends-append es fs

mark_ringing-IsValid : (c : Call) (t : ℕ) → IsValid c → IsValid (mark_ringing c t)
unfolding mark_ringing
mark_ringing-IsValid c t v = ground arith

mark_connected-IsValid : (c : Call) (t : ℕ) → IsValid c → IsValid (mark_connected c t)
unfolding mark_connected ringing_closed
mark_connected-IsValid c t v = ground arith

finish-IsValid :
    (c : Call) (by : EndedBy) (status : ℕ) (reason : Text) (now : ℕ)
    → IsValid c
    → IsValid (finish c by status reason now)
unfolding finish ringing_closed finish_events
finish-IsValid c by status reason now v =
    ground (arith, call_ends-append c.events (finish_events c by now))

push_decision-IsValid :
    (c : Call) (o : Option Decision) (dec : Decision)
    → IsValid c
    → IsValid (push_decision c o dec).0
unfolding push_decision
push_decision-IsValid c none dec v = ground arith
push_decision-IsValid c (some d) dec v = v

decide-IsValid : (c : Call) (dec : Decision) → IsValid c → IsValid (decide c dec).0
unfolding decide
decide-IsValid c dec v =
    if_both (λ (r : Call × Bool). IsValid r.0) (is_outgoing c.dir || leb 2 (rank c.state)) v
      (push_decision-IsValid c c.decision dec v)

request_cancel-IsValid : (c : Call) (by : EndedBy) → IsValid c → IsValid (request_cancel c by)
unfolding request_cancel
request_cancel-IsValid c by v = ground arith

bye-IsValid : (c : Call) (ok : Bool) (now : ℕ) → IsValid c → IsValid (bye c ok now).0
unfolding bye
bye-IsValid c ok now v =
    let w = bye_ends_by c.bye_by c.bye_reason in finish-IsValid c w.0 0 w.1 now v

bye_with-IsValid :
    (c : Call) (by : EndedBy) (reason : Text) (ok : Bool) (now : ℕ)
    → IsValid c
    → IsValid (bye_with c by reason ok now)
unfolding bye_with
bye_with-IsValid c by reason ok now v =
    bye-IsValid (record c { bye_by = some by; bye_reason = reason }) ok now (assumption v)

session_expired-IsValid :
    (c : Call) (ok : Bool) (now : ℕ) → IsValid c → IsValid (session_expired c ok now)
unfolding session_expired
session_expired-IsValid c ok now v =
    if_both IsValid (is_connected c)
      (bye_with-IsValid c by_timeout (codes "session expired") ok now v) v

hangup_asks-IsValid : (c : Call) → IsValid c → IsValid (hangup_asks c)
unfolding hangup_asks reject
hangup_asks-IsValid c v =
    if_both IsValid (is_outgoing c.dir) (request_cancel-IsValid c by_local v)
      (decide-IsValid c (rejection 603 (codes "Decline")) v)

hangup-IsValid : (c : Call) (ok : Bool) (now : ℕ) → IsValid c → IsValid (hangup c ok now).0
unfolding hangup
hangup-IsValid c ok now v =
    if_both (λ (r : Call × Option Bool). IsValid r.0) (is_ended c) v
      (if_both (λ (r : Call × Option Bool). IsValid r.0) (is_connected c) (bye-IsValid c ok now v)
        (hangup_asks-IsValid c v))

hangup_wakes-IsValid :
    (c : Call) (ok : Bool) (now : ℕ) → IsValid c → IsValid (hangup_wakes c ok now).0
unfolding hangup_wakes
hangup_wakes-IsValid c ok now v =
    if_both (λ (r : Call × Bool). IsValid r.0) (ltb 0 c.done_closes) v
      (if_both (λ (r : Call × Bool). IsValid r.0) (ltb 0 c.connected_closes)
        (bye-IsValid c ok now v) v)

-- One operation on a call, from whichever goroutine it comes. The lock makes each atomic.
pub data Operation : Type 0 where
  rings connects : ℕ → Operation
  finishes : EndedBy → ℕ → Text → ℕ → Operation
  accepts : Operation
  rejects : ℕ → Text → Operation
  cancels : EndedBy → Operation
  hangs_up wakes expires : Bool → ℕ → Operation
  hangs_up_for : EndedBy → Text → Bool → ℕ → Operation

unfoldable pub operate : Call → Operation → Call
unfolding accept reject
operate c (rings t) = mark_ringing c t
operate c (connects t) = mark_connected c t
operate c (finishes by status reason now) = finish c by status reason now
operate c accepts = (accept c).0
operate c (rejects code reason) = (reject c code reason).0
operate c (cancels by) = request_cancel c by
operate c (hangs_up ok now) = (hangup c ok now).0
operate c (wakes ok now) = (hangup_wakes c ok now).0
operate c (expires ok now) = session_expired c ok now
operate c (hangs_up_for by reason ok now) = bye_with c by reason ok now

unfoldable pub run : Call → List Operation → Call
unfolding operate
run c [] = c
run c (o ∷ os) = run (operate c o) os

operate-IsValid : (c : Call) (o : Operation) → IsValid c → IsValid (operate c o)
unfolding operate accept reject
operate-IsValid c (rings t) v = mark_ringing-IsValid c t v
operate-IsValid c (connects t) v = mark_connected-IsValid c t v
operate-IsValid c (finishes by status reason now) v = finish-IsValid c by status reason now v
operate-IsValid c accepts v = decide-IsValid c (record { code = 200; reason = codes "OK" }) v
operate-IsValid c (rejects code reason) v = decide-IsValid c (rejection code reason) v
operate-IsValid c (cancels by) v = request_cancel-IsValid c by v
operate-IsValid c (hangs_up ok now) v = hangup-IsValid c ok now v
operate-IsValid c (wakes ok now) v = hangup_wakes-IsValid c ok now v
operate-IsValid c (expires ok now) v = session_expired-IsValid c ok now v
operate-IsValid c (hangs_up_for by reason ok now) v = bye_with-IsValid c by reason ok now v

pub run-IsValid : (c : Call) (os : List Operation) → IsValid c → IsValid (run c os)
unfolding run
run-IsValid c [] v = v
run-IsValid c (o ∷ os) v = run-IsValid (operate c o) os (operate-IsValid c o v)

-- In every order of the operations on a new call: each of its channels is closed at most once, and
-- exactly when the call rang or got further, was answered, or has ended; it is answered as long as
-- it is connected; an answered call keeps the status 200; an ended call has its end's time, and
-- it emitted one CallEnd event if it was answered and none if it was not.
pub run-new_call-IsValid :
    (dir : Side) (now : ℕ) (os : List Operation) → IsValid (run (new_call dir now) os)
run-new_call-IsValid dir now os = run-IsValid (new_call dir now) os (new_call-IsValid dir now)
