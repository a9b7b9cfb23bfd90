-- ===== src/Engine/Call/Outcome.antt =====
-- How a call ends, and that it ends once.
use xk6_sip.Common.{
  ℕ, ◌+◌, ◌≤◌, ◌≡◌, refl, ap, ◌∙◌, Bool, true, ◌||◌, Option, none, some, List, [], ◌∷◌, arith, ltb,
  leb, ◌==◌, if_both,
}
use xk6_sip.Common.Text.{Text, codes}
use xk6_sip.Engine.Call.{
  bye_with, session_expired, by_timeout, State, calling, ringing, connected, ended, rank, EndedBy,
  by_local, Call, Decision, mark_ringing, mark_connected, finish, decide, push_decision, accept,
  reject, rejection, request_cancel, bye, hangup, hangup_asks, hangup_wakes, is_ended, is_connected,
  is_outgoing, bye_ends_by,
}
use xk6_sip.Engine.Call.Invariant.{
  expires, hangs_up_for, Operation, rings, connects, finishes, accepts, rejects, cancels, hangs_up,
  wakes, operate, run, IsValid,
}

-- What stays of a call that has ended.
pub record Settled (c c' : Call) : Type 0 where
  pub state : c'.state ≡ c.state
  pub status : c'.status ≡ c.status
  pub reason : c'.reason ≡ c.reason
  pub answer : c'.t_answer ≡ c.t_answer
  pub end : c'.t_end ≡ c.t_end
  pub done : c'.done_closes ≡ c.done_closes
  pub events : c'.events ≡ c.events

same : (c : Call) → Settled c c
same c = record {
  state = refl;
  status = refl;
  reason = refl;
  answer = refl;
  end = refl;
  done = refl;
  events = refl;
}

request_cancel-Settled : (c : Call) (by : EndedBy) → Settled c (request_cancel c by)
unfolding request_cancel
request_cancel-Settled c by = if_both (Settled c) (ltb 0 c.cancel_closes) (same c) (record {
  state = refl;
  status = refl;
  reason = refl;
  answer = refl;
  end = refl;
  done = refl;
  events = refl;
})

push_decision-Settled :
    (c : Call) (o : Option Decision) (dec : Decision) → Settled c (push_decision c o dec).0
unfolding push_decision
push_decision-Settled c none dec = record {
  state = refl;
  status = refl;
  reason = refl;
  answer = refl;
  end = refl;
  done = refl;
  events = refl;
}
push_decision-Settled c (some d) dec = same c

decide-Settled : (c : Call) (dec : Decision) → Settled c (decide c dec).0
unfolding decide
decide-Settled c dec =
    if_both (λ (r : Call × Bool). Settled c r.0) (is_outgoing c.dir || leb 2 (rank c.state))
      (same c) (push_decision-Settled c c.decision dec)

finish-Settled :
    (c : Call) (by : EndedBy) (status : ℕ) (reason : Text) (now : ℕ)
    → is_ended c ≡ true
    → Settled c (finish c by status reason now)
unfolding finish
finish-Settled c by status reason now h = rw h (same c)

mark_ringing-Settled : (c : Call) (t : ℕ) → is_ended c ≡ true → Settled c (mark_ringing c t)
unfolding mark_ringing
mark_ringing-Settled c t h = ground arith

mark_connected-Settled : (c : Call) (t : ℕ) → is_ended c ≡ true → Settled c (mark_connected c t)
unfolding mark_connected
mark_connected-Settled c t h = ground arith

bye-Settled : (c : Call) (ok : Bool) (now : ℕ) → is_ended c ≡ true → Settled c (bye c ok now).0
unfolding bye
bye-Settled c ok now h =
    let w = bye_ends_by c.bye_by c.bye_reason in finish-Settled c w.0 0 w.1 now h

-- What `bye_with` notes before it hangs up.
abbrev noted : Call → EndedBy → Text → Call
noted c by reason = record c { bye_by = some by; bye_reason = reason }

noted-Settled : (c : Call) (by : EndedBy) (reason : Text) → Settled c (noted c by reason)
noted-Settled c by reason = record {
  state = refl;
  status = refl;
  reason = refl;
  answer = refl;
  end = refl;
  done = refl;
  events = refl;
}

chain : (c c' c'' : Call) → Settled c c' → Settled c' c'' → Settled c c''
chain c c' c'' p q = record {
  state = q.state ∙ p.state;
  status = q.status ∙ p.status;
  reason = q.reason ∙ p.reason;
  answer = q.answer ∙ p.answer;
  end = q.end ∙ p.end;
  done = q.done ∙ p.done;
  events = q.events ∙ p.events;
}

bye_with-Settled :
    (c : Call) (by : EndedBy) (reason : Text) (ok : Bool) (now : ℕ)
    → is_ended c ≡ true
    → Settled c (bye_with c by reason ok now)
unfolding bye_with
bye_with-Settled c by reason ok now h =
    chain c (noted c by reason) (bye (noted c by reason) ok now).0 (noted-Settled c by reason)
      (bye-Settled (noted c by reason) ok now h)

session_expired-Settled :
    (c : Call) (ok : Bool) (now : ℕ) → is_ended c ≡ true → Settled c (session_expired c ok now)
unfolding session_expired
session_expired-Settled c ok now h =
    if_both (Settled c) (is_connected c)
      (bye_with-Settled c by_timeout (codes "session expired") ok now h) (same c)

hangup-Settled :
    (c : Call) (ok : Bool) (now : ℕ) → is_ended c ≡ true → Settled c (hangup c ok now).0
unfolding hangup
hangup-Settled c ok now h = rw h (same c)

hangup_wakes-Settled :
    (c : Call) (ok : Bool) (now : ℕ) → is_ended c ≡ true → Settled c (hangup_wakes c ok now).0
unfolding hangup_wakes
hangup_wakes-Settled c ok now h =
    if_both (λ (r : Call × Bool). Settled c r.0) (ltb 0 c.done_closes) (same c)
      (if_both (λ (r : Call × Bool). Settled c r.0) (ltb 0 c.connected_closes)
        (bye-Settled c ok now h) (same c))

operate-Settled : (c : Call) (o : Operation) → is_ended c ≡ true → Settled c (operate c o)
unfolding operate accept reject
operate-Settled c (rings t) h = mark_ringing-Settled c t h
operate-Settled c (connects t) h = mark_connected-Settled c t h
operate-Settled c (finishes by status reason now) h = finish-Settled c by status reason now h
operate-Settled c accepts h = decide-Settled c (record { code = 200; reason = codes "OK" })
operate-Settled c (rejects code reason) h = decide-Settled c (rejection code reason)
operate-Settled c (cancels by) h = request_cancel-Settled c by
operate-Settled c (hangs_up ok now) h = hangup-Settled c ok now h
operate-Settled c (wakes ok now) h = hangup_wakes-Settled c ok now h
operate-Settled c (expires ok now) h = session_expired-Settled c ok now h
operate-Settled c (hangs_up_for by reason ok now) h = bye_with-Settled c by reason ok now h

-- A call ends once: whatever operations follow in whatever order, an ended call keeps its state,
-- its status, its reason, the times of its answer and end, and emits nothing more.
pub run-Settled : (c : Call) (os : List Operation) → is_ended c ≡ true → Settled c (run c os)
unfolding run
run-Settled c [] h = same c
run-Settled c (o ∷ os) h =
    let p = operate-Settled c o h in
    chain c (operate c o) (run (operate c o) os) p
      (run-Settled (operate c o) os (ap (λ s. rank s == 3) p.state ∙ h))

abbrev pub Forward : Call → Call → Type 0
Forward c c' = rank c.state ≤ rank c'.state

Settled-Forward : (c c' : Call) → Settled c c' → Forward c c'
Settled-Forward c c' p = omega (arith, ap rank p.state)

rank_bound : (s : State) → rank s ≤ 3
rank_bound calling = omega arith
rank_bound ringing = omega arith
rank_bound connected = omega arith
rank_bound ended = omega arith

mark_ringing-Forward : (c : Call) (t : ℕ) → Forward c (mark_ringing c t)
unfolding mark_ringing
mark_ringing-Forward c t = ground arith

mark_connected-Forward : (c : Call) (t : ℕ) → Forward c (mark_connected c t)
unfolding mark_connected
mark_connected-Forward c t = ground arith

pub finish-ends :
    (c : Call) (by : EndedBy) (status : ℕ) (reason : Text) (now : ℕ)
    → is_ended (finish c by status reason now) ≡ true
unfolding finish
finish-ends c by status reason now = ground arith

ends-Forward : (c c' : Call) → is_ended c' ≡ true → Forward c c'
ends-Forward c c' h = ground (arith, rank_bound c.state)

pub bye-ends : (c : Call) (ok : Bool) (now : ℕ) → is_ended (bye c ok now).0 ≡ true
unfolding bye
bye-ends c ok now = let w = bye_ends_by c.bye_by c.bye_reason in finish-ends c w.0 0 w.1 now

hangup_asks-Settled : (c : Call) → Settled c (hangup_asks c)
unfolding hangup_asks reject
hangup_asks-Settled c =
    if_both (Settled c) (is_outgoing c.dir) (request_cancel-Settled c by_local)
      (decide-Settled c (rejection 603 (codes "Decline")))

hangup-Forward : (c : Call) (ok : Bool) (now : ℕ) → Forward c (hangup c ok now).0
unfolding hangup
hangup-Forward c ok now =
    if_both (λ (r : Call × Option Bool). Forward c r.0) (is_ended c) (omega arith)
      (if_both (λ (r : Call × Option Bool). Forward c r.0) (is_connected c)
        (ends-Forward c (bye c ok now).0 (bye-ends c ok now))
        (Settled-Forward c (hangup_asks c) (hangup_asks-Settled c)))

hangup_wakes-Forward : (c : Call) (ok : Bool) (now : ℕ) → Forward c (hangup_wakes c ok now).0
unfolding hangup_wakes
hangup_wakes-Forward c ok now =
    if_both (λ (r : Call × Bool). Forward c r.0) (ltb 0 c.done_closes) (omega arith)
      (if_both (λ (r : Call × Bool). Forward c r.0) (ltb 0 c.connected_closes)
        (ends-Forward c (bye c ok now).0 (bye-ends c ok now)) (omega arith))

bye_with-ends :
    (c : Call) (by : EndedBy) (reason : Text) (ok : Bool) (now : ℕ)
    → is_ended (bye_with c by reason ok now) ≡ true
unfolding bye_with
bye_with-ends c by reason ok now = bye-ends (noted c by reason) ok now

session_expired-Forward : (c : Call) (ok : Bool) (now : ℕ) → Forward c (session_expired c ok now)
unfolding session_expired
session_expired-Forward c ok now =
    if_both (Forward c) (is_connected c)
      (ends-Forward c (bye_with c by_timeout (codes "session expired") ok now)
        (bye_with-ends c by_timeout (codes "session expired") ok now))
      (omega arith)

-- No operation takes a call back to an earlier state.
operate-Forward : (c : Call) (o : Operation) → Forward c (operate c o)
unfolding operate accept reject
operate-Forward c (rings t) = mark_ringing-Forward c t
operate-Forward c (connects t) = mark_connected-Forward c t
operate-Forward c (finishes by status reason now) =
    ends-Forward c (finish c by status reason now) (finish-ends c by status reason now)
operate-Forward c accepts =
    let dec : Decision = record { code = 200; reason = codes "OK" } in
    Settled-Forward c (decide c dec).0 (decide-Settled c dec)
operate-Forward c (rejects code reason) =
    Settled-Forward c (decide c (rejection code reason)).0
      (decide-Settled c (rejection code reason))
operate-Forward c (cancels by) =
    Settled-Forward c (request_cancel c by) (request_cancel-Settled c by)
operate-Forward c (hangs_up ok now) = hangup-Forward c ok now
operate-Forward c (wakes ok now) = hangup_wakes-Forward c ok now
operate-Forward c (expires ok now) = session_expired-Forward c ok now
operate-Forward c (hangs_up_for by reason ok now) =
    ends-Forward c (bye_with c by reason ok now) (bye_with-ends c by reason ok now)

-- Along every run a call only moves on: calling, ringing, connected, ended.
pub run-Forward : (c : Call) (os : List Operation) → Forward c (run c os)
unfolding run
run-Forward c [] = omega arith
run-Forward c (o ∷ os) = omega (arith, operate-Forward c o, run-Forward (operate c o) os)

answered_woke :
    (c : Call) → IsValid c → 2 ≤ rank c.state → leb 1 (c.done_closes + c.connected_closes) ≡ true
answered_woke c v h = ground arith

-- `Hangup` of a call that has been answered, or has ended, leaves it ended whatever its BYE comes
-- to, and so does a `Hangup` that waits when the call is answered or ends.
pub hangup-ends :
    (c : Call) (ok : Bool) (now : ℕ)
    → IsValid c
    → 2 ≤ rank c.state
    → (is_ended (hangup c ok now).0 ≡ true) × (is_ended (hangup_wakes c ok now).0 ≡ true)
unfolding hangup hangup_wakes
hangup-ends c ok now v h =
    (ground (arith, bye-ends c ok now), ground (arith, bye-ends c ok now, answered_woke c v h))
