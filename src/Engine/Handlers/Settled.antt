-- ===== src/Engine/Handlers/Settled.antt =====
-- The handlers leave no call without an outcome.
use xk6_sip.Common.{ℕ, ◌≤◌, ◌≡◌, ◌≢◌, ◌⊎◌, inr, Bool, true, false, arith}
use xk6_sip.Common.Text.{Text, codes}
use xk6_sip.Engine.Call.{
  Call, rank, EndedBy, by_local, by_remote, by_timeout, by_error, Decision, mark_connected, finish,
  is_ended, is_connected,
}
use xk6_sip.Engine.Call.Outcome.{finish-ends}
use xk6_sip.Engine.Uac.{InviteResult}
use xk6_sip.Engine.Handlers.{
  Outcome, answer_call, Wake, decided, cancelled, ring_timeout, destroyed, on_decision, on_wake,
  final_status,
}

mark_connected-connects :
    (c : Call) (t : ℕ)
    → rank c.state ≤ 1
    → (is_connected (mark_connected c t) ≡ true) × ((mark_connected c t).status ≡ 200)
unfolding mark_connected
mark_connected-connects c t h = ground arith

finish-status :
    (c : Call) (by : EndedBy) (status : ℕ) (reason : Text) (now : ℕ)
    → rank c.state ≤ 1
    → status ≢ 0
    → (finish c by status reason now).status ≡ status
unfolding finish
finish-status c by status reason now h k = ground arith

-- A call is set up exactly if it is connected, and its audio starts exactly then.
pub record IsSettled (r : InviteResult) (o : Outcome) : Type 0 where
  pub up : o.setup.success ≡ true → is_connected o.call ≡ true
  pub down : o.setup.success ≡ false → is_ended o.call ≡ true
  pub audio : o.starts ≡ o.setup.success
  pub success : o.setup.success ≡ true → (o.call.status ≡ 200) × (r.cancelled ≡ false)

-- The wait of an incoming call comes to an answer, or the call has ended with the status of the
-- final response; after a 200 that could not be written it has ended too.
on_decision-settles :
    (c : Call) (dec : Decision) (ok : Bool) (text : Text) (now : ℕ)
    → rank c.state ≤ 1
    → dec.code ≢ 0
    → ((is_connected (on_decision c dec ok text now) ≡ true) × (dec.code ≡ 200) × (ok ≡ true))
      ⊎ ((is_ended (on_decision c dec ok text now) ≡ true)
          × ((dec.code ≡ 200) ⊎ ((on_decision c dec ok text now).status ≡ dec.code)))
unfolding on_decision answer_call
on_decision-settles c dec ok text now h k = ground (
  arith,
  mark_connected-connects c now h,
  finish-ends c by_error 0 text now,
  finish-ends c by_local dec.code dec.reason now,
  finish-status c by_local dec.code dec.reason now h k,
)

-- However the wait of an incoming INVITE ends (the script decides, the caller cancels, the ring
-- timeout, the device is destroyed), a call that was not answered before is connected, which takes
-- the decision 200 and a response that could be written, or it has ended, and then with the status of the
-- final response unless that is a 200 that could not be written.
pub on_wake-settles :
    (c : Call) (w : Wake) (ok : Bool) (text : Text) (now : ℕ)
    → rank c.state ≤ 1
    → final_status w ≢ 0
    → ((is_connected (on_wake c w ok text now) ≡ true) × (final_status w ≡ 200) × (ok ≡ true))
      ⊎ ((is_ended (on_wake c w ok text now) ≡ true)
          × ((final_status w ≡ 200) ⊎ ((on_wake c w ok text now).status ≡ final_status w)))
unfolding on_wake
on_wake-settles c (decided dec) ok text now h k = on_decision-settles c dec ok text now h k
on_wake-settles c cancelled ok text now h k = inr (
  finish-ends c by_remote 487 (codes "CANCEL") now,
  inr (finish-status c by_remote 487 (codes "CANCEL") now h k),
)
on_wake-settles c ring_timeout ok text now h k = inr (
  finish-ends c by_timeout 480 (codes "ring timeout") now,
  inr (finish-status c by_timeout 480 (codes "ring timeout") now h k),
)
on_wake-settles c destroyed ok text now h k = inr (
  finish-ends c by_local 480 (codes "device destroyed") now,
  inr (finish-status c by_local 480 (codes "device destroyed") now h k),
)
