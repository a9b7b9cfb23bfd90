-- ===== src/Engine/Incoming/Handled.antt =====
-- What becomes of an incoming INVITE.
use xk6_sip.Common.{ℕ, ◌≡◌, ◌⊎◌, true, false, Option, none, some, if◌then◌else◌}
use xk6_sip.Common.Text.{Text, text_eq}
use xk6_sip.Engine.Call.{Call, is_ended, is_connected}
use xk6_sip.Engine.Device.{Calls, Incoming, deliver, find_call, is_call}
use xk6_sip.Engine.Handlers.{Wake, final_status}
use xk6_sip.Engine.Incoming.{
  Invite, Device, Media, Stage, unread, no_dialog, bad_media, not_rung, waited, Outcome,
  caller_number,
}

-- The table as before, but for what `here` says of one Call-ID.
abbrev pub Holds : Calls → Calls → Text → Option ℕ → Type 0
Holds before after call_id here =
    (k : Text) → find_call after k ≡ (if text_eq call_id k then here else find_call before k)

abbrev pub Same : Calls → Calls → Type 0
Same before after = (k : Text) → find_call after k ≡ find_call before k

-- The call is over with a status, and nothing of it is left.
abbrev pub Refused : Device → Device → Call → ℕ → Type 0
Refused d e c status =
    (is_ended c ≡ true) × (c.status ≡ status) × Same d.calls e.calls × (e.inbox ≡ d.inbox)

abbrev pub Delivered : Device → Device → Invite → ℕ → ℕ → Call → Wake → Type 0
Delivered d e req id start c w =
    (e.inbox
      ≡ deliver d.inbox
          (record { id = id; remote = caller_number req; ended = false; t_start = start }))
    × (((is_connected c ≡ true)
          × (final_status w ≡ 200)
          × Holds d.calls e.calls req.call_id (some id))
        ⊎ ((is_ended c ≡ true) × Holds d.calls e.calls req.call_id none))

abbrev pub Staged : Device → Device → Invite → ℕ → ℕ → Stage → Option Call → Type 0
Staged d e req id start unread c = (e ≡ d) × (c ≡ none)
Staged d e req id start no_dialog none = ⊥
Staged d e req id start no_dialog (some c) = Refused d e c 481
Staged d e req id start bad_media none = ⊥
Staged d e req id start bad_media (some c) = Refused d e c 488
Staged d e req id start not_rung none = ⊥
Staged d e req id start not_rung (some c) =
    (is_ended c ≡ true) × Holds d.calls e.calls req.call_id none × (e.inbox ≡ d.inbox)
Staged d e req id start (waited w) none = ⊥
Staged d e req id start (waited w) (some c) = Delivered d e req id start c w

abbrev pub IsHandled : Device → Invite → ℕ → ℕ → Outcome → Type 0
IsHandled d req id start o = Staged d o.device req id start o.stage o.call

-- No entry of the table is the new call.
abbrev pub IsNew : Calls → ℕ → Type 0
IsNew cs id = (k : Text) → is_call (find_call cs k) id ≡ false
