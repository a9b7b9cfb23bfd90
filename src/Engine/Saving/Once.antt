-- ===== src/Engine/Saving/Once.antt =====
-- A recording is saved once, and whether a check fails before or after the end makes no difference.
use xk6_sip.Common.{◌≤◌, ◌≡◌, true, false, List, [], ◌∷◌, arith, if_both}
use xk6_sip.Engine.Call.{Call, is_ended}
use xk6_sip.Engine.Call.Invariant.{shut}
use xk6_sip.Engine.Saving.{Saving, auto_save, mark_failed, is_wanted}

-- One failing check after another, and the call's end among them, for the call as it is when it is over.
pub data Operation : Type 0 where
  fails saves : Operation

unfoldable pub run : Call → Saving → List Operation → Saving
run c s [] = s
run c s (fails ∷ os) = run c (mark_failed c s) os
run c s (saves ∷ os) = run c (auto_save c s) os

abbrev pub IsOnce : Saving → Type 0
IsOnce s = s.writes ≡ shut s.saved

auto_save-IsOnce : (c : Call) (s : Saving) → IsOnce s → IsOnce (auto_save c s)
unfolding auto_save
auto_save-IsOnce c s h = ground (arith, h)

mark_failed-IsOnce : (c : Call) (s : Saving) → IsOnce s → IsOnce (mark_failed c s)
unfolding mark_failed
mark_failed-IsOnce c s h =
    if_both IsOnce (is_ended c) (auto_save-IsOnce c (record s { failed = true }) h) h

run-IsOnce : (c : Call) (s : Saving) (os : List Operation) → IsOnce s → IsOnce (run c s os)
unfolding run
run-IsOnce c s [] h = h
run-IsOnce c s (fails ∷ os) h = run-IsOnce c (mark_failed c s) os (mark_failed-IsOnce c s h)
run-IsOnce c s (saves ∷ os) h = run-IsOnce c (auto_save c s) os (auto_save-IsOnce c s h)

-- The recording of a call that has ended is written at most once, however many checks fail and however
-- often the end asks for it; and a check that fails before the end asks (`now` is the call at that time, not ended)
-- leads to the same as one that fails after it.
pub mark_failed-auto_save :
    (now c : Call) (s : Saving) (os : List Operation)
    → IsOnce s
    → is_ended now ≡ false
    → is_ended c ≡ true
    → ((run c s os).writes ≤ 1) × (auto_save c (mark_failed now s) ≡ mark_failed c (auto_save c s))
unfolding mark_failed auto_save is_wanted
mark_failed-auto_save now c s os once before after =
    (ground (arith, run-IsOnce c s os once), ground (arith, before, after))
