-- ===== src/Engine/Device/Registering.antt =====
-- What a registration comes to.
use xk6_sip.Common.{ℕ, ◌≡◌, Bool, true, false, not, ◌&&◌, Option, none, some, ◌==◌, leb}
use xk6_sip.Engine.Device.{Registration}

abbrev pub at_least : ℕ → Option ℕ → Bool
at_least n none = false
at_least n (some m) = leb n m

-- The device counts as registered exactly if the REGISTER succeeded and was no unregistration; unless it
-- was one, a timer for the next REGISTER runs, of one second at least.
pub record IsDone (expires : ℕ) (r : Registration × Bool) : Type 0 where
  pub as_told : r.0.registered ≡ (not (expires == 0) && r.1)
  pub goes_on : (expires == 0) ≡ false → at_least 1000 r.0.refresh_in ≡ true
