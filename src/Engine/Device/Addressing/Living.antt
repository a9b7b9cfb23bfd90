-- ===== src/Engine/Device/Addressing/Living.antt =====
-- A device over its whole life.
use xk6_sip.Common.{ℕ, ◌≡◌, refl, Bool, false, not, ◌&&◌, Option, none, List, [], ◌∷◌}
use xk6_sip.Engine.Device.{Registration, Contact, after_reply}
use xk6_sip.Engine.Device.Addressing.{Device, Life, Registrar, start, destroy, refresh}

pub data Operation : Type 0 where
  starts : Bool → Registrar → Operation
  destroys : ℕ → Registrar → Operation
  refreshes : Registrar → Operation

abbrev pub step : Device → Contact → Life → Operation → Life
step d ours l (starts opens net) = (start d ours l opens net).0
step d ours l (destroys calls net) = destroy ours l calls net
step d ours l (refreshes net) = refresh d ours l net

abbrev pub run : Device → Contact → Life → List Operation → Life
run d ours l [] = l
run d ours l (op ∷ ops) = run d ours (step d ours l op) ops

-- A socket is open, and timers have an effect, exactly while the device is started.
pub record IsLiving (l : Life) : Type 0 where
  pub socket : l.has_socket ≡ l.started
  pub timers : l.live ≡ l.started

-- What Destroy leaves of a device: no socket, no timer, and a registration only where the rate limiter
-- has kept the last REGISTER back.
pub record IsGone (l q : Life) (allowed : Bool) : Type 0 where
  pub down : q.started ≡ false
  pub closed : q.has_socket ≡ false
  pub silent : q.live ≡ false
  pub forgotten : q.registration.registered ≡ (l.registration.registered && not allowed)
  pub no_timer : q.registration.refresh_in ≡ none

after_reply-none :
    (r : Registration) (res : Option ℕ) (retry_in refresh_in : ℕ)
    → ((after_reply r 0 res retry_in refresh_in).0.registered ≡ false)
      × ((after_reply r 0 res retry_in refresh_in).0.refresh_in ≡ r.refresh_in)
unfolding after_reply
after_reply-none r res retry_in refresh_in = (refl, refl)
