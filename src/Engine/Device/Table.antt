-- ===== src/Engine/Device/Table.antt =====
-- The table of calls: what `findCall` says after `addCall` and `removeCall`.
use xk6_sip.Common.{ℕ, ◌≡◌, ◌&&◌, none, some, [], ◌∷◌, arith, if◌then◌else◌}
use xk6_sip.Common.Text.{Text, text_eq, text_eq→eq, text_eq_refl}
use xk6_sip.Engine.Device.{Calls, find_call, delete_call, add_call, remove_call, is_call}

find_call-delete_call :
    (cs : Calls) (id k : Text)
    → find_call (delete_call cs id) k ≡ (if text_eq id k then none else find_call cs k)
unfolding find_call delete_call
find_call-delete_call [] id k = ground arith
find_call-delete_call ((i, c) ∷ cs) id k = ground (
  arith,
  find_call-delete_call cs id k,
  text_eq→eq i id,
  text_eq→eq i k,
  text_eq→eq id k,
  text_eq_refl k,
)

-- `addCall` and `removeCall` of a call: the table finds an added call under its Call-ID and every other
-- one as before; removing a call takes it out of the table, and leaves the table as it is
-- for all other Call-IDs and where another call has taken its Call-ID over.
pub find_call-remove_call :
    (cs : Calls) (id k : Text) (c : ℕ)
    → (find_call (add_call cs id c) k ≡ (if text_eq id k then some c else find_call cs k))
      × (find_call (remove_call cs id c) k
          ≡ (if text_eq id k && is_call (find_call cs id) c then none else find_call cs k))
unfolding add_call remove_call find_call
find_call-remove_call cs id k c =
    (ground (arith, find_call-delete_call cs id k), ground (arith, find_call-delete_call cs id k))
