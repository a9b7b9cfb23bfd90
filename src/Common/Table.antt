-- ===== src/Common/Table.antt =====
-- Go's maps from texts: reading, writing and deleting of an entry.
use mathlib.Core.List.{List, [], ◌∷◌}
use mathlib.Core.Option.{Option, none, some}
use mathlib.Core.Path.{◌≡◌}
use native.Mathlib.Omega.{arith}
use xk6_sip.Common.Tests.{if◌then◌else◌}
use xk6_sip.Common.Text.{Text, text_eq, text_eq→eq, text_eq_refl}

abbrev pub Table {ℓ} : Type ℓ → Type ℓ
Table A = List (Text × A)

unfoldable pub get {ℓ} : {A : Type ℓ} → Table A → Text → Option A
get [] k = none
get ((i, a) ∷ m) k = let rest = get m k in if text_eq i k then some a else rest

unfoldable pub remove {ℓ} : {A : Type ℓ} → Table A → Text → Table A
remove [] k = []
remove ((i, a) ∷ m) k = let rest = remove m k in if text_eq i k then rest else (i, a) ∷ rest

unfoldable pub put {ℓ} : {A : Type ℓ} → Table A → Text → A → Table A
unfolding remove
put m k a = (k, a) ∷ remove m k

pub get-remove {ℓ} :
    {A : Type ℓ} (m : Table A) (i k : Text)
    → get (remove m i) k ≡ (if text_eq i k then none else get m k)
unfolding get remove
get-remove [] i k = ground arith
get-remove ((j, a) ∷ m) i k =
    ground (arith, get-remove m i k, text_eq→eq j i, text_eq→eq j k, text_eq→eq i k, text_eq_refl k)

pub get-put {ℓ} :
    {A : Type ℓ} (m : Table A) (i k : Text) (a : A)
    → get (put m i a) k ≡ (if text_eq i k then some a else get m k)
unfolding get put
get-put m i k a = ground (arith, get-remove m i k)
