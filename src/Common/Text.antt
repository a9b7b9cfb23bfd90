-- ===== src/Common/Text.antt =====
-- Texts as lists of code points, with what the program uses of the packages strings and strconv.
-- Letters are folded as those packages do for ASCII; `equal_fold` also knows the two other letters
-- that Go's simple folding takes to an ASCII one.
use Prim.Native.Char.{code}
use Prim.Native.String.{String}
use mathlib.Core.Bool.{Bool, true, false, not, ◌&&◌, ◌||◌}
use mathlib.Core.List.{List, [], ◌∷◌, map, reverse}
use mathlib.Core.Logic.{◌≢◌}
use mathlib.Core.Option.{Option, none, some}
use mathlib.Core.Path.{◌≡◌, refl}
use native.Mathlib.Omega.{arith}
use Prim.Native.Nat.{ℕ, zero, suc, ◌+◌, ◌-◌, ◌*◌, ◌/◌, ◌%◌, ◌^◌}
use xk6_sip.Common.Int.{ℤ, pos, sub_ℕ}
use xk6_sip.Common.Tests.{leb, ltb, ◌==◌, if◌then◌else◌}

abbrev pub Text : Type 0
Text = List ℕ

abbrev pub codes : String → Text
codes String.[] = []
codes (String.◌∷◌ c s) = code c ∷ codes s

abbrev pub text_eq : Text → Text → Bool
text_eq [] [] = true
text_eq [] (d ∷ t) = false
text_eq (c ∷ s) [] = false
text_eq (c ∷ s) (d ∷ t) = c == d && text_eq s t

pub text_eq→eq : (s t : Text) → text_eq s t ≡ true → s ≡ t
text_eq→eq [] [] h = refl
text_eq→eq [] (d ∷ t) h = cc
text_eq→eq (c ∷ s) [] h = cc
text_eq→eq (c ∷ s) (d ∷ t) h = ground (arith, text_eq→eq s t)

pub text_eq_refl : (s : Text) → text_eq s s ≡ true
text_eq_refl [] = refl
text_eq_refl (c ∷ s) = ground (arith, text_eq_refl s)

pub text_eq_ne : (s t : Text) → text_eq s t ≡ false → s ≢ t
text_eq_ne s t h e = ground (arith, text_eq_refl s)

abbrev pub is_empty : Text → Bool
is_empty [] = true
is_empty (c ∷ s) = false

-- `unicode.IsSpace`.
unfoldable pub is_space : ℕ → Bool
is_space c =
    leb 9 c && leb c 13
    || c == 32
    || c == 0x85
    || c == 0xA0
    || c == 0x1680
    || leb 0x2000 c && leb c 0x200A
    || c == 0x2028
    || c == 0x2029
    || c == 0x202F
    || c == 0x205F
    || c == 0x3000

unfoldable pub trim_left : Text → Text
unfolding is_space
trim_left [] = []
trim_left (c ∷ s) = if is_space c then trim_left s else c ∷ s

unfoldable pub trim_space : Text → Text
unfolding trim_left
trim_space s = reverse (trim_left (reverse (trim_left s)))

unfoldable pub upper : ℕ → ℕ
upper c = if leb b'a' c && leb c b'z' then c - 32 else c

unfoldable pub lower : ℕ → ℕ
lower c = if leb b'A' c && leb c b'Z' then c + 32 else c

unfoldable pub to_upper : Text → Text
unfolding upper
to_upper s = map upper s

unfoldable pub to_lower : Text → Text
unfolding lower
to_lower s = map lower s

-- The long s and the Kelvin sign fold to `s` and `k`.
unfoldable pub fold_code : ℕ → ℕ
unfolding lower
fold_code c = if c == 0x17F then b's' else if c == 0x212A then b'k' else lower c

unfoldable pub equal_fold : Text → Text → Bool
unfolding fold_code
equal_fold s t = text_eq (map fold_code s) (map fold_code t)

-- `strings.Cut` at one character: the text before it, the text behind it, and whether it was found.
unfoldable pub cut : ℕ → Text → Text × Text × Bool
cut sep [] = ([], [], false)
cut sep (c ∷ s) =
    let (before, after, found) = cut sep s in
    if c == sep then ([], s, true) else (c ∷ before, after, found)

-- `strings.Split` at one character; the pieces are never an empty list.
unfoldable pub cons_piece : ℕ → List Text → List Text
cons_piece c [] = (c ∷ []) ∷ []
cons_piece c (p ∷ ps) = (c ∷ p) ∷ ps

unfoldable pub split : ℕ → Text → List Text
unfolding cons_piece
split sep [] = [] ∷ []
split sep (c ∷ s) = let rest = split sep s in if c == sep then [] ∷ rest else cons_piece c rest

unfoldable pub has_prefix : Text → Text → Bool
has_prefix s [] = true
has_prefix [] (d ∷ t) = false
has_prefix (c ∷ s) (d ∷ t) = c == d && has_prefix s t

-- `strings.Contains`.
unfoldable pub contains : Text → Text → Bool
unfolding has_prefix
contains [] t = is_empty t
contains (c ∷ s) t = has_prefix (c ∷ s) t || contains s t

abbrev pub is_digit : ℕ → Bool
is_digit c = leb b'0' c && leb c b'9'

unfoldable pub digits_value : ℕ → Text → Option ℕ
digits_value acc [] = some acc
digits_value acc (c ∷ s) =
    let rest = digits_value (acc * 10 + (c - b'0')) s in if is_digit c then rest else none

unfoldable pub natural : Text → Option ℕ
unfolding digits_value
natural [] = none
natural (c ∷ s) = digits_value 0 (c ∷ s)

-- `strconv.Atoi`: a sign if any, digits, and a value that fits an int.
unfoldable pub in_range : ℕ → ℤ → Option ℕ → Option ℤ
in_range limit z none = none
in_range limit z (some n) = if leb n limit then some z else none

abbrev pub value_or_zero : Option ℕ → ℕ
value_or_zero none = 0
value_or_zero (some n) = n

unfoldable pub atoi : Text → Option ℤ
unfolding natural in_range
atoi [] = none
atoi (c ∷ s) =
    if c == b'-'
    then in_range (2 ^ 63) (sub_ℕ 0 (value_or_zero (natural s))) (natural s)
    else (let t = if c == b'+' then s else c ∷ s in
        in_range (2 ^ 63 - 1) (pos (value_or_zero (natural t))) (natural t))

-- The value that `strconv.Atoi` returns, also with an error: the limit for what does not fit, and 0
-- where the syntax is wrong. The reading of the digits stops where 64 bits are too few.
unfoldable pub uint_value : ℕ → Text → ℕ
uint_value acc [] = acc
uint_value acc (c ∷ s) =
    let rest = uint_value (acc * 10 + (c - b'0')) s in
    if not (is_digit c)
    then 0
    else if leb (2 ^ 64) (acc * 10 + (c - b'0'))
    then 2 ^ 64 - 1
    else rest

abbrev pub clamped : ℕ → ℕ → ℕ
clamped limit n = if leb limit n then limit else n

unfoldable pub atoi_value : Text → ℤ
unfolding uint_value
atoi_value [] = pos 0
atoi_value (c ∷ s) =
    if c == b'-'
    then sub_ℕ 0 (clamped (2 ^ 63) (uint_value 0 s))
    else pos (clamped (2 ^ 63 - 1) (uint_value 0 (if c == b'+' then s else c ∷ s)))

-- `strings.Fields`: the words between white space.
abbrev pub starts_word : Text → Bool
starts_word [] = false
starts_word (c ∷ s) = not (is_space c)

abbrev pub join_word : ℕ → Bool → List Text → List Text
join_word c true (w ∷ ws) = (c ∷ w) ∷ ws
join_word c true [] = (c ∷ []) ∷ []
join_word c false ws = (c ∷ []) ∷ ws

unfoldable pub fields : Text → List Text
unfolding is_space
fields [] = []
fields (c ∷ s) =
    let rest = fields s in if is_space c then rest else join_word c (starts_word s) rest

-- A number in decimal, `%d`. A number has fewer digits than its successor, which is fuel enough.
unfoldable pub decimal_onto : ℕ → ℕ → Text → Text
decimal_onto zero n acc = acc
decimal_onto (suc fuel) n acc =
    let rest = decimal_onto fuel (n / 10) ((b'0' + n % 10) ∷ acc) in
    if ltb n 10 then (b'0' + n) ∷ acc else rest

unfoldable pub decimal : ℕ → Text
unfolding decimal_onto
decimal n = decimal_onto (suc n) n []
