-- ===== src/Common/Decimal.antt =====
-- Numbers that are printed in decimal and read back.
use Prim.Native.Nat.{ℕ, zero, suc, ◌+◌, ◌-◌, ◌*◌, ◌/◌, ◌%◌, ◌^◌, ◌<◌, ◌≤◌}
use mathlib.Core.Bool.{Bool, true, false}
use mathlib.Core.List.{[], ◌∷◌, ◌++◌, reverse, reverse_aux, reverse-reverse}
use mathlib.Core.Option.{some, some-injective}
use mathlib.Core.Path.{◌≡◌, refl, ap, ◌∙◌}
use native.Mathlib.Omega.{arith}
use xk6_sip.Common.Int.{pos}
use xk6_sip.Common.Tests.{ltb, leb, ◌==◌, if_cases, if◌then◌else◌}
use xk6_sip.Common.Text.{
  Text, is_digit, is_empty, digits_value, decimal_onto, decimal, atoi, value_or_zero, natural,
  in_range, cut, trim_left, uint_value, atoi_value, fields, clamped, join_word, starts_word,
  trim_space, is_space,
}

abbrev pub AllDigits : Text → Type 0
AllDigits [] = Unit {0}
AllDigits (c ∷ s) = (is_digit c ≡ true) × AllDigits s

decimal_onto-AllDigits :
    (fuel n : ℕ) (acc : Text) → AllDigits acc → AllDigits (decimal_onto fuel n acc)
unfolding decimal_onto
decimal_onto-AllDigits zero n acc d = d
decimal_onto-AllDigits (suc fuel) n acc d =
    if_cases AllDigits (ltb n 10) (λ h. (ground arith, d))
      (λ h. decimal_onto-AllDigits fuel (n / 10) ((b'0' + n % 10) ∷ acc) (ground arith, d))

decimal_onto-is_empty :
    (fuel n : ℕ) (acc : Text) → is_empty acc ≡ false → is_empty (decimal_onto fuel n acc) ≡ false
unfolding decimal_onto
decimal_onto-is_empty zero n acc h = h
decimal_onto-is_empty (suc fuel) n acc h =
    if_cases (λ t. is_empty t ≡ false) (ltb n 10) (λ k. refl)
      (λ k. decimal_onto-is_empty fuel (n / 10) ((b'0' + n % 10) ∷ acc) refl)

digits_value-cons :
    (a c : ℕ) (s : Text)
    → is_digit c ≡ true
    → digits_value a (c ∷ s) ≡ digits_value (a * 10 + (c - b'0')) s
unfolding digits_value
digits_value-cons a c s h = rw h refl

digits_value-decimal_onto :
    (fuel n : ℕ) (acc : Text)
    → n < fuel
    → digits_value 0 (decimal_onto fuel n acc) ≡ digits_value n acc
unfolding decimal_onto
digits_value-decimal_onto zero n acc h = absurd (omega arith)
digits_value-decimal_onto (suc fuel) n acc h =
    if_cases (λ t. digits_value 0 t ≡ digits_value n acc) (ltb n 10)
      (λ k.
        digits_value-cons 0 (b'0' + n) acc (ground arith)
        ∙ ap (λ v. digits_value v acc) (omega arith))
      (λ k.
        digits_value-decimal_onto fuel (n / 10) ((b'0' + n % 10) ∷ acc) (ground arith)
        ∙ (digits_value-cons (n / 10) (b'0' + n % 10) acc (ground arith)
            ∙ ap (λ v. digits_value v acc) (omega arith)))

pub decimal-AllDigits : (n : ℕ) → AllDigits (decimal n)
unfolding decimal
decimal-AllDigits n = decimal_onto-AllDigits (suc n) n [] tt

natural_of : (t : Text) → is_empty t ≡ false → natural t ≡ digits_value 0 t
unfolding natural
natural_of [] h = cc
natural_of (c ∷ s) h = refl

decimal-is_empty : (n : ℕ) → is_empty (decimal n) ≡ false
unfolding decimal decimal_onto
decimal-is_empty n =
    if_cases (λ t. is_empty t ≡ false) (ltb n 10) (λ k. refl)
      (λ k. decimal_onto-is_empty n (n / 10) ((b'0' + n % 10) ∷ []) refl)

value-decimal : (n : ℕ) → digits_value 0 (decimal n) ≡ some n
unfolding decimal digits_value
value-decimal n = digits_value-decimal_onto (suc n) n [] (omega arith)

-- Every number that is printed is read back.
pub natural-decimal : (n : ℕ) → natural (decimal n) ≡ some n
natural-decimal n = natural_of (decimal n) (decimal-is_empty n) ∙ value-decimal n

-- A text of digits has no sign, so `atoi` is `natural` within the range.
atoi-digits :
    (t : Text)
    → AllDigits t
    → is_empty t ≡ false
    → atoi t ≡ in_range (2 ^ 63 - 1) (pos (value_or_zero (natural t))) (natural t)
unfolding atoi
atoi-digits [] d h = cc
atoi-digits (c ∷ s) d h =
    let minus : (c == b'-') ≡ false = ground arith in
    let plus : (c == b'+') ≡ false = ground arith in rw (minus, plus) refl

in_range-fits : (n : ℕ) → n < 2 ^ 63 → in_range (2 ^ 63 - 1) (pos n) (some n) ≡ some (pos n)
unfolding in_range
in_range-fits n h = ground arith

pub atoi-decimal : (n : ℕ) → n < 2 ^ 63 → atoi (decimal n) ≡ some (pos n)
atoi-decimal n h =
    atoi-digits (decimal n) (decimal-AllDigits n) (decimal-is_empty n)
    ∙ (ap (λ o. in_range (2 ^ 63 - 1) (pos (value_or_zero o)) o) (natural-decimal n)
        ∙ in_range-fits n h)

-- `cut` finds the first separator behind digits.
pub cut-digits :
    (sep : ℕ) (t rest : Text)
    → AllDigits t
    → is_digit sep ≡ false
    → cut sep (t ++ sep ∷ rest) ≡ (t, rest, true)
unfolding cut
cut-digits sep [] rest d h = ground arith
cut-digits sep (c ∷ s) rest d h =
    let other : (c == sep) ≡ false = ground arith in
    let found = cut-digits sep s rest d.1 h in
    rw other (ap (λ (r : Text × Text × Bool). (c ∷ r.0, r.1, r.2)) found)

trim_left-digits : (t : Text) → AllDigits t → trim_left t ≡ t
unfolding trim_left is_space
trim_left-digits [] d = refl
trim_left-digits (c ∷ s) d = ground arith

reverse_aux-AllDigits : (t acc : Text) → AllDigits t → AllDigits acc → AllDigits (reverse_aux t acc)
reverse_aux-AllDigits [] acc d e = e
reverse_aux-AllDigits (c ∷ s) acc d e = reverse_aux-AllDigits s (c ∷ acc) d.1 (d.0, e)

pub trim_space-digits : (t : Text) → AllDigits t → trim_space t ≡ t
unfolding trim_space
trim_space-digits t d =
    ap (λ x. reverse (trim_left (reverse x))) (trim_left-digits t d)
    ∙ (ap reverse (trim_left-digits (reverse t) (reverse_aux-AllDigits t [] d tt))
        ∙ reverse-reverse t)

-- What stands before the value of some digits can be given.
digits_value-uncons :
    (acc n c : ℕ) (s : Text)
    → digits_value acc (c ∷ s) ≡ some n
    → (is_digit c ≡ true) × (digits_value (acc * 10 + (c - b'0')) s ≡ some n)
unfolding digits_value
digits_value-uncons acc n c s =
    if_cases
      (λ o. o ≡ some n → (is_digit c ≡ true) × (digits_value (acc * 10 + (c - b'0')) s ≡ some n))
      (is_digit c) (λ d h. (d, h)) (λ d h. absurd (cc h))

digits_value_grows : (acc n : ℕ) (t : Text) → digits_value acc t ≡ some n → acc ≤ n
unfolding digits_value
digits_value_grows acc n [] h = omega (arith, some-injective acc n h)
digits_value_grows acc n (c ∷ s) h =
    let (d, k) = digits_value-uncons acc n c s h in
    let below = digits_value_grows (acc * 10 + (c - b'0')) n s k in omega arith

-- Where the digits' value fits in 64 bits, the reading that stops gives it too.
uint_value-digits :
    (acc n : ℕ) (t : Text) → digits_value acc t ≡ some n → n < 2 ^ 64 → uint_value acc t ≡ n
unfolding digits_value uint_value
uint_value-digits acc n [] h l = some-injective acc n h
uint_value-digits acc n (c ∷ s) h l =
    let (d, k) = digits_value-uncons acc n c s h in
    let below = digits_value_grows (acc * 10 + (c - b'0')) n s k in
    let fits : leb (2 ^ 64) (acc * 10 + (c - b'0')) ≡ false = ground arith in
    rw (d, fits) (uint_value-digits (acc * 10 + (c - b'0')) n s k l)

clamped_below : (limit n : ℕ) → n ≤ limit → clamped limit n ≡ n
clamped_below limit n h = ground arith

-- A text of digits has no sign.
atoi_value-digits :
    (t : Text) (n : ℕ) → AllDigits t → uint_value 0 t ≡ n → n < 2 ^ 63 → atoi_value t ≡ pos n
unfolding atoi_value uint_value
atoi_value-digits [] n d h l = ap pos h
atoi_value-digits (c ∷ s) n d h l =
    let minus : (c == b'-') ≡ false = ground arith in
    let plus : (c == b'+') ≡ false = ground arith in
    rw (minus, plus, h) (ap pos (clamped_below (2 ^ 63 - 1) n (omega arith)))

pub atoi_value-decimal : (n : ℕ) → n < 2 ^ 63 → atoi_value (decimal n) ≡ pos n
atoi_value-decimal n h =
    atoi_value-digits (decimal n) n (decimal-AllDigits n)
      (uint_value-digits 0 n (decimal n) (value-decimal n) (omega arith)) h

fields-cons :
    (c : ℕ) (s : Text)
    → fields (c ∷ s) ≡ (if is_space c then fields s else join_word c (starts_word s) (fields s))
unfolding fields
fields-cons c s = refl

fields-space : (s : Text) → fields (b' ' ∷ s) ≡ fields s
unfolding fields is_space
fields-space s = refl

digit_no_space : (c : ℕ) → is_digit c ≡ true → is_space c ≡ false
unfolding is_space
digit_no_space c h = ground arith

fields-digit :
    (c : ℕ) (t rest : Text)
    → AllDigits (c ∷ t)
    → fields ((c ∷ t) ++ b' ' ∷ rest) ≡ (c ∷ t) ∷ fields rest
unfolding is_space
fields-digit c [] rest d =
    fields-cons c (b' ' ∷ rest) ∙ rw (digit_no_space c d.0, fields-space rest) refl
fields-digit c (e ∷ s) rest d =
    fields-cons c (e ∷ (s ++ b' ' ∷ rest))
    ∙ rw (digit_no_space c d.0, digit_no_space e d.1.0, fields-digit e s rest d.1) refl

-- A word of digits that a space ends.
fields-digits :
    (t rest : Text) → AllDigits t → is_empty t ≡ false → fields (t ++ b' ' ∷ rest) ≡ t ∷ fields rest
fields-digits [] rest d h = cc
fields-digits (c ∷ t) rest d h = fields-digit c t rest d

pub fields-decimal :
    (n : ℕ) (rest : Text) → fields (decimal n ++ b' ' ∷ rest) ≡ decimal n ∷ fields rest
fields-decimal n rest = fields-digits (decimal n) rest (decimal-AllDigits n) (decimal-is_empty n)

pub cut_behind_digits :
    (sep : ℕ) (t rest : Text)
    → AllDigits t
    → is_digit sep ≡ false
    → cut sep (t ++ rest) ≡ (t ++ (cut sep rest).0, (cut sep rest).1, (cut sep rest).2)
unfolding cut
cut_behind_digits sep [] rest d h = refl
cut_behind_digits sep (c ∷ s) rest d h =
    let other : (c == sep) ≡ false = ground arith in
    let found = cut_behind_digits sep s rest d.1 h in
    rw other (ap (λ (r : Text × Text × Bool). (c ∷ r.0, r.1, r.2)) found)
