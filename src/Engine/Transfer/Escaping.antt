-- ===== src/Engine/Transfer/Escaping.antt =====
-- What is escaped is read back, and holds no separator.
use xk6_sip.Common.{
  ℕ, ◌/◌, ◌%◌, ◌<◌, ◌≡◌, refl, ap, ◌∙◌, Bool, true, false, some, [], ◌∷◌, ◌++◌, ◌==◌, arith,
  if_cases,
}
use xk6_sip.Common.Text.{Text, cut, split, cons_piece}
use xk6_sip.Engine.Transfer.{
  is_unreserved, hex_digit, escape_byte, query_escape, is_hex, hex_value, plain, cons_byte,
  unescape, query_unescape,
}

abbrev pub AreBytes : Text → Type 0
AreBytes [] = Unit {0}
AreBytes (c ∷ s) = (c < 256) × AreBytes s

hex-value :
    (n : ℕ)
    → n < 16
    → (is_hex (hex_digit n) ≡ true)
      × (hex_value (hex_digit n) ≡ n)
      × (is_unreserved (hex_digit n) ≡ true)
unfolding hex_digit hex_value
hex-value n h = ground arith

unescape-byte :
    (c : ℕ) (t : Text)
    → c < 256
    → unescape plain (escape_byte c ++ t) ≡ cons_byte c (unescape plain t)
unfolding escape_byte unescape
unescape-byte c t h =
    let hi = hex-value (c / 16) (omega arith) in
    let lo = hex-value (c % 16) (omega arith) in ground (arith, hi, lo)

-- A text of bytes that is escaped is read back.
pub query_unescape-query_escape : (s : Text) → AreBytes s → query_unescape (query_escape s) ≡ some s
unfolding query_unescape query_escape unescape
query_unescape-query_escape [] b = refl
query_unescape-query_escape (c ∷ s) b =
    unescape-byte c (query_escape s) b.0 ∙ ap (cons_byte c) (query_unescape-query_escape s b.1)

-- A text without a separator.
abbrev pub Free : ℕ → Text → Type 0
Free sep [] = Unit {0}
Free sep (c ∷ s) = ((c == sep) ≡ false) × Free sep s

pub append-Free : (sep : ℕ) (s t : Text) → Free sep s → Free sep t → Free sep (s ++ t)
append-Free sep [] t f g = g
append-Free sep (c ∷ s) t f g = (f.0, append-Free sep s t f.1 g)

pub cut-Free : (sep : ℕ) (s rest : Text) → Free sep s → cut sep (s ++ sep ∷ rest) ≡ (s, rest, true)
unfolding cut
cut-Free sep [] rest f = ground arith
cut-Free sep (c ∷ s) rest f =
    rw (f.0) (ap (λ (r : Text × Text × Bool). (c ∷ r.0, r.1, r.2)) (cut-Free sep s rest f.1))

pub split-Free : (sep : ℕ) (s : Text) → Free sep s → split sep s ≡ s ∷ []
unfolding split cons_piece
split-Free sep [] f = refl
split-Free sep (c ∷ s) f = rw (f.0) (ap (cons_piece c) (split-Free sep s f.1))

-- The separators that no escaped text holds.
abbrev pub IsEscaped : ℕ → Type 0
IsEscaped sep = (is_unreserved sep ≡ false) × ((sep == b'+') ≡ false) × ((sep == b'%') ≡ false)

escape_byte-Free : (sep c : ℕ) → IsEscaped sep → c < 256 → Free sep (escape_byte c)
unfolding escape_byte
escape_byte-Free sep c e h =
    let hi = hex-value (c / 16) (omega arith) in
    let lo = hex-value (c % 16) (omega arith) in
    if_cases (Free sep) (is_unreserved c) (λ k. (ground (arith, e), tt))
      (λ k.
        if_cases (Free sep) (c == b' ') (λ x. (ground (arith, e), tt))
          (λ x. (ground (arith, e), (ground (arith, e, hi), (ground (arith, e, lo), tt)))))

pub query_escape-Free :
    (sep : ℕ) (s : Text) → IsEscaped sep → AreBytes s → Free sep (query_escape s)
unfolding query_escape
query_escape-Free sep [] e b = tt
query_escape-Free sep (c ∷ s) e b =
    append-Free sep (escape_byte c) (query_escape s) (escape_byte-Free sep c e b.0)
      (query_escape-Free sep s e b.1)
