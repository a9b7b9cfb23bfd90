-- ===== src/Media/G711.antt =====
-- media/g711.go: the μ-law and A-law tables of G.711.
pub mod Tables
pub mod Quantisation
use xk6_sip.Common.{
  ℕ, ◌+◌, ◌-◌, ◌*◌, ◌/◌, ◌%◌, ◌^◌, bit_and, bit_or, bit_xor, Bool, List, [], ◌∷◌, ltb, leb,
  if◌then◌else◌, ◌==◌,
}
use xk6_sip.Common.Int.{ℤ, pos, negsuc, abs, sub_ℕ, shr_ℤ, to_int16}

abbrev pub seg_u_end : List ℕ
seg_u_end = 0x3F ∷ 0x7F ∷ 0xFF ∷ 0x1FF ∷ 0x3FF ∷ 0x7FF ∷ 0xFFF ∷ 0x1FFF ∷ []

abbrev pub seg_a_end : List ℕ
seg_a_end = 0x1F ∷ 0x3F ∷ 0x7F ∷ 0xFF ∷ 0x1FF ∷ 0x3FF ∷ 0x7FF ∷ 0xFFF ∷ []

-- The loop over the eight ends; `i` counts the rounds. After the last one the result is 8.
segment_from : ℕ → ℕ → List ℕ → ℕ
segment_from i v [] = 8
segment_from i v (e ∷ es) = if leb v e then i else segment_from (i + 1) v es

pub segment : ℕ → List ℕ → ℕ
unfolding segment_from
segment v ends = segment_from 0 v ends

abbrev is_negative : ℤ → Bool
is_negative (pos n) = Bool.false
is_negative (negsuc n) = Bool.true

-- The part of `UlawEncode` behind the test for the sign.
pub ulaw_encode_size : ℕ → ℕ → ℕ
unfolding segment
ulaw_encode_size size mask =
    let v = (if ltb 8159 size then 8159 else size) + 33 in
    let seg = segment v seg_u_end in
    if leb 8 seg
    then bit_xor 0x7F mask % 256
    else bit_xor (bit_or (seg * 16) (bit_and (v / 2 ^ (seg + 1)) 0x0F)) mask % 256

pub ulaw_encode : ℤ → ℕ
unfolding ulaw_encode_size
ulaw_encode sample =
    let v = shr_ℤ sample 2 in
    if is_negative v then ulaw_encode_size (abs v) 0x7F else ulaw_encode_size (abs v) 0xFF

pub ulaw_decode : ℕ → ℤ
ulaw_decode u =
    let w = bit_xor u 0xFF in
    let t = (bit_and w 0x0F * 8 + 0x84) * 2 ^ (bit_and w 0x70 / 16) in
    if bit_and w 0x80 == 0 then to_int16 (sub_ℕ t 0x84) else to_int16 (sub_ℕ 0x84 t)

-- The part of `AlawEncode` behind the test for the sign.
pub alaw_encode_size : ℕ → ℕ → ℕ
unfolding segment
alaw_encode_size v mask =
    let seg = segment v seg_a_end in
    if leb 8 seg
    then bit_xor 0x7F mask % 256
    else (let low = if ltb seg 2 then bit_and (v / 2) 0x0F else bit_and (v / 2 ^ seg) 0x0F in
        bit_xor (bit_or (seg * 16) low) mask % 256)

-- `-v - 1` is `abs v - 1` for a negative `v`.
pub alaw_encode : ℤ → ℕ
unfolding alaw_encode_size
alaw_encode sample =
    let v = shr_ℤ sample 3 in
    if is_negative v then alaw_encode_size (abs v - 1) 0x55 else alaw_encode_size (abs v) 0xD5

alaw_size : ℕ → ℕ → ℕ
alaw_size low seg =
    if seg == 0 then low + 8 else if seg == 1 then low + 0x108 else (low + 0x108) * 2 ^ (seg - 1)

pub alaw_decode : ℕ → ℤ
unfolding alaw_size
alaw_decode a =
    let w = bit_xor a 0x55 in
    let t = alaw_size (bit_and w 0x0F * 16) (bit_and w 0x70 / 16) in
    if bit_and w 0x80 == 0 then to_int16 (sub_ℕ 0 t) else to_int16 (pos t)
