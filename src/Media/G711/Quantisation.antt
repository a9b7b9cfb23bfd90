-- ===== src/Media/G711/Quantisation.antt =====
-- How far a sample moves when media/g711.go encodes and decodes it.
use xk6_sip.Common.{
  ℕ, suc, ◌+◌, ◌-◌, ◌*◌, ◌/◌, ◌≤◌, ◌<◌, ◌≡◌, refl, Bool, true, false, ◌&&◌, arith, leb, every_below,
  every_below_holds,
}
use xk6_sip.Common.Int.{ℤ, pos, negsuc}
use xk6_sip.Media.G711.{
  ulaw_encode, ulaw_encode_size, ulaw_decode, alaw_encode, alaw_encode_size, alaw_decode,
}

-- The 65536 values of an int16.
abbrev pub IsInt16 : ℤ → Type 0
IsInt16 (pos n) = n < 32768
IsInt16 (negsuc n) = n < 32768

-- `t` has the sign of `s`, and lies within 1/32 of the size of `s`, plus 8, of it.
abbrev pub IsNear : ℤ → ℤ → Type 0
IsNear (pos n) (pos m) = (32 * m ≤ 33 * n + 256) × (31 * n ≤ 32 * m + 256)
IsNear (negsuc n) (negsuc m) = (32 * m ≤ 33 * n + 257) × (31 * n ≤ 32 * m + 257)
IsNear _ _ = ⊥

-- All samples from `lo` to `hi` are near the same `t`.
near_above : ℕ → ℕ → ℤ → Bool
near_above lo hi (pos m) = leb (32 * m) (33 * lo + 256) && leb (31 * hi) (32 * m + 256)
near_above lo hi (negsuc m) = false

near_below : ℕ → ℕ → ℤ → Bool
near_below lo hi (pos m) = false
near_below lo hi (negsuc m) = leb (32 * m) (33 * lo + 257) && leb (31 * hi) (32 * m + 257)

near_above_sound :
    (lo hi n : ℕ) (t : ℤ) → near_above lo hi t ≡ true → lo ≤ n → n ≤ hi → IsNear (pos n) t
unfolding near_above
near_above_sound lo hi n (pos m) h p q = ground arith
near_above_sound lo hi n (negsuc m) h p q = cc

near_below_sound :
    (lo hi n : ℕ) (t : ℤ) → near_below lo hi t ≡ true → lo ≤ n → n ≤ hi → IsNear (negsuc n) t
unfolding near_below
near_below_sound lo hi n (pos m) h p q = cc
near_below_sound lo hi n (negsuc m) h p q = ground arith

alaw_above :
    every_below 4096 (λ k. near_above (8 * k) (8 * k + 7) (alaw_decode (alaw_encode_size k 0xD5)))
    ≡ true
unfolding every_below near_above alaw_encode_size alaw_decode
alaw_above = refl

alaw_below :
    every_below 4096 (λ k. near_below (8 * k) (8 * k + 7) (alaw_decode (alaw_encode_size k 0x55)))
    ≡ true
unfolding every_below near_below alaw_encode_size alaw_decode
alaw_below = refl

-- An int16 sample that goes through the A-law code keeps its sign, and moves by at most 1/32 of
-- its size, plus 8.
pub alaw-IsNear : (s : ℤ) → IsInt16 s → IsNear s (alaw_decode (alaw_encode s))
unfolding alaw_encode
alaw-IsNear (pos n) h =
    near_above_sound (8 * (n / 8)) (8 * (n / 8) + 7) n _
      (every_below_holds 4096 _ (n / 8) alaw_above (omega arith)) (omega arith) (omega arith)
alaw-IsNear (negsuc n) h =
    let shifted : suc (n / 8) - 1 ≡ n / 8 = omega arith in
    rw shifted (
      near_below_sound (8 * (n / 8)) (8 * (n / 8) + 7) n _
        (every_below_holds 4096 _ (n / 8) alaw_below (omega arith)) (omega arith) (omega arith))

-- A negative `v` of `UlawEncode` is -(k + 1), for the samples -(4 * k + 1) down to -(4 * k + 4).
ulaw_above :
    every_below 8192 (λ k. near_above (4 * k) (4 * k + 3) (ulaw_decode (ulaw_encode_size k 0xFF)))
    ≡ true
unfolding every_below near_above ulaw_encode_size ulaw_decode
ulaw_above = refl

ulaw_below :
    every_below 8192
      (λ k. near_below (4 * k) (4 * k + 3) (ulaw_decode (ulaw_encode_size (k + 1) 0x7F)))
    ≡ true
unfolding every_below near_below ulaw_encode_size ulaw_decode
ulaw_below = refl

-- An int16 sample that goes through the μ-law code keeps its sign, and moves by at most 1/32 of
-- its size, plus 8.
pub ulaw-IsNear : (s : ℤ) → IsInt16 s → IsNear s (ulaw_decode (ulaw_encode s))
unfolding ulaw_encode
ulaw-IsNear (pos n) h =
    near_above_sound (4 * (n / 4)) (4 * (n / 4) + 3) n _
      (every_below_holds 8192 _ (n / 4) ulaw_above (omega arith)) (omega arith) (omega arith)
ulaw-IsNear (negsuc n) h =
    let shifted : suc (n / 4) ≡ n / 4 + 1 = omega arith in
    rw shifted (
      near_below_sound (4 * (n / 4)) (4 * (n / 4) + 3) n _
        (every_below_holds 8192 _ (n / 4) ulaw_below (omega arith)) (omega arith) (omega arith))
