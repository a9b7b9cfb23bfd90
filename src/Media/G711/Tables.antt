-- ===== src/Media/G711/Tables.antt =====
-- The two tables of media/g711.go against the encoders, byte by byte.
use xk6_sip.Common.{
  ℕ, ◌<◌, ◌≡◌, ◌≢◌, refl, true, ◌||◌, arith, ◌==◌, ==_iff, every_below, every_below_holds,
}
use xk6_sip.Media.G711.{ulaw_encode, ulaw_decode, alaw_encode, alaw_decode}

alaw_table : every_below 256 (λ a. alaw_encode (alaw_decode a) == a) ≡ true
unfolding every_below alaw_encode alaw_decode
alaw_table = refl

-- Encoding what an A-law byte stands for gives that byte back, for each of the 256 bytes.
pub alaw_encode-alaw_decode : (a : ℕ) → a < 256 → alaw_encode (alaw_decode a) ≡ a
alaw_encode-alaw_decode a h = (==_iff _ a).0 (every_below_holds 256 _ a alaw_table h)

ulaw_table : every_below 256 (λ u. u == 0x7F || ulaw_encode (ulaw_decode u) == u) ≡ true
unfolding every_below ulaw_encode ulaw_decode
ulaw_table = refl

-- Encoding what a μ-law byte stands for gives that byte back, for each byte but 0x7F, the
-- negative zero.
pub ulaw_encode-ulaw_decode : (u : ℕ) → u < 256 → u ≢ 0x7F → ulaw_encode (ulaw_decode u) ≡ u
ulaw_encode-ulaw_decode u h other = ground (arith, every_below_holds 256 _ u ulaw_table h)
