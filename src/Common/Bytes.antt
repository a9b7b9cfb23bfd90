-- ===== src/Common/Bytes.antt =====
-- Bytes as numbers below 256: the big-endian and little-endian codes of encoding/binary.
use Prim.Native.Nat.{ℕ, ◌+◌, ◌-◌, ◌*◌, ◌/◌, ◌%◌}
use mathlib.Core.List.{List, [], ◌∷◌}
use xk6_sip.Common.Lists.{get_or}

abbrev pub u8 : ℕ → ℕ
u8 n = n % 256

abbrev pub u16 : ℕ → ℕ
u16 n = n % 65536

abbrev pub u32 : ℕ → ℕ
u32 n = n % 4294967296

abbrev pub u64 : ℕ → ℕ
u64 n = n % 18446744073709551616

-- Differences of unsigned words wrap.
abbrev pub sub16 : ℕ → ℕ → ℕ
sub16 a b = (a + 65536 - b) % 65536

abbrev pub sub32 : ℕ → ℕ → ℕ
sub32 a b = (a + 4294967296 - b) % 4294967296

abbrev pub be16 : ℕ → List ℕ
be16 n = n / 256 % 256 ∷ n % 256 ∷ []

abbrev pub be32 : ℕ → List ℕ
be32 n = n / 16777216 % 256 ∷ n / 65536 % 256 ∷ n / 256 % 256 ∷ n % 256 ∷ []

abbrev pub le16 : ℕ → List ℕ
le16 n = n % 256 ∷ n / 256 % 256 ∷ []

abbrev pub le32 : ℕ → List ℕ
le32 n = n % 256 ∷ n / 256 % 256 ∷ n / 65536 % 256 ∷ n / 16777216 % 256 ∷ []

-- The byte at an index, and the words that begin there. The callers test the length first.
abbrev pub byte_at : List ℕ → ℕ → ℕ
byte_at b i = get_or b i 0

abbrev pub be16_at : List ℕ → ℕ → ℕ
be16_at b i = byte_at b i * 256 + byte_at b (i + 1)

abbrev pub be32_at : List ℕ → ℕ → ℕ
be32_at b i =
    byte_at b i * 16777216 + byte_at b (i + 1) * 65536 + byte_at b (i + 2) * 256 + byte_at b (i + 3)

abbrev pub le16_at : List ℕ → ℕ → ℕ
le16_at b i = byte_at b i + byte_at b (i + 1) * 256

abbrev pub le32_at : List ℕ → ℕ → ℕ
le32_at b i =
    byte_at b i + byte_at b (i + 1) * 256 + byte_at b (i + 2) * 65536 + byte_at b (i + 3) * 16777216
