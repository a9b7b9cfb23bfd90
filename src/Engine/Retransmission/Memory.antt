-- ===== src/Engine/Retransmission/Memory.antt =====
-- How long a socket remembers a message.
use xk6_sip.Common.{ℕ, ◌≤◌, ◌≡◌, Option, some, List, [], ◌∷◌}
use xk6_sip.Common.Text.{Text}
use xk6_sip.Engine.Retransmission.{Message, Socket, find_key, check_retransmission}

-- A key that was seen at `t` or later.
abbrev pub Since : Text → ℕ → Socket → Type 0
Since k t c = (u : ℕ) × (find_key k c.seen ≡ some u) × (t ≤ u)

-- Messages that are written one after another, each at its time.
unfoldable pub write_all : Socket → List (Option Message × ℕ) → Socket
unfolding check_retransmission
write_all c [] = c
write_all c ((m, now) ∷ ms) = write_all (check_retransmission c m now).0 ms

-- All times lie in a span.
abbrev pub Within : ℕ → ℕ → List (Option Message × ℕ) → Type 0
Within from to [] = Unit {0}
Within from to ((m, now) ∷ ms) = (from ≤ now) × (now ≤ to) × Within from to ms
