-- ===== src/Media/Scheduler/Spread.antt =====
-- How often a stream is ticked in one round.
use xk6_sip.Common.{
  ℕ, zero, suc, ◌+◌, ◌%◌, ◌<◌, ◌≡◌, Bool, List, [], ◌∷◌, ◌++◌, arith, if◌then◌else◌, ◌==◌,
}
use native.Mathlib.Nat.{mod-lt}
use xk6_sip.Common.Bytes.{u64}
use xk6_sip.Media.Scheduler.{
  Scheduler, count_shards, append_at, shard_of, add, remove_stream, remove_at, remove, ticked,
  round,
}

abbrev pub ticks : ℕ → List ℕ → ℕ
ticks x [] = 0
ticks x (y ∷ ys) = let rest = ticks x ys in if y == x then suc rest else rest

abbrev pub one_if : Bool → ℕ
one_if b = if b then 1 else 0

ticks-append : (x : ℕ) (a b : List ℕ) → ticks x (a ++ b) ≡ ticks x a + ticks x b
ticks-append x [] b = omega arith
ticks-append x (y ∷ a) b = ground (arith, ticks-append x a b)

ticks-append_at :
    (x st i : ℕ) (shs : List (List ℕ))
    → i < count_shards shs
    → ticks x (ticked (append_at i st shs)) ≡ ticks x (ticked shs) + one_if (st == x)
unfolding ticked append_at
ticks-append_at x st i [] h = absurd (omega (arith, h))
ticks-append_at x st zero (sh ∷ shs) h = ground (
  arith,
  ticks-append x (sh ++ st ∷ []) (ticked shs),
  ticks-append x sh (st ∷ []),
  ticks-append x sh (ticked shs),
)
ticks-append_at x st (suc i) (sh ∷ shs) h = ground (
  arith,
  ticks-append x sh (ticked (append_at i st shs)),
  ticks-append x sh (ticked shs),
  ticks-append_at x st i shs (omega (arith, h)),
)

ticks-remove_stream :
    (x st : ℕ) (a b : List ℕ)
    → ticks x (remove_stream st (a ++ st ∷ b)) + one_if (st == x) ≡ ticks x (a ++ st ∷ b)
unfolding remove_stream
ticks-remove_stream x st [] b = ground arith
ticks-remove_stream x st (y ∷ a) b =
    ground (arith, ticks-remove_stream x st a b, ticks-append x a (st ∷ b))

ticks-remove_at :
    (x st i : ℕ) (shs : List (List ℕ))
    → i < count_shards shs
    → ticks x (ticked (remove_at i st (append_at i st shs))) ≡ ticks x (ticked shs)
unfolding ticked append_at remove_at
ticks-remove_at x st i [] h = absurd (omega (arith, h))
ticks-remove_at x st zero (sh ∷ shs) h = ground (
  arith,
  ticks-append x (remove_stream st (sh ++ st ∷ [])) (ticked shs),
  ticks-remove_stream x st sh [],
  ticks-append x sh (st ∷ []),
  ticks-append x sh (ticked shs),
)
ticks-remove_at x st (suc i) (sh ∷ shs) h = ground (
  arith,
  ticks-append x sh (ticked (remove_at i st (append_at i st shs))),
  ticks-append x sh (ticked shs),
  ticks-remove_at x st i shs (omega (arith, h)),
)

-- A scheduler with shards that was not closed ticks a stream that it gets once more in each round, and
-- every other stream as often as before; when the stream is removed from its shard, each round
-- is as it was before it came.
pub ticks-round :
    (s : Scheduler) (st x : ℕ)
    → s.stops ≡ 0
    → 0 < count_shards s.shards
    → (ticks x (round ((add s st).0)) ≡ ticks x (round s) + one_if (st == x))
      × (ticks x (round (remove ((add s st).0) ((add s st).1) st)) ≡ ticks x (round s))
unfolding round add remove shard_of
ticks-round s st x h some_shard =
    let n = count_shards s.shards in
    let i = u64 (s.next + 1) % n in
    let less : i < n = mod-lt (u64 (s.next + 1)) some_shard in
    rw h (ticks-append_at x st i s.shards less, ticks-remove_at x st i s.shards less)
