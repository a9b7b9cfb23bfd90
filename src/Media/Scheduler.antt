-- ===== src/Media/Scheduler.antt =====
-- media/scheduler.go: how the streams are spread over the shards that tick them. A stream is known by a
-- number that stands for its pointer; the list that a ticker reads is the shard's own, since each
-- change stores a copy.
pub mod Spread
use xk6_sip.Common.{
  ℕ, zero, suc, ◌+◌, ◌%◌, ◌^◌, Bool, true, false, Option, none, some, List, [], ◌∷◌, ◌++◌,
  if◌then◌else◌, ◌==◌,
}
use xk6_sip.Common.Bytes.{u64}

pub record Scheduler : Type 0 where
  pub shards : List (List ℕ)
  pub next : ℕ  -- uint64
  pub stops : ℕ  -- closings of `stop`, under its `sync.Once`

unfoldable pub no_streams : ℕ → List (List ℕ)
no_streams zero = []
no_streams (suc n) = [] ∷ no_streams n

-- `procs` is GOMAXPROCS.
unfoldable pub new_scheduler : ℕ → ℕ → Scheduler
unfolding no_streams
new_scheduler n procs = record {
  shards = no_streams (if n == 0 then procs else n);
  next = 0;
  stops = 0;
}

unfoldable pub close_scheduler : Scheduler → Scheduler
close_scheduler s = if s.stops == 0 then record s { stops = s.stops + 1 } else s

abbrev pub count_shards : List (List ℕ) → ℕ
count_shards [] = 0
count_shards (sh ∷ shs) = suc (count_shards shs)

unfoldable pub append_at : ℕ → ℕ → List (List ℕ) → List (List ℕ)
append_at i st [] = []
append_at zero st (sh ∷ shs) = (sh ++ st ∷ []) ∷ shs
append_at (suc i) st (sh ∷ shs) = sh ∷ append_at i st shs

-- The shard that a stream goes to, of `n` shards.
unfoldable pub shard_of : ℕ → ℕ → ℕ
shard_of next n = next % n

unfoldable pub add : Scheduler → ℕ → Scheduler × ℕ
unfolding append_at shard_of
add s st =
    let next = u64 (s.next + 1) in
    let i = shard_of next (count_shards s.shards) in
    (record s { next = next; shards = append_at i st s.shards }, i)

-- The first entry of a stream is taken out of its shard.
unfoldable pub remove_stream : ℕ → List ℕ → List ℕ
remove_stream st [] = []
remove_stream st (x ∷ xs) = let rest = remove_stream st xs in if x == st then xs else x ∷ rest

unfoldable pub remove_at : ℕ → ℕ → List (List ℕ) → List (List ℕ)
unfolding remove_stream
remove_at i st [] = []
remove_at zero st (sh ∷ shs) = remove_stream st sh ∷ shs
remove_at (suc i) st (sh ∷ shs) = sh ∷ remove_at i st shs

unfoldable pub remove : Scheduler → ℕ → ℕ → Scheduler
unfolding remove_at
remove s i st = record s { shards = remove_at i st s.shards }

-- One round of all shards: the streams that are ticked, none after the end.
unfoldable pub ticked : List (List ℕ) → List ℕ
ticked [] = []
ticked (sh ∷ shs) = sh ++ ticked shs

unfoldable pub round : Scheduler → List ℕ
unfolding ticked
round s = if s.stops == 0 then ticked s.shards else []
