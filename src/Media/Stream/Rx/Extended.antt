-- ===== src/Media/Stream/Rx/Extended.antt =====
-- The statistics of one SSRC against the packets' true, unwrapped numbers: the refinement of a
-- view that knows the first number, the highest one and the count.
use xk6_sip.Common.{
  ℕ, ◌+◌, ◌-◌, ◌^◌, ◌≤◌, ◌<◌, ◌≡◌, refl, ◌≢◌, ◌⊎◌, true, false, List, [], ◌∷◌, length, max, arith,
}
use xk6_sip.Common.Bytes.{u16, u64}
use xk6_sip.Media.Stream.Rx.{RxStats, count_seq, expected, received_total}

pub record Seen : Type 0 where
  pub first : ℕ
  pub highest : ℕ
  pub count : ℕ

abbrev pub see : Seen → ℕ → Seen
see v n = record v { highest = max v.highest n; count = v.count + 1 }

abbrev pub see_all : Seen → List ℕ → Seen
see_all v [] = v
see_all v (n ∷ ns) = see_all (see v n) ns

-- The packet on the wire has 16 bits of its number.
unfoldable pub count_all : RxStats → ℕ → List ℕ → RxStats
count_all r ssrc [] = r
count_all r ssrc (n ∷ ns) = count_all (count_seq r ssrc (u16 n)) ssrc ns

-- Each number lies within 2 ^ 15 of the highest one before it.
abbrev pub InWindow : Seen → List ℕ → Type 0
InWindow v [] = Unit {0}
InWindow v (n ∷ ns) =
    (n < v.highest + 32768) × (v.highest ≤ n + 32768) × (n < 2 ^ 60) × InWindow (see v n) ns

record Refines (v : Seen) (ssrc : ℕ) (exp recv : ℕ) (r : RxStats) : Type 0 where
  started : r.init ≡ true
  same : r.ssrc ≡ ssrc
  base : r.base_seq ≡ u16 v.first
  top : r.max_seq ≡ u16 v.highest
  ordered : v.first ≤ v.highest
  bounded : v.highest < 2 ^ 60
  unwrapped : r.cycles + r.max_seq + v.first ≡ v.highest + r.base_seq
  counted : r.received ≡ u64 v.count
  kept_exp : r.prev_exp ≡ exp
  kept_recv : r.prev_recv ≡ recv

advance-Refines :
    (v : Seen) (ssrc exp recv n : ℕ) (r : RxStats)
    → Refines v ssrc exp recv r
    → n < v.highest + 32768
    → v.highest ≤ n + 32768
    → n < 2 ^ 60
    → Refines (see v n) ssrc exp recv (count_seq r ssrc (u16 n))
unfolding count_seq
advance-Refines v ssrc exp recv n r s above below small = ground arith

count_all-Refines :
    (v : Seen) (ssrc exp recv : ℕ) (ns : List ℕ) (r : RxStats)
    → Refines v ssrc exp recv r
    → InWindow v ns
    → Refines (see_all v ns) ssrc exp recv (count_all r ssrc ns)
unfolding count_all
count_all-Refines v ssrc exp recv [] r s w = s
count_all-Refines v ssrc exp recv (n ∷ ns) r s w =
    count_all-Refines (see v n) ssrc exp recv ns (count_seq r ssrc (u16 n))
      (advance-Refines v ssrc exp recv n r s w.0 w.1 w.2) w.3

abbrev pub seen_first : ℕ → Seen
seen_first n = record { first = n; highest = n; count = 1 }

begin-Refines :
    (r : RxStats) (ssrc n : ℕ)
    → (r.init ≡ false) ⊎ (ssrc ≢ r.ssrc)
    → n < 2 ^ 60
    → Refines (seen_first n) ssrc (expected r) (received_total r) (count_seq r ssrc (u16 n))
unfolding count_seq expected received_total
begin-Refines r ssrc n fresh small = ground arith

totals_of_Refines :
    (v : Seen) (ssrc exp recv : ℕ) (r : RxStats)
    → Refines v ssrc exp recv r
    → (expected r ≡ u64 (exp + (v.highest - v.first + 1)))
      × (received_total r ≡ u64 (recv + v.count))
unfolding expected received_total
totals_of_Refines v ssrc exp recv r s = ground arith

see_all-first : (v : Seen) (ns : List ℕ) → (see_all v ns).first ≡ v.first
see_all-first v [] = refl
see_all-first v (n ∷ ns) = see_all-first (see v n) ns

see_all-count : (v : Seen) (ns : List ℕ) → (see_all v ns).count ≡ v.count + length ns
see_all-count v [] = omega arith
see_all-count v (n ∷ ns) = omega (arith, see_all-count (see v n) ns)

-- A run of packets of a new SSRC, given by their unwrapped numbers (the first below 2 ^ 60, each
-- later one below 2 ^ 60 too and within 2 ^ 15 of the highest before it, in any order and with any
-- losses and duplicates): what is expected grows by the span from the first number to the highest
-- one, and what is received by the number of packets, both in uint64 arithmetic.
pub count_all_totals :
    (r : RxStats) (ssrc n : ℕ) (ns : List ℕ)
    → (r.init ≡ false) ⊎ (ssrc ≢ r.ssrc)
    → n < 2 ^ 60
    → InWindow (seen_first n) ns
    → let r' = count_all (count_seq r ssrc (u16 n)) ssrc ns in
      (expected r' ≡ u64 (expected r + ((see_all (seen_first n) ns).highest - n + 1)))
      × (received_total r' ≡ u64 (received_total r + (1 + length ns)))
count_all_totals r ssrc n ns fresh small w =
    let t =
      totals_of_Refines (see_all (seen_first n) ns) ssrc (expected r) (received_total r) _
        (count_all-Refines (seen_first n) ssrc _ _ ns _ (begin-Refines r ssrc n fresh small) w) in
    (
      omega (arith, t.0, see_all-first (seen_first n) ns),
      omega (arith, t.1, see_all-count (seen_first n) ns),
    )
