-- ===== src/Media/Stream/Rx.antt =====
-- media/stream.go: the receive statistics of RFC 3550 (`rxStats`, `countSeq`, `jitter` and the
-- sums of `statsLocked`).
pub mod Totals
pub mod Extended
use xk6_sip.Common.{
  ℕ, ◌+◌, ◌-◌, Bool, true, false, not, ◌&&◌, Option, none, some, if◌then◌else◌, ltb, ◌==◌,
}
use xk6_sip.Common.Int.{abs, signed32}
use xk6_sip.Common.Bytes.{u64, sub16, sub32}

pub record RxStats : Type 0 where
  pub init : Bool
  pub ssrc : ℕ  -- uint32
  pub base_seq : ℕ  -- uint16
  pub max_seq : ℕ  -- uint16
  pub cycles : ℕ  -- uint64
  pub received : ℕ  -- uint64
  pub prev_exp : ℕ  -- uint64
  pub prev_recv : ℕ  -- uint64
  pub last_transit : ℕ  -- uint32
  pub have_transit : Bool

abbrev pub new_rx : RxStats
new_rx = record {
  init = false;
  ssrc = 0;
  base_seq = 0;
  max_seq = 0;
  cycles = 0;
  received = 0;
  prev_exp = 0;
  prev_recv = 0;
  last_transit = 0;
  have_transit = false;
}

-- The packets expected of the present SSRC, in uint64 arithmetic.
unfoldable pub span : RxStats → ℕ
span r = u64 (r.cycles + r.max_seq + 18446744073709551616 - r.base_seq + 1)

-- The first `if`: the counts of a finished SSRC are put aside.
unfoldable pub retire : RxStats → ℕ → RxStats
unfolding span
retire r ssrc =
    if r.init && not (ssrc == r.ssrc)
    then record r {
      prev_exp = u64 (r.prev_exp + span r);
      prev_recv = u64 (r.prev_recv + r.received);
      init = false;
      have_transit = false;
    }
    else r

-- The second `if`: the first packet of an SSRC.
unfoldable pub begin : RxStats → ℕ → ℕ → RxStats
begin r ssrc seq = record {
  init = true;
  ssrc = ssrc;
  base_seq = seq;
  max_seq = seq;
  cycles = 0;
  received = 1;
  prev_exp = r.prev_exp;
  prev_recv = r.prev_recv;
  last_transit = 0;
  have_transit = false;
}

-- The rest: a later packet of the same SSRC.
unfoldable pub advance : RxStats → ℕ → RxStats
advance r seq =
    let delta = sub16 seq r.max_seq in
    let counted = record r { received = u64 (r.received + 1) } in
    if not (delta == 0) && ltb delta 0x8000
    then record counted {
      cycles = if ltb seq r.max_seq then u64 (r.cycles + 65536) else r.cycles;
      max_seq = seq;
    }
    else counted

unfoldable pub count_seq : RxStats → ℕ → ℕ → RxStats
unfolding retire begin advance
count_seq r ssrc seq =
    let r' = retire r ssrc in if r'.init then advance r' seq else begin r' ssrc seq

-- The new state, and the size of the difference in transit time that goes into the jitter.
unfoldable pub jitter : RxStats → ℕ → ℕ → RxStats × Option ℕ
jitter r arrival ts =
    let transit = sub32 arrival ts in
    (
      record r { last_transit = transit; have_transit = true },
      if r.have_transit then some (abs (signed32 (sub32 transit r.last_transit))) else none,
    )

-- The sums of `statsLocked`.
unfoldable pub expected : RxStats → ℕ
unfolding span
expected r = if r.init then u64 (r.prev_exp + span r) else r.prev_exp

unfoldable pub received_total : RxStats → ℕ
received_total r = if r.init then u64 (r.prev_recv + r.received) else r.prev_recv

unfoldable pub lost : RxStats → ℕ
unfolding expected received_total
lost r = if ltb (received_total r) (expected r) then expected r - received_total r else 0
