-- ===== src/Media/Stream/Rx/Totals.antt =====
-- The totals of the receive statistics over single packets.
use xk6_sip.Common.{ℕ, ◌+◌, ◌<◌, ◌≡◌, ◌≢◌, true, none, arith}
use xk6_sip.Common.Bytes.{u64}
use xk6_sip.Media.Stream.Rx.{RxStats, count_seq, jitter, expected, received_total}

-- Every packet that `countSeq` sees adds one to the packets received, whatever its SSRC and its
-- sequence number, and also where it makes the statistics begin anew.
pub received_total-count_seq :
    (r : RxStats) (ssrc seq : ℕ)
    → r.prev_recv < 18446744073709551616
    → received_total (count_seq r ssrc seq) ≡ u64 (received_total r + 1)
unfolding received_total count_seq
received_total-count_seq r ssrc seq h = ground arith

-- The first packet of another SSRC keeps the loss of the earlier ones: it adds one to what is
-- expected as well, and it brings no difference in transit time into the jitter.
pub count_seq_new_ssrc :
    (r : RxStats) (ssrc seq arrival ts : ℕ)
    → r.prev_exp < 18446744073709551616
    → seq < 65536
    → r.init ≡ true
    → ssrc ≢ r.ssrc
    → (expected (count_seq r ssrc seq) ≡ u64 (expected r + 1))
      × ((jitter (count_seq r ssrc seq) arrival ts).1 ≡ none)
unfolding expected count_seq jitter
count_seq_new_ssrc r ssrc seq arrival ts h s i n = ground arith
