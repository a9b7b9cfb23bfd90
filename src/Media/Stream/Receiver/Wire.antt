-- ===== src/Media/Stream/Receiver/Wire.antt =====
-- Packets on the wire: what `header` writes, `parse_rtp` reads.
use xk6_sip.Common.{
  ℕ, ◌<◌, ◌≡◌, ◌⊎◌, refl, ap, Bool, some, List, [], ◌∷◌, ◌++◌, arith, length, take,
}
use xk6_sip.Media.Stream.Sender.{header}
use xk6_sip.Media.Stream.Receiver.{parse_rtp}

take_all : (xs : List ℕ) → take (length xs) xs ≡ xs
take_all [] = refl
take_all (x ∷ xs) = ap (◌∷◌ x) (take_all xs)

-- A packet with the header of `header` is read back as it was sent: its payload type, sequence
-- number, timestamp, SSRC and payload, for every payload and marker, if these fit their fields and
-- the payload type is none of the RTCP types 72 to 76.
pub parse_rtp-header :
    (pt seq ts ssrc : ℕ) (marker : Bool) (payload : List ℕ)
    → pt < 128
    → (pt < 72) ⊎ (76 < pt)
    → seq < 65536
    → ts < 4294967296
    → ssrc < 4294967296
    → parse_rtp (header pt marker seq ts ssrc ++ payload)
      ≡ some (record { pt = pt; seq = seq; ts = ts; ssrc = ssrc; payload = payload })
unfolding parse_rtp header
parse_rtp-header pt seq ts ssrc marker payload hp rtcp hs ht hc = ground (arith, take_all payload)
