-- ===== src/Media/Stream/Receiver.antt =====
-- media/stream.go: what comes in on the socket (`readLoop`, `receive`, `audioFrame`, `loud`).
-- A packet is read into its parts by `parse_rtp`, up to the slice of its payload; `deliver` is the
-- rest of `receive`, under the lock.
pub mod Wire
use xk6_sip.Common.{
  ℕ, ◌+◌, ◌-◌, ◌*◌, ◌/◌, ◌%◌, Bool, true, false, not, ◌&&◌, ◌||◌, Option, none, some, List, [], ◌∷◌,
  if◌then◌else◌, ltb, leb, ◌==◌, length, take, drop,
}
use xk6_sip.Common.Int.{ℤ, pos, negsuc, abs}
use xk6_sip.Common.Bytes.{u64, byte_at, be16_at, be32_at}
use xk6_sip.Media.Codec.{Codec, codec_by_pt, default_dtmf_pt}
use xk6_sip.Media.Sdp.{UdpAddr}
use xk6_sip.Media.Record.{Recorder, put}
use xk6_sip.Media.Stream.Rx.{RxStats, count_seq, jitter}
use xk6_sip.Media.Stream.Dtmf.{receive_dtmf}
use xk6_sip.Media.Stream.State.{Stream}
use xk6_sip.Media.Stream.Sender.{Net}

pub record Rtp : Type 0 where
  pub pt : ℕ
  pub seq : ℕ
  pub ts : ℕ
  pub ssrc : ℕ
  pub payload : List ℕ

-- The length of the header with its contributing sources and its extension; `none` where the
-- extension is cut off.
unfoldable pub header_length : List ℕ → Option ℕ
header_length b =
    let hl = 12 + 4 * (byte_at b 0 % 16) in
    if byte_at b 0 / 16 % 2 == 0
    then some hl
    else if ltb (length b) (hl + 4)
    then none
    else some (hl + (4 + 4 * be16_at b (hl + 2)))

-- The end of the payload. `-` stops at 0, below every header.
unfoldable pub payload_end : List ℕ → ℕ
payload_end b = if byte_at b 0 / 32 % 2 == 0 then length b else length b - byte_at b (length b - 1)

slice : List ℕ → ℕ → ℕ → List ℕ
slice b from to = take (to - from) (drop from b)

rtp_of : List ℕ → Option ℕ → Option Rtp
unfolding payload_end slice
rtp_of b none = none
rtp_of b (some hl) =
    if ltb (payload_end b) hl
    then none
    else some (record {
      pt = byte_at b 1 % 128;
      seq = be16_at b 2;
      ts = be32_at b 4;
      ssrc = be32_at b 8;
      payload = slice b hl (payload_end b);
    })

-- The datagrams that are no RTP: too short, another version, or RTCP.
is_not_rtp : List ℕ → Bool
is_not_rtp b =
    ltb (length b) 12
    || not (byte_at b 0 / 64 == 2)
    || leb 72 (byte_at b 1 % 128) && leb (byte_at b 1 % 128) 76

unfoldable pub parse_rtp : List ℕ → Option Rtp
unfolding is_not_rtp header_length rtp_of
parse_rtp b = if is_not_rtp b then none else rtp_of b (header_length b)

-- The sum of `loud`, an int64 that 1500 squares of int16 do not overflow.
unfoldable pub energy : List ℕ → (ℕ → ℤ) → ℕ
energy [] table = 0
energy (x ∷ xs) table = abs (table x) * abs (table x) + energy xs table

unfoldable pub loud : ℕ → List ℕ → (ℕ → ℤ) → Bool
unfolding energy
loud thr payload table =
    if length payload == 0 then false else ltb thr (energy payload table / length payload)

abbrev pub heard_frames : ℕ
heard_frames = 5

-- A loud frame; the fifth one closes the channel that `WaitHeard` waits for.
unfoldable pub hear : Stream → Stream
hear s =
    let n = s.heard + 1 in
    record s {
      heard = n;
      heard_closes = if n == heard_frames then s.heard_closes + 1 else s.heard_closes;
    }

unfoldable pub record_heard : Option Recorder → ℕ → ℕ → ℕ → List ℕ → (ℕ → ℤ) → Option Recorder
record_heard none now ssrc ts payload table = none
record_heard (some r) now ssrc ts payload table =
    some (record r { rx = put r.rx now ssrc ts payload table })

-- What the clock says when a packet arrives: the position on the recording, and the arrival time
-- in timestamp units.
pub record Clock : Type 0 where
  pub at : ℕ
  pub arrival : ℕ  -- uint32

unfoldable pub audio_frame : Stream → Clock → ℕ → ℕ → List ℕ → (ℕ → ℤ) → Stream
unfolding jitter loud hear record_heard
audio_frame s now ssrc ts payload table =
    let s1 = record s { rx = (jitter s.rx now.arrival ts).0 } in
    let s2 = if loud s1.heard_thr payload table then hear s1 else s1 in
    record s2 { rec = record_heard s2.rec now.at ssrc ts payload table }

-- The two tests of the first case of the switch.
unfoldable pub is_event : ℤ → ℕ → Bool
is_event (pos n) pt = pt == n
is_event (negsuc n) pt = pt == default_dtmf_pt

unfoldable pub audio_by_pt : Stream → Clock → Rtp → Option Codec → Stream
unfolding audio_frame
audio_by_pt s now p none = s
audio_by_pt s now p (some c) = audio_frame s now p.ssrc p.ts p.payload c.decode

unfoldable pub latch : Stream → UdpAddr → Stream
latch s from =
    if not s.no_latch && not s.latched then record s { remote = some from; latched = true } else s

unfoldable pub dispatch : Stream → Clock → Rtp → Stream
unfolding is_event audio_frame audio_by_pt receive_dtmf
dispatch s now p =
    if is_event s.remote_dtmf p.pt
    then record s { events = receive_dtmf s.events p.payload p.ts }
    else if s.has_codec && p.pt == s.codec.pt
    then audio_frame s now p.ssrc p.ts p.payload s.codec.decode
    else audio_by_pt s now p (codec_by_pt p.pt)

unfoldable pub deliver : Stream → Clock → UdpAddr → Rtp → Stream
unfolding latch count_seq dispatch
deliver s now from p =
    let s1 = latch s from in
    let s2 = record s1 { rx = count_seq s1.rx p.ssrc p.seq } in
    if s.closed then s else dispatch s2 now p

unfoldable pub deliver_if : Stream → Clock → UdpAddr → Option Rtp → Stream
unfolding deliver
deliver_if s now from none = s
deliver_if s now from (some p) = deliver s now from p

-- `receive`, with the counters of `readLoop`.
unfoldable pub receive : Net → Stream → Clock → UdpAddr → List ℕ → Stream × Net
unfolding deliver_if
receive net s now from b = (
  deliver_if s now from (parse_rtp b),
  record net { packets_in = u64 (net.packets_in + 1); bytes_in = u64 (net.bytes_in + length b) },
)
