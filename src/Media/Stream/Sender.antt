-- ===== src/Media/Stream/Sender.antt =====
-- media/stream.go: one packet in each 20 ms (`tick`, `header`), and the queueing of DTMF
-- (`SendDTMF`). A packet goes out where the socket takes it; whether it does is an argument, like
-- the position of the clock on the recording. The process-wide counters are `Net`.
use xk6_sip.Common.{
  ℕ, ◌+◌, ◌-◌, ◌%◌, Bool, true, false, not, ◌&&◌, ◌||◌, Option, none, some, List, [], ◌∷◌, ◌++◌,
  if◌then◌else◌, ◌==◌, length, take, drop,
}
use xk6_sip.Common.Int.{ℤ, pos, negsuc}
use xk6_sip.Common.Text.{Text, to_upper}
use xk6_sip.Common.Bytes.{u8, u16, u32, u64, be16, be32}
use xk6_sip.Media.Codec.{frame_samples}
use xk6_sip.Media.Sdp.{sends}
use xk6_sip.Media.Record.{Recorder, put}
use xk6_sip.Media.Stream.Dtmf.{
  DtmfJob, jobs_of, event_packets, next_dtmf, stamp, is_end, sent_once, event_payload,
}
use xk6_sip.Media.Stream.State.{Stream}

-- `NetStats` of media/netstats.go.
pub record Net : Type 0 where
  pub packets_in : ℕ
  pub packets_out : ℕ
  pub bytes_in : ℕ
  pub bytes_out : ℕ

pub data Queued : Type 0 where
  queued : Stream → Queued
  invalid_digit not_negotiated : Queued

unfoldable pub queue_jobs : Stream → ℤ → List DtmfJob → Queued
queue_jobs s (negsuc n) jobs = not_negotiated
queue_jobs s (pos n) jobs = queued (record s { dtmf_q = s.dtmf_q ++ jobs })

unfoldable pub queue_if_valid : Stream → Option (List DtmfJob) → Queued
unfolding queue_jobs
queue_if_valid s none = invalid_digit
queue_if_valid s (some jobs) = queue_jobs s s.remote_dtmf jobs

-- `SendDTMF`; the duration is in ms, 0 for one that is not positive.
unfoldable pub send_dtmf : Stream → Text → ℕ → Queued
unfolding queue_if_valid
send_dtmf s digits dur = queue_if_valid s (jobs_of (event_packets dur) (to_upper digits))

-- The 12 bytes of the header.
unfoldable pub header : ℕ → Bool → ℕ → ℕ → ℕ → List ℕ
header pt marker seq ts ssrc =
    0x80 ∷ (pt % 128 + (if marker then 128 else 0)) ∷ (be16 seq ++ (be32 ts ++ be32 ssrc))

-- `uint8(s.remoteDTMF)`.
unfoldable pub dtmf_byte : ℤ → ℕ
dtmf_byte (pos n) = u8 n
dtmf_byte (negsuc n) = u8 (255 - n % 256)

-- A packet to send and the state behind it, apart from the counters.
unfoldable pub dtmf_packet : Stream → ℕ → List DtmfJob → DtmfJob → Stream × List ℕ
unfolding header dtmf_byte stamp is_end sent_once event_payload
dtmf_packet s ts rest job =
    let job1 = stamp job ts in
    let job2 = sent_once job1 in
    (
      record s { dtmf_q = job2 ∷ rest; seq = u16 (s.seq + 1) },
      header (dtmf_byte s.remote_dtmf) (job2.sent == 1 && not (is_end job1)) s.seq job2.ts s.ssrc
          ++ event_payload job1,
    )

record_sent : Option Recorder → ℕ → ℕ → ℕ → List ℕ → (ℕ → ℤ) → Option Recorder
record_sent none now ssrc ts frame table = none
record_sent (some r) now ssrc ts frame table =
    some (record r { tx = put r.tx now ssrc ts frame table })

unfoldable pub audio_packet : Stream → ℕ → ℕ → Stream × List ℕ
unfolding header record_sent
audio_packet s now ts =
    let frame = take frame_samples (drop s.pos s.src) in
    (
      record s {
        rec = record_sent s.rec now s.ssrc ts frame s.codec.decode;
        pos = (s.pos + frame_samples) % length s.src;
        marker = false;
        seq = u16 (s.seq + 1);
      },
      header s.codec.pt s.marker s.seq ts s.ssrc ++ frame,
    )

tail_of : List DtmfJob → List DtmfJob
tail_of [] = []
tail_of (j ∷ q) = q

unfoldable pub packet_for : Stream → ℕ → ℕ → List DtmfJob × Option DtmfJob → Stream × List ℕ
unfolding dtmf_packet audio_packet tail_of
packet_for s now ts (q, none) = audio_packet (record s { dtmf_q = q }) now ts
packet_for s now ts (q, some job) = dtmf_packet (record s { dtmf_q = q }) ts (tail_of q) job

abbrev is_some {ℓ} : {A : Type ℓ} → Option A → Bool
is_some none = false
is_some (some a) = true

-- Whether a tick sends anything.
unfoldable pub is_sending : Stream → Bool
is_sending s = not (s.closed || not (is_some s.remote) || not s.has_codec || not (sends s.dir))

unfoldable pub counted : Bool → Net → Stream × List ℕ → Stream × Net
counted false net (s, packet) = (s, net)
counted true net (s, packet) = (
  record s { sent = u64 (s.sent + 1) },
  record net {
    packets_out = u64 (net.packets_out + 1);
    bytes_out = u64 (net.bytes_out + length packet);
  },
)

-- `tick`: the state, the counters, and the packet that is handed to the socket.
unfoldable pub tick : Bool → ℕ → Net → Stream → Stream × Net × Option (List ℕ)
unfolding is_sending next_dtmf packet_for counted
tick written now net s =
    let ts = s.ts in
    let s1 = record s { ts = u32 (s.ts + frame_samples) } in
    let sent = packet_for s1 now ts (next_dtmf s1.dtmf_q) in
    if is_sending s1
    then (let (s2, net2) = counted written net sent in (s2, net2, some sent.1))
    else (record s1 { marker = true }, net, none)
