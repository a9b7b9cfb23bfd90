-- ===== src/Media/Stream/Valid/Run.antt =====
-- Any sequence of operations on a stream. An operation that fails leaves the stream as it was.
use xk6_sip.Common.{
  ℕ, ◌+◌, ◌≡◌, refl, Bool, true, false, not, ◌&&◌, Option, none, some, List, [], ◌∷◌, arith,
  if◌then◌else◌, leb, ◌==◌, Bool-cases, if_both, inl, inr,
}
use xk6_sip.Common.Int.{ℤ, pos, negsuc}
use xk6_sip.Common.Text.{Text, to_upper}
use xk6_sip.Media.Stream.Rx.{count_seq, jitter}
use xk6_sip.Common.Bytes.{u32}
use xk6_sip.Media.Codec.{Codec, codec_by_pt, frame_samples}
use xk6_sip.Media.Sdp.{Direction, UdpAddr, Remote, Resolver, choose}
use xk6_sip.Media.Audio.{Audio}
use xk6_sip.Media.Stream.Dtmf.{DtmfJob, jobs_of, event_packets, next_dtmf}
use xk6_sip.Media.Stream.State.{
  Stream, Stats, Config, Drawn, new_stream, start, set_direction, close, or_default_audio,
}
use xk6_sip.Media.Stream.Negotiation.{
  offer, answer, answer_with, apply_answer, apply_with, update, answer_sdp,
}
use xk6_sip.Media.Stream.Sender.{
  Net, Queued, queued, invalid_digit, not_negotiated, send_dtmf, queue_if_valid, queue_jobs, tick,
  is_sending, packet_for, counted,
}
use xk6_sip.Media.Stream.Receiver.{
  Clock, Rtp, receive, parse_rtp, deliver, deliver_if, dispatch, latch, hear, audio_frame,
  audio_by_pt, loud, is_event,
}
use xk6_sip.Media.Stream.Valid.{
  IsAudio, IsValid, set_remote-IsValid, take_addr-IsValid, audio_packet-IsValid,
}

pub data Operation : Type 0 where
  offers : Direction → Operation
  answers applies updates : Remote → Operation
  starts closes : Operation
  sets : Direction → Operation
  queues : Text → ℕ → Operation
  ticks : Bool → ℕ → Operation
  receives : Clock → UdpAddr → List ℕ → Operation

abbrev or_same : Stream → Option Stream → Stream
or_same s none = s
or_same s (some s') = s'

abbrev answered : Stream → Option (Stream × Text) → Stream
answered s none = s
answered s (some (s', body)) = s'

abbrev or_refused : Stream → Queued → Stream
or_refused s (queued s') = s'
or_refused s invalid_digit = s
or_refused s not_negotiated = s

module _ (r : Resolver) (net : Net) where
  unfoldable pub operate : Stream → Operation → Stream
  operate s (offers d) = (offer s d).0
  operate s (answers m) = answered s (answer r s m)
  operate s (applies m) = or_same s (apply_answer r s m)
  operate s (updates m) = (update r s m).0
  operate s starts = (start s).0
  operate s closes = (close s).0
  operate s (sets d) = set_direction s d
  operate s (queues digits dur) = or_refused s (send_dtmf s digits dur)
  operate s (ticks written now) = (tick written now net s).0
  operate s (receives now from b) = (receive net s now from b).0

  unfoldable pub run : Stream → List Operation → Stream
  run s [] = s
  run s (o ∷ os) = run (operate s o) os

answer_with-IsValid :
    (r : Resolver) (s : Stream) (m : Remote) (o : Option Codec)
    → IsValid s
    → IsValid (answered s (answer_with r s m o))
unfolding answer_with answer_sdp
answer_with-IsValid r s m none v = v
answer_with-IsValid r s m (some c) v = let w = set_remote-IsValid r s m c v in assumption w

apply_with-IsValid :
    (r : Resolver) (s : Stream) (m : Remote) (o : Option Codec)
    → IsValid s
    → IsValid (or_same s (apply_with r s m o))
unfolding apply_with
apply_with-IsValid r s m none v = v
apply_with-IsValid r s m (some c) v = let w = set_remote-IsValid r s m c v in assumption w

update-IsValid : (r : Resolver) (s : Stream) (m : Remote) → IsValid s → IsValid (update r s m).0
unfolding update
update-IsValid r s m v = let w = take_addr-IsValid r s m.addr v in assumption w

start-IsValid : (s : Stream) → IsValid s → IsValid (start s).0
unfolding start
start-IsValid s v =
    if_both (λ (p : Stream × Bool). IsValid p.0) s.started v
      (if_both (λ (p : Stream × Bool). IsValid p.0) s.closed v (assumption v))

close-IsValid : (s : Stream) → IsValid s → IsValid (close s).0
unfolding close
close-IsValid s v = if_both (λ (p : Stream × Stats × Bool). IsValid p.0) s.closed v (assumption v)

queue_if_valid-IsValid :
    (s : Stream) (o : Option (List DtmfJob))
    → IsValid s
    → IsValid (or_refused s (queue_if_valid s o))
unfolding queue_if_valid
queue_if_valid-IsValid s none v = v
queue_if_valid-IsValid s (some jobs) v = queue_jobs-IsValid s.remote_dtmf
  where
    queue_jobs-IsValid : (z : ℤ) → IsValid (or_refused s (queue_jobs s z jobs))
    queue_jobs-IsValid (negsuc n) = v
    queue_jobs-IsValid (pos n) = assumption v

-- A tick that serves `o` and counts its packet.
served-IsValid :
    (s : Stream) (now ts : ℕ) (written : Bool) (net : Net) (o : List DtmfJob × Option DtmfJob)
    → IsValid s
    → s.has_codec ≡ true
    → IsValid (counted written net (packet_for s now ts o)).0
unfolding packet_for counted
served-IsValid s now ts true net (q, none) v c =
    let w = audio_packet-IsValid (record s { dtmf_q = q }) now ts (assumption v) c in assumption w
served-IsValid s now ts true net (q, some j) v c = assumption v
served-IsValid s now ts false net (q, none) v c =
    let w = audio_packet-IsValid (record s { dtmf_q = q }) now ts (assumption v) c in assumption w
served-IsValid s now ts false net (q, some j) v c = assumption v

sending_has_codec : (s : Stream) → is_sending s ≡ true → s.has_codec ≡ true
unfolding is_sending
sending_has_codec s h = ground arith

tick-cases {ℓ} :
    (P : Stream → Type ℓ) (written : Bool) (now : ℕ) (net : Net) (s : Stream)
    → (is_sending s ≡ true
        → P
            (counted written net (
              packet_for
                (record s { ts = u32 (s.ts + frame_samples) })
                now
                s.ts
                (next_dtmf s.dtmf_q))).0)
    → P (record s { ts = u32 (s.ts + frame_samples); marker = true })
    → P (tick written now net s).0
unfolding tick is_sending
tick-cases P written now net s sends silent = elim (Bool-cases (is_sending s)) [
  | inl h ↦ rw h (sends h)
  | inr h ↦ rw h silent
]

tick-IsValid :
    (written : Bool) (now : ℕ) (net : Net) (s : Stream)
    → IsValid s
    → IsValid (tick written now net s).0
tick-IsValid written now net s v =
    tick-cases IsValid written now net s
      (λ h.
        served-IsValid _ now s.ts written net (next_dtmf s.dtmf_q) (assumption v)
          (sending_has_codec s h))
      (assumption v)

hear-signalled :
    (heard n : ℕ)
    → n ≡ (if leb 5 heard then 1 else 0)
    → (if heard + 1 == 5 then n + 1 else n) ≡ (if leb 5 (heard + 1) then 1 else 0)
hear-signalled heard n h = ground arith

hear-IsValid : (s : Stream) → IsValid s → IsValid (hear s)
unfolding hear
hear-IsValid s v = record {
  audio = v.audio;
  source = v.source;
  at_frame = v.at_frame;
  within = v.within;
  signalled = hear-signalled s.heard s.heard_closes v.signalled;
}

audio_frame-IsValid :
    (s : Stream) (now : Clock) (ssrc ts : ℕ) (payload : List ℕ) (table : ℕ → ℤ)
    → IsValid s
    → IsValid (audio_frame s now ssrc ts payload table)
unfolding audio_frame
audio_frame-IsValid s now ssrc ts payload table v =
    let s1 = record s { rx = (jitter s.rx now.arrival ts).0 } in
    let w : IsValid (if loud s1.heard_thr payload table then hear s1 else s1) =
      if_both IsValid (loud s1.heard_thr payload table) (hear-IsValid s1 (assumption v))
        (assumption v) in
    assumption w

audio_by_pt-IsValid :
    (s : Stream) (now : Clock) (p : Rtp) (o : Option Codec)
    → IsValid s
    → IsValid (audio_by_pt s now p o)
unfolding audio_by_pt
audio_by_pt-IsValid s now p none v = v
audio_by_pt-IsValid s now p (some c) v = audio_frame-IsValid s now p.ssrc p.ts p.payload c.decode v

dispatch-IsValid : (s : Stream) (now : Clock) (p : Rtp) → IsValid s → IsValid (dispatch s now p)
unfolding dispatch
dispatch-IsValid s now p v = if_both IsValid (is_event s.remote_dtmf p.pt) (assumption v) (
    if_both IsValid (s.has_codec && p.pt == s.codec.pt)
      (audio_frame-IsValid s now p.ssrc p.ts p.payload s.codec.decode v)
      (audio_by_pt-IsValid s now p (codec_by_pt p.pt) v))

latch-IsValid : (s : Stream) (from : UdpAddr) → IsValid s → IsValid (latch s from)
unfolding latch
latch-IsValid s from v = if_both IsValid (not s.no_latch && not s.latched) (assumption v) v

deliver-IsValid :
    (s : Stream) (now : Clock) (from : UdpAddr) (p : Rtp)
    → IsValid s
    → IsValid (deliver s now from p)
unfolding deliver
deliver-IsValid s now from p v =
    let s1 = latch s from in
    let s2 = record s1 { rx = count_seq s1.rx p.ssrc p.seq } in
    let w : IsValid s2 = (let l = latch-IsValid s from v in assumption l) in
    if_both IsValid s.closed v (dispatch-IsValid s2 now p w)

deliver_if-IsValid :
    (s : Stream) (now : Clock) (from : UdpAddr) (o : Option Rtp)
    → IsValid s
    → IsValid (deliver_if s now from o)
unfolding deliver_if
deliver_if-IsValid s now from none v = v
deliver_if-IsValid s now from (some p) v = deliver-IsValid s now from p v

pub new_stream-IsValid :
    (cfg : Config) (a : Audio) (d : Drawn)
    → IsAudio (or_default_audio cfg.audio a)
    → IsValid (new_stream cfg a d)
unfolding new_stream
new_stream-IsValid cfg a d h = record {
  audio = h;
  source = λ e. absurd (ground arith);
  at_frame = λ e. absurd (ground arith);
  within = λ e. absurd (ground arith);
  signalled = refl;
}

module _ (r : Resolver) (net : Net) where
  -- Every operation keeps a stream valid, the ones that fail too.
  operate-IsValid : (s : Stream) (o : Operation) → IsValid s → IsValid (operate r net s o)
  unfolding operate answer apply_answer send_dtmf receive offer set_direction
  operate-IsValid s (offers d) v = assumption v
  operate-IsValid s (answers m) v = answer_with-IsValid r s m (choose s.codecs m.codecs true) v
  operate-IsValid s (applies m) v = apply_with-IsValid r s m (choose s.codecs m.codecs false) v
  operate-IsValid s (updates m) v = update-IsValid r s m v
  operate-IsValid s starts v = start-IsValid s v
  operate-IsValid s closes v = close-IsValid s v
  operate-IsValid s (sets d) v = assumption v
  operate-IsValid s (queues digits dur) v =
      queue_if_valid-IsValid s (jobs_of (event_packets dur) (to_upper digits)) v
  operate-IsValid s (ticks written now) v = tick-IsValid written now net s v
  operate-IsValid s (receives now from b) v = deliver_if-IsValid s now from (parse_rtp b) v

  run-IsValid : (s : Stream) (os : List Operation) → IsValid s → IsValid (run r net s os)
  unfolding run
  run-IsValid s [] v = v
  run-IsValid s (o ∷ os) v = run-IsValid (operate r net s o) os (operate-IsValid s o v)

  -- A stream made by `New` with a source of whole frames stays valid through any sequence of
  -- operations: it plays its source from a frame's start, in bounds, once a codec is agreed on, and
  -- the channel of `WaitHeard` has been closed once if five loud frames came, and else never.
  pub run-new_stream-IsValid :
      (cfg : Config) (a : Audio) (d : Drawn) (os : List Operation)
      → IsAudio (or_default_audio cfg.audio a)
      → IsValid (run r net (new_stream cfg a d) os)
  run-new_stream-IsValid cfg a d os h = run-IsValid _ os (new_stream-IsValid cfg a d h)
