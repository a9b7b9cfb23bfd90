-- ===== src/Media/Stream/EndToEnd.antt =====
-- DTMF from one stream to another: the digits that a sender queues are the digits that a receiver
-- reads, through `tick`, the packets on the wire and `receive`.
pub mod Spelling
use xk6_sip.Common.{
  ℕ, zero, suc, ◌+◌, ◌-◌, ◌*◌, ◌%◌, ◌≤◌, ◌<◌, ◌≡◌, ◌≢◌, ◌⊎◌, inl, inr, refl, ap, ◌∙◌, Bool, true,
  false, Option, none, some, List, [], ◌∷◌, ◌++◌, arith, length, map, take, drop, ◌==◌, ◌&&◌, not,
  if◌then◌else◌,
}
use xk6_sip.Common.Int.{ℤ, pos}
use xk6_sip.Common.Bytes.{u8, u32, u64}
use xk6_sip.Media.Codec.{frame_samples}
use xk6_sip.Media.Sdp.{UdpAddr, sends}
use xk6_sip.Media.Stream.Dtmf.{
  DtmfJob, Digits, next_dtmf, stamp, is_end, sent_once, event_payload, receive_dtmf,
}
use xk6_sip.Media.Stream.Dtmf.Queue.{
  Wire, wire_tick, wire_ticks, wire_ticks_read, new_jobs, ticks_of, AllBelow, IsFresh, digit_of,
  after_tick, read_tick,
}
use xk6_sip.Media.Stream.State.{Stream}
use xk6_sip.Media.Stream.Sender.{Net, tick, header, is_sending, packet_for, dtmf_packet, dtmf_byte}
use xk6_sip.Media.Stream.Receiver.{Clock, Rtp, parse_rtp, deliver, receive}
use xk6_sip.Media.Stream.Receiver.Wire.{parse_rtp-header}

-- A payload type that RTP packets on the media port may have.
abbrev pub IsRtpType : ℕ → Type 0
IsRtpType pt = (pt < 128) × ((pt < 72) ⊎ (76 < pt))

abbrev pub JobsFit : List DtmfJob → Type 0
JobsFit [] = Unit {0}
JobsFit (j ∷ q) = (j.ts < 4294967296) × JobsFit q

-- A sender that sends, and a receiver, which agree on the payload type `t` for events; audio has
-- another one.
pub record Linked (t : ℕ) (s r : Stream) : Type 0 where
  pub sending : is_sending s ≡ true
  pub sender_type : s.remote_dtmf ≡ pos t
  pub event_type : IsRtpType t
  pub audio_type : IsRtpType s.codec.pt
  pub types_differ : s.codec.pt ≢ t
  pub seq_fits : s.seq < 65536
  pub ts_fits : s.ts < 4294967296
  pub ssrc_fits : s.ssrc < 4294967296
  pub jobs_fit : JobsFit s.dtmf_q
  pub open_receiver : r.closed ≡ false
  pub receiver_type : r.remote_dtmf ≡ pos t

event_delivered :
    (r : Stream) (now : Clock) (from : UdpAddr) (p : Rtp)
    → r.closed ≡ false
    → r.remote_dtmf ≡ pos p.pt
    → ((deliver r now from p).events ≡ receive_dtmf r.events p.payload p.ts)
      × ((deliver r now from p).closed ≡ false)
      × ((deliver r now from p).remote_dtmf ≡ r.remote_dtmf)
unfolding deliver
event_delivered r now from p c t = ground arith

audio_delivered :
    (r : Stream) (now : Clock) (from : UdpAddr) (p : Rtp) (t : ℕ)
    → r.closed ≡ false
    → r.remote_dtmf ≡ pos t
    → p.pt ≢ t
    → ((deliver r now from p).events ≡ r.events)
      × ((deliver r now from p).closed ≡ false)
      × ((deliver r now from p).remote_dtmf ≡ r.remote_dtmf)
unfolding deliver
audio_delivered r now from p t c e n = ground arith

-- What `next_dtmf` gives: the job to send stands in front of the queue that is left.
abbrev Served : List DtmfJob × Option DtmfJob → Type 0
Served (q, none) = JobsFit q
Served ([], some j) = ⊥
Served (i ∷ q, some j) = (i ≡ j) × (j.ts < 4294967296) × JobsFit q

next_dtmf-Served : (q : List DtmfJob) → JobsFit q → Served (next_dtmf q)
unfolding next_dtmf
next_dtmf-Served [] f = tt
next_dtmf-Served (j ∷ q) f = ground (arith, next_dtmf-Served q f.1)

received : Net → Stream → Clock → UdpAddr → Option (List ℕ) → Stream × Net
received net r now from none = (r, net)
received net r now from (some b) = receive net r now from b

-- Ticks of the sender, over a network that delivers each packet before the next; `clock` has what
-- the clocks say at each tick.
unfoldable pub exchange : ℕ → (ℕ → Clock) → UdpAddr → Net → Stream → Stream → Stream × Stream
unfolding received
exchange zero clock from net s r = (s, r)
exchange (suc n) clock from net s r =
    let (s', net', packet) = tick true (clock n).at net s in
    let (r', net'') = received net' r (clock n) from packet in exchange n clock from net'' s' r'

abbrev wire_of : Stream → Stream → Wire
wire_of s r = record { queue = s.dtmf_q; ts = s.ts; read = r.events }

-- A tick that serves `o`, with the clock moved on.
sent_of : Stream → ℕ → List DtmfJob × Option DtmfJob → Stream × List ℕ
sent_of s now o = packet_for (record s { ts = u32 (s.ts + frame_samples) }) now s.ts o

tick_sends :
    (net : Net) (now : ℕ) (s : Stream)
    → is_sending s ≡ true
    → let o = sent_of s now (next_dtmf s.dtmf_q) in
      ((tick true now net s).0 ≡ record (o.0) { sent = u64 (o.0.sent + 1) })
      × ((tick true now net s).2 ≡ some o.1)
unfolding tick sent_of is_sending
tick_sends net now s h = (rw h, rw h)

-- A stream that has served a tick and counted its packet.
abbrev counted_of : Stream × List ℕ → Stream
counted_of o = record (o.0) { sent = u64 (o.0.sent + 1) }

-- The receiver's side of a link, for a packet with the event type or the audio type.
receive_event :
    (t seq ts ssrc : ℕ) (m : Bool) (payload : List ℕ) (net : Net) (r : Stream) (now : Clock)
    (from : UdpAddr)
    → IsRtpType t
    → seq < 65536
    → ts < 4294967296
    → ssrc < 4294967296
    → r.closed ≡ false
    → r.remote_dtmf ≡ pos t
    → let r' = (receive net r now from (header t m seq ts ssrc ++ payload)).0 in
      (r'.events ≡ receive_dtmf r.events payload ts)
      × (r'.closed ≡ false)
      × (r'.remote_dtmf ≡ pos t)
unfolding receive
receive_event t seq ts ssrc m payload net r now from h q u c o e =
    rw (parse_rtp-header t seq ts ssrc m payload h.0 h.1 q u c) (
      let d =
        event_delivered r now from
          (record { pt = t; seq = seq; ts = ts; ssrc = ssrc; payload = payload }) o e in
      (d.0, d.1, d.2 ∙ e))

receive_audio :
    (pt seq ts ssrc : ℕ) (m : Bool) (payload : List ℕ) (net : Net) (r : Stream) (now : Clock)
    (from : UdpAddr) (t : ℕ)
    → IsRtpType pt
    → pt ≢ t
    → seq < 65536
    → ts < 4294967296
    → ssrc < 4294967296
    → r.closed ≡ false
    → r.remote_dtmf ≡ pos t
    → let r' = (receive net r now from (header pt m seq ts ssrc ++ payload)).0 in
      (r'.events ≡ r.events) × (r'.closed ≡ false) × (r'.remote_dtmf ≡ pos t)
unfolding receive
receive_audio pt seq ts ssrc m payload net r now from t h n q u c o e =
    rw (parse_rtp-header pt seq ts ssrc m payload h.0 h.1 q u c) (
      let d =
        audio_delivered r now from
          (record { pt = pt; seq = seq; ts = ts; ssrc = ssrc; payload = payload }) t o e n in
      (d.0, d.1, d.2 ∙ e))

event_packet :
    (t : ℕ) (s : Stream) (now : ℕ) (i j : DtmfJob) (q : List DtmfJob)
    → s.remote_dtmf ≡ pos t
    → t < 128
    → (m : Bool) × ((sent_of s now (i ∷ q, some j)).1
        ≡ header t m s.seq (sent_once (stamp j s.ts)).ts s.ssrc ++ event_payload (stamp j s.ts))
unfolding sent_of packet_for dtmf_byte
event_packet t s now i j q e h =
    let m = (sent_once (stamp j s.ts)).sent == 1 && not (is_end (stamp j s.ts)) in
    let packet = λ (pt : ℕ).
      header pt m s.seq (sent_once (stamp j s.ts)).ts s.ssrc ++ event_payload (stamp j s.ts) in
    let byte : u8 t ≡ t = omega arith in (m, ap (λ z. packet (dtmf_byte z)) e ∙ ap packet byte)

sent_once_ts :
    (j : DtmfJob) (ts : ℕ)
    → j.ts < 4294967296
    → ts < 4294967296
    → (sent_once (stamp j ts)).ts < 4294967296
unfolding sent_once stamp
sent_once_ts j ts f h = ground arith

abbrev wire : List DtmfJob → ℕ → Digits → Wire
wire q ts d = record { queue = q; ts = ts; read = d }

-- One tick that serves `o`, and the receiver behind it.
Served-tick :
    (t : ℕ) (s r : Stream) (net : Net) (now : Clock) (from : UdpAddr)
    (o : List DtmfJob × Option DtmfJob)
    → Linked t s r
    → Served o
    → let out = sent_of s now.at o in
      let r' = (receive net r now from out.1).0 in
      Linked t (counted_of out) r'
      × (wire_of (counted_of out) r' ≡ record {
        queue = after_tick s.ts o;
        ts = u32 (s.ts + frame_samples);
        read = read_tick s.ts r.events o;
      })
unfolding sent_of packet_for is_sending
Served-tick t s r net now from (q, none) l f =
    let a =
      receive_audio s.codec.pt s.seq s.ts s.ssrc s.marker (take frame_samples (drop s.pos s.src))
        net r now from t l.audio_type l.types_differ l.seq_fits l.ts_fits l.ssrc_fits
        l.open_receiver l.receiver_type in
    (
      record {
        sending = l.sending;
        sender_type = l.sender_type;
        event_type = l.event_type;
        audio_type = l.audio_type;
        types_differ = l.types_differ;
        seq_fits = omega arith;
        ts_fits = omega arith;
        ssrc_fits = l.ssrc_fits;
        jobs_fit = f;
        open_receiver = a.1;
        receiver_type = a.2;
      },
      ap (λ d. wire q (u32 (s.ts + frame_samples)) d) a.0,
    )
Served-tick t s r net now from ([], some j) l f = absurd f
Served-tick t s r net now from (i ∷ q, some j) l f =
    let (m, packet) = event_packet t s now.at i j q l.sender_type l.event_type.0 in
    let fits = sent_once_ts j s.ts f.1 l.ts_fits in
    let a =
      receive_event t s.seq (sent_once (stamp j s.ts)).ts s.ssrc m (event_payload (stamp j s.ts))
        net r now from l.event_type l.seq_fits fits l.ssrc_fits l.open_receiver l.receiver_type in
    let same = ap (λ b. (receive net r now from b).0) packet in
    (
      record {
        sending = l.sending;
        sender_type = l.sender_type;
        event_type = l.event_type;
        audio_type = l.audio_type;
        types_differ = l.types_differ;
        seq_fits = omega arith;
        ts_fits = omega arith;
        ssrc_fits = l.ssrc_fits;
        jobs_fit = (fits, f.2);
        open_receiver = ap (λ (x : Stream). x.closed) same ∙ a.1;
        receiver_type = ap (λ (x : Stream). x.remote_dtmf) same ∙ a.2;
      },
      ap (λ d. wire (sent_once (stamp j s.ts) ∷ q) (u32 (s.ts + frame_samples)) d)
          (ap (λ (x : Stream). x.events) same ∙ a.0),
    )

Linked-tick :
    (t : ℕ) (s r : Stream) (net : Net) (now : Clock) (from : UdpAddr)
    → Linked t s r
    → let out = tick true now.at net s in
      let r' = (received out.1 r now from out.2).0 in
      Linked t out.0 r' × (wire_of out.0 r' ≡ wire_tick (wire_of s r))
unfolding wire_tick received
Linked-tick t s r net now from l =
    let sends = tick_sends net now.at s l.sending in
    rw (sends.0, sends.1)
      (Served-tick t s r (tick true now.at net s).1 now from (next_dtmf s.dtmf_q) l
        (next_dtmf-Served s.dtmf_q l.jobs_fit))

exchange_wire :
    (n t : ℕ) (clock : ℕ → Clock) (from : UdpAddr) (net : Net) (s r : Stream)
    → Linked t s r
    → let x = exchange n clock from net s r in wire_of x.0 x.1 ≡ wire_ticks n (wire_of s r)
unfolding exchange wire_ticks
exchange_wire zero t clock from net s r l = refl
exchange_wire (suc n) t clock from net s r l =
    let out = tick true (clock n).at net s in
    let read = received out.1 r (clock n) from out.2 in
    let step = Linked-tick t s r net (clock n) from l in
    exchange_wire n t clock from read.1 out.0 read.0 step.0 ∙ ap (wire_ticks n) step.1

-- A sender whose queue holds fresh jobs for some events, each of `p + 1` packets (below 2 ^ 24),
-- and a receiver that agrees on the event type and has not just read an event with the sender's
-- timestamp: once the ticks that the jobs take are over, on a network that delivers each packet,
-- the receiver has read the digits of these events, each once and in their order.
pub exchange_digits :
    (t p : ℕ) (evs : List ℕ) (clock : ℕ → Clock) (from : UdpAddr) (net : Net) (s r : Stream)
    → Linked t s r
    → s.dtmf_q ≡ new_jobs (suc p) evs
    → AllBelow 16 evs
    → p < 16777216
    → IsFresh r.events s.ts
    → (exchange (ticks_of (suc p) evs) clock from net s r).1.events.digits
      ≡ r.events.digits ++ map digit_of evs
exchange_digits t p evs clock from net s r l jobs h hp fresh =
    ap (λ (w : Wire). w.read.digits)
      (exchange_wire (ticks_of (suc p) evs) t clock from net s r l
        ∙ ap (λ q. wire_ticks (ticks_of (suc p) evs) (wire q s.ts r.events)) jobs)
    ∙ wire_ticks_read evs p s.ts r.events h hp l.ts_fits fresh
