-- ===== src/Media/Stream/State.antt =====
-- media/stream.go: the state of a stream, its statistics and its plain setters.
use xk6_sip.Common.{ℕ, ◌*◌, Bool, true, false, Option, none, some, List, [], ◌∷◌, if◌then◌else◌}
use xk6_sip.Common.Int.{ℤ, negsuc}
use xk6_sip.Common.Text.{Text, contains}
use xk6_sip.Media.Codec.{Codec, pcmu, pcma, no_codec, frame_duration_ms}
use xk6_sip.Media.Sdp.{Direction, send_recv, UdpAddr}
use xk6_sip.Media.Audio.{Audio}
use xk6_sip.Media.Record.{Recorder, new_recorder}
use xk6_sip.Media.Stream.Rx.{RxStats, new_rx, expected, received_total, lost}
use xk6_sip.Media.Stream.Dtmf.{DtmfJob, Digits}

pub record Stream : Type 0 where
  -- the configuration and what `New` draws
  pub ip : Text
  pub codecs : List Codec
  pub audio : Audio
  pub no_latch : Bool
  pub port : ℕ
  pub sess_id : ℕ
  pub heard_thr : ℕ
  -- the negotiation
  pub closed : Bool
  pub version : ℕ
  pub remote : Option UdpAddr
  pub latched : Bool
  pub codec : Codec
  pub has_codec : Bool
  pub remote_dtmf : ℤ
  pub dir : Direction
  pub started : Bool
  -- the sender
  pub ssrc : ℕ  -- uint32
  pub seq : ℕ  -- uint16
  pub ts : ℕ  -- uint32
  pub src : List ℕ
  pub pos : ℕ
  pub marker : Bool
  pub dtmf_q : List DtmfJob
  pub sent : ℕ
  -- the receiver; `heard_closes` counts the closings of the channel `heardCh`
  pub rx : RxStats
  pub heard : ℕ
  pub heard_closes : ℕ
  pub events : Digits
  pub rec : Option Recorder

-- What `New` takes: the configuration, and the numbers that it draws.
pub record Config : Type 0 where
  pub ip : Text
  pub codecs : List Codec
  pub audio : Option Audio
  pub no_latch : Bool
  pub record_audio : Bool

pub record Drawn : Type 0 where
  pub port : ℕ
  pub sess_id : ℕ
  pub ssrc : ℕ
  pub seq : ℕ
  pub ts : ℕ
  pub heard_thr : ℕ

abbrev pub or_default_codecs : List Codec → List Codec
or_default_codecs [] = pcmu ∷ pcma ∷ []
or_default_codecs (c ∷ cs) = c ∷ cs

abbrev pub or_default_audio : Option Audio → Audio → Audio
or_default_audio none a = a
or_default_audio (some b) a = b

-- `New` behind the opening of its socket; `default_audio` is the tone of `DefaultAudio`.
unfoldable pub new_stream : Config → Audio → Drawn → Stream
new_stream cfg default_audio d = record {
  ip = cfg.ip;
  codecs = or_default_codecs cfg.codecs;
  audio = or_default_audio cfg.audio default_audio;
  no_latch = cfg.no_latch;
  port = d.port;
  sess_id = d.sess_id;
  heard_thr = d.heard_thr;
  closed = false;
  version = 0;
  remote = none;
  latched = false;
  codec = no_codec;
  has_codec = false;
  remote_dtmf = negsuc 0;
  dir = send_recv;
  started = false;
  ssrc = d.ssrc;
  seq = d.seq;
  ts = d.ts;
  src = [];
  pos = 0;
  marker = true;
  dtmf_q = [];
  sent = 0;
  rx = new_rx;
  heard = 0;
  heard_closes = 0;
  events = record { digits = []; have_ev = false; last_ev_ts = 0; wakes = 0 };
  rec = if cfg.record_audio then some new_recorder else none;
}

pub record Stats : Type 0 where
  pub codec : Text
  pub packets_sent : ℕ
  pub packets_received : ℕ
  pub packets_expected : ℕ
  pub packets_lost : ℕ
  pub heard_ms : ℕ
  pub dtmf : Text

unfoldable pub codec_name : Stream → Text
codec_name s = if s.has_codec then s.codec.name else []

unfoldable pub stats : Stream → Stats
unfolding codec_name
stats s = record {
  codec = codec_name s;
  packets_sent = s.sent;
  packets_received = received_total s.rx;
  packets_expected = expected s.rx;
  packets_lost = lost s.rx;
  heard_ms = s.heard * frame_duration_ms;
  dtmf = s.events.digits;
}

-- `Start`: whether the scheduler is to take the stream up.
unfoldable pub start : Stream → Stream × Bool
start s =
    if s.started
    then (s, false)
    else if s.closed
    then (s, false)
    else (record s { started = true }, true)

unfoldable pub set_direction : Stream → Direction → Stream
set_direction s d = record s { dir = d }

-- `Close`: the statistics, and whether the scheduler is to drop the stream and the socket closes.
unfoldable pub close : Stream → Stream × Stats × Bool
unfolding stats
close s = if s.closed then (s, stats s, false) else (record s { closed = true }, stats s, true)

-- The test that `WaitDigits` repeats at each signal.
unfoldable pub has_digits : Stream → Text → Bool
has_digits s want = contains s.events.digits want
