-- ===== src/Media/Tests.antt =====
-- Concrete runs of media/: two streams that call each other, and what the theorems say of them.
use xk6_sip.Common.{
  ◌==◌, ℕ, ◌+◌, ◌-◌, ◌*◌, ◌≡◌, inl, inr, refl, true, false, none, some, List, [], ◌∷◌, ◌++◌, ◌↔◌,
  arith, if◌then◌else◌, length, replicate, get_or, map,
}
use xk6_sip.Common.Int.{pos, negsuc, ◌+ℤ◌}
use xk6_sip.Common.Text.{Text, codes, to_upper}
use xk6_sip.Common.Bytes.{u16, u64}
use xk6_sip.Media.Scheduler.{Scheduler, add, remove, round}
use xk6_sip.Media.Scheduler.Spread.{ticks, one_if, ticks-round}
use xk6_sip.Media.G711.{alaw_encode, alaw_decode, ulaw_encode, ulaw_decode}
use xk6_sip.Media.G711.Tables.{alaw_encode-alaw_decode, ulaw_encode-ulaw_decode}
use xk6_sip.Media.G711.Quantisation.{IsNear, alaw-IsNear, ulaw-IsNear}
use xk6_sip.Media.Codec.{pcmu, pcma}
use xk6_sip.Media.Sdp.{
  send_recv, send_only, recv_only, build_sdp, is_usable, reverse, sends, receives, UdpAddr, Remote,
  Resolver, choose,
}
use xk6_sip.Media.Sdp.Choice.{choose-none_iff}
use xk6_sip.Media.Audio.Reading.{IsRead, parse_wav-IsRead}
use xk6_sip.Media.Audio.{parse_wav, wav, new_audio, read_chunks, data_chunk, silence}
use xk6_sip.Media.Record.{Track, put, position}
use xk6_sip.Media.Record.Placement.{heard_at, covers, IsPlaced, put-heard, put_reordered}
use xk6_sip.Media.Stream.Rx.{RxStats, new_rx, count_seq, expected, received_total}
use xk6_sip.Media.Stream.Rx.Extended.{seen_first, see_all, count_all, count_all_totals}
use xk6_sip.Media.Stream.Dtmf.{new_job, next_dtmf, event_packets, jobs_of, dtmf_event}
use xk6_sip.Media.Stream.Dtmf.Queue.{total_work, after_tick, after_tick_work, new_jobs}
use xk6_sip.Media.Stream.State.{Stream, Config, Drawn, new_stream, or_default_audio}
use xk6_sip.Media.Stream.Negotiation.{
  answer, apply_answer, take_addr, take_source, set_remote, answer_sdp, answer_with,
}
use xk6_sip.Media.Stream.Negotiation.Outcome.{offer_answer_agree}
use xk6_sip.Media.Stream.Sender.{Net, queued, header, send_dtmf, is_sending}
use xk6_sip.Media.Stream.Receiver.{Clock, parse_rtp}
use xk6_sip.Media.Stream.Receiver.Wire.{parse_rtp-header}
use xk6_sip.Media.Stream.Valid.{IsAudio, IsValid}
use xk6_sip.Media.Stream.Valid.Run.{Operation, run, run-new_stream-IsValid}
use xk6_sip.Media.Stream.EndToEnd.{Linked}
use xk6_sip.Media.Stream.EndToEnd.Spelling.{digits_after, send_dtmf_received}

alaw_encode-alaw_decode_example : alaw_encode (alaw_decode 0x2A) ≡ 0x2A
alaw_encode-alaw_decode_example = alaw_encode-alaw_decode 0x2A (omega arith)

ulaw_encode-ulaw_decode_example : ulaw_encode (ulaw_decode 0x80) ≡ 0x80
ulaw_encode-ulaw_decode_example = ulaw_encode-ulaw_decode 0x80 (omega arith) (ground arith)

alaw-IsNear_example : IsNear (negsuc 1234) (alaw_decode (alaw_encode (negsuc 1234)))
alaw-IsNear_example = alaw-IsNear (negsuc 1234) (omega arith)

ulaw-IsNear_example : IsNear (pos 20000) (ulaw_decode (ulaw_encode (pos 20000)))
ulaw-IsNear_example = ulaw-IsNear (pos 20000) (omega arith)

choose-none_iff_example :
    (choose (pcmu ∷ pcma ∷ []) (pcma ∷ []) true ≡ none)
    ↔ (choose (pcmu ∷ pcma ∷ []) (pcma ∷ []) false ≡ none)
choose-none_iff_example = choose-none_iff (pcmu ∷ pcma ∷ []) (pcma ∷ [])

-- A track whose first frame stands at 1000, with timestamps from 7 on.
abbrev track : Track
track = record { init = true; ssrc = 5; ts0 = 7; off0 = 1000; samples = [] }

abbrev early : List ℕ
early = 1 ∷ 2 ∷ []

abbrev late : List ℕ
late = 3 ∷ 4 ∷ []

early-IsPlaced : IsPlaced track 5 7 early 1000
unfolding position ◌+ℤ◌
early-IsPlaced = record { begun = refl; same = refl; here = refl; fits = ground arith }

late-IsPlaced : IsPlaced track 5 9 late 1002
unfolding position ◌+ℤ◌
late-IsPlaced = record { begun = refl; same = refl; here = refl; fits = ground arith }

put-heard_example : heard_at (put track 2000 5 9 late alaw_decode) 1003 ≡ (
    if covers 1002 (length late) 1003
    then get_or (map alaw_decode late) (1003 - 1002) (pos 0)
    else heard_at track 1003)
put-heard_example = put-heard track 2000 5 9 1002 late alaw_decode 1003 late-IsPlaced

put_reordered_example :
    heard_at (put (put track 2000 5 7 early alaw_decode) 2001 5 9 late alaw_decode) 1003
    ≡ heard_at (put (put track 2000 5 9 late alaw_decode) 2002 5 7 early alaw_decode) 1003
put_reordered_example =
    put_reordered track 5 alaw_decode 7 1000 early 9 1002 late 2000 2001 2000 2002 1003
      early-IsPlaced late-IsPlaced (ground arith)

abbrev stats_before : RxStats
stats_before = record new_rx {
  init = true;
  ssrc = 5;
  base_seq = 65530;
  max_seq = 3;
  cycles = 65536;
  received = 7;
}

-- Packets 65535, 65537, 65536 and 65537 again: 65538 is not among them.
abbrev numbers : List ℕ
numbers = 65537 ∷ 65536 ∷ 65537 ∷ []

count_all_totals_example :
    let r = count_all (count_seq stats_before 9 (u16 65535)) 9 numbers in
    (expected r
      ≡ u64 (expected stats_before + ((see_all (seen_first 65535) numbers).highest - 65535 + 1)))
    × (received_total r ≡ u64 (received_total stats_before + (1 + length numbers)))
count_all_totals_example =
    count_all_totals stats_before 9 65535 numbers (inr (ground arith)) (omega arith) (ground arith)

after_tick_work_example :
    total_work (after_tick 160 (next_dtmf (new_job 5 2 ∷ new_job 6 2 ∷ [])))
    ≡ total_work (new_job 5 2 ∷ new_job 6 2 ∷ []) - 1
after_tick_work_example = after_tick_work 160 (new_job 5 2 ∷ new_job 6 2 ∷ [])

parse_rtp-header_example :
    parse_rtp (header 101 true 65535 4000 77 ++ (9 ∷ 8 ∷ []))
    ≡ some (record { pt = 101; seq = 65535; ts = 4000; ssrc = 77; payload = 9 ∷ 8 ∷ [] })
parse_rtp-header_example =
    parse_rtp-header 101 65535 4000 77 true (9 ∷ 8 ∷ []) (omega arith) (inr (omega arith))
      (omega arith) (omega arith) (omega arith)

-- A packet with one contributing source, and two bytes of padding.
abbrev padded : List ℕ
padded = 0xA1 ∷ 0 ∷ 0 ∷ 1 ∷ 0 ∷ 0 ∷ 0 ∷ 2 ∷ 0 ∷ 0 ∷ 0 ∷ 3 ∷ 0 ∷ 0 ∷ 0 ∷ 4 ∷ 55 ∷ 0 ∷ 2 ∷ []

abbrev addr : UdpAddr
addr = record { ip = codes "10.0.0.1"; port = 4000 }

abbrev config : Config
config = record {
  ip = codes "10.0.0.2";
  codecs = [];
  audio = none;
  no_latch = false;
  record_audio = true;
}

abbrev drawn : Drawn
drawn = record {
  port = 5000;
  sess_id = 1;
  ssrc = 2;
  seq = 65535;
  ts = 4294967200;
  heard_thr = 34000;
}

abbrev net : Net
net = record { packets_in = 0; packets_out = 0; bytes_in = 0; bytes_out = 0 }

abbrev clock : ℕ → Clock
clock n = record { at = 160 * n; arrival = 160 * n }

abbrev resolver : Resolver
resolver = record {
  unmarshal = λ t. none;
  parse_ip = λ t. some t;
  lookup_ip = λ t. [];
  is_unspecified = λ t. false;
}

silence-IsAudio : IsAudio (or_default_audio config.audio silence)
unfolding silence
silence-IsAudio = record { whole = refl; non_empty = ground arith; cache = tt }

abbrev operations : List Operation
operations =
    Operation.offers send_recv ∷ Operation.starts ∷ Operation.ticks true 0 ∷ Operation.closes ∷ []

run-new_stream-IsValid_example :
    IsValid (run resolver net (new_stream config silence drawn) operations)
run-new_stream-IsValid_example =
    run-new_stream-IsValid resolver net config silence drawn operations silence-IsAudio

-- A call with μ-law audio, and events as type 101.
abbrev receiver : Stream
receiver = record {
  ip = codes "10.0.0.2";
  codecs = pcmu ∷ pcma ∷ [];
  audio = silence;
  no_latch = false;
  port = 5000;
  sess_id = 1;
  heard_thr = 34000;
  closed = false;
  version = 1;
  remote = some addr;
  latched = false;
  codec = pcmu;
  has_codec = true;
  remote_dtmf = pos 101;
  dir = send_recv;
  started = true;
  ssrc = 2;
  seq = 65535;
  ts = 4294967200;
  src = replicate 160 255;
  pos = 0;
  marker = true;
  dtmf_q = [];
  sent = 0;
  rx = new_rx;
  heard = 0;
  heard_closes = 0;
  events = record { digits = codes "7"; have_ev = true; last_ev_ts = 12; wakes = 1 };
  rec = none;
}

abbrev sender : Stream
sender = record receiver { dtmf_q = new_jobs 5 (1 ∷ 11 ∷ []) }

sender-Linked : Linked 101 sender receiver
unfolding is_sending sends
sender-Linked = record {
  sending = refl;
  sender_type = refl;
  event_type = ((ground arith), (inr (ground arith)));
  audio_type = ((ground arith), (inl (ground arith)));
  types_differ = ground arith;
  seq_fits = ground arith;
  ts_fits = ground arith;
  ssrc_fits = ground arith;
  jobs_fit = ground arith;
  open_receiver = refl;
  receiver_type = refl;
}

receiver-Linked : Linked 101 receiver receiver
unfolding is_sending sends
receiver-Linked = record {
  sending = refl;
  sender_type = refl;
  event_type = ((ground arith), (inr (ground arith)));
  audio_type = ((ground arith), (inl (ground arith)));
  types_differ = ground arith;
  seq_fits = ground arith;
  ts_fits = ground arith;
  ssrc_fits = ground arith;
  jobs_fit = tt;
  open_receiver = refl;
  receiver_type = refl;
}

sender_queued : send_dtmf receiver (codes "1#") 100 ≡ queued sender
unfolding send_dtmf jobs_of to_upper dtmf_event event_packets
sender_queued = refl

send_dtmf_received_example :
    digits_after (length (codes "1#") * (event_packets 100 + 6)) clock addr net sender receiver
    ≡ receiver.events.digits ++ to_upper (codes "1#")
send_dtmf_received_example =
    send_dtmf_received 101 100 (codes "1#") clock addr net receiver sender receiver receiver-Linked
      refl sender_queued (omega arith) (λ h. ground arith)

abbrev offered : Remote
offered = record { addr = some addr; codecs = pcmu ∷ pcma ∷ []; dtmf_pt = pos 101; dir = send_only }

abbrev accepting : Stream
accepting = record receiver { dir = recv_only; version = 2 }

abbrev accepting_body : Text
accepting_body = build_sdp (codes "10.0.0.2") 5000 (pcmu ∷ []) (pos 101) recv_only 1 2

abbrev answering : Remote
answering = record { addr = some addr; codecs = pcmu ∷ []; dtmf_pt = pos 101; dir = recv_only }

offer_answered : answer resolver receiver offered ≡ some (accepting, accepting_body)
unfolding answer answer_with answer_sdp set_remote take_addr take_source choose reverse is_usable
    silence build_sdp
offer_answered = refl

offer_answer_agree_example :
    (a : Stream) × (apply_answer resolver receiver answering ≡ some a)
    × (a.codec ≡ accepting.codec)
    × (a.dir ≡ offered.dir)
    × (sends a.dir ≡ receives accepting.dir)
    × (receives a.dir ≡ sends accepting.dir)
offer_answer_agree_example =
    offer_answer_agree resolver receiver receiver accepting offered answering accepting_body refl
      offer_answered refl refl

-- A mono file of two samples, behind a chunk of odd length that is none of its own.
abbrev file : List ℕ
file =
    codes "RIFF"
    ++ (0 ∷ 0 ∷ 0 ∷ 0 ∷ codes "WAVE")
    ++ codes "LIST"
    ++ (1 ∷ 0 ∷ 0 ∷ 0 ∷ 7 ∷ 0 ∷ [])
    ++ codes "fmt "
    ++ (16 ∷ 0 ∷ 0 ∷ 0 ∷ 1 ∷ 0 ∷ 1 ∷ 0 ∷ 64 ∷ 31 ∷ 0 ∷ 0 ∷ 128 ∷ 62 ∷ 0 ∷ 0 ∷ 2 ∷ 0 ∷ 16 ∷ 0 ∷ [])
    ++ codes "data"
    ++ (4 ∷ 0 ∷ 0 ∷ 0 ∷ 1 ∷ 0 ∷ 255 ∷ 255 ∷ [])

parse_wav-IsRead_example : IsRead (parse_wav file)
parse_wav-IsRead_example = parse_wav-IsRead file

file_read : parse_wav file ≡ wav (new_audio (pos 1 ∷ negsuc 0 ∷ []))
unfolding parse_wav read_chunks data_chunk
file_read = refl

abbrev scheduler : Scheduler
scheduler = record { shards = (4 ∷ []) ∷ (5 ∷ 6 ∷ []) ∷ []; next = 7; stops = 0 }

ticks-round_example :
    (ticks 9 (round ((add scheduler 9).0)) ≡ ticks 9 (round scheduler) + one_if (9 == 9))
    × (ticks 9 (round (remove ((add scheduler 9).0) ((add scheduler 9).1) 9))
        ≡ ticks 9 (round scheduler))
ticks-round_example = ticks-round scheduler 9 9 refl (omega arith)
