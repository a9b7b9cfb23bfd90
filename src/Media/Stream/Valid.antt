-- ===== src/Media/Stream/Valid.antt =====
-- What holds of a stream between two operations: the source is cut to whole frames and played from
-- a frame's start, and the channel of `WaitHeard` is closed with the fifth loud frame.
pub mod Run
use native.Mathlib.Nat.{mod-eq_of_lt, mod_self}
use native.Mathlib.Decide.{dec_lt}
use xk6_sip.Common.{
  ℕ, zero, suc, ◌+◌, ◌-◌, ◌*◌, ◌/◌, ◌%◌, ◌≤◌, ◌<◌, ◌≡◌, refl, sym, ap, ◌∙◌, Bool, true, false,
  Option, none, some, List, [], ◌∷◌, ◌++◌, arith, length, map, take, drop, replicate, length-map,
  length-take, length-drop, length-replicate, if◌then◌else◌, ltb, leb, min, Option-cases,
  Bool-cases, ◌⊎◌, inl, inr,
}
use xk6_sip.Common.Int.{ℤ, pos, negsuc}
use xk6_sip.Common.Text.{Text, text_eq}
use xk6_sip.Media.Codec.{Codec, frame_samples}
use xk6_sip.Media.Sdp.{UdpAddr, Remote, Resolver, is_usable}
use xk6_sip.Media.Audio.{Audio, new_audio, encoded, cached}
use xk6_sip.Media.Stream.State.{Stream}
use xk6_sip.Media.Stream.Negotiation.{set_remote, take_addr, take_source}
use xk6_sip.Media.Stream.Sender.{Net, tick, packet_for, audio_packet, dtmf_packet}
use xk6_sip.Media.Stream.Receiver.{Clock, Rtp, deliver, audio_frame}

-- The cached encodings have the length of the source.
abbrev pub AllCached : ℕ → List (Text × List ℕ) → Type 0
AllCached n [] = Unit {0}
AllCached n ((k, b) ∷ rest) = (length b ≡ n) × AllCached n rest

pub record IsAudio (a : Audio) : Type 0 where
  pub whole : length a.pcm % frame_samples ≡ 0
  pub non_empty : 0 < length a.pcm
  pub cache : AllCached (length a.pcm) a.enc

pub record IsValid (s : Stream) : Type 0 where
  pub audio : IsAudio s.audio
  pub source : s.has_codec ≡ true → length s.src ≡ length s.audio.pcm
  pub at_frame : s.has_codec ≡ true → s.pos % frame_samples ≡ 0
  pub within : s.has_codec ≡ true → s.pos < length s.src
  pub signalled : s.heard_closes ≡ (if leb 5 s.heard then 1 else 0)

pub new_audio-IsAudio : (pcm : List ℤ) → IsAudio (new_audio pcm)
unfolding new_audio
new_audio-IsAudio pcm = ground (arith, length-take (length pcm / frame_samples * frame_samples) pcm)

cached-AllCached :
    (name : Text) (n : ℕ) (enc : List (Text × List ℕ)) (b : List ℕ)
    → AllCached n enc
    → cached name enc ≡ some b
    → length b ≡ n
unfolding cached
cached-AllCached name n [] b h e = cc
cached-AllCached name n ((k, c) ∷ rest) b h e = ground (arith, cached-AllCached name n rest b h.1)

encoded-IsAudio :
    (a : Audio) (c : Codec)
    → IsAudio a
    → (length (encoded a c).0 ≡ length a.pcm)
      × ((encoded a c).1.pcm ≡ a.pcm)
      × IsAudio (encoded a c).1
encoded-IsAudio a c h = elim (Option-cases (cached c.name a.enc)) [
  | inl e ↦
      unfold encoded in
      rw e (
        length-map a.pcm c.encode,
        refl,
        record {
          whole = h.whole;
          non_empty = h.non_empty;
          cache = (length-map a.pcm c.encode, h.cache);
        },
      )
  | inr (b, e) ↦ unfold encoded in rw e (cached-AllCached c.name _ a.enc b h.cache e, refl, h)
]

-- The position behind a frame.
next_pos :
    (p n : ℕ)
    → p % frame_samples ≡ 0
    → n % frame_samples ≡ 0
    → p < n
    → ((p + frame_samples) % n % frame_samples ≡ 0) × ((p + frame_samples) % n < n)
next_pos p n hp hn h = elim (dec_lt (p + frame_samples) n) [
  | yes inside ↦ rw (mod-eq_of_lt inside) (omega arith, inside)
  | no last ↦
      let end : p + frame_samples ≡ n = omega arith in
      rw (end, mod_self n) (omega arith, omega arith)
]

-- A frame is cut out of the source whole: `tick` slices within it.
pub frame_length :
    (s : Stream)
    → IsValid s
    → s.has_codec ≡ true
    → length (take frame_samples (drop s.pos s.src)) ≡ frame_samples
frame_length s v c =
    let a = v.at_frame c in
    let w = v.within c in
    let whole = v.audio.whole in
    let same = v.source c in
    omega (arith, length-take frame_samples (drop s.pos s.src), length-drop s.pos s.src)

-- What `IsValid` asks of a stream that has a codec.
record IsSourced (s : Stream) : Type 0 where
  audio : IsAudio s.audio
  source : length s.src ≡ length s.audio.pcm
  at_frame : s.pos % frame_samples ≡ 0
  within : s.pos < length s.src
  signalled : s.heard_closes ≡ (if leb 5 s.heard then 1 else 0)

abbrev with_encoded : Stream → List ℕ × Audio → Stream
with_encoded s e = record s { src = e.0; pos = 0; audio = e.1 }

with_encoded-IsSourced :
    (s : Stream) (e : List ℕ × Audio)
    → IsValid s
    → length e.0 ≡ length s.audio.pcm
    → e.1.pcm ≡ s.audio.pcm
    → IsAudio e.1
    → IsSourced (with_encoded s e)
with_encoded-IsSourced s e v l p a = record {
  audio = a;
  source = l ∙ ap length (sym p);
  at_frame = refl;
  within = omega (arith, ap length p, v.audio.non_empty);
  signalled = v.signalled;
}

take_source-cases :
    (s : Stream) (c : Codec)
    → (take_source s c ≡ with_encoded s (encoded s.audio c))
      ⊎ ((s.has_codec ≡ true) × (take_source s c ≡ s))
unfolding take_source
take_source-cases s c = elim (Bool-cases s.has_codec) [
  | inr e ↦ inl (rw e)
  | inl e ↦ elim (Bool-cases (text_eq s.codec.name c.name)) [
    | inr n ↦ inl (rw (e, n))
    | inl n ↦ inr (e, rw (e, n))
  ]
]

take_source-IsSourced : (s : Stream) (c : Codec) → IsValid s → IsSourced (take_source s c)
take_source-IsSourced s c v = elim (take_source-cases s c) [
  | inl e ↦
      let a = encoded-IsAudio s.audio c v.audio in
      rw e (with_encoded-IsSourced s (encoded s.audio c) v a.0 a.1 a.2)
  | inr (h, e) ↦ rw e (record {
    audio = v.audio;
    source = v.source h;
    at_frame = v.at_frame h;
    within = v.within h;
    signalled = v.signalled;
  })
]

pub take_addr-IsValid :
    (r : Resolver) (s : Stream) (addr : Option UdpAddr) → IsValid s → IsValid (take_addr r s addr)
unfolding take_addr
take_addr-IsValid r s addr v = elim (Bool-cases (is_usable r addr)) [
  | inl e ↦ rw e (record {
    audio = v.audio;
    source = v.source;
    at_frame = v.at_frame;
    within = v.within;
    signalled = v.signalled;
  })
  | inr e ↦ rw e v
]

pub set_remote-IsValid :
    (r : Resolver) (s : Stream) (m : Remote) (c : Codec) → IsValid s → IsValid (set_remote r s m c)
unfolding set_remote
set_remote-IsValid r s m c v =
    let t = take_source-IsSourced (take_addr r s m.addr) c (take_addr-IsValid r s m.addr v) in
    record {
      audio = t.audio;
      source = λ _. t.source;
      at_frame = λ _. t.at_frame;
      within = λ _. t.within;
      signalled = t.signalled;
    }

pub audio_packet-IsValid :
    (s : Stream) (now ts : ℕ) → IsValid s → s.has_codec ≡ true → IsValid (audio_packet s now ts).0
unfolding audio_packet
audio_packet-IsValid s now ts v c =
    let n =
      next_pos s.pos (length s.src) (v.at_frame c) (rw (v.source c) v.audio.whole) (v.within c) in
    record {
      audio = v.audio;
      source = v.source;
      at_frame = λ _. n.0;
      within = λ _. n.1;
      signalled = v.signalled;
    }
