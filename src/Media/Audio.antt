-- ===== src/Media/Audio.antt =====
-- media/audio.go: an 8 kHz source, cut to whole frames and encoded once for each codec.
-- Samples are integers (int16), bytes numbers below 256. `Tone`, which computes a sine in floats,
-- is not here.
pub mod Reading
use xk6_sip.Common.{
  ℕ, zero, suc, ◌+◌, ◌-◌, ◌*◌, ◌/◌, ◌%◌, Bool, not, ◌&&◌, ◌||◌, Option, none, some, List, [], ◌∷◌,
  map, if◌then◌else◌, ltb, ◌==◌, length, take, drop, replicate,
}
use xk6_sip.Common.Int.{ℤ, pos, signed16}
use xk6_sip.Common.Text.{Text, codes, text_eq}
use xk6_sip.Common.Bytes.{le16_at, le32_at}
use xk6_sip.Media.Codec.{Codec, frame_samples, sample_rate}

pub record Audio : Type 0 where
  pub pcm : List ℤ
  pub enc : List (Text × List ℕ)  -- the cache, by codec name

unfoldable pub new_audio : List ℤ → Audio
new_audio pcm =
    let n = length pcm / frame_samples * frame_samples in
    record { pcm = if ltb 0 n then take n pcm else replicate frame_samples (pos 0); enc = [] }

unfoldable pub silence : Audio
unfolding new_audio
silence = new_audio (replicate frame_samples (pos 0))

unfoldable pub cached : Text → List (Text × List ℕ) → Option (List ℕ)
cached name [] = none
cached name ((k, b) ∷ rest) = if text_eq k name then some b else cached name rest

add_encoded : Audio → Codec → Option (List ℕ) → List ℕ × Audio
add_encoded a c (some b) = (b, a)
add_encoded a c none = let b = map c.encode a.pcm in (b, record a { enc = (c.name, b) ∷ a.enc })

-- The encoded source, and the source with its cache.
unfoldable pub encoded : Audio → Codec → List ℕ × Audio
unfolding cached add_encoded
encoded a c = add_encoded a c (cached c.name a.enc)

-- The fmt chunk: format, channels, rate and bits.
pub record WavFormat : Type 0 where
  pub format : ℕ
  pub channels : ℕ
  pub rate : ℕ
  pub bits : ℕ

pub data Wav : Type 0 where
  wav : Audio → Wav
  not_riff short_fmt data_before_fmt no_data out_of_fuel : Wav
  wrong_format : WavFormat → Wav

read_format : List ℕ → WavFormat
read_format body = record {
  format = le16_at body 0;
  channels = le16_at body 2;
  rate = le32_at body 4;
  bits = le16_at body 14;
}

read_samples : List ℕ → List ℤ
read_samples [] = []
read_samples (a ∷ []) = []
read_samples (a ∷ b ∷ bytes) = signed16 (a + b * 256) ∷ read_samples bytes

is_pcm : WavFormat → Bool
is_pcm f = f.format == 1 && f.bits == 16 && f.channels == 1 && f.rate == sample_rate

unfoldable pub data_chunk : Option WavFormat → List ℕ → Wav
unfolding is_pcm read_samples new_audio
data_chunk none body = data_before_fmt
data_chunk (some f) body = if is_pcm f then wav (new_audio (read_samples body)) else wrong_format f

-- The loop over the chunks, on what is left of the file behind `p`; `f` is the fmt chunk read.
unfoldable pub read_chunks : ℕ → Option WavFormat → List ℕ → Wav
unfolding read_format data_chunk
read_chunks zero f rest = out_of_fuel
read_chunks (suc fuel) f rest =
    let size =
      (if ltb (length rest - 8) (le32_at rest 4) then length rest - 8 else le32_at rest 4) in
    let body = take size (drop 8 rest) in
    let is_fmt = text_eq (take 4 rest) (codes "fmt ") in
    let next =
      read_chunks fuel (if is_fmt then some (read_format body) else f)
        (drop (8 + size + size % 2) rest) in
    if ltb (length rest) 8
    then no_data
    else if is_fmt
    then (if ltb size 16 then short_fmt else next)
    else if text_eq (take 4 rest) (codes "data")
    then data_chunk f body
    else next

-- `ParseWAV`. Each round takes 8 bytes at least, so the length of the file is fuel enough.
unfoldable pub parse_wav : List ℕ → Wav
unfolding read_chunks
parse_wav bytes =
    if ltb (length bytes) 12
      || not (text_eq (take 4 bytes) (codes "RIFF"))
      || not (text_eq (take 4 (drop 8 bytes)) (codes "WAVE"))
    then not_riff
    else read_chunks (suc (length bytes)) none (drop 12 bytes)
