-- ===== src/Media/Audio/Reading.antt =====
-- What the reading of a WAV file comes to.
use xk6_sip.Common.{
  ℕ, zero, suc, ◌+◌, ◌-◌, ◌%◌, ◌≤◌, ◌<◌, ◌≡◌, false, not, ◌||◌, Option, none, some, List, arith,
  if◌then◌else◌, ltb, length, take, drop, length-drop, if_both, if_cases,
}
use xk6_sip.Common.Text.{codes, text_eq}
use xk6_sip.Common.Bytes.{le32_at}
use xk6_sip.Media.Audio.{
  Wav, wav, not_riff, short_fmt, data_before_fmt, no_data, out_of_fuel, wrong_format, WavFormat,
  data_chunk, is_pcm, read_samples, read_format, read_chunks, parse_wav,
}
use xk6_sip.Media.Stream.Valid.{IsAudio, new_audio-IsAudio}

-- A source of whole frames, or an error of the file; never that the loop has not come to its end.
abbrev pub IsRead : Wav → Type 0
IsRead (wav a) = IsAudio a
IsRead out_of_fuel = ⊥
IsRead (wrong_format f) = Unit {0}
IsRead not_riff = Unit {0}
IsRead short_fmt = Unit {0}
IsRead data_before_fmt = Unit {0}
IsRead no_data = Unit {0}

data_chunk-IsRead : (f : Option WavFormat) (body : List ℕ) → IsRead (data_chunk f body)
unfolding data_chunk
data_chunk-IsRead none body = tt
data_chunk-IsRead (some f) body =
    if_both IsRead (is_pcm f) (new_audio-IsAudio (read_samples body)) tt

shorter :
    (rest : List ℕ) (n fuel : ℕ)
    → length rest < suc fuel
    → ltb (length rest) 8 ≡ false
    → 8 ≤ n
    → length (drop n rest) < fuel
shorter rest n fuel h k m = ground (arith, length-drop n rest)

read_chunks-IsRead :
    (fuel : ℕ) (f : Option WavFormat) (rest : List ℕ)
    → length rest < fuel
    → IsRead (read_chunks fuel f rest)
unfolding read_chunks
read_chunks-IsRead zero f rest h = absurd (omega arith)
read_chunks-IsRead (suc fuel) f rest h =
    let size = if ltb (length rest - 8) (le32_at rest 4) then length rest - 8 else le32_at rest 4 in
    let body = take size (drop 8 rest) in
    let is_fmt = text_eq (take 4 rest) (codes "fmt ") in
    if_cases IsRead (ltb (length rest) 8) (λ k. tt)
      (λ k.
        let next =
          read_chunks-IsRead fuel (if is_fmt then some (read_format body) else f)
            (drop (8 + size + size % 2) rest)
            (shorter rest (8 + size + size % 2) fuel h k (omega arith)) in
        if_both IsRead is_fmt (if_both IsRead (ltb size 16) tt next)
          (if_both IsRead (text_eq (take 4 rest) (codes "data")) (data_chunk-IsRead f body) next))

-- Every list of bytes is read: as a non-empty source of whole frames, or with an error. The loop over
-- its chunks comes to its end, whatever sizes the chunks claim.
pub parse_wav-IsRead : (bytes : List ℕ) → IsRead (parse_wav bytes)
unfolding parse_wav
parse_wav-IsRead bytes =
    if_both IsRead
      (ltb (length bytes) 12
        || not (text_eq (take 4 bytes) (codes "RIFF"))
        || not (text_eq (take 4 (drop 8 bytes)) (codes "WAVE")))
      tt
      (read_chunks-IsRead (suc (length bytes)) none (drop 12 bytes)
        (omega (arith, length-drop 12 bytes)))
