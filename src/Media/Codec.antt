-- ===== src/Media/Codec.antt =====
-- media/codec.go: the audio codecs, and how their names and payload types are read.
-- An error is the data type `CodecError`; the text of its message is left out.
use xk6_sip.Common.{ℕ, ◌||◌, Option, none, some, List, [], ◌∷◌, if◌then◌else◌, ◌==◌}
use xk6_sip.Common.Int.{ℤ}
use xk6_sip.Common.Text.{Text, codes, text_eq, is_empty, trim_space, to_upper, split}
use xk6_sip.Media.G711.{ulaw_encode, ulaw_decode, alaw_encode, alaw_decode}

pub record Codec : Type 0 where
  pub name : Text
  pub pt : ℕ  -- uint8
  pub encode : ℤ → ℕ
  pub decode : ℕ → ℤ

abbrev pub pcmu_name : Text
pcmu_name = codes "PCMU"

abbrev pub pcma_name : Text
pcma_name = codes "PCMA"

abbrev pub pcmu : Codec
pcmu = record { name = pcmu_name; pt = 0; encode = ulaw_encode; decode = ulaw_decode }

abbrev pub pcma : Codec
pcma = record { name = pcma_name; pt = 8; encode = alaw_encode; decode = alaw_decode }

-- `Codec{}`: the value of a stream's codec before the first negotiation.
abbrev pub no_codec : Codec
no_codec = record { name = []; pt = 0; encode = λ s. 0; decode = λ b. ℤ.pos 0 }

abbrev pub sample_rate : ℕ
sample_rate = 8000

abbrev pub frame_samples : ℕ
frame_samples = 160

abbrev pub default_dtmf_pt : ℕ
default_dtmf_pt = 101

abbrev pub frame_duration_ms : ℕ
frame_duration_ms = 20

abbrev pub telephone_event : Text
telephone_event = codes "telephone-event"

pub data CodecError : Type 0 where
  unsupported : Text → CodecError
  empty_list : CodecError

pub data Result {ℓ} (A : Type ℓ) : Type ℓ where
  ok : A → Result A
  err : CodecError → Result A

codec_of_word : Text → Text → Result Codec
codec_of_word name word =
    if text_eq word (codes "PCMU") || text_eq word (codes "ULAW") || text_eq word (codes "G711U")
    then ok pcmu
    else if text_eq word (codes "PCMA")
        || text_eq word (codes "ALAW")
        || text_eq word (codes "G711A")
    then ok pcma
    else err (unsupported name)

unfoldable pub codec_by_name : Text → Result Codec
unfolding codec_of_word
codec_by_name name = codec_of_word name (to_upper (trim_space name))

-- One round of the loop of `ParseCodecs`, with what the rounds behind it give.
add_codec : Result Codec → Result (List Codec) → Result (List Codec)
add_codec (err e) rest = err e
add_codec (ok c) (err e) = err e
add_codec (ok c) (ok cs) = ok (c ∷ cs)

parse_names : List Text → Result (List Codec)
unfolding add_codec
parse_names [] = ok []
parse_names (n ∷ ns) =
    let rest = parse_names ns in
    if is_empty (trim_space n) then rest else add_codec (codec_by_name n) rest

non_empty : Result (List Codec) → Result (List Codec)
non_empty (err e) = err e
non_empty (ok []) = err empty_list
non_empty (ok (c ∷ cs)) = ok (c ∷ cs)

unfoldable pub parse_codecs : Text → Result (List Codec)
unfolding parse_names non_empty
parse_codecs list = non_empty (parse_names (split b',' list))

unfoldable pub codec_by_pt : ℕ → Option Codec
codec_by_pt pt = if pt == 0 then some pcmu else if pt == 8 then some pcma else none
