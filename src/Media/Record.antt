-- ===== src/Media/Record.antt =====
-- media/record.go: the two tracks of a recording, and the WAV file that is written of them.
-- The position of the clock on the timeline (`recorder.at`, a product of floats) is an argument.
pub mod Placement
use xk6_sip.Common.{
  ℕ, zero, suc, ◌+◌, ◌-◌, ◌*◌, Bool, true, not, ◌||◌, Option, none, some, List, [], ◌∷◌, ◌++◌, map,
  if◌then◌else◌, ltb, ◌==◌, length, set, replicate, max, get_or,
}
use xk6_sip.Common.Int.{ℤ, pos, negsuc, ◌+ℤ◌, signed32, pattern16}
use xk6_sip.Common.Text.{codes}
use xk6_sip.Common.Bytes.{sub32, le16, le32}
use xk6_sip.Media.Codec.{sample_rate}

abbrev pub max_record_samples : ℕ
max_record_samples = 15 * 60 * sample_rate

pub record Track : Type 0 where
  pub init : Bool
  pub ssrc : ℕ  -- uint32
  pub ts0 : ℕ  -- uint32
  pub off0 : ℕ
  pub samples : List ℤ

pub record Recorder : Type 0 where
  pub rx : Track
  pub tx : Track

abbrev pub new_track : Track
new_track = record { init = Bool.false; ssrc = 0; ts0 = 0; off0 = 0; samples = [] }

abbrev pub new_recorder : Recorder
new_recorder = record { rx = new_track; tx = new_track }

-- The loop that stores a payload: one write for each sample.
unfoldable pub overwrite : List ℤ → ℕ → List ℤ → List ℤ
overwrite samples at [] = samples
overwrite samples at (x ∷ xs) = overwrite (set samples at x) (at + 1) xs

-- Silence up to a length.
unfoldable pub pad : ℕ → List ℤ → List ℤ
pad need samples = samples ++ replicate (need - length samples) (pos 0)

unfoldable pub put_at : Track → ℤ → List ℤ → Track
unfolding overwrite pad
put_at t (negsuc n) xs = t
put_at t (pos at) xs =
    if ltb max_record_samples (at + length xs)
    then t
    else record t { samples = overwrite (pad (at + length xs) t.samples) at xs }

unfoldable pub anchor : Track → ℕ → ℕ → ℕ → Track
anchor t now ssrc ts =
    if not t.init || not (ssrc == t.ssrc)
    then record t { init = true; ssrc = ssrc; ts0 = ts; off0 = now }
    else t

-- Where a frame goes: the distance of its timestamp from the first one, as an int32.
unfoldable pub position : Track → ℕ → ℤ
position t ts = pos t.off0 +ℤ signed32 (sub32 ts t.ts0)

unfoldable pub put : Track → ℕ → ℕ → ℕ → List ℕ → (ℕ → ℤ) → Track
unfolding put_at anchor position
put t now ssrc ts payload table =
    let t' = anchor t now ssrc ts in put_at t' (position t' ts) (map table payload)

pub record Recording : Type 0 where
  pub heard : List ℤ
  pub sent : List ℤ

unfoldable pub recording : Option Recorder → Option Recording
recording none = none
recording (some r) = some (record { heard = r.rx.samples; sent = r.tx.samples })

-- The loop over the `n` frames of the file from frame `i` on; the shorter track is padded.
frames : Recording → ℕ → ℕ → List ℕ
frames r i zero = []
frames r i (suc n) =
    le16 (pattern16 (get_or r.heard i (pos 0)))
    ++ le16 (pattern16 (get_or r.sent i (pos 0)))
    ++ frames r (i + 1) n

wav_header : ℕ → List ℕ
wav_header n =
    codes "RIFF"
    ++ (le32 (36 + 4 * n)
        ++ (codes "WAVEfmt "
            ++ (le32 16
                ++ (le16 1
                    ++ (le16 2
                        ++ (le32 sample_rate
                            ++ (le32 (sample_rate * 4)
                                ++ (le16 4 ++ (le16 16 ++ (codes "data" ++ le32 (4 * n)))))))))))

-- `WriteWAV`: the bytes that are handed to the writer.
unfoldable pub write_wav : Recording → List ℕ
unfolding frames wav_header
write_wav r = let n = max (length r.heard) (length r.sent) in wav_header n ++ frames r 0 n
