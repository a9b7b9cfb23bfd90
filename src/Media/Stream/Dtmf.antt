-- ===== src/Media/Stream/Dtmf.antt =====
-- media/stream.go: the queue of RFC 4733 events (`dtmfJob`, `SendDTMF`, `nextDTMF`), the payload
-- that `tick` makes of the job in front, and the receiver of events (`receiveDTMF`).
pub mod Queue
use xk6_sip.Common.{
  ℕ, ◌+◌, ◌-◌, ◌*◌, ◌/◌, ◌≤◌, ◌<◌, ◌≡◌, Bool, true, false, not, ◌&&◌, ◌||◌, Option, none, some,
  List, [], ◌∷◌, ◌++◌, if◌then◌else◌, ltb, leb, ◌==◌, min, max, length, get_or,
}
use xk6_sip.Common.Text.{Text, codes, to_upper}
use xk6_sip.Common.Bytes.{u16, be16, byte_at}
use xk6_sip.Media.Codec.{frame_samples}

pub record DtmfJob : Type 0 where
  pub event : ℕ  -- byte
  pub packets : ℕ
  pub gap : ℕ
  pub sent : ℕ
  pub ended : ℕ
  pub ts : ℕ  -- uint32

-- `dtmfEvents`.
unfoldable pub dtmf_event : ℕ → Option ℕ
dtmf_event c =
    if leb b'0' c && leb c b'9'
    then some (c - b'0')
    else if c == b'*'
    then some 10
    else if c == b'#'
    then some 11
    else if leb b'A' c && leb c b'D'
    then some (c - 53)
    else none

abbrev pub new_job : ℕ → ℕ → DtmfJob
new_job event packets = record {
  event = event;
  packets = packets;
  gap = 3;
  sent = 0;
  ended = 0;
  ts = 0;
}

cons_job : ℕ → Option ℕ → Option (List DtmfJob) → Option (List DtmfJob)
cons_job packets none jobs = none
cons_job packets (some ev) none = none
cons_job packets (some ev) (some jobs) = some (new_job ev packets ∷ jobs)

-- The loop over the digits: `none` where one of them is no digit.
unfoldable pub jobs_of : ℕ → Text → Option (List DtmfJob)
unfolding cons_job
jobs_of packets [] = some []
jobs_of packets (c ∷ s) = cons_job packets (dtmf_event c) (jobs_of packets s)

-- How many 20 ms packets an event of `dur` ms takes; a duration that is not above 0 means 100 ms.
unfoldable pub event_packets : ℕ → ℕ
event_packets dur = let d = if dur == 0 then 100 else dur in max (d / 20) 1

-- The loop of `nextDTMF` drops the jobs that are done. It gives the queue that is left, and the job
-- in front if this tick sends it; otherwise the tick sends audio.
unfoldable pub next_dtmf : List DtmfJob → List DtmfJob × Option DtmfJob
next_dtmf [] = ([], none)
next_dtmf (j ∷ q) =
    if ltb j.sent j.packets || ltb j.ended 3
    then (j ∷ q, some j)
    else if ltb 0 j.gap
    then (record j { gap = j.gap - 1 } ∷ q, none)
    else next_dtmf q

-- What `tick` does to the job that it sends, at the timestamp `ts`.
unfoldable pub stamp : DtmfJob → ℕ → DtmfJob
stamp job ts = if job.sent == 0 then record job { ts = ts } else job

unfoldable pub is_end : DtmfJob → Bool
is_end job = leb job.packets job.sent

unfoldable pub sent_once : DtmfJob → DtmfJob
sent_once job =
    if leb job.packets job.sent
    then record job { ended = job.ended + 1 }
    else record job { sent = job.sent + 1 }

-- The duration field is a uint16.
unfoldable pub event_payload : DtmfJob → List ℕ
event_payload job =
    job.event
    ∷ (if leb job.packets job.sent then 138 else 10)
    ∷ be16 (u16 (min (job.sent + 1) job.packets * frame_samples))

-- The receiver's part of the state; `wakes` counts the signals to `WaitDigits`.
pub record Digits : Type 0 where
  pub digits : Text
  pub have_ev : Bool
  pub last_ev_ts : ℕ  -- uint32
  pub wakes : ℕ

abbrev pub event_digits : Text
event_digits = codes "0123456789*#ABCD"

unfoldable pub receive_dtmf : Digits → List ℕ → ℕ → Digits
receive_dtmf d p ts =
    if ltb (length p) 4 || ltb 15 (byte_at p 0)
    then d
    else if d.have_ev && ts == d.last_ev_ts
    then d
    else record d {
      have_ev = true;
      last_ev_ts = ts;
      digits = d.digits ++ get_or event_digits (byte_at p 0) 0 ∷ [];
      wakes = d.wakes + 1;
    }
