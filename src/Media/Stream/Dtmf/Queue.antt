-- ===== src/Media/Stream/Dtmf/Queue.antt =====
-- The queue of events, tick by tick: how much is left to send, and what a receiver makes of it.
use xk6_sip.Common.{
  ℕ, zero, suc, ◌+◌, ◌-◌, ◌*◌, ◌<◌, ◌≡◌, ◌≢◌, refl, ap, ◌∙◌, true, Option, none, some, List, [],
  ◌∷◌, ◌++◌, arith, map, get_or,
}
use mathlib.Core.List.{append-nil, append_assoc}
use native.Mathlib.Nat.{zero-add, suc-add}
use xk6_sip.Common.Bytes.{u32}
use xk6_sip.Media.Codec.{frame_samples}
use xk6_sip.Media.Stream.Dtmf.{
  DtmfJob, Digits, new_job, next_dtmf, stamp, sent_once, event_payload, receive_dtmf, event_digits,
}

-- The ticks that a job still takes: event packets, three end packets, the pause.
abbrev pub work : DtmfJob → ℕ
work j = (j.packets - j.sent) + (3 - j.ended) + j.gap

abbrev pub total_work : List DtmfJob → ℕ
total_work [] = 0
total_work (j ∷ q) = work j + total_work q

-- The queue behind a tick that sends.
abbrev pub after_tick : ℕ → List DtmfJob × Option DtmfJob → List DtmfJob
after_tick ts (q, none) = q
after_tick ts ([], some j) = sent_once (stamp j ts) ∷ []
after_tick ts (i ∷ q, some j) = sent_once (stamp j ts) ∷ q

-- Each tick that sends brings the queue of events nearer to its end: the event packets, end packets
-- and pauses that are left to send go down by one, for every queue that has any left.
pub after_tick_work :
    (ts : ℕ) (q : List DtmfJob) → total_work (after_tick ts (next_dtmf q)) ≡ total_work q - 1
unfolding next_dtmf stamp sent_once
after_tick_work ts [] = omega arith
after_tick_work ts (j ∷ q) = ground (arith, after_tick_work ts q)

-- A sender's queue and clock, and what the receiver at the other end has read.
pub record Wire : Type 0 where
  pub queue : List DtmfJob
  pub ts : ℕ
  pub read : Digits

abbrev pub read_tick : ℕ → Digits → List DtmfJob × Option DtmfJob → Digits
read_tick ts d (q, none) = d
read_tick ts d (q, some j) = receive_dtmf d (event_payload (stamp j ts)) (sent_once (stamp j ts)).ts

-- One tick of the sender, whose packet the receiver reads.
unfoldable pub wire_tick : Wire → Wire
wire_tick w = record {
  queue = after_tick w.ts (next_dtmf w.queue);
  ts = u32 (w.ts + frame_samples);
  read = read_tick w.ts w.read (next_dtmf w.queue);
}

unfoldable pub wire_ticks : ℕ → Wire → Wire
wire_ticks zero w = w
wire_ticks (suc n) w = wire_ticks n (wire_tick w)

wire_ticks-add : (m n : ℕ) (w : Wire) → wire_ticks (m + n) w ≡ wire_ticks n (wire_ticks m w)
unfolding wire_ticks
wire_ticks-add zero n w = rw zero-add
wire_ticks-add (suc m) n w = rw suc-add (wire_ticks-add m n (wire_tick w))

-- A job whose event the receiver has read once is read no further.
abbrev HasRead : Digits → DtmfJob → Type 0
HasRead d j = (d.have_ev ≡ true) × (d.last_ev_ts ≡ j.ts)

abbrev job_at : DtmfJob → ℕ → ℕ → ℕ → DtmfJob
job_at j sent ended gap = record j { sent = sent; ended = ended; gap = gap }

abbrev wire : DtmfJob → List DtmfJob → ℕ → Digits → Wire
wire j q ts d = record { queue = j ∷ q; ts = ts; read = d }

event_tick :
    (i : ℕ) (j : DtmfJob) (q : List DtmfJob) (ts : ℕ) (d : Digits)
    → 0 < i
    → i < j.packets
    → HasRead d j
    → wire_tick (wire (job_at j i 0 3) q ts d)
      ≡ wire (job_at j (suc i) 0 3) q (u32 (ts + frame_samples)) d
unfolding wire_tick next_dtmf stamp sent_once event_payload receive_dtmf
event_tick i j q ts d h e r = ground arith

end_tick :
    (e : ℕ) (j : DtmfJob) (q : List DtmfJob) (ts : ℕ) (d : Digits)
    → e < 3
    → 0 < j.packets
    → HasRead d j
    → wire_tick (wire (job_at j j.packets e 3) q ts d)
      ≡ wire (job_at j j.packets (suc e) 3) q (u32 (ts + frame_samples)) d
unfolding wire_tick next_dtmf stamp sent_once event_payload receive_dtmf
end_tick e j q ts d h p r = ground arith

gap_tick :
    (g : ℕ) (j : DtmfJob) (q : List DtmfJob) (ts : ℕ) (d : Digits)
    → wire_tick (wire (job_at j j.packets 3 (suc g)) q ts d)
      ≡ wire (job_at j j.packets 3 g) q (u32 (ts + frame_samples)) d
unfolding wire_tick next_dtmf
gap_tick g j q ts d = ground arith

u32_step :
    (ts k : ℕ)
    → u32 (u32 (ts + frame_samples) + k * frame_samples) ≡ u32 (ts + suc k * frame_samples)
u32_step ts k = omega arith

u32_add :
    (ts m n : ℕ)
    → u32 (u32 (ts + m * frame_samples) + n * frame_samples) ≡ u32 (ts + (m + n) * frame_samples)
u32_add ts m n = omega arith

event_ticks :
    (k i : ℕ) (j : DtmfJob) (q : List DtmfJob) (ts : ℕ) (d : Digits)
    → ts < 4294967296
    → 0 < i
    → i + k ≡ j.packets
    → HasRead d j
    → wire_ticks k (wire (job_at j i 0 3) q ts d)
      ≡ wire (job_at j j.packets 0 3) q (u32 (ts + k * frame_samples)) d
unfolding wire_ticks
event_ticks zero i j q ts d t h e r =
    let done : i ≡ j.packets = omega arith in
    let now : ts ≡ u32 (ts + 0 * frame_samples) = omega arith in cc (done, now)
event_ticks (suc k) i j q ts d t h e r =
    rw (event_tick i j q ts d h (omega arith) r, ← u32_step ts k)
      (event_ticks k (suc i) j q (u32 (ts + frame_samples)) d (omega arith) (omega arith)
        (omega arith) r)

abbrev pub digit_of : ℕ → ℕ
digit_of ev = get_or event_digits ev 0

abbrev read_event : Digits → ℕ → ℕ → Digits
read_event d ev ts = record d {
  have_ev = true;
  last_ev_ts = ts;
  digits = d.digits ++ digit_of ev ∷ [];
  wakes = d.wakes + 1;
}

-- The receiver has not read an event with this timestamp last.
abbrev pub IsFresh : Digits → ℕ → Type 0
IsFresh d ts = d.have_ev ≡ true → d.last_ev_ts ≢ ts

abbrev begun : ℕ → ℕ → ℕ → DtmfJob
begun ev p ts = record (new_job ev p) { ts = ts }

first_tick :
    (ev p : ℕ) (q : List DtmfJob) (ts : ℕ) (d : Digits)
    → ev < 16
    → 0 < p
    → IsFresh d ts
    → wire_tick (wire (new_job ev p) q ts d)
      ≡ wire (job_at (begun ev p ts) 1 0 3) q (u32 (ts + frame_samples)) (read_event d ev ts)
unfolding wire_tick next_dtmf stamp sent_once event_payload receive_dtmf
first_tick ev p q ts d h e fresh = ground arith

end_ticks :
    (k e : ℕ) (j : DtmfJob) (q : List DtmfJob) (ts : ℕ) (d : Digits)
    → ts < 4294967296
    → 0 < j.packets
    → e + k ≡ 3
    → HasRead d j
    → wire_ticks k (wire (job_at j j.packets e 3) q ts d)
      ≡ wire (job_at j j.packets 3 3) q (u32 (ts + k * frame_samples)) d
unfolding wire_ticks
end_ticks zero e j q ts d t p h r =
    let done : e ≡ 3 = omega arith in
    let now : ts ≡ u32 (ts + 0 * frame_samples) = omega arith in cc (done, now)
end_ticks (suc k) e j q ts d t p h r =
    rw (end_tick e j q ts d (omega arith) p r, ← u32_step ts k)
      (end_ticks k (suc e) j q (u32 (ts + frame_samples)) d (omega arith) p (omega arith) r)

gap_ticks :
    (k : ℕ) (j : DtmfJob) (q : List DtmfJob) (ts : ℕ) (d : Digits)
    → ts < 4294967296
    → wire_ticks k (wire (job_at j j.packets 3 k) q ts d)
      ≡ wire (job_at j j.packets 3 0) q (u32 (ts + k * frame_samples)) d
unfolding wire_ticks
gap_ticks zero j q ts d t = let now : ts ≡ u32 (ts + 0 * frame_samples) = omega arith in cc now
gap_ticks (suc k) j q ts d t =
    rw (gap_tick k j q ts d, ← u32_step ts k)
      (gap_ticks k j q (u32 (ts + frame_samples)) d (omega arith))

-- The end packets and the pause.
last_ticks :
    (j : DtmfJob) (q : List DtmfJob) (ts : ℕ) (d : Digits)
    → ts < 4294967296
    → 0 < j.packets
    → HasRead d j
    → wire_ticks 6 (wire (job_at j j.packets 0 3) q ts d)
      ≡ wire (job_at j j.packets 3 0) q (u32 (ts + 6 * frame_samples)) d
last_ticks j q ts d t p r =
    wire_ticks-add 3 3 _
    ∙ ap (wire_ticks 3) (end_ticks 3 0 j q ts d t p (omega arith) r)
    ∙ gap_ticks 3 j q (u32 (ts + 3 * frame_samples)) d (omega arith)
    ∙ ap (λ now. wire (job_at j j.packets 3 0) q now d) (u32_add ts 3 3)

-- A job from its first tick to the end of its pause.
job_ticks :
    (ev p : ℕ) (q : List DtmfJob) (ts : ℕ) (d : Digits)
    → ev < 16
    → ts < 4294967296
    → IsFresh d ts
    → wire_ticks (suc p + 6) (wire (new_job ev (suc p)) q ts d)
      ≡ wire
          (job_at (begun ev (suc p) ts) (suc p) 3 0)
          q
          (u32 (ts + (suc p + 6) * frame_samples))
          (read_event d ev ts)
unfolding wire_ticks
job_ticks ev p q ts d h t fresh =
    let j = begun ev (suc p) ts in
    let d' = read_event d ev ts in
    let t1 = u32 (ts + frame_samples) in
    let t2 = u32 (t1 + p * frame_samples) in
    rw suc-add refl
    ∙ ap (wire_ticks (p + 6)) (first_tick ev (suc p) q ts d h (omega arith) fresh)
    ∙ wire_ticks-add p 6 (wire (job_at j 1 0 3) q t1 d')
    ∙ ap (wire_ticks 6)
        (event_ticks p 1 j q t1 d' (omega arith) (omega arith) (omega arith) (refl, refl))
    ∙ last_ticks j q t2 d' (omega arith) (omega arith) (refl, refl)
    ∙ ap (λ now. wire (job_at j (suc p) 3 0) q now d') (omega arith)

done_tick :
    (j : DtmfJob) (q : List DtmfJob) (ts : ℕ) (d : Digits)
    → wire_tick (wire (job_at j j.packets 3 0) q ts d)
      ≡ wire_tick (record { queue = q; ts = ts; read = d })
unfolding wire_tick next_dtmf
done_tick j q ts d = ground arith

-- A job that is done makes no difference to what is read.
done_skipped :
    (n : ℕ) (j : DtmfJob) (q : List DtmfJob) (ts : ℕ) (d : Digits)
    → (wire_ticks n (wire (job_at j j.packets 3 0) q ts d)).read
      ≡ (wire_ticks n (record { queue = q; ts = ts; read = d })).read
unfolding wire_ticks
done_skipped zero j q ts d = refl
done_skipped (suc n) j q ts d = ap (λ w. (wire_ticks n w).read) (done_tick j q ts d)

abbrev pub new_jobs : ℕ → List ℕ → List DtmfJob
new_jobs p [] = []
new_jobs p (ev ∷ evs) = new_job ev p ∷ new_jobs p evs

abbrev pub AllBelow : ℕ → List ℕ → Type 0
AllBelow n [] = Unit {0}
AllBelow n (x ∷ xs) = (x < n) × AllBelow n xs

-- The ticks that the events take, `p` packets each.
abbrev pub ticks_of : ℕ → List ℕ → ℕ
ticks_of p [] = 0
ticks_of p (ev ∷ evs) = (p + 6) + ticks_of p evs

pub wire_ticks_read :
    (evs : List ℕ) (p : ℕ) (ts : ℕ) (d : Digits)
    → AllBelow 16 evs
    → p < 16777216
    → ts < 4294967296
    → IsFresh d ts
    → (wire_ticks
        (ticks_of (suc p) evs)
        (record { queue = new_jobs (suc p) evs; ts = ts; read = d })).read.digits
      ≡ d.digits ++ map digit_of evs
wire_ticks_read [] p ts d h hp t fresh = unfold wire_ticks in rw append-nil
wire_ticks_read (ev ∷ evs) p ts d h hp t fresh =
    let later = wire_ticks (ticks_of (suc p) evs) in
    let ts' = u32 (ts + (suc p + 6) * frame_samples) in
    let d' = read_event d ev ts in
    ap (λ w. w.read.digits) (wire_ticks-add (suc p + 6) (ticks_of (suc p) evs) _)
    ∙ ap (λ w. (later w).read.digits) (job_ticks ev p (new_jobs (suc p) evs) ts d h.0 t fresh)
    ∙ ap (λ (r : Digits). r.digits)
        (done_skipped (ticks_of (suc p) evs) (begun ev (suc p) ts) (new_jobs (suc p) evs) ts' d')
    ∙ wire_ticks_read evs p ts' d' h.1 hp (omega arith) (λ _. omega arith)
    ∙ append_assoc d.digits (digit_of ev ∷ []) (map digit_of evs)
