-- ===== src/Media/Stream/EndToEnd/Spelling.antt =====
-- `SendDTMF` against the digits that the other side reads: the codes of the events.
use xk6_sip.Common.{
  ℕ, suc, ◌+◌, ◌-◌, ◌*◌, ◌<◌, ◌≡◌, refl, sym, ap, ap₂, subst, inl, inr, ◌∙◌, Bool, true, ◌&&◌,
  Option, none, some, List, [], ◌∷◌, ◌++◌, arith, map, ltb, ◌==◌, every_below, every_below_holds,
  length, length-map, Option-cases,
}
use xk6_sip.Common.Int.{ℤ, pos, negsuc}
use xk6_sip.Common.Text.{Text, to_upper}
use xk6_sip.Media.Sdp.{UdpAddr}
use xk6_sip.Media.Stream.Dtmf.{DtmfJob, dtmf_event, jobs_of, event_packets, new_job}
use xk6_sip.Media.Stream.Dtmf.Queue.{new_jobs, ticks_of, AllBelow, IsFresh, digit_of}
use xk6_sip.Media.Stream.State.{Stream}
use xk6_sip.Media.Stream.Sender.{Net, queued, queue_jobs, queue_if_valid, send_dtmf, is_sending}
use xk6_sip.Media.Stream.Receiver.{Clock}
use xk6_sip.Media.Stream.EndToEnd.{Linked, JobsFit, exchange, exchange_digits}

-- The digits that the receiver has read after some ticks of the sender.
abbrev pub digits_after : ℕ → (ℕ → Clock) → UdpAddr → Net → Stream → Stream → Text
digits_after n clock from net s r = (exchange n clock from net s r).1.events.digits

reads_back : ℕ → Option ℕ → Bool
reads_back c none = true
reads_back c (some ev) = ltb ev 16 && digit_of ev == c

event_table : every_below 128 (λ c. reads_back c (dtmf_event c)) ≡ true
unfolding every_below reads_back dtmf_event
event_table = refl

dtmf_event_ascii : (c ev : ℕ) → dtmf_event c ≡ some ev → c < 128
unfolding dtmf_event
dtmf_event_ascii c ev h = ground arith

reads_back_sound :
    (c : ℕ) (o : Option ℕ) (ev : ℕ)
    → o ≡ some ev
    → reads_back c o ≡ true
    → (ev < 16) × (digit_of ev ≡ c)
unfolding reads_back
reads_back_sound c none ev e h = cc
reads_back_sound c (some k) ev e h = ground arith

dtmf_event_digit : (c ev : ℕ) → dtmf_event c ≡ some ev → (ev < 16) × (digit_of ev ≡ c)
dtmf_event_digit c ev h =
    reads_back_sound c (dtmf_event c) ev h
      (every_below_holds 128 _ c event_table (dtmf_event_ascii c ev h))

-- Some events whose jobs these are, and whose digits read as the text.
record Spells (n : ℕ) (s : Text) (jobs : List DtmfJob) : Type 0 where
  evs : List ℕ
  are_jobs : jobs ≡ new_jobs n evs
  fit : AllBelow 16 evs
  read_as : map digit_of evs ≡ s

cons_Spells :
    (n c ev : ℕ) (s : Text) (jobs : List DtmfJob)
    → dtmf_event c ≡ some ev
    → Spells n s jobs
    → Spells n (c ∷ s) (new_job ev n ∷ jobs)
cons_Spells n c ev s jobs h sp =
    let d = dtmf_event_digit c ev h in
    record {
      evs = ev ∷ sp.evs;
      are_jobs = ap (λ q. new_job ev n ∷ q) sp.are_jobs;
      fit = (d.0, sp.fit);
      read_as = ap₂ ◌∷◌ d.1 sp.read_as;
    }

jobs_of-Spells :
    (n : ℕ) (s : Text) (jobs : List DtmfJob) → jobs_of n s ≡ some jobs → Spells n s jobs
unfolding jobs_of
jobs_of-Spells n [] jobs h = record { evs = []; are_jobs = ground arith; fit = tt; read_as = refl }
jobs_of-Spells n (c ∷ s) jobs h = elim (Option-cases (dtmf_event c)) [
  | inl e ↦ absurd (ground arith)
  | inr (ev, e) ↦ elim (Option-cases (jobs_of n s)) [
    | inl f ↦ absurd (ground arith)
    | inr (q, f) ↦
        let same : new_job ev n ∷ q ≡ jobs = ground arith in
        subst (Spells n (c ∷ s)) same (cons_Spells n c ev s q e (jobs_of-Spells n s q f))
  ]
]

queue_jobs-queued :
    (s s' : Stream) (z : ℤ) (jobs : List DtmfJob)
    → queue_jobs s z jobs ≡ queued s'
    → s' ≡ record s { dtmf_q = s.dtmf_q ++ jobs }
unfolding queue_jobs
queue_jobs-queued s s' (pos n) jobs h = cc
queue_jobs-queued s s' (negsuc n) jobs h = cc

queue_if_valid-queued :
    (s s' : Stream) (o : Option (List DtmfJob))
    → queue_if_valid s o ≡ queued s'
    → (jobs : List DtmfJob) × (o ≡ some jobs) × (s' ≡ record s { dtmf_q = s.dtmf_q ++ jobs })
unfolding queue_if_valid
queue_if_valid-queued s s' none h = cc
queue_if_valid-queued s s' (some jobs) h = (jobs, refl, queue_jobs-queued s s' s.remote_dtmf jobs h)

-- What a successful `SendDTMF` does: the digits are events, their jobs go to the end of the queue,
-- and nothing else changes.
send_dtmf-queued :
    (s s' : Stream) (digits : Text) (dur : ℕ)
    → send_dtmf s digits dur ≡ queued s'
    → (jobs : List DtmfJob) × (jobs_of (event_packets dur) (to_upper digits) ≡ some jobs)
      × (s' ≡ record s { dtmf_q = s.dtmf_q ++ jobs })
unfolding send_dtmf
send_dtmf-queued s s' digits dur h = queue_if_valid-queued s s' _ h

event_packets_bounds :
    (dur : ℕ)
    → dur < 300000000
    → (event_packets dur ≡ suc (event_packets dur - 1)) × (event_packets dur - 1 < 16777216)
unfolding event_packets
event_packets_bounds dur h = ground arith

new_jobs-JobsFit : (n : ℕ) (evs : List ℕ) → JobsFit (new_jobs n evs)
new_jobs-JobsFit n [] = tt
new_jobs-JobsFit n (ev ∷ evs) = (omega arith, new_jobs-JobsFit n evs)

-- The link stands when the queue of the sender changes.
queue-Linked :
    (t : ℕ) (s r : Stream) (q : List DtmfJob)
    → Linked t s r
    → JobsFit q
    → Linked t (record s { dtmf_q = q }) r
unfolding is_sending
queue-Linked t s r q l f = record {
  sending = l.sending;
  sender_type = l.sender_type;
  event_type = l.event_type;
  audio_type = l.audio_type;
  types_differ = l.types_differ;
  seq_fits = l.seq_fits;
  ts_fits = l.ts_fits;
  ssrc_fits = l.ssrc_fits;
  jobs_fit = f;
  open_receiver = l.open_receiver;
  receiver_type = l.receiver_type;
}

ticks_of_lem : (p : ℕ) (evs : List ℕ) → ticks_of p evs ≡ length evs * (p + 6)
ticks_of_lem p [] = omega arith
ticks_of_lem p (ev ∷ evs) = omega (arith, ticks_of_lem p evs)

spelled_exchange :
    (t p : ℕ) (word : Text) (clock : ℕ → Clock) (from : UdpAddr) (net : Net) (s r : Stream)
    (jobs : List DtmfJob)
    → Linked t s r
    → Spells (suc p) word jobs
    → p < 16777216
    → IsFresh r.events s.ts
    → digits_after (length word * (suc p + 6)) clock from net (record s { dtmf_q = jobs }) r
      ≡ r.events.digits ++ word
spelled_exchange t p word clock from net s r jobs l sp small fresh =
    let s1 = record s { dtmf_q = new_jobs (suc p) sp.evs } in
    let n : length word * (suc p + 6) ≡ ticks_of (suc p) sp.evs =
      ap (λ w. length w * (suc p + 6)) (sym sp.read_as)
      ∙ ap (λ k. k * (suc p + 6)) (length-map sp.evs digit_of)
      ∙ sym (ticks_of_lem (suc p) sp.evs) in
    ap (λ q. digits_after (length word * (suc p + 6)) clock from net (record s { dtmf_q = q }) r)
      sp.are_jobs
    ∙ ap (λ k. digits_after k clock from net s1 r) n
    ∙ exchange_digits t p sp.evs clock from net s1 r
        (queue-Linked t s r _ l (new_jobs-JobsFit (suc p) sp.evs)) refl sp.fit small fresh
    ∙ ap (λ w. r.events.digits ++ w) sp.read_as

length-to_upper : (s : Text) → length (to_upper s) ≡ length s
unfolding to_upper
length-to_upper s = length-map s _

-- Digits that `SendDTMF` takes for a sender with an empty queue (upper or lower case, with a
-- duration below 300000 s) are what the other side reads, in upper case and appended to what it has
-- read before, in as many ticks as the events, their end packets and pauses take: the packets all
-- arrive in order, both sides agree on the event type, and the receiver has not just read an event
-- with the sender's timestamp.
pub send_dtmf_received :
    (t dur : ℕ) (digits : Text) (clock : ℕ → Clock) (from : UdpAddr) (net : Net) (s s' r : Stream)
    → Linked t s r
    → s.dtmf_q ≡ []
    → send_dtmf s digits dur ≡ queued s'
    → dur < 300000000
    → IsFresh r.events s.ts
    → digits_after (length digits * (event_packets dur + 6)) clock from net s' r
      ≡ r.events.digits ++ to_upper digits
send_dtmf_received t dur digits clock from net s s' r l empty h small fresh =
    let (jobs, made, after) = send_dtmf-queued s s' digits dur h in
    let (positive, fits) = event_packets_bounds dur small in
    let queue : s' ≡ record s { dtmf_q = jobs } =
      after ∙ ap (λ q. record s { dtmf_q = q ++ jobs }) empty in
    let p = event_packets dur - 1 in
    let spells : Spells (suc p) (to_upper digits) jobs =
      jobs_of-Spells (suc p) (to_upper digits) jobs
        (ap (λ k. jobs_of k (to_upper digits)) (sym positive) ∙ made) in
    ap (λ k. digits_after k clock from net s' r)
      (ap (λ m. length digits * (m + 6)) positive
        ∙ ap (λ m. m * (suc p + 6)) (sym (length-to_upper digits)))
    ∙ ap (λ (x : Stream). digits_after (length (to_upper digits) * (suc p + 6)) clock from net x r)
        queue
    ∙ spelled_exchange t p (to_upper digits) clock from net s r jobs l spells fits fresh
