-- ===== src/TestPbx/Serving.antt =====
-- testpbx/calls.go: the handlers keep the table of bridges in order.
pub mod Inviting
pub mod Outcome
use xk6_sip.Common.{
  ℕ, suc, ◌+◌, ◌≡◌, refl, sym, ap, ◌∙◌, subst, ◌≢◌, ◌⊎◌, inl, inr, Bool, true, false, not, ◌&&◌,
  ◌||◌, Option, none, some, List, [], ◌∷◌, arith, if◌then◌else◌, ◌==◌, Bool-cases, Option-cases,
  if_cases, if_both,
}
use xk6_sip.Common.Text.{Text, codes, text_eq, text_eq→eq, text_eq_refl, is_empty, cut}
use xk6_sip.Common.Table.{Table, get, put, remove, get-put, get-remove}
use xk6_sip.TestPbx.{
  Leg, Bridge, Pbx, Request, Sent, respond, send, other, lookup, Found, in_bridge, orphan, unknown,
  find, unlink,
}
use xk6_sip.TestPbx.Calls.{InviteEnd, on_bye, bye_found}
use xk6_sip.TestPbx.Transfers.{
  Responses, target_user, blind, attended, consultation, transfer, run_transfer, refer_to,
  refer_found, on_refer, read_refer_to, notify, status_line,
}
use xk6_sip.TestPbx.Links.{
  IsLinked, IsSide, is_end, drop, add, drop-IsLinked, allocate, allocate-IsLinked, find-IsSide,
  bridge-IsSide,
}
use xk6_sip.TestPbx.Dialling.{
  IsRefusal, answers, IsQuiet, IsQuiet-refl, IsQuiet-trans, new_id, notify-IsQuiet,
}
use xk6_sip.TestPbx.Connecting.{
  IsJoined, IsSame, works, joining, blind_works, BlindOutcome, blind-BlindOutcome,
}
use xk6_sip.TestPbx.Joining.{JoinOutcome, AttendedOutcome, attended-AttendedOutcome}
use xk6_sip.TestPbx.Relinking.{
  IsFine, IsPair, Free, left_alone, same-IsLinked, side-IsPair, blind-IsLinked, attended-IsLinked,
}

-- Which Call-IDs the allocated legs have is of no matter.
abbrev pub IsOrdered : Pbx → Type 0
IsOrdered p = (ids : ℕ → Text) × IsFine ids p

pub quiet-IsFine : (ids : ℕ → Text) (p q : Pbx) → IsQuiet p q → IsFine ids p → IsFine ids q
quiet-IsFine ids p q w v =
    same-IsLinked v (λ k. ap (λ (t : Table Bridge). get t k) (sym w.legs))
      (λ k. ap (λ (t : Table Leg). get t k) (sym w.orphans)) (sym w.next)

same-IsOrdered : (p q : Pbx) → IsSame p q → IsOrdered p → IsOrdered q
same-IsOrdered p q w (ids, v) = elim (w.grown) [
  | inl e ↦ (ids, quiet-IsFine ids p q (record { legs = w.legs; orphans = w.orphans; next = e }) v)
  | inr e ↦ (
    allocate ids p.next [],
    same-IsLinked (allocate-IsLinked v []) (λ k. ap (λ (t : Table Bridge). get t k) (sym w.legs))
        (λ k. ap (λ (t : Table Leg). get t k) (sym w.orphans)) (sym e),
  )
]

blind_true-IsOrdered :
    (p q : Pbx) (br : Bridge) (t keep target : Leg) (ids : ℕ → Text)
    → IsFine ids p
    → IsPair ids (get p.legs) (get p.orphans) p.next br t keep
    → target.handle ≡ p.next
    → Free (get p.legs) (get p.orphans) target.call_id
    → q.next ≡ suc (suc p.next)
    → IsJoined p q t t (joining (suc p.next) keep target)
    → IsOrdered q
blind_true-IsOrdered p q br t keep target ids v s made free grown j = (
  allocate (allocate ids p.next target.call_id) (suc p.next) [],
  same-IsLinked (blind-IsLinked v br t keep target (suc p.next) s made free)
      (λ k. ground (arith, s.ends k, j.table k)) (λ k. sym (j.alone k)) (sym grown),
)

join_true-IsOrdered :
    (p q : Pbx) (br cb : Bridge) (t keep c target : Leg) (ids : ℕ → Text)
    → IsFine ids p
    → IsPair ids (get p.legs) (get p.orphans) p.next br t keep
    → IsPair ids (get p.legs) (get p.orphans) p.next cb c target
    → cb ≢ br
    → q.next ≡ suc p.next
    → IsJoined p q t c (joining p.next keep target)
    → IsOrdered q
join_true-IsOrdered p q br cb t keep c target ids v s w differ grown j = (
  allocate ids p.next [],
  same-IsLinked (attended-IsLinked v br cb t keep c target p.next s w differ)
      (λ k. ground (arith, s.ends k, w.ends k, j.table k)) (λ k. sym (j.alone k)) (sym grown),
)

BlindOutcome-IsOrdered :
    (p : Pbx) (br : Bridge) (t keep : Leg) (ids : ℕ → Text) (id : Text) (b : Bool) (r : Pbx × ℕ)
    → IsFine ids p
    → IsPair ids (get p.legs) (get p.orphans) p.next br t keep
    → Free (get p.legs) (get p.orphans) id
    → BlindOutcome p t keep id b r
    → IsOrdered (r.0)
BlindOutcome-IsOrdered p br t keep ids id false (q, status) v s free h =
    same-IsOrdered p q (h.0) (ids, v)
BlindOutcome-IsOrdered p br t keep ids id true (q, status) v s free h =
    let (target, made, named, grown, j) = h.1 in
    blind_true-IsOrdered p q br t keep target ids v s made
      (subst (Free (get p.legs) (get p.orphans)) (sym named) free) grown j

JoinOutcome-IsOrdered :
    (p : Pbx) (br cb : Bridge) (t keep c target : Leg) (ids : ℕ → Text) (b : Bool) (r : Pbx × ℕ)
    → IsFine ids p
    → IsPair ids (get p.legs) (get p.orphans) p.next br t keep
    → IsPair ids (get p.legs) (get p.orphans) p.next cb c target
    → (b ≡ true → cb ≢ br)
    → JoinOutcome p t c keep target b r
    → IsOrdered (r.0)
JoinOutcome-IsOrdered p br cb t keep c target ids false (q, status) v s w differ h =
    same-IsOrdered p q (h.0) (ids, v)
JoinOutcome-IsOrdered p br cb t keep c target ids true (q, status) v s w differ h =
    join_true-IsOrdered p q br cb t keep c target ids v s w (differ refl) (h.1) (h.2)

numbers-differ : (cb br : Bridge) (x : Bool) → (not (cb.number == br.number) && x) ≡ true → cb ≢ br
numbers-differ cb br x h e =
    let same : cb.number ≡ br.number = ap (λ (b : Bridge). b.number) e in ground (arith, h, same)

AttendedOutcome-IsOrdered :
    (p : Pbx) (br : Bridge) (t : Leg) (id : Text) (rs : Responses) (ids : ℕ → Text)
    (o : Option Bridge) (r : Pbx × ℕ)
    → IsFine ids p
    → IsPair ids (get p.legs) (get p.orphans) p.next br t (other br t)
    → get p.legs id ≡ o
    → AttendedOutcome p br t id rs o r
    → IsOrdered (r.0)
unfolding consultation
AttendedOutcome-IsOrdered p br t id rs ids none (q, status) v s e h =
    same-IsOrdered p q (h.0) (ids, v)
AttendedOutcome-IsOrdered p br t id rs ids (some cb) r v s e h =
    let c = if text_eq (cb.x).call_id id then cb.x else cb.y in
    JoinOutcome-IsOrdered p br cb t (other br t) c (other cb c) ids
      (not (cb.number == br.number) && (works rs.keep_answer && works rs.target_answer)) r v s
      (side-IsPair v id cb c (bridge-IsSide v id cb e))
      (numbers-differ cb br (works rs.keep_answer && works rs.target_answer)) h

transfer-IsOrdered :
    (p : Pbx) (br : Bridge) (t : Leg) (k : Text) (a : Text × Text) (rs : Responses) (ids : ℕ → Text)
    → IsFine ids p
    → IsSide (get p.legs) k br t
    → IsRefusal rs.end
    → Free (get p.legs) (get p.orphans) (new_id rs.end)
    → IsOrdered ((transfer p br t a rs).0)
unfolding transfer
transfer-IsOrdered p br t k a rs ids v side h free =
    let s = side-IsPair v k br t side in
    if_both (λ (r : Pbx × ℕ). IsOrdered (r.0)) (is_empty (a.1))
      (BlindOutcome-IsOrdered p br t (other br t) ids (new_id rs.end)
        (blind_works p rs (lookup p (target_user (a.0)))) (blind p br t (a.0) rs) v s free
        (blind-BlindOutcome p br t (a.0) rs h))
      (AttendedOutcome-IsOrdered p br t ((cut b';' (a.1)).0) rs ids
        (get p.legs ((cut b';' (a.1)).0)) (attended p br t (a.1) rs) v s refl
        (attended-AttendedOutcome p br t (a.1) rs))

quiet-IsOrdered : (p q : Pbx) → IsQuiet p q → IsOrdered p → IsOrdered q
quiet-IsOrdered p q w (ids, v) = (ids, quiet-IsFine ids p q w v)

sent-IsQuiet : (p : Pbx) (m : Sent) → IsQuiet p (send p m)
sent-IsQuiet p m = record { legs = refl; orphans = refl; next = refl }

refer_to-IsOrdered :
    (p : Pbx) (br : Bridge) (t : Leg) (k : Text) (rs : Responses) (a : Option (Text × Text))
    (ids : ℕ → Text)
    → IsFine ids p
    → IsSide (get p.legs) k br t
    → IsRefusal rs.end
    → Free (get p.legs) (get p.orphans) (new_id rs.end)
    → IsOrdered (refer_to p br t rs a)
unfolding refer_to run_transfer
refer_to-IsOrdered p br t k rs none ids v side h free =
    (ids, quiet-IsFine ids p _ (sent-IsQuiet p (respond 400 (codes "Bad Refer-To") [])) v)
refer_to-IsOrdered p br t k rs (some a) ids v side h free =
    let q =
      notify (send p (respond 202 (codes "Accepted") [])) t (codes "SIP/2.0 100 Trying") false in
    let w : IsQuiet p q =
      IsQuiet-trans p (send p (respond 202 (codes "Accepted") [])) q
        (sent-IsQuiet p (respond 202 (codes "Accepted") []))
        (notify-IsQuiet (send p (respond 202 (codes "Accepted") [])) t (codes "SIP/2.0 100 Trying")
          false) in
    let done = transfer q br t a rs in
    quiet-IsOrdered (done.0) _ (notify-IsQuiet (done.0) t (status_line (done.1)) true) (
      transfer-IsOrdered q br t k a rs ids (quiet-IsFine ids p q w v)
        (subst (λ (l : Table Bridge). IsSide (get l) k br t) (sym w.legs) side) h
        (
          ap (λ (l : Table Bridge). get l (new_id rs.end)) w.legs ∙ free.0,
          ap (λ (l : Table Leg). get l (new_id rs.end)) w.orphans ∙ free.1,
        ))

refer_found-IsOrdered :
    (p : Pbx) (req : Request) (rs : Responses) (f : Found) (ids : ℕ → Text)
    → IsFine ids p
    → find p req.call_id ≡ f
    → IsRefusal rs.end
    → Free (get p.legs) (get p.orphans) (new_id rs.end)
    → IsOrdered (refer_found p req rs f)
unfolding refer_found
refer_found-IsOrdered p req rs unknown ids v e h free = (ids, v)
refer_found-IsOrdered p req rs (orphan l) ids v e h free = (ids, v)
refer_found-IsOrdered p req rs (in_bridge br t) ids v e h free =
    refer_to-IsOrdered p br t req.call_id rs (read_refer_to req.refer_to) ids v
      (find-IsSide p v req.call_id br t e) h free

pub on_refer-IsOrdered :
    (p : Pbx) (req : Request) (rs : Responses)
    → IsOrdered p
    → IsRefusal rs.end
    → Free (get p.legs) (get p.orphans) (new_id rs.end)
    → IsOrdered (on_refer p req rs)
unfolding on_refer
on_refer-IsOrdered p req rs (ids, v) h free =
    refer_found-IsOrdered p req rs (find p req.call_id) ids v refl h free
