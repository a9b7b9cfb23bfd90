-- ===== src/TestPbx/Runs/Ending.antt =====
-- testpbx/calls.go: what a BYE ends.
use xk6_sip.Common.{
  ℕ, ◌≡◌, refl, subst, Bool, true, false, ◌||◌, Option, none, some, List, [], ◌∷◌, arith,
  if◌then◌else◌, Option-cases, inl, inr,
}
use xk6_sip.Common.Text.{Text, codes, text_eq, text_eq→eq}
use xk6_sip.Common.Table.{get, remove, get-remove}
use xk6_sip.TestPbx.{
  Leg, Pbx, Request, Sent, respond, bye, read_bye, other, Found, in_bridge, orphan, unknown,
  found_orphan, find, unlink,
}
use xk6_sip.TestPbx.Calls.{bye_found, on_bye}
use xk6_sip.TestPbx.Links.{IsLinked, drop-IsLinked, find-IsSide}
use xk6_sip.TestPbx.Relinking.{IsFine, side-IsPair, drop-less, same-IsLinked}

-- The Call-IDs that a BYE ends, by what `find` says of its own.
abbrev pub ends : Found → Text → Bool
ends unknown k = false
ends (orphan l) k = text_eq l.call_id k
ends (in_bridge b l) k = text_eq l.call_id k || text_eq (other b l).call_id k

-- What is sent for it, newest first.
abbrev pub bye_sent : Found → List Sent → List Sent
bye_sent unknown log = respond 481 (codes "Call/Transaction Does Not Exist") [] ∷ log
bye_sent (orphan l) log = read_bye l ∷ log
bye_sent (in_bridge b l) log = bye (other b l) ∷ read_bye l ∷ log

find-tables :
    (p q : Pbx) (k : Text) (b : Bool)
    → get q.legs k ≡ (if b then none else get p.legs k)
    → get q.orphans k ≡ (if b then none else get p.orphans k)
    → find q k ≡ (if b then unknown else find p k)
unfolding find
find-tables p q k true h g = rw (h, g) refl
find-tables p q k false h g = rw (h, g) refl

bye_found-find :
    (p : Pbx) (f : Found) (k : Text)
    → (find (bye_found p f) k ≡ (if ends f k then unknown else find p k))
      × ((bye_found p f).sent ≡ bye_sent f p.sent)
unfolding bye_found unlink
bye_found-find p unknown k = (unfold find in refl, refl)
bye_found-find p (orphan l) k = (
  find-tables p (bye_found p (orphan l)) k (text_eq l.call_id k) (get-remove p.legs l.call_id k)
      (get-remove p.orphans l.call_id k),
  refl,
)
bye_found-find p (in_bridge b l) k = (
  find-tables p (bye_found p (in_bridge b l)) k (ends (in_bridge b l) k)
      (ground (
        arith,
        get-remove (remove p.legs l.call_id) (other b l).call_id k,
        get-remove p.legs l.call_id k,
      ))
      (ground (
        arith,
        get-remove (remove p.orphans l.call_id) (other b l).call_id k,
        get-remove p.orphans l.call_id k,
      )),
  refl,
)

-- A BYE ends the whole call: where its Call-ID is that of a call, neither this Call-ID nor that of
-- the other leg is found afterwards, every other one is found as before, and the other leg gets a
-- BYE. A leg that a transfer left alone is ended by itself, and an unknown Call-ID is answered
-- with 481 and changes nothing.
pub find-on_bye :
    (p : Pbx) (req : Request) (k : Text)
    → (find (on_bye p req) k ≡ (if ends (find p req.call_id) k then unknown else find p k))
      × ((on_bye p req).sent ≡ bye_sent (find p req.call_id) p.sent)
unfolding on_bye
find-on_bye p req k = bye_found-find p (find p req.call_id) k

abbrev Left : Pbx → Text → Found → Type 0
Left p k unknown = Unit {0}
Left p k (in_bridge b l) = Unit {0}
Left p k (orphan l) = get p.orphans k ≡ some l

found_orphan-Left :
    (p : Pbx) (k : Text) (o : Option Leg) → get p.orphans k ≡ o → Left p k (found_orphan o)
found_orphan-Left p k none e = tt
found_orphan-Left p k (some l) e = e

find-Left : (p : Pbx) (k : Text) → Left p k (find p k)
unfolding find
find-Left p k = elim (Option-cases (get p.legs k)) [
  | inl e ↦ rw e (found_orphan-Left p k (get p.orphans k) refl)
  | inr (b, e) ↦ rw e tt
]

-- A leg that was left alone is gone; no bridge had its Call-ID.
orphan_bye-IsFine :
    (ids : ℕ → Text) (p : Pbx) (id : Text) (l : Leg)
    → IsFine ids p
    → get p.orphans id ≡ some l
    → IsLinked ids (get (remove p.legs l.call_id)) (get (remove p.orphans l.call_id)) p.next
orphan_bye-IsFine ids p id l v e =
    let (named, gone) = v.left id l e in
    let less : IsLinked ids (get p.legs) (get (remove p.orphans l.call_id)) p.next = record {
      named = v.named;
      both = v.both;
      apart = v.apart;
      known = v.known;
      left = λ k m h. v.left k m (ground (arith, get-remove p.orphans l.call_id k, h));
    } in
    same-IsLinked less
      (λ k. ground (arith, get-remove p.legs l.call_id k, text_eq→eq l.call_id k, named, gone))
      (λ k. refl) refl

bye_found-IsFine :
    (ids : ℕ → Text) (p : Pbx) (id : Text) (f : Found)
    → IsFine ids p
    → find p id ≡ f
    → IsFine ids (bye_found p f)
unfolding bye_found unlink
bye_found-IsFine ids p id unknown v e = v
bye_found-IsFine ids p id (orphan l) v e =
    orphan_bye-IsFine ids p id l v (subst (Left p id) e (find-Left p id))
bye_found-IsFine ids p id (in_bridge b l) v e =
    let s = side-IsPair v id b l (find-IsSide p v id b l e) in
    let o = remove (remove p.orphans l.call_id) (other b l).call_id in
    same-IsLinked
      (drop-IsLinked {o' = get o} v b s.first (λ k m h.
        let back : get p.orphans k ≡ some m = ground (
          arith,
          get-remove (remove p.orphans l.call_id) (other b l).call_id k,
          get-remove p.orphans l.call_id k,
          h,
        ) in
        ((v.left k m back).0, drop-less (get p.legs) b k ((v.left k m back).1))))
      (λ k. ground (
        arith,
        s.ends k,
        get-remove (remove p.legs l.call_id) (other b l).call_id k,
        get-remove p.legs l.call_id k,
      ))
      (λ k. refl) refl

pub on_bye-IsFine :
    (ids : ℕ → Text) (p : Pbx) (req : Request) → IsFine ids p → IsFine ids (on_bye p req)
unfolding on_bye
on_bye-IsFine ids p req v = bye_found-IsFine ids p req.call_id (find p req.call_id) v refl
