-- ===== src/TestPbx/Relinking.antt =====
-- testpbx/calls.go: a transfer keeps the table of bridges in order.
use xk6_sip.Common.{
  ℕ, suc, ◌≡◌, refl, sym, ap, ap₂, ◌∙◌, subst, ◌≢◌, inl, inr, Bool, true, ◌||◌, Option, none, some,
  arith, [], if◌then◌else◌, Bool-cases, Option-cases,
}
use std.Path.{fun_ext}
use mathlib.Core.Option.{some-injective}
use xk6_sip.Common.Text.{Text, text_eq, text_eq→eq, text_eq_refl}
use xk6_sip.Common.Table.{get}
use xk6_sip.TestPbx.{Leg, Bridge, Pbx, other}
use xk6_sip.TestPbx.Links.{
  IsLinked, IsSide, Known, is_end, is_end→Ends, drop, add, drop-IsLinked, add-IsLinked, allocate,
  allocate-Known, allocate-IsLinked,
}
use xk6_sip.TestPbx.Connecting.{joining}

-- The table and the legs without a partner are in order.
abbrev pub IsFine : (ℕ → Text) → Pbx → Type 0
IsFine ids p = IsLinked ids (get p.legs) (get p.orphans) p.next

pub same-IsLinked :
    {ids : ℕ → Text} {f g : Text → Option Bridge} {o u : Text → Option Leg} {n m : ℕ}
    → IsLinked ids f o n
    → ((k : Text) → f k ≡ g k)
    → ((k : Text) → o k ≡ u k)
    → n ≡ m
    → IsLinked ids g u m
same-IsLinked {ids} {f} {g} {o} {u} {n} {m} v e d h =
    subst (λ i. IsLinked ids g u i) h
      (subst (λ w. IsLinked ids g w n) (fun_ext d) (subst (λ w. IsLinked ids w o n) (fun_ext e) v))

-- The Call-IDs of a bridge are those of a leg and of its partner.
or_comm : (a b : Bool) → (a || b) ≡ (b || a)
or_comm a b = ground arith

pub is_end-IsSide :
    {f : Text → Option Bridge} (j : Text) (b : Bridge) (l : Leg)
    → IsSide f j b l
    → (k : Text) → is_end b k ≡ (text_eq l.call_id k || text_eq (other b l).call_id k)
is_end-IsSide j b l s k = elim (s.sides) [
  | inl (e, d) ↦ ap₂ (λ (m w : Leg). text_eq m.call_id k || text_eq w.call_id k) (sym e) (sym d)
  | inr (e, d) ↦
      or_comm (text_eq (b.x).call_id k) (text_eq (b.y).call_id k)
      ∙ ap₂ (λ (m w : Leg). text_eq m.call_id k || text_eq w.call_id k) (sym e) (sym d)
]

-- Both legs of a bridge in the table: it is found under their Call-IDs, which differ; they are known, and
-- neither is without a partner.
pub record IsPair (ids : ℕ → Text) (f : Text → Option Bridge) (o : Text → Option Leg) (n : ℕ)
    (b : Bridge) (l m : Leg) : Type 0 where
  pub first : f l.call_id ≡ some b
  pub second : f m.call_id ≡ some b
  pub apart : l.call_id ≢ m.call_id
  pub known : Known ids n l × Known ids n m
  pub paired : (o l.call_id ≡ none) × (o m.call_id ≡ none)
  pub ends : (k : Text) → is_end b k ≡ (text_eq l.call_id k || text_eq m.call_id k)

not-orphan :
    {ids : ℕ → Text} {f : Text → Option Bridge} {o : Text → Option Leg} {n : ℕ}
    → IsLinked ids f o n
    → (k : Text) (b : Bridge) → f k ≡ some b
    → o k ≡ none
not-orphan {o} v k b h = elim (Option-cases (o k)) [
  | inl e ↦ e
  | inr (l, e) ↦ absurd (cc ((v.left k l e).1, h))
]

IsPair-of :
    {ids : ℕ → Text} {f : Text → Option Bridge} {o : Text → Option Leg} {n : ℕ}
    → IsLinked ids f o n
    → (b : Bridge) (l m : Leg) → f l.call_id ≡ some b
    → f m.call_id ≡ some b
    → l.call_id ≢ m.call_id
    → Known ids n l × Known ids n m
    → ((k : Text) → is_end b k ≡ (text_eq l.call_id k || text_eq m.call_id k))
    → IsPair ids f o n b l m
IsPair-of v b l m fl fm apart known ends = record {
  first = fl;
  second = fm;
  apart = apart;
  known = known;
  paired = (not-orphan v l.call_id b fl, not-orphan v m.call_id b fm);
  ends = ends;
}

pub side-IsPair :
    {ids : ℕ → Text} {f : Text → Option Bridge} {o : Text → Option Leg} {n : ℕ}
    → IsLinked ids f o n
    → (j : Text) (b : Bridge) (l : Leg) → IsSide f j b l
    → IsPair ids f o n b l (other b l)
side-IsPair {ids} {f} {o} {n} v j b l s =
    let ends = is_end-IsSide j b l s in
    let differ = v.apart j b s.found in
    let (kx, ky) = v.known j b s.found in
    let fx = v.both j (b.x).call_id b s.found (inl refl) in
    let fy = v.both j (b.y).call_id b s.found (inr refl) in
    let Pair : Leg → Leg → Type 0 = λ a m.
      ((k : Text) → is_end b k ≡ (text_eq a.call_id k || text_eq m.call_id k))
      → IsPair ids f o n b a m in
    elim (s.sides) [
      | inl (e, d) ↦
          subst (λ a. Pair a (other b l)) (sym e)
            (subst (Pair b.x) (sym d) (IsPair-of v b b.x b.y fx fy differ (kx, ky))) ends
      | inr (e, d) ↦
          subst (λ a. Pair a (other b l)) (sym e)
            (subst (Pair b.y) (sym d) (IsPair-of v b b.y b.x fy fx (λ h. differ (sym h)) (ky, kx)))
            ends
    ]

-- The legs without a partner when the transferor's leg has joined them.
abbrev pub left_alone : (Text → Option Leg) → Leg → Text → Option Leg
left_alone o l k = if text_eq l.call_id k then some l else o k

left_alone-left :
    {ids : ℕ → Text} {f g : Text → Option Bridge} {o : Text → Option Leg} {n : ℕ}
    → IsLinked ids f o n
    → ((k : Text) → f k ≡ none → g k ≡ none)
    → (t : Leg) → g t.call_id ≡ none
    → (k : Text) (l : Leg) → left_alone o t k ≡ some l
    → (l.call_id ≡ k) × (g k ≡ none)
left_alone-left {g} {o} v less t gone k l h = elim (Bool-cases (text_eq t.call_id k)) [
  | inl e ↦
      let is_t = some-injective t l (sym (ap (λ b. if b then some t else o k) e) ∙ h) in
      let at_k = text_eq→eq t.call_id k e in
      (ap (λ (m : Leg). m.call_id) (sym is_t) ∙ at_k, subst (λ i. g i ≡ none) at_k gone)
  | inr e ↦
      let w = v.left k l (sym (ap (λ b. if b then some t else o k) e) ∙ h) in (w.0, less k w.1)
]

pub drop-less : (f : Text → Option Bridge) (b : Bridge) (k : Text) → f k ≡ none → drop f b k ≡ none
drop-less f b k h = ground (arith, h)

pub drop-end :
    (f : Text → Option Bridge) (b : Bridge) (k : Text) → is_end b k ≡ true → drop f b k ≡ none
drop-end f b k h = rw h refl

left_alone-none :
    (o : Text → Option Leg) (t : Leg) (k : Text)
    → t.call_id ≢ k
    → o k ≡ none
    → left_alone o t k ≡ none
left_alone-none o t k differ h = ground (arith, text_eq→eq t.call_id k, differ, h)

-- A Call-ID that is no longer in a bridge nor that of a leg without a partner.
abbrev pub Free : (Text → Option Bridge) → (Text → Option Leg) → Text → Type 0
Free g u k = (g k ≡ none) × (u k ≡ none)

pub end-Free :
    (g : Text → Option Bridge) (u : Text → Option Leg) (b : Bridge)
    → Free g u (b.x).call_id
    → Free g u (b.y).call_id
    → (k : Text) → is_end b k ≡ true
    → Free g u k
end-Free g u b fx fy k h = elim (is_end→Ends b k h) [
  | inl e ↦ subst (Free g u) e fx
  | inr e ↦ subst (Free g u) e fy
]

-- The leg that stays in a call, when its bridge is dropped and its partner is alone.
keep-Free :
    {ids : ℕ → Text} {f : Text → Option Bridge} {o : Text → Option Leg} {n : ℕ}
    → (br : Bridge) (t keep : Leg) → IsPair ids f o n br t keep
    → Free (drop f br) (left_alone o t) keep.call_id
keep-Free {f} {o} br t keep s = (
  drop-end f br keep.call_id (s.ends keep.call_id ∙ ground (arith, text_eq_refl keep.call_id)),
  left_alone-none o t keep.call_id s.apart (s.paired.1),
)

transferor-end :
    {ids : ℕ → Text} {f : Text → Option Bridge} {o : Text → Option Leg} {n : ℕ}
    → (br : Bridge) (t keep : Leg) → IsPair ids f o n br t keep
    → is_end br t.call_id ≡ true
transferor-end br t keep s = s.ends t.call_id ∙ ground (arith, text_eq_refl t.call_id)

taken-differs :
    (f : Text → Option Bridge) (j k : Text) (b : Bridge) → f j ≡ some b → f k ≡ none → j ≢ k
taken-differs f j k b h g e = absurd (cc (h, g, e))

-- A blind transfer: the bridge of the transferor gives way to one with a new leg.
pub blind-IsLinked :
    {ids : ℕ → Text} {f : Text → Option Bridge} {o : Text → Option Leg} {n : ℕ}
    → IsLinked ids f o n
    → (br : Bridge) (t keep new : Leg) (number : ℕ) → IsPair ids f o n br t keep
    → new.handle ≡ n
    → Free f o new.call_id
    → IsLinked
        (allocate (allocate ids n new.call_id) (suc n) [])
        (add (drop f br) (joining number keep new))
        (left_alone o t)
        (suc (suc n))
blind-IsLinked {ids} {f} {o} {n} v br t keep new number s made free =
    let dropped = drop-IsLinked {o' = left_alone o t} v br s.first (
      left_alone-left v (drop-less f br) t
        (drop-end f br t.call_id (transferor-end br t keep s))) in
    let new_Free : Free (drop f br) (left_alone o t) new.call_id = (
      drop-less f br new.call_id (free.0),
      left_alone-none o t new.call_id (taken-differs f t.call_id new.call_id br s.first (free.0))
          (free.1),
    ) in
    let grown = allocate ids n new.call_id in
    add-IsLinked (allocate-IsLinked (allocate-IsLinked dropped new.call_id) [])
      (joining number keep new)
      (end-Free (drop f br) (left_alone o t) (joining number keep new) (keep-Free br t keep s)
        new_Free)
      (taken-differs f keep.call_id new.call_id br s.second (free.0))
      (allocate-Known grown (suc n) [] keep (allocate-Known ids n new.call_id keep (s.known.1)))
      (allocate-Known grown (suc n) [] new (ground (arith, made), ground (arith, made)))

bridges-differ :
    (f : Text → Option Bridge) (j k : Text) (b c : Bridge)
    → f j ≡ some b
    → f k ≡ some c
    → c ≢ b
    → j ≢ k
bridges-differ f j k b c h g differ e = differ (some-injective c b (sym g ∙ (ap f (sym e) ∙ h)))

drop-kept :
    {ids : ℕ → Text} {f : Text → Option Bridge} {o : Text → Option Leg} {n : ℕ}
    → IsLinked ids f o n
    → (j k : Text) (b c : Bridge) → f j ≡ some b
    → f k ≡ some c
    → c ≢ b
    → drop f b k ≡ some c
drop-kept {f} v j k b c h g differ = elim (Bool-cases (is_end b k)) [
  | inl e ↦ absurd (bridges-differ f k k b c (v.both j k b h (is_end→Ends b k e)) g differ refl)
  | inr e ↦ rw e g
]

-- An attended transfer: two bridges give way to one of the legs that stay.
pub attended-IsLinked :
    {ids : ℕ → Text} {f : Text → Option Bridge} {o : Text → Option Leg} {n : ℕ}
    → IsLinked ids f o n
    → (br cb : Bridge) (t keep c target : Leg) (number : ℕ) → IsPair ids f o n br t keep
    → IsPair ids f o n cb c target
    → cb ≢ br
    → IsLinked
        (allocate ids n [])
        (add (drop (drop f br) cb) (joining number keep target))
        (left_alone o t)
        (suc n)
attended-IsLinked {ids} {f} {o} {n} v br cb t keep c target number s w differ =
    let f1 = drop f br in
    let gone_t = drop-end f br t.call_id (transferor-end br t keep s) in
    let d1 : IsLinked ids f1 o n =
      drop-IsLinked {o' = o} v br s.first
        (λ k l h. ((v.left k l h).0, drop-less f br k ((v.left k l h).1))) in
    let d2 =
      drop-IsLinked {o' = left_alone o t} d1 cb
        (drop-kept v t.call_id c.call_id br cb s.first w.first differ)
        (left_alone-left d1 (drop-less f1 cb) t (drop-less f1 cb t.call_id gone_t)) in
    let kept = keep-Free br t keep s in
    let target_Free : Free (drop f1 cb) (left_alone o t) target.call_id = (
      drop-end f1 cb target.call_id
          (w.ends target.call_id ∙ ground (arith, text_eq_refl target.call_id)),
      left_alone-none o t target.call_id
          (bridges-differ f t.call_id target.call_id br cb s.first w.second differ) (w.paired.1),
    ) in
    add-IsLinked (allocate-IsLinked d2 []) (joining number keep target)
      (end-Free (drop f1 cb) (left_alone o t) (joining number keep target)
        (drop-less f1 cb keep.call_id (kept.0), kept.1) target_Free)
      (bridges-differ f keep.call_id target.call_id br cb s.second w.second differ)
      (allocate-Known ids n [] keep (s.known.1)) (allocate-Known ids n [] target (w.known.1))
