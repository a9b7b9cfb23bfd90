-- ===== src/TestPbx/Links.antt =====
-- testpbx/calls.go: the table of bridges, as a function of Call-IDs. `ids` tells which Call-ID each
-- allocated leg has.
use xk6_sip.Common.{
  ℕ, suc, ◌<◌, ◌≡◌, refl, sym, ap, ◌∙◌, subst, ◌≢◌, ◌⊎◌, inl, inr, Bool, true, false, ◌||◌, Option,
  none, some, arith, if◌then◌else◌, ◌==◌, Bool-cases, if_cases, Option-cases,
}
use mathlib.Core.Option.{some-injective}
use xk6_sip.Common.Text.{Text, text_eq, text_eq→eq, text_eq_refl, text_eq_ne}
use xk6_sip.Common.Table.{get}
use xk6_sip.TestPbx.{Leg, Bridge, Pbx, Found, found_leg, in_bridge, orphan, unknown, find, other}

abbrev pub Ends : Bridge → Text → Type 0
Ends b id = ((b.x).call_id ≡ id) ⊎ ((b.y).call_id ≡ id)

abbrev pub Known : (ℕ → Text) → ℕ → Leg → Type 0
Known ids next l = (l.handle < next) × (ids l.handle ≡ l.call_id)

-- A bridge stands in the table under the Call-IDs of its two legs, which differ, and nowhere else; a
-- leg without its partner is in no bridge.
pub record IsLinked (ids : ℕ → Text) (f : Text → Option Bridge) (o : Text → Option Leg) (next : ℕ)
    : Type 0 where
  pub named : (k : Text) (b : Bridge) → f k ≡ some b → Ends b k
  pub both : (k id : Text) (b : Bridge) → f k ≡ some b → Ends b id → f id ≡ some b
  pub apart : (k : Text) (b : Bridge) → f k ≡ some b → (b.x).call_id ≢ (b.y).call_id
  pub known : (k : Text) (b : Bridge) → f k ≡ some b → Known ids next b.x × Known ids next b.y
  pub left : (k : Text) (l : Leg) → o k ≡ some l → (l.call_id ≡ k) × (f k ≡ none)

abbrev pub is_end : Bridge → Text → Bool
is_end b k = text_eq (b.x).call_id k || text_eq (b.y).call_id k

pub is_end→Ends : (b : Bridge) (k : Text) → is_end b k ≡ true → Ends b k
is_end→Ends b k h = ground (arith, text_eq→eq (b.x).call_id k, text_eq→eq (b.y).call_id k)

pub Ends→is_end : (b : Bridge) (k : Text) → Ends b k → is_end b k ≡ true
Ends→is_end b k (inl e) = subst (λ i. is_end b i ≡ true) e (rw (text_eq_refl (b.x).call_id) refl)
Ends→is_end b k (inr e) =
    subst (λ i. is_end b i ≡ true) e (ground (arith, text_eq_refl (b.y).call_id))

abbrev pub drop : (Text → Option Bridge) → Bridge → Text → Option Bridge
drop f br k = if is_end br k then none else f k

abbrev pub add : (Text → Option Bridge) → Bridge → Text → Option Bridge
add f b k = if is_end b k then some b else f k

pub same_bridge :
    {ids : ℕ → Text} {f : Text → Option Bridge} {o : Text → Option Leg} {n : ℕ}
    → IsLinked ids f o n
    → (j k id : Text) (b c : Bridge) → f j ≡ some b
    → f k ≡ some c
    → Ends b id
    → Ends c id
    → b ≡ c
same_bridge v j k id b c hb hc eb ec =
    some-injective b c (sym (v.both j id b hb eb) ∙ v.both k id c hc ec)

drop-some :
    (f : Text → Option Bridge) (br : Bridge) (k : Text) (c : Bridge)
    → drop f br k ≡ some c
    → (is_end br k ≡ false) × (f k ≡ some c)
drop-some f br k c h = ground (arith, h)

drop-both :
    {ids : ℕ → Text} {f : Text → Option Bridge} {o : Text → Option Leg} {n : ℕ} {j : Text}
    → IsLinked ids f o n
    → (br : Bridge) → f j ≡ some br
    → (k id : Text) (c : Bridge) → drop f br k ≡ some c
    → Ends c id
    → drop f br id ≡ some c
drop-both {f} {j} v br hj k id c h e =
    let (out, hk) = drop-some f br k c h in
    elim (Bool-cases (is_end br id)) [
      | inl t ↦
          let same = same_bridge v j k id br c hj hk (is_end→Ends br id t) e in
          let back = Ends→is_end br k (subst (λ b. Ends b k) (sym same) (v.named k c hk)) in
          absurd (cc (back, out))
      | inr t ↦ rw t (v.both k id c hk e)
    ]

-- A bridge is taken out; `o'` are the legs without a partner afterwards.
pub drop-IsLinked :
    {ids : ℕ → Text} {f : Text → Option Bridge} {o o' : Text → Option Leg} {n : ℕ} {j : Text}
    → IsLinked ids f o n
    → (br : Bridge) → f j ≡ some br
    → ((k : Text) (l : Leg) → o' k ≡ some l → (l.call_id ≡ k) × (drop f br k ≡ none))
    → IsLinked ids (drop f br) o' n
drop-IsLinked {f} v br hj left = record {
  named = λ k b h. v.named k b ((drop-some f br k b h).1);
  both = λ k id b h e. drop-both v br hj k id b h e;
  apart = λ k b h. v.apart k b ((drop-some f br k b h).1);
  known = λ k b h. v.known k b ((drop-some f br k b h).1);
  left = left;
}

add-cases :
    (f : Text → Option Bridge) (b c : Bridge) (k : Text)
    → add f b k ≡ some c
    → ((is_end b k ≡ true) × (b ≡ c)) ⊎ ((is_end b k ≡ false) × (f k ≡ some c))
add-cases f b c k h = elim (Bool-cases (is_end b k)) [
  | inl t ↦ inl (t, some-injective b c (sym (ap (λ u. if u then some b else f k) t) ∙ h))
  | inr t ↦ inr (t, sym (ap (λ u. if u then some b else f k) t) ∙ h)
]

add-both :
    {ids : ℕ → Text} {f : Text → Option Bridge} {o : Text → Option Leg} {n : ℕ}
    → IsLinked ids f o n
    → (b : Bridge) → ((k : Text) → is_end b k ≡ true → (f k ≡ none) × (o k ≡ none))
    → (k id : Text) (c : Bridge) → add f b k ≡ some c
    → Ends c id
    → add f b id ≡ some c
add-both {f} v b free k id c h e = elim (add-cases f b c k h) [
  | inl t ↦ rw (Ends→is_end b id (subst (λ d. Ends d id) (sym (t.1)) e)) (ap some t.1)
  | inr t ↦
      let there = v.both k id c t.1 e in
      elim (Bool-cases (is_end b id)) [
        | inl u ↦ absurd (cc ((free id u).0, there))
        | inr u ↦ rw u there
      ]
]

-- A bridge is put in, under Call-IDs that were not there.
pub add-IsLinked :
    {ids : ℕ → Text} {f : Text → Option Bridge} {o : Text → Option Leg} {n : ℕ}
    → IsLinked ids f o n
    → (b : Bridge) → ((k : Text) → is_end b k ≡ true → (f k ≡ none) × (o k ≡ none))
    → (b.x).call_id ≢ (b.y).call_id
    → Known ids n b.x
    → Known ids n b.y
    → IsLinked ids (add f b) o n
add-IsLinked {ids} {f} {o} {n} v b free differ known_x known_y = record {
  named = λ k c h. elim (add-cases f b c k h) [
    | inl t ↦ subst (λ d. Ends d k) (t.1) (is_end→Ends b k t.0)
    | inr t ↦ v.named k c t.1
  ];
  both = λ k id c h e. add-both v b free k id c h e;
  apart = λ k c h. elim (add-cases f b c k h) [
    | inl t ↦ subst (λ (d : Bridge). (d.x).call_id ≢ (d.y).call_id) (t.1) differ
    | inr t ↦ v.apart k c t.1
  ];
  known = λ k c h. elim (add-cases f b c k h) [
    | inl t ↦ subst (λ (d : Bridge). Known ids n d.x × Known ids n d.y) (t.1) (known_x, known_y)
    | inr t ↦ v.known k c t.1
  ];
  left = λ k l h. (
    (v.left k l h).0,
    elim (Bool-cases (is_end b k)) [
      | inl t ↦ absurd (cc ((free k t).1, h))
      | inr t ↦ rw t ((v.left k l h).1)
    ],
  );
}

abbrev pub allocate : (ℕ → Text) → ℕ → Text → ℕ → Text
allocate ids n id h = if h == n then id else ids h

pub allocate-Known :
    (ids : ℕ → Text) (n : ℕ) (id : Text) (l : Leg)
    → Known ids n l
    → Known (allocate ids n id) (suc n) l
allocate-Known ids n id l k = (omega (arith, k.0), ground (arith, k.0, k.1))

-- An allocation; it need not be that of a leg.
pub allocate-IsLinked :
    {ids : ℕ → Text} {f : Text → Option Bridge} {o : Text → Option Leg} {n : ℕ}
    → IsLinked ids f o n
    → (id : Text) → IsLinked (allocate ids n id) f o (suc n)
allocate-IsLinked {ids} {n} v id = record {
  named = v.named;
  both = v.both;
  apart = v.apart;
  known = λ k b h. (
    allocate-Known ids n id b.x ((v.known k b h).0),
    allocate-Known ids n id b.y ((v.known k b h).1),
  );
  left = v.left;
}

-- What `find` says of a Call-ID that is in a bridge: the leg with that Call-ID, and its partner.
pub record IsSide (f : Text → Option Bridge) (k : Text) (b : Bridge) (l : Leg) : Type 0 where
  pub found : f k ≡ some b
  pub id : l.call_id ≡ k
  pub sides : ((l ≡ b.x) × (other b l ≡ b.y)) ⊎ ((l ≡ b.y) × (other b l ≡ b.x))

handles_differ :
    {ids : ℕ → Text} {f : Text → Option Bridge} {o : Text → Option Leg} {n : ℕ}
    → IsLinked ids f o n
    → (k : Text) (b : Bridge) → f k ≡ some b
    → ((b.y).handle == (b.x).handle) ≡ false
handles_differ {ids} v k b h = elim (Bool-cases ((b.y).handle == (b.x).handle)) [
  | inl t ↦
      let same : (b.y).handle ≡ (b.x).handle = ground (arith, t) in
      absurd
        (v.apart k b h (sym (((v.known k b h).0).1) ∙ (ap ids (sym same) ∙ ((v.known k b h).1).1)))
  | inr t ↦ t
]

pub bridge-IsSide :
    {ids : ℕ → Text} {f : Text → Option Bridge} {o : Text → Option Leg} {n : ℕ}
    → IsLinked ids f o n
    → (k : Text) (b : Bridge) → f k ≡ some b
    → IsSide f k b (if text_eq (b.x).call_id k then b.x else b.y)
unfolding other
bridge-IsSide {f} v k b h =
    if_cases (λ l. IsSide f k b l) (text_eq (b.x).call_id k)
      (λ t. record {
        found = h;
        id = text_eq→eq (b.x).call_id k t;
        sides = inl (refl, ground arith);
      })
      (λ t. record {
        found = h;
        id = elim (v.named k b h) [ inl e ↦ absurd (text_eq_ne (b.x).call_id k t e) | inr e ↦ e ];
        sides = inr (refl, rw (handles_differ v k b h) refl);
      })

abbrev Sided : (Text → Option Bridge) → Text → Found → Type 0
Sided f k (in_bridge b l) = IsSide f k b l
Sided f k (orphan l) = Unit {0}
Sided f k unknown = Unit {0}

orphan-Sided :
    (f : Text → Option Bridge) (k : Text) (o : Option Leg) → Sided f k (found_leg none o k)
orphan-Sided f k none = tt
orphan-Sided f k (some l) = tt

find-Sided :
    {ids : ℕ → Text} {o : Text → Option Leg} {n : ℕ}
    → (p : Pbx) → IsLinked ids (get p.legs) o n
    → (k : Text) → Sided (get p.legs) k (find p k)
unfolding find
find-Sided p v k = elim (Option-cases (get p.legs k)) [
  | inl e ↦ rw e (orphan-Sided (get p.legs) k (get p.orphans k))
  | inr (b, e) ↦ rw e (bridge-IsSide v k b e)
]

pub find-IsSide :
    {ids : ℕ → Text} {o : Text → Option Leg} {n : ℕ}
    → (p : Pbx) → IsLinked ids (get p.legs) o n
    → (k : Text) (b : Bridge) (l : Leg) → find p k ≡ in_bridge b l
    → IsSide (get p.legs) k b l
find-IsSide p v k b l e = subst (Sided (get p.legs) k) e (find-Sided p v k)
