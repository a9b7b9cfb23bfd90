-- ===== src/Engine/Device/Claiming.antt =====
-- Which incoming call `ExpectCall` claims, and that it loses no other.
use xk6_sip.Common.{
  ◌≡◌, refl, ap, subst, sym, Bool, true, false, not, ◌&&◌, Option, none, some, List, [], ◌∷◌, ◌++◌,
  arith, if◌then◌else◌, Bool-cases, inl, inr,
}
use xk6_sip.Common.Text.{Text}
use xk6_sip.Engine.Device.{Incoming, claims, scan, numbers_match}

-- The calls that have not ended.
abbrev pub live : List Incoming → List Incoming
live [] = []
live (c ∷ cs) = if c.ended then live cs else c ∷ live cs

-- Whether no call of a list is one that the caller's number matches.
abbrev pub no_match : Text → List Incoming → Bool
no_match caller [] = true
no_match caller (c ∷ cs) = not (numbers_match caller c.remote) && no_match caller cs

-- The live calls are those before the claimed one, which do not match, it, and those behind it.
pub record IsFirst (caller : Text) (calls : List Incoming) (c : Incoming) (kept : List Incoming)
    : Type 0 where
  pub before : List Incoming
  pub after : List Incoming
  pub all : live calls ≡ before ++ c ∷ after
  pub rest : kept ≡ before ++ after
  pub matches : numbers_match caller c.remote ≡ true
  pub first : no_match caller before ≡ true

abbrev pub Claim : Text → List Incoming → Option Incoming × List Incoming → Type 0
Claim caller calls (none, kept) = (kept ≡ live calls) × (no_match caller (live calls) ≡ true)
Claim caller calls (some c, kept) = IsFirst caller calls c kept

scan-found :
    (caller : Text) (x : Incoming) (cs : List Incoming)
    → scan caller (some x) cs ≡ (some x, live cs)
unfolding scan claims
scan-found caller x [] = refl
scan-found caller x (c ∷ cs) = ground (arith, scan-found caller x cs)

-- One step of the loop before a call is found.
ended-Claim :
    (caller : Text) (c : Incoming) (cs : List Incoming) (r : Option Incoming × List Incoming)
    → c.ended ≡ true
    → Claim caller cs r
    → Claim caller (c ∷ cs) r
ended-Claim caller c cs (none, kept) e h = ground (arith, h)
ended-Claim caller c cs (some x, kept) e h = record {
  before = h.before;
  after = h.after;
  all = ground (arith, h.all);
  rest = h.rest;
  matches = h.matches;
  first = h.first;
}

kept-Claim :
    (caller : Text) (c : Incoming) (cs : List Incoming) (r : Option Incoming × List Incoming)
    → c.ended ≡ false
    → numbers_match caller c.remote ≡ false
    → Claim caller cs r
    → Claim caller (c ∷ cs) (r.0, c ∷ r.1)
kept-Claim caller c cs (none, kept) e m h = ground (arith, h)
kept-Claim caller c cs (some x, kept) e m h = record {
  before = c ∷ h.before;
  after = h.after;
  all = ground (arith, h.all);
  rest = ap (λ k. c ∷ k) h.rest;
  matches = h.matches;
  first = ground (arith, h.first);
}

claimed-Claim :
    (caller : Text) (c : Incoming) (cs : List Incoming)
    → c.ended ≡ false
    → numbers_match caller c.remote ≡ true
    → Claim caller (c ∷ cs) (some c, live cs)
claimed-Claim caller c cs e m = record {
  before = [];
  after = live cs;
  all = ground (arith, e);
  rest = refl;
  matches = m;
  first = refl;
}

-- What the loop does with the first call of the inbox.
scan-ended :
    (caller : Text) (c : Incoming) (cs : List Incoming)
    → c.ended ≡ true
    → scan caller none (c ∷ cs) ≡ scan caller none cs
unfolding scan claims
scan-ended caller c cs e = ground (arith, e)

scan-claimed :
    (caller : Text) (c : Incoming) (cs : List Incoming)
    → c.ended ≡ false
    → numbers_match caller c.remote ≡ true
    → scan caller none (c ∷ cs) ≡ (some c, live cs)
unfolding scan claims
scan-claimed caller c cs e m = ground (arith, e, m, scan-found caller c cs)

scan-kept :
    (caller : Text) (c : Incoming) (cs : List Incoming)
    → c.ended ≡ false
    → numbers_match caller c.remote ≡ false
    → scan caller none (c ∷ cs) ≡ ((scan caller none cs).0, c ∷ (scan caller none cs).1)
unfolding scan claims
scan-kept caller c cs e m = ground (arith, e, m)

-- `ExpectCall` claims the first call in its inbox that has not ended and whose caller matches, if
-- there is one; all other calls that have not ended stay in the inbox in their order, and the calls
-- that have ended leave it.
pub scan-Claim : (caller : Text) (cs : List Incoming) → Claim caller cs (scan caller none cs)
unfolding scan
scan-Claim caller [] = (refl, refl)
scan-Claim caller (c ∷ cs) = elim (Bool-cases c.ended) [
  | inl e ↦
      subst (Claim caller (c ∷ cs)) (sym (scan-ended caller c cs e))
        (ended-Claim caller c cs (scan caller none cs) e (scan-Claim caller cs))
  | inr e ↦ elim (Bool-cases (numbers_match caller c.remote)) [
    | inl m ↦
        subst (Claim caller (c ∷ cs)) (sym (scan-claimed caller c cs e m))
          (claimed-Claim caller c cs e m)
    | inr m ↦
        subst (Claim caller (c ∷ cs)) (sym (scan-kept caller c cs e m))
          (kept-Claim caller c cs (scan caller none cs) e m (scan-Claim caller cs))
  ]
]
