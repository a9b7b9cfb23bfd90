-- ===== src/Engine/Session/Agreement.antt =====
-- The two sides of a call agree on its session timer.
use xk6_sip.Common.{
  ℕ, zero, suc, ◌*◌, ◌^◌, ◌<◌, ◌≡◌, ◌⊎◌, inl, inr, refl, ap, ap₂, subst, sym, ◌∙◌, Bool, true,
  false, not, Option, none, some, List, [], ◌∷◌, ◌++◌, if◌then◌else◌, arith,
}
use xk6_sip.Common.Int.{ℤ, pos, negsuc}
use xk6_sip.Common.Text.{
  Text, codes, text_eq, trim_space, trim_left, is_space, to_lower, lower, equal_fold, fold_code,
  cut, split, cons_piece, atoi, decimal,
}
use xk6_sip.Common.Decimal.{decimal-AllDigits, atoi-decimal, cut-digits, trim_space-digits}
use xk6_sip.Engine.Session.{
  SessionExpires, Session, Timer, refresh_after, expire_after, second, seconds, whole_seconds,
  decimal_ℤ, parse_value, session_of, session_value, read_params, read_param, armed, start_session,
  session_refreshed, from_answer, for_answer, decided, Decided, default_session, Header,
  parse_session_expires, or_uac,
}

abbrev pub IsRole : Text → Type 0
IsRole t = (t ≡ codes "uac") ⊎ (t ≡ codes "uas")

read_params-role : (t : Text) → IsRole t → read_params [] (split 0x3B (codes "refresher=" ++ t)) ≡ t
unfolding read_params read_param trim_space trim_left to_lower lower equal_fold fold_code cut split
    cons_piece is_space
read_params-role t (inl e) = rw e refl
read_params-role t (inr e) = rw e refl

seconds_fit : (n : ℕ) → n * second < 2 ^ 63 → seconds n ≡ pos (n * second)
unfolding seconds
seconds_fit n h = ground arith

whole_seconds-seconds : (n : ℕ) → whole_seconds (pos (n * second)) ≡ pos n
unfolding whole_seconds
whole_seconds-seconds n = ap pos (omega arith)

session_of-pos :
    (params : Text) (n : ℕ)
    → 0 < n
    → session_of params (some (pos n))
      ≡ some (record { expires = seconds n; refresher = read_params [] (split 0x3B params) })
unfolding session_of
session_of-pos params zero h = absurd (omega arith)
session_of-pos params (suc n) h = refl

session_value-seconds :
    (n : ℕ) (role : Text)
    → session_value (pos (n * second)) role ≡ decimal n ++ 0x3B ∷ (codes "refresher=" ++ role)
unfolding session_value decimal_ℤ
session_value-seconds n role =
    ap (λ z. decimal_ℤ z ++ 0x3B ∷ (codes "refresher=" ++ role)) (whole_seconds-seconds n)

parse_value-printed :
    (n : ℕ) (role : Text)
    → 0 < n
    → n * second < 2 ^ 63
    → IsRole role
    → parse_value (decimal n ++ 0x3B ∷ (codes "refresher=" ++ role))
      ≡ some (record { expires = pos (n * second); refresher = role })
unfolding parse_value
parse_value-printed n role h fits r =
    let d = decimal-AllDigits n in
    ap (λ (c : Text × Text × Bool). session_of (c.1) (atoi (trim_space c.0)))
      (cut-digits 0x3B (decimal n) (codes "refresher=" ++ role) d refl)
    ∙ (ap (λ t. session_of (codes "refresher=" ++ role) (atoi t)) (trim_space-digits (decimal n) d)
        ∙ (ap (session_of (codes "refresher=" ++ role)) (atoi-decimal n (omega arith))
            ∙ (session_of-pos (codes "refresher=" ++ role) n h
                ∙ ap₂ (λ e t. some (record { expires = e; refresher = t })) (seconds_fit n fits)
                    (read_params-role role r))))

-- A session timer of whole seconds (below 2 ^ 63 ns) that is printed into a header is read back from
-- it, in full or compact form, with its duration and its refresher, for both roles.
pub parse_session_expires-session_value :
    (n : ℕ) (role : Text)
    → 0 < n
    → n * second < 2 ^ 63
    → IsRole role
    → (parse_session_expires (some (session_value (pos (n * second)) role)) none
        ≡ some (record { expires = pos (n * second); refresher = role }))
      × (parse_session_expires none (some (session_value (pos (n * second)) role))
          ≡ some (record { expires = pos (n * second); refresher = role }))
unfolding parse_session_expires
parse_session_expires-session_value n role h fits r =
    let e = ap parse_value (session_value-seconds n role) ∙ parse_value-printed n role h fits r in
    (e, e)

-- The value that a message gives to Session-Expires.
abbrev pub value_of : List Header → Option Text
value_of [] = none
value_of (h ∷ hs) = if text_eq h.name (codes "Session-Expires") then some h.value else value_of hs

-- When a timer fires, from the refresh on that starts it.
abbrev pub fires : Option Timer → ℕ
fires none = 0
fires (some (refresh_after n)) = n
fires (some (expire_after n)) = n

-- Two sides with the same duration, one of which refreshes, and in time.
pub record Agree (a b : Session) : Type 0 where
  pub same : a.expires ≡ b.expires
  pub one : b.refresher ≡ not a.refresher
  pub in_time :
      (a.refresher ≡ true → fires a.timer < fires b.timer)
      × (b.refresher ≡ true → fires b.timer < fires a.timer)

abbrev fresh : ℕ → Bool → Session
fresh n r = record {
  expires = n;
  refresher = r;
  timer = some (armed (record { expires = n; refresher = r; timer = none }));
}

start_session-fresh :
    (n : ℕ) (r : Bool) → 0 < n → start_session false none (pos n) r ≡ some (fresh n r)
unfolding start_session session_refreshed
start_session-fresh zero r h = absurd (omega arith)
start_session-fresh (suc n) r h = refl

fresh-Agree : (n : ℕ) (r : Bool) → 0 < n → Agree (fresh n r) (fresh n (not r))
unfolding armed
fresh-Agree n true h = record {
  same = refl;
  one = refl;
  in_time = (λ k. omega arith, λ k. ground arith);
}
fresh-Agree n false h = record {
  same = refl;
  one = refl;
  in_time = (λ k. ground arith, λ k. omega arith);
}

-- What an offer of a timer may say of the refresher: nothing, or one of the two roles.
abbrev pub IsOffer : Option SessionExpires → Type 0
IsOffer none = Unit {0}
IsOffer (some s) = (s.refresher ≡ []) ⊎ IsRole s.refresher

record IsPrinted (d : Decided) : Type 0 where
  role : Text
  known : IsRole role
  value : value_of d.headers ≡ some (session_value d.expires role)
  ours : d.we_refresh ≡ text_eq role (codes "uas")

decided-IsPrinted :
    (supported : Bool) (expires : ℤ) (t : Text)
    → (t ≡ []) ⊎ IsRole t
    → IsPrinted (decided supported expires t)
unfolding decided
decided-IsPrinted supported expires t (inl e) = record {
  role = codes "uac";
  known = inl refl;
  value = ap (λ x. some (session_value expires (or_uac x))) e;
  ours = ap (λ x. text_eq (or_uac x) (codes "uas")) e;
}
decided-IsPrinted supported expires t (inr (inl e)) = record {
  role = codes "uac";
  known = inl refl;
  value = ap (λ x. some (session_value expires (or_uac x))) e;
  ours = ap (λ x. text_eq (or_uac x) (codes "uas")) e;
}
decided-IsPrinted supported expires t (inr (inr e)) = record {
  role = codes "uas";
  known = inr refl;
  value = ap (λ x. some (session_value expires (or_uac x))) e;
  ours = ap (λ x. text_eq (or_uac x) (codes "uas")) e;
}

abbrev or_decided : Decided → Option Decided → Decided
or_decided d none = d
or_decided d (some e) = e

default_session-IsPrinted :
    (supported : Bool) (z : ℤ) (d : Decided) → default_session supported z ≡ some d → IsPrinted d
unfolding default_session
default_session-IsPrinted supported (negsuc n) d h = cc
default_session-IsPrinted supported (pos zero) d h = cc
default_session-IsPrinted true (pos (suc n)) d h =
    subst IsPrinted (ap (or_decided d) h)
      (decided-IsPrinted true (pos (suc n)) (codes "uac") (inr (inl refl)))
default_session-IsPrinted false (pos (suc n)) d h = cc

for_answer-IsPrinted :
    (configured : ℤ) (supported : Bool) (o : Option SessionExpires) (d : Decided)
    → IsOffer o
    → for_answer configured supported o ≡ some d
    → IsPrinted d
unfolding for_answer
for_answer-IsPrinted configured supported none d i h =
    default_session-IsPrinted supported configured d h
for_answer-IsPrinted configured supported (some s) d i h =
    subst IsPrinted (ap (or_decided d) h) (decided-IsPrinted supported s.expires s.refresher i)

-- The callee decides on a session timer (of whole seconds, positive and below 2 ^ 63 ns) from an INVITE
-- that names a role, no role or no timer at all. Then the caller, which reads the headers of the
-- 2xx, starts a timer too: with the same duration, exactly one of the two refreshes, and it does
-- so before the other one would hang up.
pub for_answer-Agree :
    (configured : ℤ) (supported : Bool) (o : Option SessionExpires) (d : Decided) (n : ℕ)
    → IsOffer o
    → for_answer configured supported o ≡ some d
    → d.expires ≡ pos (n * second)
    → 0 < n
    → n * second < 2 ^ 63
    → (a : Session) × (b : Session) × (start_session false none d.expires d.we_refresh ≡ some a)
      × (from_answer false none (parse_session_expires (value_of d.headers) none) ≡ some b)
      × Agree a b
unfolding from_answer
for_answer-Agree configured supported o d n i h e positive fits =
    let p = for_answer-IsPrinted configured supported o d i h in
    let read : parse_session_expires (value_of d.headers) none
        ≡ some (record { expires = pos (n * second); refresher = p.role }) =
      ap (λ v. parse_session_expires v none) (p.value ∙ ap (λ z. some (session_value z p.role)) e)
      ∙ (parse_session_expires-session_value n p.role positive fits p.known).0 in
    let some_time : 0 < n * second = omega arith in
    (
      fresh (n * second) d.we_refresh,
      fresh (n * second) (not d.we_refresh),
      ap (λ z. start_session false none z d.we_refresh) e
          ∙ start_session-fresh (n * second) d.we_refresh some_time,
      ap (from_answer false none) read
          ∙ (ap (λ r. start_session false none (pos (n * second)) (not r)) (sym p.ours)
              ∙ start_session-fresh (n * second) (not d.we_refresh) some_time),
      fresh-Agree (n * second) d.we_refresh some_time,
    )
