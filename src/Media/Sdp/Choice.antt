-- ===== src/Media/Sdp/Choice.antt =====
-- The choice of a codec (media/sdp.go, `choose`) and the directions, as both sides see them.
use xk6_sip.Common.{
  ◌≡◌, ◌↔◌, refl, ap, ◌∙◌, true, false, none, some, List, [], ◌∷◌, arith, Option-cases, inl, inr,
}
use xk6_sip.Common.Text.{Text, text_eq, text_eq→eq}
use xk6_sip.Media.Codec.{Codec}
use xk6_sip.Media.Sdp.{
  Direction, reverse, sends, receives, find_name, answer_choice, offer_choice, choose,
}

-- Whatever direction is offered, the one that answers it sends exactly if the offer receives, and
-- receives exactly if the offer sends; and the offerer comes back to the offered direction.
pub reverse_roles :
    (d : Direction)
    → (sends (reverse d) ≡ receives d)
      × (receives (reverse d) ≡ sends d)
      × (reverse (reverse d) ≡ d)
unfolding sends receives reverse
reverse_roles d = ground arith

pub find_name-name :
    (name : Text) (cs : List Codec) (c : Codec) → find_name name cs ≡ some c → c.name ≡ name
unfolding find_name
find_name-name name [] c h = cc
find_name-name name (x ∷ cs) c h = ground (arith, text_eq→eq x.name name, find_name-name name cs c)

-- What an answer chooses is found again by its own name among the offered codecs.
pub answer_choice-offered :
    (ours remote : List Codec) (c : Codec)
    → answer_choice ours remote ≡ some c
    → find_name c.name remote ≡ some c
unfolding answer_choice
answer_choice-offered [] remote c h = cc
answer_choice-offered (o ∷ ours) remote c h = elim (Option-cases (find_name o.name remote)) [
  | inl e ↦ answer_choice-offered ours remote c (ground arith)
  | inr (d, e) ↦
      let same : d ≡ c = ground arith in
      let found : find_name o.name remote ≡ some c = e ∙ ap some same in
      ap (λ n. find_name n remote) (find_name-name o.name remote c found) ∙ found
]

-- No codec of the list goes by the name.
abbrev Misses : Text → List Codec → Type 0
Misses name [] = Unit {0}
Misses name (c ∷ cs) = (text_eq c.name name ≡ false) × Misses name cs

-- No name is in both lists.
abbrev Apart : List Codec → List Codec → Type 0
Apart [] remote = Unit {0}
Apart (o ∷ ours) remote = Misses o.name remote × Apart ours remote

find_name-Misses : (name : Text) (cs : List Codec) → (find_name name cs ≡ none) ↔ Misses name cs
unfolding find_name
find_name-Misses name [] = (λ h. tt, λ h. refl)
find_name-Misses name (c ∷ cs) =
    let rest = find_name-Misses name cs in
    (λ h. (ground arith, rest.0 (ground arith)), λ h. ground (arith, rest.1 h.1))

text_eq_sym : (s t : Text) → text_eq s t ≡ text_eq t s
text_eq_sym [] [] = refl
text_eq_sym [] (d ∷ t) = refl
text_eq_sym (c ∷ s) [] = refl
text_eq_sym (c ∷ s) (d ∷ t) = ground (arith, text_eq_sym s t)

Apart-nil : (ours : List Codec) → Apart ours []
Apart-nil [] = tt
Apart-nil (o ∷ ours) = (tt, Apart-nil ours)

Apart-cons :
    (r : Codec) (ours remote : List Codec)
    → Misses r.name ours
    → Apart ours remote
    → Apart ours (r ∷ remote)
Apart-cons r [] remote m a = tt
Apart-cons r (o ∷ ours) remote m a =
    ((text_eq_sym r.name o.name ∙ m.0, a.0), Apart-cons r ours remote m.1 a.1)

Apart-sym : (ours remote : List Codec) → Apart ours remote → Apart remote ours
Apart-sym [] remote a = Apart-nil remote
Apart-sym (o ∷ ours) remote a = Apart-cons o remote ours a.0 (Apart-sym ours remote a.1)

answer_choice-Apart :
    (ours remote : List Codec) → (answer_choice ours remote ≡ none) ↔ Apart ours remote
unfolding answer_choice
answer_choice-Apart [] remote = (λ h. tt, λ h. refl)
answer_choice-Apart (o ∷ ours) remote =
    let rest = answer_choice-Apart ours remote in
    let first = find_name-Misses o.name remote in
    (
      λ h. (first.0 (ground arith), rest.0 (ground arith)),
      λ h. ground (arith, first.1 h.0, rest.1 h.1),
    )

offer_choice-Apart :
    (ours remote : List Codec) → (offer_choice ours remote ≡ none) ↔ Apart remote ours
unfolding offer_choice
offer_choice-Apart ours [] = (λ h. tt, λ h. refl)
offer_choice-Apart ours (r ∷ remote) =
    let rest = offer_choice-Apart ours remote in
    let first = find_name-Misses r.name ours in
    (
      λ h. (first.0 (ground arith), rest.0 (ground arith)),
      λ h. ground (arith, first.1 h.0, rest.1 h.1),
    )

-- Whether two sides have a codec in common does not depend on who offers: `choose` fails as the
-- answerer exactly if it fails as the offerer.
pub choose-none_iff :
    (ours remote : List Codec)
    → (choose ours remote true ≡ none) ↔ (choose ours remote false ≡ none)
unfolding choose
choose-none_iff ours remote = (
  λ h.
      (offer_choice-Apart ours remote).1
        (Apart-sym ours remote ((answer_choice-Apart ours remote).0 h)),
  λ h.
      (answer_choice-Apart ours remote).1
        (Apart-sym remote ours ((offer_choice-Apart ours remote).0 h)),
)

pub choose-offered :
    (ours remote : List Codec) (c : Codec)
    → choose ours remote true ≡ some c
    → find_name c.name remote ≡ some c
unfolding choose
choose-offered ours remote c h = answer_choice-offered ours remote c h

pub choose_single :
    (ours : List Codec) (c d : Codec)
    → find_name c.name ours ≡ some d
    → choose ours (c ∷ []) false ≡ some c
unfolding choose offer_choice
choose_single ours c d h = ground arith
