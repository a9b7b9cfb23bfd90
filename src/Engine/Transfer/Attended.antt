-- ===== src/Engine/Transfer/Attended.antt =====
-- An attended transfer finds the call that it is to replace.
use xk6_sip.Common.{
  ℕ, ◌≡◌, refl, ap, sym, ◌∙◌, Bool, true, false, Option, some, [], ◌∷◌, ◌++◌, if◌then◌else◌, arith,
}
use mathlib.Core.List.{reverse, reverse_aux, reverse-append, reverse-reverse, append_assoc}
use xk6_sip.Common.Text.{
  Text, codes, is_empty, is_space, trim_left, trim_space, cut, split, cons_piece, equal_fold,
  fold_code, lower, to_lower, text_eq_refl,
}
use xk6_sip.Engine.Device.{Calls, find_call}
use xk6_sip.Engine.Transfer.{
  query_escape, ReferTo, refer_to, parse_refer_to, split_target, in_brackets, read_uri_headers,
  read_uri_header, refer_result, set_replaces, replaces_value, attended_refer_to, Tags, read_tag,
  read_tags, same_tags, matching, replaced_call,
}
use xk6_sip.Engine.Transfer.Escaping.{
  AreBytes, Free, append-Free, cut-Free, split-Free, query_escape-Free, query_unescape-query_escape,
}

abbrev pub NoSpace : Text → Type 0
NoSpace [] = Unit {0}
NoSpace (c ∷ s) = (is_space c ≡ false) × NoSpace s

append-NoSpace : (s t : Text) → NoSpace s → NoSpace t → NoSpace (s ++ t)
append-NoSpace [] t f g = g
append-NoSpace (c ∷ s) t f g = (f.0, append-NoSpace s t f.1 g)

append-AreBytes : (s t : Text) → AreBytes s → AreBytes t → AreBytes (s ++ t)
append-AreBytes [] t f g = g
append-AreBytes (c ∷ s) t f g = (f.0, append-AreBytes s t f.1 g)

trim_left-NoSpace : (t : Text) → NoSpace t → trim_left t ≡ t
unfolding trim_left
trim_left-NoSpace [] f = refl
trim_left-NoSpace (c ∷ s) f = rw (f.0) refl

reverse_aux-NoSpace : (t acc : Text) → NoSpace t → NoSpace acc → NoSpace (reverse_aux t acc)
reverse_aux-NoSpace [] acc f g = g
reverse_aux-NoSpace (c ∷ s) acc f g = reverse_aux-NoSpace s (c ∷ acc) f.1 (f.0, g)

trim_space-NoSpace : (t : Text) → NoSpace t → trim_space t ≡ t
unfolding trim_space
trim_space-NoSpace t f =
    ap (λ x. reverse (trim_left (reverse x))) (trim_left-NoSpace t f)
    ∙ (ap reverse (trim_left-NoSpace (reverse t) (reverse_aux-NoSpace t [] f tt))
        ∙ reverse-reverse t)

trim_left-bracket : (c : ℕ) (s : Text) → is_space c ≡ false → trim_left (c ∷ s) ≡ c ∷ s
unfolding trim_left
trim_left-bracket c s h = rw h refl

-- Brackets keep the spaces between them.
trim_space-brackets : (s : Text) → trim_space (b'<' ∷ (s ++ b'>' ∷ [])) ≡ b'<' ∷ (s ++ b'>' ∷ [])
unfolding trim_space is_space
trim_space-brackets s =
    let v = b'<' ∷ (s ++ b'>' ∷ []) in
    let back : reverse v ≡ b'>' ∷ reverse (b'<' ∷ s) = reverse-append (b'<' ∷ s) (b'>' ∷ []) in
    ap (λ x. reverse (trim_left (reverse x))) (trim_left-bracket b'<' (s ++ b'>' ∷ []) refl)
    ∙ (ap (λ x. reverse (trim_left x)) back
        ∙ (ap reverse (trim_left-bracket b'>' (reverse (b'<' ∷ s)) refl)
            ∙ (ap reverse (sym back) ∙ reverse-reverse v)))

split-append : (sep : ℕ) (s t : Text) → Free sep s → split sep (s ++ sep ∷ t) ≡ s ∷ split sep t
unfolding split cons_piece
split-append sep [] t f = ground arith
split-append sep (c ∷ s) t f = rw (f.0) (ap (cons_piece c) (split-append sep s t f.1))

-- A text that can stand in a Replaces value as it is.
pub record IsToken (t : Text) : Type 0 where
  pub bytes : AreBytes t
  pub no_semicolon : Free b';' t
  pub no_space : NoSpace t

named-tag :
    (t : Tags) (v : Text)
    → NoSpace v
    → (read_tag t (codes "to-tag=" ++ v) ≡ record t { to_tag = v })
      × (read_tag t (codes "from-tag=" ++ v) ≡ record t { from_tag = v })
unfolding read_tag cut to_lower lower
named-tag t v f =
    let to = trim_space-NoSpace (codes "to-tag=" ++ v) (
      append-NoSpace (codes "to-tag=") v
        (unfold is_space in (refl, (refl, (refl, (refl, (refl, (refl, (refl, tt)))))))) f) in
    let from = trim_space-NoSpace (codes "from-tag=" ++ v) (
      append-NoSpace (codes "from-tag=") v
        (unfold is_space in
          (refl, (refl, (refl, (refl, (refl, (refl, (refl, (refl, (refl, tt))))))))))
        f) in
    (rw to refl, rw from refl)

read_tags-value :
    (remote local : Text)
    → IsToken remote
    → IsToken local
    → read_tags
        (record { to_tag = []; from_tag = [] })
        (split b';' (codes "to-tag=" ++ (remote ++ b';' ∷ (codes "from-tag=" ++ local))))
      ≡ record { to_tag = remote; from_tag = local }
unfolding read_tags
read_tags-value remote local r l =
    let none_yet : Tags = record { to_tag = []; from_tag = [] } in
    let first : Free b';' (codes "to-tag=" ++ remote) =
      append-Free b';' (codes "to-tag=") remote
        (refl, (refl, (refl, (refl, (refl, (refl, (refl, tt))))))) r.no_semicolon in
    let second : Free b';' (codes "from-tag=" ++ local) =
      append-Free b';' (codes "from-tag=") local
        (refl, (refl, (refl, (refl, (refl, (refl, (refl, (refl, (refl, tt))))))))) l.no_semicolon in
    ap (read_tags none_yet) (
      split-append b';' (codes "to-tag=" ++ remote) (codes "from-tag=" ++ local) first
      ∙ ap (λ x. (codes "to-tag=" ++ remote) ∷ x)
          (split-Free b';' (codes "from-tag=" ++ local) second))
    ∙ (ap (λ t. read_tag t (codes "from-tag=" ++ local)) ((named-tag none_yet remote r.no_space).0)
        ∙ (named-tag (record none_yet { to_tag = remote }) local l.no_space).1)

value-NoSpace :
    (id remote local : Text)
    → IsToken id
    → IsToken remote
    → IsToken local
    → NoSpace (replaces_value id remote local)
unfolding replaces_value is_space
value-NoSpace id remote local i r l =
    append-NoSpace id (b';' ∷ (codes "to-tag=" ++ (remote ++ b';' ∷ (codes "from-tag=" ++ local))))
      i.no_space
      (append-NoSpace (b';' ∷ codes "to-tag=") (remote ++ b';' ∷ (codes "from-tag=" ++ local))
        (ground arith)
        (append-NoSpace remote (b';' ∷ (codes "from-tag=" ++ local)) r.no_space
          (append-NoSpace (b';' ∷ codes "from-tag=") local (ground arith) l.no_space)))

value-AreBytes :
    (id remote local : Text)
    → IsToken id
    → IsToken remote
    → IsToken local
    → AreBytes (replaces_value id remote local)
unfolding replaces_value
value-AreBytes id remote local i r l =
    append-AreBytes id (b';' ∷ (codes "to-tag=" ++ (remote ++ b';' ∷ (codes "from-tag=" ++ local))))
      i.bytes
      (append-AreBytes (b';' ∷ codes "to-tag=") (remote ++ b';' ∷ (codes "from-tag=" ++ local))
        (ground arith)
        (append-AreBytes remote (b';' ∷ (codes "from-tag=" ++ local)) r.bytes
          (append-AreBytes (b';' ∷ codes "from-tag=") local (ground arith) l.bytes)))

same_tags_refl : (t : Tags) → same_tags t t ≡ true
same_tags_refl t = rw (text_eq_refl t.to_tag, text_eq_refl t.from_tag) refl

abbrev matched : Calls → (ℕ → Tags) → Text × Text × Bool → Option ℕ
matched cs tags r =
    matching tags (read_tags (record { to_tag = []; from_tag = [] }) (split b';' (r.1)))
      (find_call cs (r.0))

cut-value :
    (id remote local : Text)
    → IsToken id
    → cut b';' (replaces_value id remote local)
      ≡ (id, codes "to-tag=" ++ (remote ++ b';' ∷ (codes "from-tag=" ++ local)), true)
unfolding replaces_value
cut-value id remote local i =
    cut-Free b';' id (codes "to-tag=" ++ (remote ++ b';' ∷ (codes "from-tag=" ++ local)))
      i.no_semicolon

matching-named :
    (tags : ℕ → Tags) (t : Tags) (c : ℕ) → tags c ≡ t → matching tags t (some c) ≡ some c
unfolding matching
matching-named tags t c h = rw h (rw (same_tags_refl t) refl)

replaced_call-value :
    (cs : Calls) (tags : ℕ → Tags) (id remote local : Text) (c : ℕ)
    → IsToken id
    → IsToken remote
    → IsToken local
    → find_call cs id ≡ some c
    → tags c ≡ record { to_tag = remote; from_tag = local }
    → replaced_call cs tags (replaces_value id remote local) ≡ some c
unfolding replaced_call
replaced_call-value cs tags id remote local c i r l found named =
    ap (λ v. matched cs tags (cut b';' v))
      (trim_space-NoSpace (replaces_value id remote local) (value-NoSpace id remote local i r l))
    ∙ (ap (matched cs tags) (cut-value id remote local i)
        ∙ (ap (λ x. matching tags x (find_call cs id)) (read_tags-value remote local r l)
            ∙ (ap (matching tags (record { to_tag = remote; from_tag = local })) found
                ∙ matching-named tags (record { to_tag = remote; from_tag = local }) c named)))

-- A target without brackets and without headers of its own.
pub record IsTarget (t : Text) : Type 0 where
  pub some_text : is_empty t ≡ false
  pub no_header : Free b'?' t
  pub no_bracket : Free b'>' t

abbrev refer_headers : Text → Text
refer_headers v = codes "Replaces=" ++ query_escape v

read_uri_headers-value :
    (v : Text) → AreBytes v → read_uri_headers (some []) (split b'&' (refer_headers v)) ≡ some v
unfolding read_uri_headers read_uri_header cut equal_fold fold_code lower
read_uri_headers-value v b =
    let free : Free b'&' (refer_headers v) =
      append-Free b'&' (codes "Replaces=") (query_escape v) (ground arith)
        (query_escape-Free b'&' v (refl, refl, refl) b) in
    ap (read_uri_headers (some [])) (split-Free b'&' (refer_headers v) free)
    ∙ ap (set_replaces (some [])) (query_unescape-query_escape v b)

abbrev inner : Text → Text → Text
inner target v = target ++ b'?' ∷ refer_headers v

attended-brackets :
    (target v : Text) → attended_refer_to target v ≡ b'<' ∷ (inner target v ++ b'>' ∷ [])
unfolding attended_refer_to
attended-brackets target v =
    ap (λ s. b'<' ∷ s) (sym (append_assoc target (b'?' ∷ refer_headers v) (b'>' ∷ [])))

in_brackets-inner : (s : Text) → Free b'>' s → in_brackets (b'<' ∷ (s ++ b'>' ∷ [])) ≡ s
unfolding in_brackets cut
in_brackets-inner s f =
    ap (λ (r : Text × Text × Bool). if r.2 then r.0 else b'<' ∷ (s ++ b'>' ∷ []))
      (unfold cut in cut-Free b'>' s [] f)

split_target-inner :
    (target v : Text)
    → IsTarget target
    → AreBytes v
    → split_target (inner target v) ≡ refer_to target v
unfolding split_target
split_target-inner target v t b =
    ap
      (λ (r : Text × Text × Bool).
        if is_empty (r.0)
        then ReferTo.empty_target
        else refer_result (r.0) (read_uri_headers (some []) (split b'&' (r.1))))
      (cut-Free b'?' target (refer_headers v) t.no_header)
    ∙ rw (t.some_text) (ap (refer_result target) (read_uri_headers-value v b))

-- What the Refer-To of an attended transfer says is what was put into it: the target, and the Replaces
-- value of the consultation call, through its escaping. And that value, in the INVITE that the
-- transferee sends, finds the call again at the side that holds it under this Call-ID with these
-- tags. The Call-ID and the tags are bytes without spaces and semicolons, and the target has no
-- headers of its own.
pub replaced_call-attended_refer_to :
    (cs : Calls) (tags : ℕ → Tags) (target id remote local : Text) (c : ℕ)
    → IsTarget target
    → IsToken id
    → IsToken remote
    → IsToken local
    → find_call cs id ≡ some c
    → tags c ≡ record { to_tag = remote; from_tag = local }
    → (parse_refer_to (some (attended_refer_to target (replaces_value id remote local)))
        ≡ refer_to target (replaces_value id remote local))
      × (replaced_call cs tags (replaces_value id remote local) ≡ some c)
unfolding parse_refer_to
replaced_call-attended_refer_to cs tags target id remote local c t i r l found named =
    let v = replaces_value id remote local in
    let b = value-AreBytes id remote local i r l in
    let free : Free b'>' (inner target v) =
      append-Free b'>' target (b'?' ∷ refer_headers v) t.no_bracket (
        append-Free b'>' (b'?' ∷ codes "Replaces=") (query_escape v) (ground arith)
          (query_escape-Free b'>' v (refl, refl, refl) b)) in
    (
      ap (λ h. split_target (in_brackets (trim_space h))) (attended-brackets target v)
          ∙ (ap (λ h. split_target (in_brackets h)) (trim_space-brackets (inner target v))
              ∙ (ap split_target (in_brackets-inner (inner target v) free)
                  ∙ split_target-inner target v t b)),
      replaced_call-value cs tags id remote local c i r l found named,
    )
