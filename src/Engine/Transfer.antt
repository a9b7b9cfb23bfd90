-- ===== src/Engine/Transfer.antt =====
-- engine/transfer.go: the progress of a REFER that was sent, and the headers Refer-To and Replaces.
-- A target is the text of its URI; url.QueryEscape and url.QueryUnescape are written out over bytes.
pub mod Escaping
pub mod Attended
pub mod Referring
use xk6_sip.Common.{
  ℕ, zero, suc, ◌+◌, ◌-◌, ◌*◌, ◌/◌, ◌%◌, Bool, true, false, not, ◌&&◌, ◌||◌, Option, none, some,
  List, [], ◌∷◌, ◌++◌, if◌then◌else◌, ltb, leb, ◌==◌,
}
use xk6_sip.Common.Int.{ℤ, pos, leb_ℤ, ltb_ℤ}
use xk6_sip.Common.Text.{
  Text, codes, text_eq, is_empty, trim_space, to_lower, equal_fold, cut, split,
}
use xk6_sip.Engine.Device.{Calls, find_call}

-- `transferProgress`; `done_closes` counts the closings of its channel, under its `sync.Once`.
pub record Progress : Type 0 where
  pub status : ℤ
  pub done_closes : ℕ

unfoldable pub progress_update : Progress → ℤ → Bool → Progress
progress_update p status final = record {
  status = status;
  done_closes = if final && p.done_closes == 0 then p.done_closes + 1 else p.done_closes;
}

unfoldable pub is_transferred : Progress → Bool
is_transferred p = ltb 0 p.done_closes && (leb_ℤ (pos 200) p.status && ltb_ℤ p.status (pos 300))

-- The bytes that stay as they are.
abbrev pub is_unreserved : ℕ → Bool
is_unreserved c =
    leb b'a' c && leb c b'z'
    || leb b'A' c && leb c b'Z'
    || leb b'0' c && leb c b'9'
    || c == b'-'
    || c == b'_'
    || c == b'.'
    || c == b'~'

unfoldable pub hex_digit : ℕ → ℕ
hex_digit n = if ltb n 10 then b'0' + n else b'A' + (n - 10)

unfoldable pub escape_byte : ℕ → Text
unfolding hex_digit
escape_byte c =
    if is_unreserved c
    then c ∷ []
    else if c == b' '
    then b'+' ∷ []
    else b'%' ∷ hex_digit (c / 16) ∷ hex_digit (c % 16) ∷ []

unfoldable pub query_escape : Text → Text
unfolding escape_byte
query_escape [] = []
query_escape (c ∷ s) = escape_byte c ++ query_escape s

abbrev pub is_hex : ℕ → Bool
is_hex c = leb b'0' c && leb c b'9' || leb b'a' c && leb c b'f' || leb b'A' c && leb c b'F'

unfoldable pub hex_value : ℕ → ℕ
hex_value c = if leb c b'9' then c - b'0' else if leb b'a' c then c - b'a' + 10 else c - b'A' + 10

-- Where the reading stands: outside of an escape, or behind its `%`, or behind its first digit.
pub data Place : Type 0 where
  plain percent : Place
  high : ℕ → Place

abbrev pub cons_byte : ℕ → Option Text → Option Text
cons_byte c none = none
cons_byte c (some s) = some (c ∷ s)

unfoldable pub unescape : Place → Text → Option Text
unfolding hex_value
unescape plain [] = some []
unescape percent [] = none
unescape (high h) [] = none
unescape plain (c ∷ s) =
    let rest = unescape (if c == b'%' then percent else plain) s in
    if c == b'%' then rest else cons_byte (if c == b'+' then b' ' else c) rest
unescape percent (c ∷ s) =
    let rest = unescape (high (hex_value c)) s in if is_hex c then rest else none
unescape (high h) (c ∷ s) =
    let rest = unescape plain s in if is_hex c then cons_byte (h * 16 + hex_value c) rest else none

unfoldable pub query_unescape : Text → Option Text
unfolding unescape
query_unescape s = unescape plain s

pub data ReferTo : Type 0 where
  refer_to : Text → Text → ReferTo  -- the target, and the Replaces value
  missing_header empty_target bad_escape : ReferTo

abbrev pub set_replaces : Option Text → Option Text → Option Text
set_replaces replaces none = none
set_replaces none (some v) = none
set_replaces (some r) (some v) = some v

-- One header of the URI; `none` where it could not be unescaped.
unfoldable pub read_uri_header : Option Text → Text → Option Text
unfolding query_unescape
read_uri_header replaces kv =
    let r = cut b'=' kv in
    if equal_fold (r.0) (codes "Replaces")
    then set_replaces replaces (query_unescape (r.1))
    else replaces

unfoldable pub read_uri_headers : Option Text → List Text → Option Text
unfolding read_uri_header
read_uri_headers replaces [] = replaces
read_uri_headers replaces (kv ∷ kvs) = read_uri_headers (read_uri_header replaces kv) kvs

abbrev pub refer_result : Text → Option Text → ReferTo
refer_result uri none = bad_escape
refer_result uri (some replaces) = refer_to uri replaces

unfoldable pub split_target : Text → ReferTo
unfolding read_uri_headers
split_target v =
    let r = cut b'?' v in
    if is_empty (r.0)
    then empty_target
    else refer_result (r.0) (read_uri_headers (some []) (split b'&' (r.1)))

-- What stands between `<` and the next `>`, if both are there.
unfoldable pub in_brackets : Text → Text
in_brackets v = let i = cut b'<' v in let j = cut b'>' (i.1) in if i.2 && j.2 then j.0 else v

unfoldable pub parse_refer_to : Option Text → ReferTo
unfolding split_target in_brackets
parse_refer_to none = missing_header
parse_refer_to (some h) = split_target (in_brackets (trim_space h))

-- The value that `AttendedTransfer` gives to Replaces, with the tags as the peer sees them.
unfoldable pub replaces_value : Text → Text → Text → Text
replaces_value call_id remote local =
    call_id ++ b';' ∷ (codes "to-tag=" ++ (remote ++ b';' ∷ (codes "from-tag=" ++ local)))

-- The Refer-To of an attended transfer.
unfoldable pub attended_refer_to : Text → Text → Text
unfolding query_escape
attended_refer_to target replaces =
    b'<' ∷ (target ++ b'?' ∷ (codes "Replaces=" ++ (query_escape replaces ++ b'>' ∷ [])))

-- The tags that a Replaces header names.
pub record Tags : Type 0 where
  pub to_tag : Text
  pub from_tag : Text

unfoldable pub read_tag : Tags → Text → Tags
read_tag t p =
    let r = cut b'=' (trim_space p) in
    if text_eq (to_lower (r.0)) (codes "to-tag")
    then record t { to_tag = r.1 }
    else if text_eq (to_lower (r.0)) (codes "from-tag")
    then record t { from_tag = r.1 }
    else t

unfoldable pub read_tags : Tags → List Text → Tags
unfolding read_tag
read_tags t [] = t
read_tags t (p ∷ ps) = read_tags (read_tag t p) ps

abbrev pub same_tags : Tags → Tags → Bool
same_tags t u = text_eq t.to_tag u.to_tag && text_eq t.from_tag u.from_tag

unfoldable pub matching : (ℕ → Tags) → Tags → Option ℕ → Option ℕ
matching tags t none = none
matching tags t (some c) = if same_tags (tags c) t then some c else none

-- `replacedCall` of a Replaces value; `tags` has our tag and the peer's of each call.
unfoldable pub replaced_call : Calls → (ℕ → Tags) → Text → Option ℕ
unfolding read_tags matching
replaced_call cs tags value =
    let r = cut b';' (trim_space value) in
    matching tags (read_tags (record { to_tag = []; from_tag = [] }) (split b';' (r.1)))
      (find_call cs (r.0))
