-- ===== src/Engine/Retransmission.antt =====
-- engine/netio.go: which messages a device's socket reports as sent again; engine/observer.go: which
-- requests count as failed. Messages are bytes, times are in ms.
pub mod Memory
use xk6_sip.Common.{
  ℕ, suc, ◌+◌, ◌-◌, ◌*◌, ◌%◌, min, Bool, true, false, not, ◌&&◌, ◌||◌, Option, none, some, List, [],
  ◌∷◌, ◌++◌, if◌then◌else◌, ltb, leb, ◌==◌, length, take, drop,
}
use xk6_sip.Common.Text.{Text, codes, text_eq, trim_space, to_lower, cut, has_prefix}

abbrev cons_text : ℕ → Option Text → Option Text
cons_text c none = none
cons_text c (some s) = some (c ∷ s)

-- What stands before and behind the first occurrence of a text.
unfoldable pub before : Text → Text → Option Text
before sep [] = none
before sep (c ∷ s) =
    let rest = before sep s in if has_prefix (c ∷ s) sep then some [] else cons_text c rest

unfoldable pub behind : Text → Text → Option Text
behind sep [] = none
behind sep (c ∷ s) =
    let rest = behind sep s in
    if has_prefix (c ∷ s) sep then some (drop (length sep) (c ∷ s)) else rest

abbrev or_whole : Option Text → Text → Text
or_whole none b = b
or_whole (some s) b = s

abbrev onto_first : Text → List Text → List Text
onto_first p [] = p ∷ []
onto_first p (l ∷ ls) = (p ++ l) ∷ ls

-- The lines of a text, where `pending` says that a carriage return stands before it.
unfoldable pub crlf_lines : Bool → Text → List Text
crlf_lines pending [] = (if pending then 13 ∷ [] else []) ∷ []
crlf_lines pending (c ∷ s) =
    let rest = crlf_lines (c == 13) s in
    if pending && c == 10
    then [] ∷ rest
    else onto_first ((if pending then 13 ∷ [] else []) ++ (if c == 13 then [] else c ∷ [])) rest

unfoldable pub to_delimiter : Text → Text
to_delimiter [] = []
to_delimiter (c ∷ s) =
    let rest = to_delimiter s in if c == b';' || c == b',' || c == b' ' then [] else c ∷ rest

abbrev branch_of : Option Text → Option Text
branch_of none = none
branch_of (some v) = some (to_delimiter v)

-- The top Via branch and the CSeq, as far as they have been found.
pub record Keys : Type 0 where
  pub branch : Option Text
  pub cseq : Option Text

abbrev is_none : Option Text → Bool
is_none none = true
is_none (some t) = false

-- `bytes.TrimSpace` returns nil for nothing but space.
abbrev non_nil : Text → Option Text
non_nil [] = none
non_nil (c ∷ s) = some (c ∷ s)

unfoldable pub read_header : Keys → Text → Keys
unfolding behind to_delimiter
read_header k l =
    let (raw, value, found) = cut b':' l in
    let name = to_lower (trim_space raw) in
    if not found
    then k
    else if is_none k.branch && (text_eq name (codes "via") || text_eq name (codes "v"))
    then record k { branch = branch_of (behind (codes "branch=") value) }
    else if is_none k.cseq && text_eq name (codes "cseq")
    then record k { cseq = non_nil (trim_space value) }
    else k

unfoldable pub read_headers : Keys → List Text → Keys
unfolding read_header
read_headers k [] = k
read_headers k (l ∷ ls) = read_headers (read_header k l) ls

pub record Message : Type 0 where
  pub key : Text
  pub method : Text
  pub status : ℕ

unfoldable pub status_digits : ℕ → Text → ℕ
status_digits n [] = n
status_digits n (c ∷ s) = status_digits (n * 10 + (c + 208) % 256) s

unfoldable pub key_of : Text → Text → Text → ℕ → Message
key_of start branch cseq status = record {
  key = take (min (length start) 16) start ++ b'|' ∷ (branch ++ b'|' ∷ cseq);
  method = trim_space ((cut b' ' cseq).1);
  status = status;
}

-- A response counts from 200 on: a repeated 180 is a new message.
unfoldable pub of_start : Text → Option Text → Option Text → Option Message
unfolding status_digits key_of
of_start start none cseq = none
of_start start (some branch) none = none
of_start start (some branch) (some cseq) =
    let status = status_digits 0 (take 3 (drop 8 start)) in
    if has_prefix start (codes "SIP/2.0 ")
    then (if ltb (length start) 11 || ltb status 200
        then none
        else some (key_of start branch cseq status))
    else some (key_of start branch cseq 0)

unfoldable pub of_lines : List Text → Option Message
unfolding read_headers of_start
of_lines [] = none
of_lines (start ∷ []) = none
of_lines (start ∷ l ∷ ls) =
    let k = read_headers (record { branch = none; cseq = none }) (l ∷ ls) in
    of_start start k.branch k.cseq

unfoldable pub message_key : Text → Option Message
unfolding before crlf_lines of_lines
message_key b = of_lines (crlf_lines false (or_whole (before (codes "\r\n\r\n") b) b))

abbrev pub retransmit_memory : ℕ
retransmit_memory = 40000

pub record Socket : Type 0 where
  pub seen : List (Text × ℕ)  -- each key once
  pub swept : ℕ  -- 0 for the zero time
  pub reports : List Message  -- the latest first

unfoldable pub find_key : Text → List (Text × ℕ) → Option ℕ
find_key k [] = none
find_key k ((l, t) ∷ seen) = let rest = find_key k seen in if text_eq l k then some t else rest

unfoldable pub delete_key : Text → List (Text × ℕ) → List (Text × ℕ)
delete_key k [] = []
delete_key k ((l, t) ∷ seen) =
    let rest = delete_key k seen in if text_eq l k then rest else (l, t) ∷ rest

unfoldable pub sweep : ℕ → List (Text × ℕ) → List (Text × ℕ)
sweep now [] = []
sweep now ((l, t) ∷ seen) =
    let rest = sweep now seen in if ltb retransmit_memory (now - t) then rest else (l, t) ∷ rest

abbrev pub is_some : Option ℕ → Bool
is_some none = false
is_some (some t) = true

-- `checkRetransmission` of a message that has a key: whether it is reported.
unfoldable pub remember : Socket → Message → ℕ → Socket × Bool
unfolding find_key delete_key sweep
remember c m now =
    let again = is_some (find_key m.key c.seen) in
    let seen = (m.key, now) ∷ delete_key m.key c.seen in
    let due = ltb retransmit_memory (now - c.swept) in
    (
      record {
        seen = if due then sweep now seen else seen;
        swept = if due then now else c.swept;
        reports = if again then m ∷ c.reports else c.reports;
      },
      again,
    )

unfoldable pub check_retransmission : Socket → Option Message → ℕ → Socket × Bool
unfolding remember
check_retransmission c none now = (c, false)
check_retransmission c (some m) now = remember c m now

-- `RequestEvent.Failed`.
unfoldable pub is_failed : Bool → ℕ → Bool
is_failed has_err status =
    has_err || status == 0 || leb 300 status && (not (status == 401) && not (status == 407))
