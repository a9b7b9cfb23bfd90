-- ===== src/Engine/Device.antt =====
-- engine/device.go: the inbox of a device, its table of calls, and its registration.
-- A call is known here by its identity, a number that stands for the pointer.
pub mod Claiming
pub mod Table
pub mod Registering
pub mod Addressing
use xk6_sip.Common.{
  ℕ, ◌+◌, ◌%◌, ◌^◌, max, Bool, true, false, not, ◌&&◌, ◌||◌, Option, none, some, List, [], ◌∷◌,
  ◌++◌, if◌then◌else◌, ltb, leb, ◌==◌,
}
use xk6_sip.Common.Int.{ℤ, pos, negsuc}
use xk6_sip.Common.Text.{Text, codes, text_eq, is_empty, trim_space, atoi}

-- The separators that are no part of a number.
abbrev is_separator : ℕ → Bool
is_separator c = c == b' ' || c == b'-' || c == b'(' || c == b')' || c == b'.'

unfoldable pub without_separators : Text → Text
without_separators [] = []
without_separators (c ∷ s) =
    let rest = without_separators s in if is_separator c then rest else c ∷ rest

unfoldable pub trim_plus : Text → Text
trim_plus [] = []
trim_plus (c ∷ s) = if c == b'+' then s else c ∷ s

unfoldable pub normalize_number : Text → Text
unfolding without_separators trim_plus
normalize_number s = without_separators (trim_plus (trim_space s))

unfoldable pub numbers_match : Text → Text → Bool
unfolding normalize_number
numbers_match expected got =
    if is_empty expected then true else text_eq (normalize_number expected) (normalize_number got)

pub record Incoming : Type 0 where
  pub id : ℕ
  pub remote : Text
  pub ended : Bool
  pub t_start : ℕ

pub record Inbox : Type 0 where
  pub calls : List Incoming
  pub signals : ℕ  -- how often `inSignal` was closed and made anew

unfoldable pub deliver : Inbox → Incoming → Inbox
deliver b c = record { calls = b.calls ++ c ∷ []; signals = b.signals + 1 }

abbrev is_none : Option Incoming → Bool
is_none none = true
is_none (some c) = false

-- Whether the loop of `ExpectCall` claims a call, given what it has found before.
unfoldable pub claims : Text → Option Incoming → Incoming → Bool
claims caller found c = not c.ended && (is_none found && numbers_match caller c.remote)

-- The loop over the inbox: what was found in the end, and what is kept.
unfoldable pub scan : Text → Option Incoming → List Incoming → Option Incoming × List Incoming
unfolding claims
scan caller found [] = (found, [])
scan caller found (c ∷ cs) =
    let claimed = claims caller found c in
    let rest = scan caller (if claimed then some c else found) cs in
    if c.ended || claimed then rest else (rest.0, c ∷ rest.1)

unfoldable pub expect_call : Text → Inbox → Option Incoming × Inbox
expect_call caller b = let r = scan caller none b.calls in (r.0, record b { calls = r.1 })

-- `calls`, the newest entry of a Call-ID first.
abbrev pub Calls : Type 0
Calls = List (Text × ℕ)

unfoldable pub find_call : Calls → Text → Option ℕ
find_call [] id = none
find_call ((k, c) ∷ cs) id = let rest = find_call cs id in if text_eq k id then some c else rest

unfoldable pub delete_call : Calls → Text → Calls
delete_call [] id = []
delete_call ((k, c) ∷ cs) id =
    let rest = delete_call cs id in if text_eq k id then rest else (k, c) ∷ rest

unfoldable pub add_call : Calls → Text → ℕ → Calls
unfolding delete_call
add_call cs id c = (id, c) ∷ delete_call cs id

abbrev pub is_call : Option ℕ → ℕ → Bool
is_call none c = false
is_call (some d) c = d == c

-- `removeCall`: only an entry that still is this call is deleted.
unfoldable pub remove_call : Calls → Text → ℕ → Calls
unfolding find_call delete_call
remove_call cs id c = if is_call (find_call cs id) c then delete_call cs id else cs

pub record Registration : Type 0 where
  pub cseq : ℕ  -- uint32
  pub registered : Bool
  pub refresh_in : Option ℕ  -- in ms, of the timer that runs

unfoldable pub schedule_refresh : Registration → ℕ → Registration
schedule_refresh r after = record r { refresh_in = some (max after 1000) }

-- A Contact of a response: its host and port, and its parameter `expires`.
pub record Contact : Type 0 where
  pub host : Text
  pub port : ℕ
  pub expires : Option Text

abbrev positive : Option ℤ → Option ℕ
positive none = none
positive (some (negsuc n)) = none
positive (some (pos n)) = if n == 0 then none else some n

abbrev positive_text : Option Text → Option ℕ
positive_text none = none
positive_text (some t) = positive (atoi t)

abbrev or_next : Option ℕ → Option ℕ → Option ℕ
or_next none n = n
or_next (some m) n = some m

-- The first contact of ours that says how long it is registered.
unfoldable pub contact_expires : Contact → List Contact → Option ℕ
contact_expires ours [] = none
contact_expires ours (c ∷ cs) =
    let rest = contact_expires ours cs in
    if text_eq c.host ours.host && c.port == ours.port
    then or_next (positive_text c.expires) rest
    else rest

abbrev or_requested : Option ℕ → ℕ → ℕ
or_requested none n = n
or_requested (some m) n = m

abbrev trimmed : Option Text → Option Text
trimmed none = none
trimmed (some t) = some (trim_space t)

unfoldable pub granted_expires : List Contact → Option Text → Contact → ℕ → ℕ
unfolding contact_expires
granted_expires contacts header ours requested =
    or_requested (or_next (contact_expires ours contacts) (positive_text (trimmed header)))
      requested

-- What the network says: a status, or `none` for an error; then what the request with credentials
-- comes to, and the CSeq that it carried;
-- and the contacts and the Expires header of the last response.
pub record Reply : Type 0 where
  pub first : Option ℕ
  pub second : Option ℕ
  pub second_cseq : ℕ
  pub contacts : List Contact
  pub expires : Option Text

abbrev pub is_challenge : Option ℕ → Bool
is_challenge none = false
is_challenge (some n) = n == 401 || n == 407

abbrev pub is_ok : Option ℕ → Bool
is_ok none = false
is_ok (some n) = n == 200

unfoldable pub after_reply : Registration → ℕ → Option ℕ → ℕ → ℕ → Registration × Bool
unfolding schedule_refresh
after_reply r expires res retry_in refresh_in =
    if expires == 0
    then (record r { registered = false }, is_ok res)
    else if is_ok res
    then (schedule_refresh (record r { registered = true }) refresh_in, true)
    else (schedule_refresh (record r { registered = false }) retry_in, false)

-- `register` behind the rate limit, with the delay of a retry that it draws, and the delay of a refresh
-- that it draws for a granted lifetime: whether it succeeded.
unfoldable pub register : Registration → Contact → ℕ → Reply → ℕ → (ℕ → ℕ) → Registration × Bool
unfolding after_reply granted_expires
register r ours expires rep retry_in refresh_of =
    let sent : Registration = record r { cseq = (r.cseq + 1) % 2 ^ 32 } in
    let refresh_in = refresh_of (granted_expires rep.contacts rep.expires ours expires) in
    if is_challenge rep.first
    then after_reply (record sent { cseq = rep.second_cseq }) expires rep.second retry_in refresh_in
    else after_reply sent expires rep.first retry_in refresh_in
