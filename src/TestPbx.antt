-- ===== src/TestPbx.antt =====
-- testpbx/testpbx.go and calls.go: the registrar and the B2BUA that the tests call through. Legs and
-- bridges carry the number of their allocation, for the comparisons of pointers; what the PBX
-- sends is a log, newest first. Handlers run one at a time, and what the network answers to a handler's requests
-- is an argument of it.
pub mod Registrar
pub mod Calls
pub mod Transfers
pub mod Links
pub mod Dialling
pub mod Connecting
pub mod Joining
pub mod Relinking
pub mod Serving
pub mod Runs
pub mod Answering
pub mod Binding
mod Tests
use xk6_sip.Common.{
  ℕ, suc, ◌+◌, Bool, true, false, Option, none, some, List, [], ◌∷◌, ◌++◌, if◌then◌else◌, ◌==◌,
}
use xk6_sip.Common.Text.{Text, codes, is_empty, text_eq, equal_fold}
use xk6_sip.Common.Table.{Table, get, put, remove}

pub record User : Type 0 where
  pub name : Text
  pub password : Text
  pub ext : Text

pub data LegKind : Type 0 where
  uas_leg uac_leg : LegKind

-- A dialog between the PBX and an endpoint, `uasLeg` or `uacLeg`.
pub record Leg : Type 0 where
  pub handle : ℕ
  pub kind : LegKind
  pub call_id : Text
  pub target : Text
  pub owner : User

pub record Bridge : Type 0 where
  pub number : ℕ
  pub x : Leg
  pub y : Leg

-- A request inside of a dialog.
pub record Message : Type 0 where
  pub method : Text
  pub target : Text
  pub headers : List (Text × Text)
  pub body : Option Text

pub data Sent : Type 0 where
  respond : ℕ → Text → Text → Sent  -- the status, the reason and the body
  registered : Option (Text × ℕ) → Sent  -- the 200 to a REGISTER, with the Contact it confirms
  challenge : ℕ → Text → Text → ℕ → Sent  -- the status, the header, the realm and the nonce
  invite : Text → Text → Text → Text → Sent  -- the target, the caller, the called, the offer
  in_dialog : Leg → Message → Sent
  bye : Leg → Sent
  read_bye read_ack : Leg → Sent
  close_dialog : Sent

pub record Config : Type 0 where
  pub domain : Text
  pub users : List User
  pub auth_register : Bool
  pub auth_invite : Bool

pub record Pbx : Type 0 where
  pub domain : Text
  pub auth_register : Bool
  pub auth_invite : Bool
  pub users : Table User
  pub exts : Table User
  pub regs : Table Text
  pub legs : Table Bridge
  pub orphans : Table Leg
  pub nonce : ℕ
  pub registers : ℕ
  pub invites : ℕ
  pub answered : ℕ
  pub sdps : ℕ → Text  -- of each leg
  pub next : ℕ  -- the next allocation
  pub sent : List Sent

-- What a handler reads of a request; `to_tag` tells whether it is inside of a dialog.
pub record Request : Type 0 where
  pub method : Text
  pub call_id : Text
  pub from_user : Text
  pub to_user : Text
  pub to_tag : Bool
  pub recipient : Text
  pub expires : Option Text
  pub contact : Option (Text × Option Text)  -- the address and the parameter `expires`
  pub authorization : Option Text
  pub proxy_authorization : Option Text
  pub refer_to : Option Text
  pub body : Text

unfoldable pub add_users : Pbx → List User → Pbx
add_users p [] = p
add_users p (u ∷ us) =
    add_users
      (record p {
        users = put p.users u.name u;
        exts = if is_empty u.ext then p.exts else put p.exts u.ext u;
      })
      us

unfoldable pub start : Config → Pbx
unfolding add_users
start cfg =
    add_users
      (record {
        domain = cfg.domain;
        auth_register = cfg.auth_register;
        auth_invite = cfg.auth_invite;
        users = [];
        exts = [];
        regs = [];
        legs = [];
        orphans = [];
        nonce = 0;
        registers = 0;
        invites = 0;
        answered = 0;
        sdps = λ l. [];
        next = 0;
        sent = [];
      })
      cfg.users

abbrev pub send : Pbx → Sent → Pbx
send p m = record p { sent = m ∷ p.sent }

abbrev pub is_there {ℓ} : {A : Type ℓ} → Option A → Bool
is_there none = false
is_there (some a) = true

unfoldable pub is_registered : Pbx → Text → Bool
is_registered p user = is_there (get p.regs user)

unfoldable pub set_sdp : Pbx → Leg → Text → Pbx
set_sdp p l b =
    if is_empty b then p else record p { sdps = λ h. if h == l.handle then b else p.sdps h }

unfoldable pub sdp : Pbx → Leg → Text
sdp p l = p.sdps l.handle

unfoldable pub has_header : List (Text × Text) → Text → Bool
has_header [] name = false
has_header (h ∷ hs) name = if equal_fold (h.0) name then true else has_header hs name

abbrev pub content_headers : Option Text → List (Text × Text) → List (Text × Text)
content_headers none hdrs = hdrs
content_headers (some b) hdrs =
    if has_header hdrs (codes "Content-Type")
    then hdrs
    else hdrs ++ ((codes "Content-Type", codes "application/sdp") ∷ [])

unfoldable pub new_req : Text → Text → Option Text → List (Text × Text) → Message
unfolding has_header
new_req method target body hdrs = record {
  method = method;
  target = target;
  headers = content_headers body hdrs;
  body = body;
}

-- An empty body is no body: sipgo keeps nil for it.
abbrev pub body_of : Text → Option Text
body_of b = if is_empty b then none else some b

unfoldable pub leg_do : Pbx → Leg → Text → Text → List (Text × Text) → Pbx
unfolding new_req
leg_do p l method body hdrs = send p (in_dialog l (new_req method l.target (body_of body) hdrs))

unfoldable pub leg_ack : Pbx → Leg → Pbx
unfolding new_req
leg_ack p l = send p (in_dialog l (new_req (codes "ACK") l.target none []))

unfoldable pub other : Bridge → Leg → Leg
other b l = if l.handle == (b.x).handle then b.y else b.x

unfoldable pub link : Pbx → Bridge → Pbx
link p b = record p { legs = put (put p.legs (b.x).call_id b) (b.y).call_id b }

pub data Found : Type 0 where
  in_bridge : Bridge → Leg → Found
  orphan : Leg → Found
  unknown : Found

abbrev pub found_orphan : Option Leg → Found
found_orphan none = unknown
found_orphan (some l) = orphan l

abbrev pub found_leg : Option Bridge → Option Leg → Text → Found
found_leg none o id = found_orphan o
found_leg (some b) o id = in_bridge b (if text_eq (b.x).call_id id then b.x else b.y)

unfoldable pub find : Pbx → Text → Found
find p id = found_leg (get p.legs id) (get p.orphans id) id

unfoldable pub unlink : Pbx → List Leg → Pbx
unlink p [] = p
unlink p (l ∷ ls) =
    unlink (record p { legs = remove p.legs l.call_id; orphans = remove p.orphans l.call_id }) ls

unfoldable pub caller_id : User → Text
caller_id u = if is_empty u.ext then u.name else u.ext

unfoldable pub contact_of : Pbx → User → Option Text
contact_of p u = get p.regs u.name

abbrev pub first_of {ℓ} : {A : Type ℓ} → Option A → Option A → Option A
first_of none b = b
first_of (some a) b = some a

unfoldable pub lookup : Pbx → Text → Option User
lookup p number = first_of (get p.exts number) (get p.users number)
