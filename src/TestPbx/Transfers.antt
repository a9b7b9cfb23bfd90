-- ===== src/TestPbx/Transfers.antt =====
-- testpbx/calls.go: onRefer and the transfers that the PBX does itself, and as much of url.Parse as
-- they use. A transfer runs behind the answer to its REFER, before the next request.
use xk6_sip.Common.{
  ℕ, suc, Bool, true, false, ◌&&◌, ◌||◌, Option, none, some, [], ◌∷◌, ◌++◌, if◌then◌else◌, ltb, leb,
  ◌==◌,
}
use xk6_sip.Common.Text.{Text, codes, is_empty, trim_space, cut, split, text_eq, is_digit, decimal}
use xk6_sip.Common.Table.{get, put, remove}
use xk6_sip.Engine.Transfer.{query_unescape, read_uri_headers}
use xk6_sip.TestPbx.{
  User, Leg, Bridge, Pbx, Request, respond, bye, send, set_sdp, sdp, leg_do, leg_ack, other, link,
  Found, in_bridge, orphan, unknown, find, lookup,
}
use xk6_sip.TestPbx.Calls.{
  InviteEnd, Dialled, no_leg, rejected, leg, dial, no_call, Reply, failed, response,
}

-- What stands between `<` and the next `>`, if both are there.
unfoldable pub bracketed : Text → Text
unfolding cut
bracketed v = let i = cut b'<' v in let j = cut b'>' (i.1) in if i.2 && j.2 then j.0 else v

abbrev pub with_target : Text → Option Text → Option (Text × Text)
with_target uri none = none
with_target uri (some replaces) = some (uri, replaces)

-- The target and the Replaces value, `none` for an error; the target may be empty here.
unfoldable pub read_refer_to : Option Text → Option (Text × Text)
unfolding bracketed read_uri_headers
read_refer_to none = none
read_refer_to (some h) =
    let r = cut b'?' (bracketed (trim_space h)) in
    with_target (r.0) (read_uri_headers (some []) (split b'&' (r.1)))

abbrev pub is_letter : ℕ → Bool
is_letter c = leb b'a' c && leb c b'z' || leb b'A' c && leb c b'Z'

abbrev pub is_scheme_mark : ℕ → Bool
is_scheme_mark c = is_digit c || c == b'+' || c == b'-' || c == b'.'

-- What stands behind the scheme of a URL: `getScheme` of net/url, which fails for a colon in front
-- and finds no scheme where another character comes before the colon. `first` tells that nothing was read.
pub data Scheme : Type 0 where
  bad_scheme no_scheme : Scheme
  behind : Text → Scheme

unfoldable pub get_scheme : Bool → Text → Scheme
get_scheme first [] = no_scheme
get_scheme first (c ∷ s) =
    let rest = get_scheme false s in
    if is_letter c
    then rest
    else if is_scheme_mark c
    then (if first then no_scheme else rest)
    else if c == b':'
    then (if first then bad_scheme else behind s)
    else no_scheme

unfoldable pub has_control : Text → Bool
has_control [] = false
has_control (c ∷ s) = ltb c 0x20 || c == 0x7f || has_control s

abbrev pub starts_with : ℕ → Text → Bool
starts_with d [] = false
starts_with d (c ∷ s) = c == d

abbrev pub opaque_rest : Text → Text
opaque_rest rest = if starts_with b'/' rest then [] else rest

-- The opaque part of a URL, empty where there is none or where `url.Parse` fails.
unfoldable pub scheme_opaque : Scheme → Text
unfolding cut
scheme_opaque bad_scheme = []
scheme_opaque no_scheme = []
scheme_opaque (behind s) = opaque_rest ((cut b'?' s).0)

unfoldable pub opaque_of : Text → Text
unfolding get_scheme has_control cut query_unescape scheme_opaque
opaque_of t =
    let r = cut b'#' t in
    if has_control (r.0)
    then []
    else elim (query_unescape (r.1)) [ none ↦ [] | some f ↦ scheme_opaque (get_scheme true (r.0)) ]

-- The user that a blind transfer calls: that of an opaque URI, or else the whole target.
unfoldable pub target_user : Text → Text
unfolding opaque_of cut
target_user target = let o = opaque_of target in if is_empty o then target else (cut b'@' o).0

unfoldable pub reason_for : ℕ → Text
reason_for status = if status == 200 then codes "OK" else codes "Transfer Failed"

unfoldable pub notify : Pbx → Leg → Text → Bool → Pbx
unfolding leg_do
notify p l frag final = leg_do p l (codes "NOTIFY") (frag ++ codes "\r\n") (
    (codes "Content-Type", codes "message/sipfrag;version=2.0")
    ∷ (codes "Event", codes "refer")
    ∷ (
      codes "Subscription-State",
      if final then codes "terminated;reason=noresource" else codes "active;expires=60",
    )
    ∷ [])

-- The reply to a re-INVITE, and whether its ACK was sent.
pub record Answer : Type 0 where
  pub reply : Reply
  pub acked : Bool

unfoldable pub accepted : Pbx → Leg → Answer → Reply → Pbx × Bool
unfolding leg_ack set_sdp
accepted p l a failed = (p, false)
accepted p l a (response status ok reason body) =
    if ok then (leg_ack (set_sdp p l body) l, a.acked) else (p, false)

unfoldable pub reinvite : Pbx → Leg → Text → Answer → Pbx × Bool
unfolding leg_do accepted
reinvite p l offer a = accepted (leg_do p l (codes "INVITE") offer []) l a a.reply

-- What the endpoints answer while a transfer runs.
pub record Responses : Type 0 where
  pub end : InviteEnd  -- of the call to the target of a blind transfer
  pub keep_answer : Answer
  pub target_answer : Answer

abbrev pub orphaned : Pbx → Leg → Pbx
orphaned p l = record p { legs = remove p.legs l.call_id; orphans = put p.orphans l.call_id l }

unfoldable pub bridged : Pbx → Leg → Leg → Pbx
unfolding link
bridged p x y = link (record p { next = suc p.next }) (record { number = p.next; x = x; y = y })

unfoldable pub connect_target : Leg → Leg → Leg → Pbx × Bool → Pbx × ℕ
unfolding bridged
connect_target transferor keep target (p, false) = (send p (bye target), 500)
connect_target transferor keep target (p, true) = (bridged (orphaned p transferor) keep target, 200)

unfoldable pub blind_dialled : Leg → Leg → Responses → Pbx × Dialled → Pbx × ℕ
unfolding connect_target reinvite sdp
blind_dialled transferor keep rs (p, no_leg) = (p, 500)
blind_dialled transferor keep rs (p, rejected status reason) = (p, status)
blind_dialled transferor keep rs (p, leg l) =
    connect_target transferor keep l (reinvite p keep (sdp p l) rs.keep_answer)

unfoldable pub blind_to : Pbx → Leg → Leg → Responses → Option User → Pbx × ℕ
unfolding dial blind_dialled sdp
blind_to p transferor keep rs none = (p, 404)
blind_to p transferor keep rs (some c) =
    blind_dialled transferor keep rs (dial p c keep.owner (sdp p keep) [] rs.end)

unfoldable pub blind : Pbx → Bridge → Leg → Text → Responses → Pbx × ℕ
unfolding other target_user lookup blind_to
blind p br transferor target rs =
    blind_to p transferor (other br transferor) rs (lookup p (target_user target))

-- The transferor's side of the consultation call.
unfoldable pub consultation : Bridge → Text → Leg
consultation cb call_id = if text_eq (cb.x).call_id call_id then cb.x else cb.y

unfoldable pub join_calls : Pbx → Leg → Leg → Leg → Leg → Pbx
unfolding bridged
join_calls p transferor consult keep target =
    let q : Pbx = record p {
      legs = remove (remove p.legs transferor.call_id) consult.call_id;
      orphans = put p.orphans transferor.call_id transferor;
    } in
    send (bridged q keep target) (bye consult)

unfoldable pub second_reinvite : Leg → Leg → Leg → Leg → Responses → Pbx × Bool → Pbx × ℕ
unfolding reinvite join_calls sdp
second_reinvite transferor consult keep target rs (p, false) = (p, 500)
second_reinvite transferor consult keep target rs (p, true) =
    let r = reinvite p target (sdp p keep) rs.target_answer in
    if r.1 then (join_calls (r.0) transferor consult keep target, 200) else (r.0, 500)

unfoldable pub attended_with : Pbx → Bridge → Leg → Text → Responses → Option Bridge → Pbx × ℕ
unfolding consultation other reinvite second_reinvite sdp
attended_with p br transferor call_id rs none = (p, 481)
attended_with p br transferor call_id rs (some cb) =
    let consult = consultation cb call_id in
    let keep = other br transferor in
    let target = other cb consult in
    if cb.number == br.number
    then (p, 481)
    else second_reinvite transferor consult keep target rs
        (reinvite p keep (sdp p target) rs.keep_answer)

unfoldable pub attended : Pbx → Bridge → Leg → Text → Responses → Pbx × ℕ
unfolding cut attended_with
attended p br transferor replaces rs =
    let call_id = (cut b';' replaces).0 in
    attended_with p br transferor call_id rs (get p.legs call_id)

unfoldable pub status_line : ℕ → Text
unfolding reason_for decimal
status_line status = codes "SIP/2.0 " ++ (decimal status ++ (codes " " ++ reason_for status))

unfoldable pub transfer : Pbx → Bridge → Leg → Text × Text → Responses → Pbx × ℕ
unfolding blind attended
transfer p br transferor r rs =
    if is_empty (r.1) then blind p br transferor (r.0) rs else attended p br transferor (r.1) rs

unfoldable pub run_transfer : Pbx → Bridge → Leg → Text × Text → Responses → Pbx
unfolding notify transfer status_line
run_transfer p br transferor r rs =
    let done =
      transfer (notify p transferor (codes "SIP/2.0 100 Trying") false) br transferor r rs in
    notify (done.0) transferor (status_line (done.1)) true

unfoldable pub refer_to : Pbx → Bridge → Leg → Responses → Option (Text × Text) → Pbx
unfolding run_transfer
refer_to p br l rs none = send p (respond 400 (codes "Bad Refer-To") [])
refer_to p br l rs (some r) = run_transfer (send p (respond 202 (codes "Accepted") [])) br l r rs

unfoldable pub refer_found : Pbx → Request → Responses → Found → Pbx
unfolding read_refer_to refer_to
refer_found p req rs unknown = no_call p
refer_found p req rs (orphan l) = no_call p
refer_found p req rs (in_bridge br l) = refer_to p br l rs (read_refer_to req.refer_to)

unfoldable pub on_refer : Pbx → Request → Responses → Pbx
unfolding find refer_found
on_refer p req rs = refer_found p req rs (find p req.call_id)
