-- ===== src/Media/Sdp.antt =====
-- media/sdp.go: what a peer's SDP says of its audio stream, and the choice of a codec.
-- The parser of pion/sdp and the resolver of the package net are parameters: the first gives the
-- parts of a session description that the code reads, the second maps a text to an address. An
-- IP address stands for itself as a text.
pub mod Choice
pub mod Reading
use xk6_sip.Common.{
  ℕ, ◌+◌, ◌-◌, ◌*◌, ◌≤◌, ◌<◌, ◌≡◌, Bool, true, false, not, ◌&&◌, ◌||◌, Option, none, some, List, [],
  ◌∷◌, ◌++◌, if◌then◌else◌, ltb, ◌==◌,
}
use xk6_sip.Common.Int.{ℤ, pos, negsuc}
use xk6_sip.Common.Text.{Text, codes, text_eq, is_empty, equal_fold, cut, atoi, decimal}
use xk6_sip.Media.Codec.{
  Codec, Result, codec_by_name, codec_by_pt, telephone_event, sample_rate, frame_duration_ms,
}

pub data Direction : Type 0 where
  send_recv send_only recv_only inactive : Direction

unfoldable pub reverse : Direction → Direction
reverse send_only = recv_only
reverse recv_only = send_only
reverse send_recv = send_recv
reverse inactive = inactive

unfoldable pub sends : Direction → Bool
sends send_recv = true
sends send_only = true
sends recv_only = false
sends inactive = false

unfoldable pub receives : Direction → Bool
receives send_recv = true
receives recv_only = true
receives send_only = false
receives inactive = false

pub record UdpAddr : Type 0 where
  pub ip : Text
  pub port : ℕ

pub record Remote : Type 0 where
  pub addr : Option UdpAddr
  pub codecs : List Codec
  pub dtmf_pt : ℤ  -- -1 if not offered
  pub dir : Direction

-- What the code reads of the description that pion/sdp returns.
pub record Attribute : Type 0 where
  pub key : Text
  pub value : Text

-- A connection line; its address may be missing.
pub record Connection : Type 0 where
  pub address : Option Text

pub record MediaDescription : Type 0 where
  pub media : Text
  pub port : ℕ
  pub formats : List Text
  pub connection : Option Connection
  pub attributes : List Attribute

pub record SessionDescription : Type 0 where
  pub connection : Option Connection
  pub media_descriptions : List MediaDescription

-- What the code takes from outside. `lookup_ip` is empty where the lookup fails.
pub record Resolver : Type 0 where
  pub unmarshal : Text → Option SessionDescription
  pub parse_ip : Text → Option Text
  pub lookup_ip : Text → List Text
  pub is_unspecified : Text → Bool

pub data Parsed {ℓ} (A : Type ℓ) : Type ℓ where
  parsed : A → Parsed A
  bad_syntax no_audio bad_address : Parsed A

unfoldable pub first_audio : List MediaDescription → Option MediaDescription
first_audio [] = none
first_audio (m ∷ ms) = if text_eq m.media (codes "audio") then some m else first_audio ms

-- The names that the rtpmap attributes give to payload types; the newest stands first.
pub lookup_name : Text → List (Text × Text) → Text
lookup_name pt [] = []
lookup_name pt ((k, name) ∷ rest) = if text_eq k pt then name else lookup_name pt rest

rtpmap_entry : Text → Text × Text
rtpmap_entry value =
    let (pt, rest, _) = cut 32 value in let (name, _, _) = cut b'/' rest in (pt, name)

-- The loop over the attributes.
pub read_attributes :
    List (Text × Text) → Direction → List Attribute → List (Text × Text) × Direction
unfolding rtpmap_entry
read_attributes names dir [] = (names, dir)
read_attributes names dir (a ∷ as') =
    read_attributes (if text_eq a.key (codes "rtpmap") then rtpmap_entry a.value ∷ names else names)
      (if text_eq a.key (codes "sendrecv")
        then send_recv
        else if text_eq a.key (codes "sendonly")
        then send_only
        else if text_eq a.key (codes "recvonly")
        then recv_only
        else if text_eq a.key (codes "inactive")
        then inactive
        else dir)
      as'

-- One format that is a payload type, with the name that its rtpmap gives, "" if it has none.
with_pt : ℕ → Result Codec → List Codec
with_pt pt (Result.err e) = []
with_pt pt (Result.ok c) = record c { pt = pt } ∷ []

static_codec : Option Codec → List Codec
static_codec none = []
static_codec (some c) = c ∷ []

add_format : ℕ → Text → ℤ × List Codec → ℤ × List Codec
unfolding with_pt static_codec
add_format pt name (dtmf, cs) =
    if equal_fold name telephone_event
    then (pos pt, cs)
    else if not (is_empty name)
    then (dtmf, cs ++ with_pt pt (codec_by_name name))
    else (dtmf, cs ++ static_codec (codec_by_pt pt))

payload_type : Option ℤ → Option ℕ
payload_type (some (pos n)) = if ltb 127 n then none else some n
payload_type (some (negsuc n)) = none
payload_type none = none

add_if_payload_type : Option ℕ → Text → ℤ × List Codec → ℤ × List Codec
unfolding add_format
add_if_payload_type none name acc = acc
add_if_payload_type (some pt) name acc = add_format pt name acc

-- The loop over the formats of the media line.
pub read_formats : List (Text × Text) → ℤ × List Codec → List Text → ℤ × List Codec
unfolding payload_type add_if_payload_type
read_formats names acc [] = acc
read_formats names acc (f ∷ fs) =
    read_formats names (add_if_payload_type (payload_type (atoi f)) (lookup_name f names) acc) fs

-- The address of a connection line: `none` for an error, `some none` where the stream has none.
resolve : Resolver → ℕ → Text → Option (Option UdpAddr)
resolve r port host = elim (r.parse_ip host) [
  | some ip ↦ some (some (record { ip = ip; port = port }))
  | none ↦ elim (r.lookup_ip host) [
    | [] ↦ none
    | ip ∷ _ ↦ some (some (record { ip = ip; port = port }))
  ]
]

connection_addr : Resolver → ℕ → Option Connection → Option (Option UdpAddr)
unfolding resolve
connection_addr r port none = some none
connection_addr r port (some c) = elim c.address [
  | none ↦ some none
  | some host ↦ if port == 0 then some none else resolve r port host
]

abbrev or_else : Option Connection → Option Connection → Option Connection
or_else (some c) d = some c
or_else none d = d

-- Whether an address can be sent to; a missing or unspecified one means hold.
unfoldable pub is_usable : Resolver → Option UdpAddr → Bool
is_usable r none = false
is_usable r (some a) = not (r.is_unspecified a.ip)

remote_of : Resolver → MediaDescription → Option UdpAddr → Remote
unfolding read_attributes read_formats is_usable
remote_of r md addr =
    let (names, dir) = read_attributes [] send_recv md.attributes in
    let (dtmf, cs) = read_formats names (negsuc 0, []) md.formats in
    record {
      addr = addr;
      codecs = cs;
      dtmf_pt = dtmf;
      dir = if is_usable r addr then dir else inactive;
    }

parse_audio : Resolver → MediaDescription → Option (Option UdpAddr) → Parsed Remote
unfolding remote_of
parse_audio r md none = bad_address
parse_audio r md (some addr) = parsed (remote_of r md addr)

parse_media : Resolver → SessionDescription → Option MediaDescription → Parsed Remote
unfolding parse_audio connection_addr
parse_media r sd none = no_audio
parse_media r sd (some md) =
    parse_audio r md (connection_addr r md.port (or_else md.connection sd.connection))

parse_session : Resolver → Option SessionDescription → Parsed Remote
unfolding parse_media first_audio
parse_session r none = bad_syntax
parse_session r (some sd) = parse_media r sd (first_audio sd.media_descriptions)

unfoldable pub parse_sdp : Resolver → Text → Parsed Remote
unfolding parse_session
parse_sdp r body = parse_session r (r.unmarshal body)

-- The first codec of a list that goes by the name.
unfoldable pub find_name : Text → List Codec → Option Codec
find_name name [] = none
find_name name (c ∷ cs) = if text_eq c.name name then some c else find_name name cs

-- The outer loop over our codecs, for an answer: the inner loop looks for the name among the
-- peer's, and returns the peer's codec.
unfoldable pub answer_choice : List Codec → List Codec → Option Codec
unfolding find_name
answer_choice [] remote = none
answer_choice (o ∷ ours) remote =
    let rest = answer_choice ours remote in
    elim (find_name o.name remote) [ some r ↦ some r | none ↦ rest ]

-- The outer loop over the peer's codecs, for our own offer.
unfoldable pub offer_choice : List Codec → List Codec → Option Codec
unfolding find_name
offer_choice ours [] = none
offer_choice ours (r ∷ remote) =
    let rest = offer_choice ours remote in
    elim (find_name r.name ours) [ some _ ↦ some r | none ↦ rest ]

unfoldable pub choose : List Codec → List Codec → Bool → Option Codec
unfolding answer_choice offer_choice
choose ours remote true = answer_choice ours remote
choose ours remote false = offer_choice ours remote

unfoldable pub line : Text → Text
line s = s ++ (13 ∷ 10 ∷ [])

unfoldable pub space_pt : ℕ → Text
space_pt n = 32 ∷ decimal n

unfoldable pub codec_pts : List Codec → Text
unfolding space_pt
codec_pts [] = []
codec_pts (c ∷ cs) = space_pt c.pt ++ codec_pts cs

unfoldable pub codec_maps : List Codec → Text
unfolding line
codec_maps [] = []
codec_maps (c ∷ cs) =
    line (codes "a=rtpmap:" ++ (decimal c.pt ++ (32 ∷ (c.name ++ (b'/' ∷ decimal sample_rate)))))
    ++ codec_maps cs

unfoldable pub dtmf_pts : ℤ → Text
unfolding space_pt
dtmf_pts (pos n) = space_pt n
dtmf_pts (negsuc n) = []

unfoldable pub dtmf_maps : ℤ → Text
unfolding line
dtmf_maps (negsuc n) = []
dtmf_maps (pos n) =
    line
      (codes "a=rtpmap:" ++ (decimal n ++ (32 ∷ (telephone_event ++ (b'/' ∷ decimal sample_rate)))))
    ++ line (codes "a=fmtp:" ++ (decimal n ++ codes " 0-16"))

unfoldable pub direction_key : Direction → Text
direction_key send_recv = codes "sendrecv"
direction_key send_only = codes "sendonly"
direction_key recv_only = codes "recvonly"
direction_key inactive = codes "inactive"

-- `buildSDP`: our audio description.
unfoldable pub build_sdp : Text → ℕ → List Codec → ℤ → Direction → ℕ → ℕ → Text
unfolding line codec_pts codec_maps dtmf_pts dtmf_maps direction_key
build_sdp ip port cs dtmf dir sess_id version =
    line (codes "v=0")
    ++ (line (
          codes "o=- " ++ (decimal sess_id ++ (32 ∷ (decimal version ++ (codes " IN IP4 " ++ ip)))))
        ++ (line (codes "s=-")
            ++ (line (codes "c=IN IP4 " ++ ip)
                ++ (line (codes "t=0 0")
                    ++ (line (
                          codes "m=audio "
                          ++ (decimal port
                              ++ (codes " RTP/AVP" ++ (codec_pts cs ++ dtmf_pts dtmf))))
                        ++ (codec_maps cs
                            ++ (dtmf_maps dtmf
                                ++ (line (codes "a=ptime:" ++ decimal frame_duration_ms)
                                    ++ line (codes "a=" ++ direction_key dir)))))))))
