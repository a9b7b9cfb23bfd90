-- ===== src/Engine/Dialog.antt =====
-- engine/dialog.go, engine/sdp.go and the handlers of engine/device.go for requests inside of a
-- dialog: hold, session refresh, re-INVITE, UPDATE, BYE and ACK. What a request gets for an answer is an
-- argument; its IsSuccess is a status of 2xx. While a re-INVITE is waited for, or its retry, no
-- other request of this call is handled but those that the lock turns away.
pub mod Holding
pub mod Sides
use xk6_sip.Common.{
  ℕ, suc, ◌+◌, ◌/◌, Bool, true, false, not, ◌&&◌, ◌||◌, Option, none, some, List, [], ◌∷◌, ◌++◌,
  if◌then◌else◌, ltb, leb, ◌==◌,
}
use xk6_sip.Common.Text.{Text, codes, is_empty, decimal}
use xk6_sip.Media.Sdp.{
  Direction, send_recv, send_only, recv_only, inactive, Remote, Resolver, Parsed, parsed,
  bad_syntax, no_audio, bad_address, parse_sdp,
}
use xk6_sip.Media.Stream.State.{Stream, set_direction}
use xk6_sip.Media.Stream.Negotiation.{offer, update, apply_answer}
use xk6_sip.Engine.Call.{Call, by_error, by_remote, is_connected, is_ended, bye_with, finish}
use xk6_sip.Engine.Session.{
  Session, SessionExpires, Header, session_refreshed, session_headers, echoed,
}
use xk6_sip.Engine.Device.{Calls, find_call}

-- The placeholder of calls without media; `dir` is not used. `now` is the clock in ns.
unfoldable pub sdp_audio_dir : Text → ℕ → Direction → ℕ → Text
sdp_audio_dir ip port dir now =
    let id = decimal (now / 1000) in
    codes "v=0\r\no=- "
    ++ (id
        ++ (codes " "
            ++ (id
                ++ (codes " IN IP4 "
                    ++ (ip
                        ++ (codes "\r\ns=-\r\nc=IN IP4 "
                            ++ (ip
                                ++ (codes "\r\nt=0 0\r\nm=audio "
                                    ++ (decimal port
                                        ++ codes
                                            " RTP/AVP 0 8 101\r\na=rtpmap:0 PCMU/8000\r\na=rtpmap:8 PCMA/8000\r\na=rtpmap:101 telephone-event/8000\r\na=fmtp:101 0-16\r\na=ptime:20\r\na=sendrecv\r\n")))))))))

-- A request inside of the dialog that this side sends, and its answer.
pub record Asked : Type 0 where
  pub method : Text
  pub body : Text
  pub headers : List Header

pub data Reply : Type 0 where
  no_reply : Reply
  reply : ℕ → Text → Reply  -- the status and the body

abbrev pub is_success : ℕ → Bool
is_success status = leb 200 status && ltb status 300

-- What a call has for its dialog; `local` is the address of the device and the clock.
pub record Dialog : Type 0 where
  pub call : Call
  pub media : Option Stream
  pub session : Option Session
  pub local_hold : Bool
  pub remote_hold : Bool
  pub locked : Bool  -- `reinviteMu`
  pub ip : Text
  pub port : ℕ
  pub now : ℕ
  pub asked : List Asked  -- newest first
  pub acks : ℕ

abbrev pub is_send_recv : Direction → Bool
is_send_recv send_recv = true
is_send_recv send_only = false
is_send_recv recv_only = false
is_send_recv inactive = false

-- The offer of a re-INVITE, with the stream it leaves.
unfoldable pub make_offer : Dialog → Option Stream → Direction → Option Stream × Text
unfolding offer sdp_audio_dir
make_offer d none dir = (none, sdp_audio_dir d.ip (d.port + 2) dir d.now)
make_offer d (some s) dir = let r = offer s dir in (some (r.0), r.1)

unfoldable pub ask : Dialog → Text → Text → List Header → Dialog
ask d method body headers = record d {
  asked = record { method = method; body = body; headers = headers } ∷ d.asked;
}

-- The direction as it was before the offer.
unfoldable pub restore : Option Stream → Option Stream → Option Stream
unfolding set_direction
restore none s = s
restore (some old) none = none
restore (some old) (some s) = some (set_direction s old.dir)

abbrev pub applied : Stream → Option Stream → Stream
applied s none = s
applied s (some s') = s'

unfoldable pub take_parsed : Resolver → Stream → Parsed Remote → Stream
unfolding apply_answer
take_parsed r s (parsed m) = applied s (apply_answer r s m)
take_parsed r s bad_syntax = s
take_parsed r s no_audio = s
take_parsed r s bad_address = s

-- The answer to our re-INVITE, if it has a body.
unfoldable pub take_answer : Resolver → Option Stream → Text → Option Stream
unfolding take_parsed
take_answer r none body = none
take_answer r (some s) body =
    if is_empty body then some s else some (take_parsed r s (parse_sdp r body))

unfoldable pub refresh : Dialog → Dialog
unfolding session_refreshed
refresh d = record d { session = session_refreshed (is_ended d.call) d.session }

-- Where the re-INVITE fails; `old` is the stream before the offer.
unfoldable pub reinvite_failed : Dialog → Option Stream → Dialog
unfolding restore
reinvite_failed d old = record d { media = restore old d.media }

unfoldable pub reinvite_done : Resolver → Dialog → Direction → Text → Dialog
unfolding take_answer refresh
reinvite_done r d dir body = refresh (record d {
  media = take_answer r d.media body;
  local_hold = not (is_send_recv dir);
  acks = d.acks + 1;
})

-- What is left, whether it succeeded, and whether it is to be tried again.
unfoldable pub reinvite_replied :
    Resolver → Dialog → Option Stream → Direction → Reply → Dialog × Bool × Bool
unfolding reinvite_failed reinvite_done
reinvite_replied r d old dir no_reply = (reinvite_failed d old, false, false)
reinvite_replied r d old dir (reply status body) =
    if is_success status
    then (reinvite_done r d dir body, true, false)
    else (reinvite_failed d old, false, status == 491)

unfoldable pub reinvite_once : Resolver → Dialog → Direction → Reply → Dialog × Bool × Bool
unfolding make_offer session_headers ask reinvite_replied
reinvite_once r d dir answer =
    let o = make_offer d d.media dir in
    let q : Dialog = record d { media = o.0 } in
    reinvite_replied r (ask q (codes "INVITE") (o.1) (session_headers d.session)) d.media dir answer

abbrev pub unlocked : Dialog → Dialog
unlocked d = record d { locked = false }

-- The second attempt behind a 491; what it says of a third one is not looked at.
unfoldable pub reinvite_again : Resolver → Direction → Reply → Dialog × Bool × Bool → Dialog × Bool
unfolding reinvite_once
reinvite_again r dir second (d, ok, false) = (unlocked d, ok)
reinvite_again r dir second (d, ok, true) =
    let a = reinvite_once r d dir second in (unlocked (a.0), a.1)

unfoldable pub reinvite : Resolver → Dialog → Direction → Reply → Reply → Dialog × Bool
unfolding reinvite_once reinvite_again
reinvite r d dir first second =
    if is_connected d.call
    then reinvite_again r dir second (reinvite_once r (record d { locked = true }) dir first)
    else (d, false)

unfoldable pub hold : Resolver → Dialog → Reply → Reply → Dialog × Bool
unfolding reinvite
hold r d first second = reinvite r d send_only first second

unfoldable pub unhold : Resolver → Dialog → Reply → Reply → Dialog × Bool
unfolding reinvite
unhold r d first second = reinvite r d send_recv first second

abbrev pub media_direction : Option Stream → Direction
media_direction none = send_recv
media_direction (some s) = s.dir

-- `refreshSession`; `sent` tells whether the BYE that follows a failure could be sent.
unfoldable pub refresh_failed : Dialog → Bool → Dialog
unfolding bye_with
refresh_failed d sent = record d {
  call = bye_with d.call by_error (codes "session refresh failed") sent d.now;
}

unfoldable pub refresh_session : Resolver → Dialog → Reply → Bool → Dialog
unfolding reinvite_once refresh_failed
refresh_session r d answer sent =
    if is_connected d.call
    then (let a = reinvite_once r (record d { locked = true }) (media_direction d.media) answer in
        if a.1 then unlocked (a.0) else unlocked (refresh_failed (a.0) sent))
    else d

-- Whether a peer with this direction has put us on hold.
abbrev pub holds : Direction → Bool
holds send_recv = false
holds send_only = true
holds recv_only = false
holds inactive = true

unfoldable pub own_offer : Dialog → Stream → Dialog × Text
unfolding offer
own_offer d s = let o = offer s send_recv in (record d { media = some (o.0) }, o.1)

unfoldable pub reoffer_parsed : Resolver → Dialog → Stream → Parsed Remote → Dialog × Text
unfolding own_offer update
reoffer_parsed r d s (parsed m) =
    let u = update r s m in (record d { media = some (u.0); remote_hold = holds m.dir }, u.1)
reoffer_parsed r d s bad_syntax = own_offer d s
reoffer_parsed r d s no_audio = own_offer d s
reoffer_parsed r d s bad_address = own_offer d s

unfoldable pub reoffer_stream : Resolver → Dialog → Text → Option Stream → Dialog × Text
unfolding sdp_audio_dir reoffer_parsed own_offer
reoffer_stream r d body none = (d, sdp_audio_dir d.ip (d.port + 2) send_recv d.now)
reoffer_stream r d body (some s) =
    if is_empty body then own_offer d s else reoffer_parsed r d s (parse_sdp r body)

unfoldable pub reoffer_answer : Resolver → Dialog → Text → Dialog × Text
unfolding reoffer_stream
reoffer_answer r d body = reoffer_stream r d body d.media

-- What a handler answers: the status, the body and the session headers.
pub data Answered : Type 0 where
  answered : ℕ → Text → List Header → Answered

-- A request for a call that is not in the table is refused.
unfoldable pub handled : (Dialog → Dialog × Answered) → Option Dialog → Option Dialog × Answered
handled handler none = (none, answered 481 [] [])
handled handler (some d) = let a = handler d in (some (a.0), a.1)

-- `onReInvite` of a call that was found; the request is given by its body and its session timer.
unfoldable pub on_re_invite : Resolver → Dialog → Text → Option SessionExpires → Dialog × Answered
unfolding reoffer_answer echoed refresh
on_re_invite r d body timer =
    if d.locked
    then (d, answered 491 [] [])
    else (let a = reoffer_answer r d body in (refresh (a.0), answered 200 (a.1) (echoed timer)))

unfoldable pub on_update : Resolver → Dialog → Text → Option SessionExpires → Dialog × Answered
unfolding reoffer_answer echoed refresh
on_update r d body timer =
    if is_empty body
    then (refresh d, answered 200 [] (echoed timer))
    else (let a = reoffer_answer r d body in (refresh (a.0), answered 200 (a.1) (echoed timer)))

-- `onBye` of a call that was found; `written` tells whether the 200 could be sent.
unfoldable pub on_bye : Dialog → Bool → Dialog × Answered
on_bye d written =
    if written
    then (record d { call = finish d.call by_remote 0 (codes "BYE") d.now }, answered 200 [] [])
    else (d, answered 481 [] [])

-- `ackAnswer`: the answer to our offer in a 200 comes with the ACK.
unfoldable pub on_ack : Resolver → Dialog → Bool → Text → Dialog
unfolding take_answer
on_ack r d ack_sdp body =
    if ack_sdp && not (is_empty body) then record d { media = take_answer r d.media body } else d
