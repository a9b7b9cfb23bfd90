-- ===== src/TestPbx/Tests.antt =====
-- Calls and transfers through the test PBX at concrete inputs.
use xk6_sip.Common.{◌≡◌, refl, true, false, Option, none, some, [], ◌∷◌, if◌then◌else◌, ◌&&◌}
use xk6_sip.Common.Text.{Text, codes, text_eq, text_eq_ne, cut}
use xk6_sip.Common.Table.{get, put, remove}
use xk6_sip.TestPbx.{
  User, Leg, LegKind, Bridge, Pbx, Request, Config, start, add_users, unknown, find, other, lookup,
  contact_of, set_sdp, sdp, leg_do, leg_ack, new_req, link,
}
use xk6_sip.TestPbx.Registrar.{
  Credentials, Question, on_register, expires_of, register_caller, register_known, register_user,
  header_expires, contact_expires,
}
use xk6_sip.TestPbx.Calls.{answered, Reply, Serving, on_invite, on_bye}
use xk6_sip.TestPbx.Transfers.{
  Answer, Responses, attended, target_user, opaque_of, get_scheme, has_control, scheme_opaque,
  attended_with, consultation, reinvite, accepted, second_reinvite, join_calls, bridged,
}
use xk6_sip.Engine.Transfer.{query_unescape, unescape}
use xk6_sip.TestPbx.Connecting.{blind_works}
use xk6_sip.TestPbx.Serving.{IsOrdered}
use xk6_sip.TestPbx.Runs.{Event, IsFresh, serve, started, served, reachable-IsOrdered}
use xk6_sip.TestPbx.Runs.Ending.{find-on_bye, ends, bye_sent}
use xk6_sip.TestPbx.Answering.{finals, finals-on_invite}
use xk6_sip.TestPbx.Binding.{get-on_register, admits, bound}

abbrev no_credentials : Text → Option Credentials
no_credentials t = none

abbrev no_digest : Question → Option Text
no_digest q = none

abbrev user : Text → Text → User
user name ext = record { name = name; password = codes "pw"; ext = ext }

abbrev office : Config
office = record {
  domain = codes "pbx";
  users =
      user (codes "ann") (codes "701")
      ∷ user (codes "bob") (codes "702")
      ∷ user (codes "cy") (codes "703")
      ∷ [];
  auth_register = false;
  auth_invite = false;
}

abbrev request : Text → Text → Request
request id from = record {
  method = codes "INVITE";
  call_id = id;
  from_user = from;
  to_user = from;
  to_tag = false;
  recipient = codes "702";
  expires = none;
  contact = some (codes "sip:x", none);
  authorization = none;
  proxy_authorization = none;
  refer_to = none;
  body = codes "offer";
}

abbrev serving : Text → Serving
serving id = record {
  read = some (codes "sip:x");
  provisional = (180, codes "Ringing") ∷ [];
  end = answered id none (codes "answer") true;
  cancelled = false;
  written = true;
}

abbrev step : Pbx → Event → Pbx
step p e = serve no_credentials no_digest p e

abbrev with_bob : Pbx
with_bob = step (start office) (Event.register (request (codes "r1") (codes "bob")) 0)

abbrev ann_calls : Event
ann_calls = Event.invite (request (codes "a1") (codes "ann")) (serving (codes "b1")) Reply.failed 0

ann_calls-IsFresh : IsFresh with_bob ann_calls
unfolding serve start add_users get put remove on_register register_caller register_known
    register_user expires_of header_expires contact_expires
ann_calls-IsFresh =
    λ h. ((refl, refl), (refl, refl), λ e. absurd (text_eq_ne (codes "a1") (codes "b1") refl e))

reachable-IsOrdered_example :
    IsOrdered (step (step with_bob ann_calls) (Event.bye (request (codes "b1") (codes "bob"))))
reachable-IsOrdered_example =
    reachable-IsOrdered no_credentials no_digest office
      (step (step with_bob ann_calls) (Event.bye (request (codes "b1") (codes "bob"))))
      (served
        (served (served started (Event.register (request (codes "r1") (codes "bob")) 0) tt)
          ann_calls ann_calls-IsFresh)
        (Event.bye (request (codes "b1") (codes "bob"))) tt)

abbrev ann_leg : Leg
ann_leg = record {
  handle = 0;
  kind = LegKind.uas_leg;
  call_id = codes "a1";
  target = codes "sip:ann";
  owner = user (codes "ann") (codes "701");
}

abbrev bob_leg : Leg
bob_leg = record {
  handle = 1;
  kind = LegKind.uac_leg;
  call_id = codes "b1";
  target = codes "sip:bob";
  owner = user (codes "bob") (codes "702");
}

abbrev bob_asks : Leg
bob_asks = record bob_leg { handle = 3; kind = LegKind.uas_leg; call_id = codes "b2" }

abbrev cy_leg : Leg
cy_leg = record {
  handle = 4;
  kind = LegKind.uac_leg;
  call_id = codes "c1";
  target = codes "sip:cy";
  owner = user (codes "cy") (codes "703");
}

abbrev call : Bridge
call = record { number = 2; x = ann_leg; y = bob_leg }

abbrev inquiry : Bridge
inquiry = record { number = 5; x = bob_asks; y = cy_leg }

-- Ann talks to Bob, and Bob has asked Cy.
abbrev talking : Pbx
talking = record {
  domain = codes "pbx";
  auth_register = false;
  auth_invite = false;
  users = [];
  exts = (codes "703", user (codes "cy") (codes "703")) ∷ [];
  regs = (codes "cy", codes "sip:cy") ∷ [];
  legs =
      (codes "a1", call) ∷ (codes "b1", call) ∷ (codes "b2", inquiry) ∷ (codes "c1", inquiry) ∷ [];
  orphans = [];
  nonce = 0;
  registers = 0;
  invites = 0;
  answered = 0;
  sdps = λ h. codes "sdp";
  next = 6;
  sent = [];
}

abbrev good : Answer
good = record { reply = Reply.response 200 true (codes "OK") (codes "new"); acked = true }

abbrev takes : Responses
takes = record {
  end = answered (codes "c2") none (codes "cy") true;
  keep_answer = good;
  target_answer = good;
}

-- A target of a Refer-To is an opaque URL, of which the user is called.
target_user_test : target_user (codes "sip:703@pbx") ≡ codes "703"
unfolding target_user opaque_of get_scheme has_control cut scheme_opaque query_unescape unescape
target_user_test = refl

blind_works_test : blind_works talking takes (lookup talking (codes "703")) ≡ true
unfolding lookup get contact_of
blind_works_test = refl

attended_test : (attended talking call bob_leg (codes "b2;to-tag=1;from-tag=2") takes).1 ≡ 200
unfolding attended attended_with cut get consultation other reinvite accepted set_sdp leg_ack leg_do
    new_req sdp second_reinvite join_calls bridged link put remove
attended_test = refl

find-on_bye_example :
    (find (on_bye talking (request (codes "b1") (codes "bob"))) (codes "a1") ≡ (
      if ends (find talking (codes "b1")) (codes "a1") then unknown else find talking (codes "a1")))
    × ((on_bye talking (request (codes "b1") (codes "bob"))).sent
        ≡ bye_sent (find talking (codes "b1")) [])
find-on_bye_example = find-on_bye talking (request (codes "b1") (codes "bob")) (codes "a1")

finals-on_invite_example :
    finals
      (on_invite no_credentials no_digest talking
        (request (codes "a9") (codes "ann"))
        (serving (codes "c9"))
        Reply.failed
        0).sent
    ≡ 1
finals-on_invite_example =
    finals-on_invite no_credentials no_digest talking (request (codes "a9") (codes "ann"))
      (serving (codes "c9")) Reply.failed 0 refl refl tt tt

get-on_register_example :
    get
      (on_register no_credentials no_digest talking (request (codes "r1") (codes "cy")) 0).regs
      (codes "cy")
    ≡ (if admits no_credentials no_digest talking
            (request (codes "r1") (codes "cy"))
            (get talking.users (codes "cy"))
          && text_eq (codes "cy") (codes "cy")
        then bound (some (codes "sip:x", none)) (expires_of (request (codes "r1") (codes "cy")))
        else get talking.regs (codes "cy"))
get-on_register_example =
    get-on_register no_credentials no_digest talking (request (codes "r1") (codes "cy")) 0
      (codes "cy")
