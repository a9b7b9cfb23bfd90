-- ===== src/Engine/Tests/Holding.antt =====
-- A call that is put on hold, from both sides.
use xk6_sip.Common.{◌≡◌, refl, ap, ◌∙◌, Bool, true, false, none, some, [], ◌∷◌, if◌then◌else◌, inr}
use xk6_sip.Common.Int.{pos, negsuc}
use xk6_sip.Common.Text.{Text, codes, contains, has_prefix, is_empty, decimal, decimal_onto}
use xk6_sip.Media.Codec.{pcmu, no_codec}
use xk6_sip.Media.Audio.{silence}
use xk6_sip.Media.Sdp.{
  Remote, Direction, send_only, recv_only, reverse, Resolver, build_sdp, sends, receives, is_usable,
  line, space_pt, codec_pts, codec_maps, dtmf_pts, dtmf_maps, direction_key,
}
use xk6_sip.Media.Sdp.Reading.{audio_at, read_at, parse_sdp-audio_at}
use xk6_sip.Media.Stream.State.{Stream, new_stream}
use xk6_sip.Media.Stream.Negotiation.{offer, update, answer_sdp, take_addr, our_dtmf}
use xk6_sip.Engine.Call.{Call, outgoing, new_call, mark_connected, is_connected}
use xk6_sip.Engine.Session.{echoed}
use xk6_sip.Engine.Dialog.{
  Dialog, reply, no_reply, reinvite, media_direction, on_re_invite, Answered, answered,
}
use xk6_sip.Engine.Dialog.Sides.{hold-remote_hold}

abbrev resolver : Resolver
resolver = record {
  unmarshal = λ t. some (
      audio_at (codes "10.0.0.2") 5000
        (if contains t (codes "a=sendonly") then send_only else recv_only));
  parse_ip = λ t. some t;
  lookup_ip = λ t. [];
  is_unspecified = λ t. false;
}

abbrev stream : Stream
stream =
    new_stream
      (record {
        ip = codes "10.0.0.2";
        codecs = pcmu ∷ [];
        audio = none;
        no_latch = false;
        record_audio = false;
      })
      silence (record { port = 5000; sess_id = 1; heard_thr = 34000; ssrc = 2; seq = 3; ts = 4 })

abbrev call : Call
call = mark_connected (new_call outgoing 10) 20

abbrev dialog : Dialog
dialog = record {
  call = call;
  media = some stream;
  session = some (record { expires = 1800; refresher = true; timer = none });
  local_hold = false;
  remote_hold = false;
  locked = false;
  ip = codes "10.0.0.2";
  port = 5060;
  now = 30;
  asked = [];
  acks = 0;
}

connected : is_connected call ≡ true
unfolding mark_connected new_call
connected = refl

-- The peer has put the call on hold; after the refresh the call says that it holds the peer.
abbrev held : Dialog
held = record dialog { media = some (record stream { dir = recv_only }); remote_hold = true }

abbrev offer_body : Text
offer_body = build_sdp (codes "10.0.0.2") 5000 (pcmu ∷ []) (pos 101) send_only 1 1

abbrev answer_body : Text
answer_body = build_sdp (codes "10.0.0.2") 5000 (no_codec ∷ []) (negsuc 0) recv_only 1 1

offer_is : (offer stream send_only).1 ≡ offer_body
unfolding offer new_stream
offer_is = refl

answer_is : (update resolver stream (read_at (codes "10.0.0.2") 5000 send_only)).1 ≡ answer_body
unfolding update answer_sdp our_dtmf take_addr is_usable reverse new_stream
answer_is = refl

offer_read : (is_empty offer_body ≡ false) × (contains offer_body (codes "a=sendonly") ≡ true)
unfolding build_sdp line space_pt codec_pts codec_maps dtmf_pts dtmf_maps direction_key contains
    has_prefix decimal decimal_onto
offer_read = (refl, refl)

answer_read : (is_empty answer_body ≡ false) × (contains answer_body (codes "a=sendonly") ≡ false)
unfolding build_sdp line space_pt codec_pts codec_maps dtmf_pts dtmf_maps direction_key contains
    has_prefix decimal decimal_onto
answer_read = (refl, refl)

abbrev seen : Bool → Direction
seen says = if says then send_only else recv_only

unmarshalled :
    (t u : Text) (says : Bool)
    → t ≡ u
    → contains u (codes "a=sendonly") ≡ says
    → resolver.unmarshal t ≡ some (audio_at (codes "10.0.0.2") 5000 (seen says))
unmarshalled t u says e h =
    ap (λ v. resolver.unmarshal v) e ∙ ap (λ b. some (audio_at (codes "10.0.0.2") 5000 (seen b))) h

abbrev asked : Remote
asked = read_at (codes "10.0.0.2") 5000 send_only

abbrev replied : Remote
replied = read_at (codes "10.0.0.2") 5000 recv_only

abbrev holding : Dialog × Bool
holding = reinvite resolver dialog send_only (reply 200 ((update resolver stream asked).1)) no_reply

abbrev on_hold : Dialog × Answered
on_hold = on_re_invite resolver dialog ((offer stream send_only).1) none

hold-remote_hold_example :
    (on_hold.1 ≡ answered 200 ((update resolver stream asked).1) (echoed none))
    × (holding.1 ≡ true)
    × (holding.0.local_hold ≡ on_hold.0.remote_hold)
    × (sends (media_direction (holding.0.media)) ≡ receives (media_direction (on_hold.0.media)))
    × (receives (media_direction (holding.0.media)) ≡ sends (media_direction (on_hold.0.media)))
hold-remote_hold_example =
    hold-remote_hold resolver dialog dialog stream stream send_only asked replied none no_reply
      (inr refl) connected refl refl refl (ap is_empty offer_is ∙ offer_read.0)
      (parse_sdp-audio_at resolver ((offer stream send_only).1) (codes "10.0.0.2")
        (codes "10.0.0.2") 5000 send_only
        (unmarshalled ((offer stream send_only).1) offer_body true offer_is (offer_read.1)) refl
        refl refl)
      refl (ap is_empty answer_is ∙ answer_read.0)
      (parse_sdp-audio_at resolver ((update resolver stream asked).1) (codes "10.0.0.2")
        (codes "10.0.0.2") 5000 recv_only
        (unmarshalled ((update resolver stream asked).1) answer_body false answer_is
          (answer_read.1))
        refl refl refl)
      (unfold reverse in refl)
