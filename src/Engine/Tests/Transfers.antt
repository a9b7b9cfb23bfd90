-- ===== src/Engine/Tests/Transfers.antt =====
-- Concrete runs of transfers.
use xk6_sip.Common.{ℕ, ◌^◌, ◌<◌, ◌≡◌, refl, none, some, [], ◌∷◌, arith, true, false}
use xk6_sip.Common.Text.{codes, is_space}
use xk6_sip.Engine.Device.{Calls, find_call}
use xk6_sip.Engine.Transfer.{
  Tags, refer_to, parse_refer_to, replaces_value, attended_refer_to, replaced_call,
}
use xk6_sip.Engine.Call.{
  Call, outgoing, by_error, new_call, mark_ringing, mark_connected, ringing_closed, finish,
  finish_events, is_connected, expect_connected,
}
use xk6_sip.Engine.Transfer.Referring.{
  Transferor, refer, notify_refer, on_notify, on_notifies, follow_refer,
}
use xk6_sip.Engine.Transfer.Referring.Followed.{Told, placed_status, refer-follow_refer}
use xk6_sip.Engine.Transfer.Attended.{IsTarget, IsToken, replaced_call-attended_refer_to}

abbrev calls : Calls
calls = (codes "x@10.0.0.1", 4) ∷ []

abbrev their_tags : Tags
their_tags = record { to_tag = codes "a1"; from_tag = codes "b2" }

abbrev tags : ℕ → Tags
tags c = their_tags

pbx_uri-IsTarget : IsTarget (codes "sip:703@pbx:5060")
pbx_uri-IsTarget = record { some_text = refl; no_header = ground arith; no_bracket = ground arith }

id-IsToken : IsToken (codes "x@10.0.0.1")
unfolding is_space
id-IsToken = record { bytes = ground arith; no_semicolon = ground arith; no_space = ground arith }

to_tag-IsToken : IsToken (codes "a1")
unfolding is_space
to_tag-IsToken = record {
  bytes = ground arith;
  no_semicolon = ground arith;
  no_space = ground arith;
}

from_tag-IsToken : IsToken (codes "b2")
unfolding is_space
from_tag-IsToken = record {
  bytes = ground arith;
  no_semicolon = ground arith;
  no_space = ground arith;
}

call_found : find_call calls (codes "x@10.0.0.1") ≡ some 4
unfolding find_call
call_found = refl

replaced_call-attended_refer_to_example :
    (parse_refer_to (
        some (
          attended_refer_to
            (codes "sip:703@pbx:5060")
            (replaces_value (codes "x@10.0.0.1") (codes "a1") (codes "b2"))))
      ≡ refer_to
          (codes "sip:703@pbx:5060")
          (replaces_value (codes "x@10.0.0.1") (codes "a1") (codes "b2")))
    × (replaced_call calls tags (replaces_value (codes "x@10.0.0.1") (codes "a1") (codes "b2"))
        ≡ some 4)
replaced_call-attended_refer_to_example =
    replaced_call-attended_refer_to calls tags (codes "sip:703@pbx:5060") (codes "x@10.0.0.1")
      (codes "a1") (codes "b2") 4 pbx_uri-IsTarget id-IsToken to_tag-IsToken from_tag-IsToken
      call_found refl

unfoldable busy : Call
unfolding finish finish_events ringing_closed mark_ringing new_call
busy = finish (mark_ringing (new_call outgoing 10) 20) by_error 486 (codes "Busy Here") 30

unfoldable talking : Call
unfolding mark_connected ringing_closed new_call
talking = mark_connected (new_call outgoing 0) 5

talking_connects : is_connected talking ≡ true
unfolding talking mark_connected ringing_closed new_call
talking_connects = refl

busy_fits : placed_status (some busy) < 2 ^ 63
unfolding busy finish finish_events ringing_closed mark_ringing new_call
busy_fits = omega arith

abbrev phone : Transferor
phone = record { call = talking; xfer = none; asked = [] }

refer-follow_refer_example :
    Told (refer phone (codes "<sip:703@pbx>") (some 202)).0.xfer false 0
    × (Told
          (on_notify
            (refer phone (codes "<sip:703@pbx>") (some 202)).0.xfer
            (notify_refer (codes "SIP/2.0 100 Trying") false))
          false
          0
        × Told
            (on_notifies
              (refer phone (codes "<sip:703@pbx>") (some 202)).0.xfer
              (follow_refer none (some busy)).1)
            (expect_connected busy)
            1)
refer-follow_refer_example =
    refer-follow_refer phone (codes "<sip:703@pbx>") 202 none (some busy) talking_connects refl
      busy_fits
