-- ===== src/Engine/Tests/Devices.antt =====
-- Concrete runs of a device: its inbox, its calls, its registration, its recordings, its socket.
use xk6_sip.Common.{◌≤◌, ◌≡◌, refl, true, false, none, some, List, [], ◌∷◌}
use xk6_sip.Common.Text.{codes, has_prefix, cut, to_lower, trim_space}
use xk6_sip.Engine.Device.{Incoming, scan, Calls, Registration, Reply, Contact}
use xk6_sip.Engine.Device.Claiming.{Claim, scan-Claim}
use xk6_sip.Engine.Saving.{Saving, use_media, on_failure, auto_save, mark_failed}
use xk6_sip.Engine.Saving.Once
use xk6_sip.Engine.Saving.Once.{fails, saves, IsOnce, mark_failed-auto_save}
use xk6_sip.Engine.Retransmission.{Message, Socket, message_key}
use xk6_sip.Engine.Tests.{over, talking}

abbrev waiting_calls : List Incoming
waiting_calls =
    record { id = 1; remote = codes "+7 701"; ended = true; t_start = 1 }
    ∷ record { id = 2; remote = codes "702"; ended = false; t_start = 2 }
    ∷ record { id = 3; remote = codes "7701"; ended = false; t_start = 3 }
    ∷ []

scan-Claim_example : Claim (codes "+7-701") waiting_calls (scan (codes "+7-701") none waiting_calls)
scan-Claim_example = scan-Claim (codes "+7-701") waiting_calls

abbrev table : Calls
table = (codes "a", 1) ∷ (codes "b", 2) ∷ []

abbrev registration : Registration
registration = record { cseq = 1; registered = true; refresh_in = none }

abbrev twice_refused : Reply
twice_refused = record {
  first = some 401;
  second = some 403;
  second_cseq = 3;
  contacts = [];
  expires = none;
}

abbrev our_contact : Contact
our_contact = record { host = codes "10.0.0.2"; port = 5062; expires = none }

abbrev saving : Saving
saving = use_media on_failure []

saving-IsOnce : IsOnce saving
unfolding use_media
saving-IsOnce = refl

mark_failed-auto_save_example :
    ((Once.run over saving (fails ∷ saves ∷ fails ∷ [])).writes ≤ 1)
    × (auto_save over (mark_failed talking saving) ≡ mark_failed over (auto_save over saving))
mark_failed-auto_save_example =
    mark_failed-auto_save talking over saving (fails ∷ saves ∷ fails ∷ []) saving-IsOnce refl refl

abbrev options : Message
options = record { key = codes "OPTIONS|z9hG4bK1|1 OPTIONS"; method = codes "OPTIONS"; status = 0 }

abbrev socket : Socket
socket = record { seen = []; swept = 0; reports = [] }

message_key_of_response :
    message_key
      (codes "SIP/2.0 200 OK\r\nv: SIP/2.0/UDP 1.2.3.4;branch=z9;x\r\nCSeq: 7 BYE\r\n\r\nbody")
    ≡ some (record { key = codes "SIP/2.0 200 OK|z9|7 BYE"; method = codes "BYE"; status = 200 })
unfolding message_key has_prefix cut to_lower trim_space
message_key_of_response = refl
