-- ===== src/Media/Sdp/Reading.antt =====
-- The direction that ParseSDP reads.
use xk6_sip.Common.{ℕ, ◌≡◌, refl, false, none, some, [], ◌∷◌, ◌==◌}
use xk6_sip.Common.Int.{negsuc}
use xk6_sip.Common.Text.{Text, codes}
use xk6_sip.Media.Sdp.{
  Direction, Remote, Resolver, parsed, parse_sdp, parse_session, parse_media, parse_audio,
  remote_of, read_attributes, read_formats, connection_addr, resolve, is_usable, first_audio,
  SessionDescription, direction_key,
}

-- One audio line at an address, with no format and the attribute of a direction.
unfoldable pub audio_at : Text → ℕ → Direction → SessionDescription
unfolding direction_key
audio_at host port dir = record {
  connection = none;
  media_descriptions =
      record {
        media = codes "audio";
        port = port;
        formats = [];
        connection = some (record { address = some host });
        attributes = record { key = direction_key dir; value = [] } ∷ [];
      }
      ∷ [];
}

abbrev pub read_at : Text → ℕ → Direction → Remote
read_at ip port dir = record {
  addr = some (record { ip = ip; port = port });
  codecs = [];
  dtmf_pt = negsuc 0;
  dir = dir;
}

resolve-host :
    (r : Resolver) (port : ℕ) (host ip : Text)
    → r.parse_ip host ≡ some ip
    → resolve r port host ≡ some (some (record { ip = ip; port = port }))
unfolding resolve
resolve-host r port host ip h = rw (h, resolve) refl

pub parse_sdp-audio_at :
    (r : Resolver) (body host ip : Text) (port : ℕ) (dir : Direction)
    → r.unmarshal body ≡ some (audio_at host port dir)
    → r.parse_ip host ≡ some ip
    → r.is_unspecified ip ≡ false
    → (port == 0) ≡ false
    → parse_sdp r body ≡ parsed (read_at ip port dir)
unfolding parse_sdp parse_session parse_media parse_audio remote_of read_attributes read_formats
    connection_addr is_usable first_audio audio_at direction_key
parse_sdp-audio_at r body host ip port Direction.send_recv h a u p =
    rw (h, p, resolve-host r port host ip a, u) refl
parse_sdp-audio_at r body host ip port Direction.send_only h a u p =
    rw (h, p, resolve-host r port host ip a, u) refl
parse_sdp-audio_at r body host ip port Direction.recv_only h a u p =
    rw (h, p, resolve-host r port host ip a, u) refl
parse_sdp-audio_at r body host ip port Direction.inactive h a u p =
    rw (h, p, resolve-host r port host ip a, u) refl
