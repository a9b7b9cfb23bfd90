-- ===== src/Media/Stream/Negotiation.antt =====
-- media/stream.go: the negotiation of a stream by SDP (`Offer`, `Answer`, `ApplyAnswer`,
-- `Update`). An error changes nothing, and is `none`.
pub mod Outcome
use xk6_sip.Common.{
  ℕ, ◌+◌, Bool, true, false, not, ◌||◌, Option, none, some, List, [], ◌∷◌, if◌then◌else◌,
}
use xk6_sip.Common.Int.{ℤ, pos, negsuc}
use xk6_sip.Common.Text.{Text, text_eq}
use xk6_sip.Common.Bytes.{u64}
use xk6_sip.Media.Codec.{Codec, default_dtmf_pt}
use xk6_sip.Media.Sdp.{Direction, reverse, UdpAddr, Remote, Resolver, is_usable, choose, build_sdp}
use xk6_sip.Media.Audio.{Audio, encoded}
use xk6_sip.Media.Stream.State.{Stream}

unfoldable pub offer : Stream → Direction → Stream × Text
offer s dir =
    let s' = record s { dir = dir; version = u64 (s.version + 1) } in
    (s', build_sdp s'.ip s'.port s'.codecs (pos default_dtmf_pt) s'.dir s'.sess_id s'.version)

-- The address of the peer, if it can be sent to; packets may come from elsewhere again.
unfoldable pub take_addr : Resolver → Stream → Option UdpAddr → Stream
take_addr r s addr = if is_usable r addr then record s { remote = addr; latched = false } else s

-- The encoded source of another codec is played from its start.
unfoldable pub take_source : Stream → Codec → Stream
take_source s c =
    if not s.has_codec || not (text_eq s.codec.name c.name)
    then (let (src, audio) = encoded s.audio c in record s { src = src; pos = 0; audio = audio })
    else s

unfoldable pub set_remote : Resolver → Stream → Remote → Codec → Stream
set_remote r s m c =
    let s' = take_source (take_addr r s m.addr) c in
    record s' { codec = c; has_codec = true; remote_dtmf = m.dtmf_pt }

-- `sdpLocked`: the answer with the codec that was agreed on.
unfoldable pub our_dtmf : ℤ → ℤ
our_dtmf (pos n) = pos n
our_dtmf (negsuc n) = negsuc 0

unfoldable pub answer_sdp : Stream → Stream × Text
unfolding our_dtmf
answer_sdp s =
    let s' = record s { version = u64 (s.version + 1) } in
    (
      s',
      build_sdp s'.ip s'.port (s'.codec ∷ []) (our_dtmf s'.remote_dtmf) s'.dir s'.sess_id
          s'.version,
    )

unfoldable pub answer_with : Resolver → Stream → Remote → Option Codec → Option (Stream × Text)
unfolding set_remote answer_sdp
answer_with r s m none = none
answer_with r s m (some c) =
    let s' = set_remote r s m c in some (answer_sdp (record s' { dir = reverse m.dir }))

unfoldable pub answer : Resolver → Stream → Remote → Option (Stream × Text)
unfolding answer_with
answer r s m = answer_with r s m (choose s.codecs m.codecs true)

unfoldable pub apply_with : Resolver → Stream → Remote → Option Codec → Option Stream
unfolding set_remote
apply_with r s m none = none
apply_with r s m (some c) = let s' = set_remote r s m c in some (record s' { dir = reverse m.dir })

unfoldable pub apply_answer : Resolver → Stream → Remote → Option Stream
unfolding apply_with
apply_answer r s m = apply_with r s m (choose s.codecs m.codecs false)

unfoldable pub update : Resolver → Stream → Remote → Stream × Text
unfolding answer_sdp
update r s m = let s' = take_addr r s m.addr in answer_sdp (record s' { dir = reverse m.dir })
