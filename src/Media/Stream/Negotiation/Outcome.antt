-- ===== src/Media/Stream/Negotiation/Outcome.antt =====
-- An offer and its answer, on both sides (media/stream.go).
use xk6_sip.Common.{◌≡◌, refl, sym, ap, ◌∙◌, true, false, Option, none, some, [], ◌∷◌}
use xk6_sip.Common.Text.{Text}
use xk6_sip.Media.Codec.{Codec}
use xk6_sip.Media.Sdp.{reverse, sends, receives, Remote, Resolver, choose, find_name}
use xk6_sip.Media.Sdp.Choice.{reverse_roles, choose-offered, choose_single}
use xk6_sip.Media.Stream.State.{Stream}
use xk6_sip.Media.Stream.Negotiation.{
  answer, answer_with, apply_answer, apply_with, set_remote, answer_sdp,
}

-- What an answer leaves behind: the codec that `choose` gave, and the reversed direction.
record IsAnswered (s' : Stream) (m : Remote) (c : Codec) : Type 0 where
  codec : s'.codec ≡ c
  dir : s'.dir ≡ reverse m.dir

abbrev stream_or : Stream → Option (Stream × Text) → Stream
stream_or s none = s
stream_or s (some (s', body)) = s'

answer_with-IsAnswered :
    (r : Resolver) (s s' : Stream) (m : Remote) (body : Text) (o : Option Codec)
    → answer_with r s m o ≡ some (s', body)
    → (c : Codec) × (o ≡ some c) × IsAnswered s' m c
unfolding answer_with set_remote answer_sdp
answer_with-IsAnswered r s s' m body none h = cc
answer_with-IsAnswered r s s' m body (some c) h = (
  c,
  refl,
  record {
    codec = ap (λ o. (stream_or s' o).codec) (sym h);
    dir = ap (λ o. (stream_or s' o).dir) (sym h);
  },
)

-- The answerer `b` takes an offer of all of `a`'s codecs, and `a` takes an answer with the codec and
-- the direction of `b`: then `a` takes the answer indeed, both have the very same codec and payload
-- type, `a` has the direction that it offered, and each side receives exactly if the other sends.
pub offer_answer_agree :
    (r : Resolver) (a b b' : Stream) (m n : Remote) (body : Text)
    → m.codecs ≡ a.codecs
    → answer r b m ≡ some (b', body)
    → n.codecs ≡ b'.codec ∷ []
    → n.dir ≡ b'.dir
    → (a' : Stream) × (apply_answer r a n ≡ some a')
      × (a'.codec ≡ b'.codec)
      × (a'.dir ≡ m.dir)
      × (sends a'.dir ≡ receives b'.dir)
      × (receives a'.dir ≡ sends b'.dir)
unfolding answer apply_answer
offer_answer_agree r a b b' m n body offered answered listed directed =
    let (c, chosen, s) =
      answer_with-IsAnswered r b b' m body (choose b.codecs m.codecs true) answered in
    let mine : find_name b'.codec.name a.codecs ≡ some c =
      ap (λ x. find_name x.name a.codecs) s.codec
      ∙ ap (find_name c.name) (sym offered)
      ∙ choose-offered b.codecs m.codecs c chosen in
    let again : choose a.codecs n.codecs false ≡ some b'.codec =
      ap (λ l. choose a.codecs l false) listed ∙ choose_single a.codecs b'.codec c mine in
    let dir : reverse n.dir ≡ m.dir = ap reverse (directed ∙ s.dir) ∙ (reverse_roles m.dir).2 in
    let taken : Stream = record (set_remote r a n b'.codec) { dir = reverse n.dir } in
    (
      taken,
      ap (apply_with r a n) again,
      unfold set_remote in refl,
      dir,
      ap sends dir ∙ sym ((reverse_roles m.dir).1) ∙ ap receives (sym s.dir),
      ap receives dir ∙ sym ((reverse_roles m.dir).0) ∙ ap sends (sym s.dir),
    )
