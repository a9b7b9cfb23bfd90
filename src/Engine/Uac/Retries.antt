-- ===== src/Engine/Uac/Retries.antt =====
-- The CSeq numbers of the INVITEs and PRACKs that the loop of engine/uac.go sends.
use xk6_sip.Common.{
  ℕ, ◌+◌, ◌-◌, ◌%◌, ◌^◌, ◌≤◌, ◌≡◌, Bool, true, ◌&&◌, List, [], ◌∷◌, ltb, leb, ◌==◌, ◌⊎◌, inl, inr,
}
use xk6_sip.Common.Text.{Text}
use xk6_sip.Engine.Uac.{Failure, Invite, Sent, Loop, next_cseq}
use xk6_sip.Engine.Uac.Cancel.{invites}

-- The INVITEs of an outbox, the latest first, are numbered from the first one's CSeq on.
abbrev pub are_numbered : ℕ → List Sent → Bool
are_numbered first [] = true
are_numbered first (Sent.invite i ∷ ms) =
    i.cseq == (first + invites ms) % 2 ^ 32 && are_numbered first ms
are_numbered first (Sent.cancel n ∷ ms) = are_numbered first ms
are_numbered first (Sent.prack k r n ∷ ms) = are_numbered first ms

-- The RSeqs that the PRACKs name are at most `latest`, and each is below all later ones.
abbrev pub are_descending : ℕ → List Sent → Bool
are_descending latest [] = true
are_descending latest (Sent.invite i ∷ ms) = are_descending latest ms
are_descending latest (Sent.cancel n ∷ ms) = are_descending latest ms
are_descending latest (Sent.prack k r n ∷ ms) =
    leb r latest && (ltb 0 r && are_descending (r - 1) ms)

pub record IsNumbered (first : ℕ) (l : Loop) : Type 0 where
  pub cseqs : are_numbered first l.outbox ≡ true
  pub rseqs : are_descending l.last_rseq l.outbox ≡ true
  pub some_invite : 1 ≤ invites l.outbox
  pub latest : l.invite.cseq ≡ (first + invites l.outbox - 1) % 2 ^ 32

-- A retry takes the CSeq that follows.
abbrev Follows : Invite → Failure ⊎ Invite → Type 0
Follows inv (inl f) = inv ≡ inv
Follows inv (inr inv') = inv'.cseq ≡ next_cseq inv.cseq
