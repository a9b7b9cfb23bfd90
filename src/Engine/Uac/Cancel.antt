-- ===== src/Engine/Uac/Cancel.antt =====
-- When the loop of engine/uac.go sends a CANCEL, and how often it sends the INVITE.
use xk6_sip.Common.{
  ℕ, ◌+◌, ◌≤◌, ◌≡◌, Bool, true, false, ◌||◌, Option, none, some, List, [], ◌∷◌, arith,
  if◌then◌else◌, ltb,
}
use xk6_sip.Engine.Call.Invariant.{shut}
use xk6_sip.Engine.Uac.{
  Response, Sent, InviteResult, Loop, Authorise, max_auth_attempts, is_running, cancelled,
}

-- The CSeq of the latest CANCEL, how many there are, and the latest INVITE.
abbrev pub cancel_of : List Sent → Option ℕ
cancel_of [] = none
cancel_of (Sent.cancel n ∷ ms) = some n
cancel_of (Sent.invite i ∷ ms) = cancel_of ms
cancel_of (Sent.prack k r n ∷ ms) = cancel_of ms

abbrev pub cancels : List Sent → ℕ
cancels [] = 0
cancels (Sent.cancel n ∷ ms) = cancels ms + 1
cancels (Sent.invite i ∷ ms) = cancels ms
cancels (Sent.prack k r n ∷ ms) = cancels ms

abbrev pub invites : List Sent → ℕ
invites [] = 0
invites (Sent.cancel n ∷ ms) = invites ms
invites (Sent.invite i ∷ ms) = invites ms + 1
invites (Sent.prack k r n ∷ ms) = invites ms

abbrev pub says : Option InviteResult → Bool → Bool
says none b = b
says (some r) b = r.cancelled

pub record IsValid (l : Loop) : Type 0 where
  pub once : cancels l.outbox ≡ shut l.cancel_sent
  pub current : cancel_of l.outbox ≡ (if l.cancel_sent then some l.invite.cseq else none)
  pub allowed : l.cancel_sent ≡ true → l.provisional ≡ true
  pub prompt : l.listening ≡ false → l.provisional ≡ true → l.cancel_sent ≡ true
  pub armed : l.waiting ≡ l.cancel_sent
  pub told : says l.result l.cancel_sent ≡ l.cancel_sent
  pub attempts : l.auth_attempts ≤ max_auth_attempts
  pub sent : invites l.outbox ≤ 1 + l.auth_attempts + shut l.retried_422

-- Everything a CANCEL needs but the promise that it is sent at once.
record IsPending (l : Loop) : Type 0 where
  once : cancels l.outbox ≡ shut l.cancel_sent
  current : cancel_of l.outbox ≡ (if l.cancel_sent then some l.invite.cseq else none)
  provisional : l.provisional ≡ true
  armed : l.waiting ≡ l.cancel_sent
  running : l.result ≡ none
  attempts : l.auth_attempts ≤ max_auth_attempts
  sent : invites l.outbox ≤ 1 + l.auth_attempts + shut l.retried_422

-- The rest of the handling of a provisional response.
abbrev pub rings : Loop → Response → Loop
rings l res = record l { ringing = l.ringing || ltb 100 res.status }

abbrev Kept : Loop → Loop → Type 0
Kept l l' = (l'.listening ≡ l.listening) × (l'.cancel_sent ≡ l.cancel_sent)

abbrev seen : Loop → Loop
seen l = record l { answered = true }

module _ (has_password : Bool) (auth : Authorise) where
  running : (l : Loop) → is_running has_password auth l ≡ true → l.result ≡ none
  running l h = ground arith
