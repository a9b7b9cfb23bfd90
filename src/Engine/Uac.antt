-- ===== src/Engine/Uac.antt =====
-- engine/uac.go: the loop that drives an INVITE to its final response (`run`), the two ways it is
-- sent again, the CANCEL, and the requests within the dialog. An event is what the loop's `select`
-- received; what the transaction layer says of a new request is part of the event. The library
-- that answers a challenge is a parameter.
pub mod Cancel
pub mod Retries
use xk6_sip.Common.{
  ℕ, ◌+◌, ◌*◌, Bool, true, false, not, ◌&&◌, ◌||◌, Option, none, some, List, [], ◌∷◌, ◌++◌,
  if◌then◌else◌, ltb, leb, ◌==◌, ◌⊎◌, inl, inr, ◌%◌, ◌^◌, map,
}
use xk6_sip.Common.Int.{ℤ}
use xk6_sip.Common.Text.{Text, codes, trim_space, cut, split, atoi, natural, equal_fold}

abbrev pub max_auth_attempts : ℕ
max_auth_attempts = 2

pub record Response : Type 0 where
  pub status : ℕ
  pub min_se : Option Text
  pub www_authenticate : Option Text
  pub proxy_authenticate : Option Text
  pub contact : Option Text
  pub record_route : List Text
  pub require : List Text
  pub rseq : Option Text

pub data Failure : Type 0 where
  no_challenge bad_challenge no_min_se bad_min_se not_sent : Failure
  terminated cancelled : Failure

-- The INVITE that was sent last, as far as the loop changes it.
pub record Invite : Type 0 where
  pub recipient : Text
  pub cseq : ℕ
  pub session_expires : Option Text
  pub min_se : Option Text
  pub authorization : Option Text
  pub proxy_authorization : Option Text

pub data Sent : Type 0 where
  invite : Invite → Sent
  cancel : ℕ → Sent
  prack : ℕ → ℕ → ℕ → Sent  -- its CSeq, then the RSeq and the CSeq of its RAck

-- `inviteResult`
pub record InviteResult : Type 0 where
  pub res : Option Response
  pub err : Option Failure
  pub cancelled : Bool

-- The variables of the loop. `listening` is `cancel != nil`, `timing` that the no-answer timer
-- runs, `waiting` that `cancelWait` is set.
pub record Loop : Type 0 where
  pub invite : Invite
  pub cseq : ℕ
  pub provisional : Bool
  pub cancel_sent : Bool
  pub answered : Bool
  pub auth_attempts : ℕ
  pub retried_422 : Bool
  pub listening : Bool
  pub timing : Bool
  pub waiting : Bool
  pub last_rseq : ℕ
  pub outbox : List Sent  -- the latest first
  pub ringing : Bool  -- `markRinging` was called
  pub dialog : Option (Text × List Text)  -- the remote target and the route set
  pub result : Option InviteResult

-- `sent` says whether the transaction layer takes the request that a retry sends.
pub data Event : Type 0 where
  responds : Response → Bool → Event
  transaction_ends : Option Failure → Event
  cancel_asked no_answer cancel_unanswered : Event

unfoldable pub start : Invite → Loop
start inv = record {
  invite = inv;
  cseq = inv.cseq;
  provisional = false;
  cancel_sent = false;
  answered = false;
  auth_attempts = 0;
  retried_422 = false;
  listening = true;
  timing = true;
  waiting = false;
  last_rseq = 0;
  outbox = Sent.invite inv ∷ [];
  ringing = false;
  dialog = none;
  result = none;
}

abbrev pub is_provisional : Response → Bool
is_provisional res = ltb res.status 200

abbrev pub is_success : Response → Bool
is_success res = leb 200 res.status && ltb res.status 300

unfoldable pub send_cancel : Loop → Loop
send_cancel l = if l.cancel_sent then l else record l {
  cancel_sent = true;
  outbox = Sent.cancel l.invite.cseq ∷ l.outbox;
  waiting = true;
}

unfoldable pub request_cancel : Loop → Loop
unfolding send_cancel
request_cancel l =
    let l' : Loop = record l { listening = false; timing = false } in
    if l.provisional then send_cancel l' else l'

unfoldable pub return : Loop → InviteResult → Loop
return l r = record l { result = some r }

-- A new request is in place of the old one, and the loop waits for its first response.
unfoldable pub resent : Loop → Invite → Loop
resent l inv = record l {
  invite = inv;
  cseq = inv.cseq;
  provisional = false;
  answered = false;
  outbox = Sent.invite inv ∷ l.outbox;
}

-- `TransactionRequest`: whether the request went out.
unfoldable pub send_again : Invite → Bool → Failure ⊎ Invite
send_again inv true = inr inv
send_again inv false = inl not_sent

abbrev pub next_cseq : ℕ → ℕ
next_cseq n = (n + 1) % 2 ^ 32

-- `Digest`'s credentials for a challenge, `none` for an error of it or of `ParseChallenge`.
abbrev pub Authorise : Type 0
Authorise = Text → Option Text

unfoldable pub with_credentials : Invite → Bool → Option Text → Bool → Failure ⊎ Invite
unfolding send_again
with_credentials inv proxy none sent = inl bad_challenge
with_credentials inv true (some c) sent =
    send_again (record inv { cseq = next_cseq inv.cseq; proxy_authorization = some c }) sent
with_credentials inv false (some c) sent =
    send_again (record inv { cseq = next_cseq inv.cseq; authorization = some c }) sent

unfoldable pub challenged : Authorise → Invite → Bool → Option Text → Bool → Failure ⊎ Invite
unfolding with_credentials
challenged auth inv proxy none sent = inl no_challenge
challenged auth inv proxy (some h) sent = with_credentials inv proxy (auth h) sent

unfoldable pub retry_with_auth : Authorise → Invite → Response → Bool → Failure ⊎ Invite
unfolding challenged
retry_with_auth auth inv res sent =
    if res.status == 407
    then challenged auth inv true res.proxy_authenticate sent
    else challenged auth inv false res.www_authenticate sent

-- The interval that a 422 demands: its Min-SE up to a `;`.
unfoldable pub demanded : Text → Text
demanded h = (cut 0x3B (trim_space h)).0

unfoldable pub raise_to : Invite → Text → Bool → Failure ⊎ Invite
unfolding send_again
raise_to inv m sent =
    send_again (record inv { cseq = next_cseq inv.cseq; session_expires = some m; min_se = some m })
      sent

abbrev pub raise_if : Invite → Text → Bool → Option ℤ → Failure ⊎ Invite
raise_if inv m sent none = inl bad_min_se
raise_if inv m sent (some z) = raise_to inv m sent

unfoldable pub min_se_of : Invite → Option Text → Bool → Failure ⊎ Invite
unfolding demanded
min_se_of inv none sent = inl no_min_se
min_se_of inv (some h) sent = raise_if inv (demanded h) sent (atoi (demanded h))

unfoldable pub retry_with_min_se : Invite → Response → Bool → Failure ⊎ Invite
unfolding min_se_of
retry_with_min_se inv res sent = min_se_of inv res.min_se sent

-- What a retry comes to, once its attempt is counted.
unfoldable pub after_retry : Loop → Response → Failure ⊎ Invite → Loop
unfolding return resent
after_retry l res (inl e) = return l (record { res = some res; err = some e; cancelled = false })
after_retry l res (inr inv) = resent l inv

abbrev or_recipient : Option Text → Text → Text
or_recipient none r = r
or_recipient (some c) r = c

abbrev backwards : List Text → List Text → List Text
backwards [] acc = acc
backwards (x ∷ xs) acc = backwards xs (x ∷ acc)

-- `established` and `earlyLocked`: the remote target and the route set.
unfoldable pub established : Loop → Response → Loop
established l res = record l {
  dialog = some (or_recipient res.contact l.invite.recipient, backwards res.record_route []);
}

abbrev any : List Bool → Bool
any [] = false
any (b ∷ bs) = b || any bs

-- `hasOption` on the values of the header.
unfoldable pub has_option : List Text → Text → Bool
has_option values tag =
    any (map (λ v. any (map (λ o. equal_fold (trim_space o) tag) (split 0x2C v))) values)

abbrev below_2_32 : Option ℕ → Option ℕ
below_2_32 none = none
below_2_32 (some n) = if ltb n (2 ^ 32) then some n else none

unfoldable pub parse_rseq : Option Text → Option ℕ
parse_rseq none = none
parse_rseq (some h) = below_2_32 (natural (trim_space h))

-- The PRACK takes the next CSeq of the dialog.
unfoldable pub prack_new : Loop → Response → ℕ → Loop
unfolding established
prack_new l res n =
    if leb n l.last_rseq
    then l
    else (let l' : Loop = established l res in
        record l' {
          last_rseq = n;
          cseq = next_cseq l.cseq;
          outbox = Sent.prack (next_cseq l.cseq) n l.invite.cseq ∷ l.outbox;
        })

unfoldable pub prack_if : Loop → Response → Option ℕ → Loop
prack_if l res none = l
prack_if l res (some n) = prack_new l res n

unfoldable pub maybe_prack : Loop → Response → Loop
unfolding has_option parse_rseq
maybe_prack l res =
    if has_option res.require (codes "100rel") then prack_if l res (parse_rseq res.rseq) else l

-- The cases of the loop for a response, in their order.
unfoldable pub on_provisional : Loop → Response → Loop
unfolding maybe_prack
on_provisional l res =
    let l' = maybe_prack (record l { provisional = true }) res in
    let l'' = record l' { ringing = l'.ringing || ltb 100 res.status } in
    if not l.listening && not l.cancel_sent then send_cancel l'' else l''

abbrev pub may_authenticate : Bool → Loop → Response → Bool
may_authenticate has_password l res =
    (res.status == 401 || res.status == 407)
    && (ltb l.auth_attempts max_auth_attempts && (has_password && not l.cancel_sent))

abbrev pub may_raise : Loop → Response → Bool
may_raise l res = res.status == 422 && (not l.retried_422 && not l.cancel_sent)

abbrev is_none : Option InviteResult → Bool
is_none none = true
is_none (some r) = false

module _ (has_password : Bool) (auth : Authorise) where
  unfoldable pub on_final : Loop → Response → Bool → Loop
  on_final l res sent =
      if may_authenticate has_password l res
      then after_retry (record l { auth_attempts = l.auth_attempts + 1 }) res
          (retry_with_auth auth l.invite res sent)
      else if may_raise l res
      then after_retry (record l { retried_422 = true }) res (retry_with_min_se l.invite res sent)
      else return l (record { res = some res; err = none; cancelled = l.cancel_sent })

  unfoldable pub on_response : Loop → Response → Bool → Loop
  unfolding on_final
  on_response l res sent =
      let l' : Loop = record l { answered = true } in
      if is_provisional res
      then on_provisional l' res
      else if is_success res
      then return (established l' res)
          (record { res = some res; err = none; cancelled = l.cancel_sent })
      else on_final l' res sent

  -- The `select`: an event of a channel that is nil or stopped is not received.
  unfoldable pub receive : Loop → Event → Loop
  unfolding on_response
  receive l (Event.responds res sent) = on_response l res sent
  receive l (Event.transaction_ends none) =
      return l (record { res = none; err = some terminated; cancelled = l.cancel_sent })
  receive l (Event.transaction_ends (some e)) =
      return l (record { res = none; err = some e; cancelled = l.cancel_sent })
  receive l Event.cancel_asked = if l.listening then request_cancel l else l
  receive l Event.no_answer = if l.timing then request_cancel l else l
  receive l Event.cancel_unanswered =
      if l.waiting
      then return l (record { res = none; err = some cancelled; cancelled = true })
      else l

  -- `run`: no event is received once there is a result.
  abbrev pub is_running : Loop → Bool
  is_running l = is_none l.result

  unfoldable pub step : Loop → Event → Loop
  step l e = if is_running l then receive l e else l

  unfoldable pub run : Loop → List Event → Loop
  unfolding step
  run l [] = l
  run l (e ∷ es) = run (step l e) es
