-- ===== src/TestPbx/Runs.antt =====
-- testpbx: the PBX from its start, one request after the other.
pub mod Ending
use xk6_sip.Common.{
  ℕ, suc, ◌+◌, ◌≡◌, refl, sym, ap, ◌∙◌, subst, ◌≢◌, inl, inr, Bool, true, false, ◌&&◌, ◌||◌, Option,
  none, some, List, [], ◌∷◌, arith, if◌then◌else◌, ◌==◌, if_both, Bool-cases, zero,
}
use xk6_sip.Common.Text.{Text, text_eq, text_eq→eq, text_eq_refl, is_empty, codes}
use xk6_sip.Common.Int.{ℤ}
use xk6_sip.Common.Table.{Table, get, put, remove, get-put, get-remove}
use xk6_sip.TestPbx.{
  LegKind, User, Leg, Bridge, Pbx, Request, Sent, Config, start, add_users, send, Found, in_bridge,
  orphan, unknown, find, other,
}
use xk6_sip.TestPbx.Registrar.{
  Credentials, Question, on_register, register_known, register_user, authorized, bind_contact,
  is_zero, register_caller, expires_of,
}
use xk6_sip.TestPbx.Calls.{
  Serving, Reply, on_invite, on_re_invite, on_ack, on_bye, found_ack, ack_leg,
}
use xk6_sip.TestPbx.Transfers.{Responses, on_refer}
use xk6_sip.TestPbx.Links.{
  IsLinked, is_end, add, Known, add-IsLinked, allocate, allocate-Known, allocate-IsLinked,
}
use xk6_sip.TestPbx.Dialling.{IsRefusal, IsQuiet, IsQuiet-refl, IsQuiet-trans, new_id}
use xk6_sip.TestPbx.Connecting.{joining}
use xk6_sip.TestPbx.Relinking.{IsFine, Free, same-IsLinked, end-Free}
use xk6_sip.TestPbx.Serving.{IsOrdered, quiet-IsFine, on_refer-IsOrdered}
use xk6_sip.TestPbx.Serving.Inviting.{IsUnmoved, IsConnected, InviteOutcome}
use xk6_sip.TestPbx.Runs.Ending.{on_bye-IsFine}
use xk6_sip.TestPbx.Serving.Outcome.{on_invite-outcome, on_re_invite-IsQuiet, authorized-IsQuiet}

allocations-IsOrdered :
    {ids : ℕ → Text} {f : Text → Option Bridge} {o : Text → Option Leg} {n : ℕ} (d : ℕ)
    → IsLinked ids f o n
    → (js : ℕ → Text) × IsLinked js f o (d + n)
allocations-IsOrdered {ids} {f} {o} {n} zero v = (ids, subst (IsLinked ids f o) (omega arith) v)
allocations-IsOrdered {ids} {f} {o} {n} (suc d) v =
    let (js, w) = allocations-IsOrdered d v in
    (
      allocate js (d + n) [],
      subst (IsLinked (allocate js (d + n) []) f o) (omega arith) (allocate-IsLinked w []),
    )

unmoved-IsOrdered : (p q : Pbx) → IsUnmoved p q → IsOrdered p → IsOrdered q
unmoved-IsOrdered p q u (ids, v) =
    let (js, w) = allocations-IsOrdered u.more v in
    (js, same-IsLinked w (λ k. sym (u.table k)) (λ k. sym (u.alone k)) (sym u.grown))

connected-IsOrdered :
    (p q : Pbx) (a_id b_id : Text)
    → a_id ≢ b_id
    → Free (get p.legs) (get p.orphans) a_id
    → Free (get p.legs) (get p.orphans) b_id
    → IsConnected p q a_id b_id
    → IsOrdered p
    → IsOrdered q
connected-IsOrdered p q a_id b_id differ fa fb u (ids, v) =
    let js = allocate ids p.next a_id in
    let ks = allocate js (suc p.next) b_id in
    let br = joining u.number u.a u.b in
    let grown = allocate-IsLinked (allocate-IsLinked (allocate-IsLinked v a_id) b_id) [] in
    (
      allocate ks (suc (suc p.next)) [],
      same-IsLinked
          (add-IsLinked grown br
            (end-Free (get p.legs) (get p.orphans) br
              (subst (Free (get p.legs) (get p.orphans)) (sym u.a_made.1) fa)
              (subst (Free (get p.legs) (get p.orphans)) (sym u.b_made.1) fb))
            (λ e. differ (sym u.a_made.1 ∙ (e ∙ u.b_made.1)))
            (ground (arith, u.a_made.0, u.a_made.1), ground (arith, u.a_made.0, u.a_made.1))
            (ground (arith, u.b_made.0, u.b_made.1), ground (arith, u.b_made.0, u.b_made.1)))
          (λ k. sym (u.table k)) (λ k. sym (u.alone k)) (sym u.grown),
    )

-- The requests that come in, with what the libraries and the network do meanwhile.
pub data Event : Type 0 where
  register : Request → ℕ → Event
  invite : Request → Serving → Reply → ℕ → Event
  ack : Request → Event
  bye : Request → Event
  refer : Request → Responses → Event
  other_method : Event  -- NOTIFY, UPDATE and OPTIONS, which are answered with 200

-- New Call-IDs are not in use, and a refusal is not a 200.
abbrev pub IsFresh : Pbx → Event → Type 0
IsFresh p (register req now) = Unit {0}
IsFresh p (invite req run reply now) =
    req.to_tag ≡ false
    → Free (get p.legs) (get p.orphans) req.call_id
      × Free (get p.legs) (get p.orphans) (new_id run.end)
      × (req.call_id ≢ new_id run.end)
IsFresh p (ack req) = Unit {0}
IsFresh p (bye req) = Unit {0}
IsFresh p (refer req rs) = IsRefusal rs.end × Free (get p.legs) (get p.orphans) (new_id rs.end)
IsFresh p other_method = Unit {0}

bind_contact-IsQuiet :
    (p : Pbx) (name : Text) (c : Option (Text × Option Text)) (z : ℤ)
    → IsQuiet p (bind_contact p name c z)
bind_contact-IsQuiet p name none z = record { legs = refl; orphans = refl; next = refl }
bind_contact-IsQuiet p name (some c) z =
    if_both (IsQuiet p) (is_zero z) (record { legs = refl; orphans = refl; next = refl })
      (record { legs = refl; orphans = refl; next = refl })

register_user-IsQuiet : (p : Pbx) (req : Request) → IsQuiet p (register_user p req)
unfolding register_user
register_user-IsQuiet p req =
    let v = bind_contact-IsQuiet p req.to_user req.contact (expires_of req) in
    record { legs = v.legs; orphans = v.orphans; next = v.next }

ack_leg-IsQuiet : (p : Pbx) (l : Leg) (k : LegKind) → IsQuiet p (ack_leg p l k)
ack_leg-IsQuiet p l LegKind.uas_leg = record { legs = refl; orphans = refl; next = refl }
ack_leg-IsQuiet p l LegKind.uac_leg = IsQuiet-refl p

found_ack-IsQuiet : (p : Pbx) (f : Found) → IsQuiet p (found_ack p f)
found_ack-IsQuiet p unknown = IsQuiet-refl p
found_ack-IsQuiet p (orphan l) = ack_leg-IsQuiet p l l.kind
found_ack-IsQuiet p (in_bridge b l) = ack_leg-IsQuiet p l l.kind

on_ack-IsQuiet : (p : Pbx) (req : Request) → IsQuiet p (on_ack p req)
unfolding on_ack
on_ack-IsQuiet p req = found_ack-IsQuiet p (find p req.call_id)

no_calls : (p : Pbx) → p.legs ≡ [] → p.orphans ≡ [] → IsOrdered p
no_calls p e d =
    let f : (k : Text) → get p.legs k ≡ none = λ k. rw e (unfold get in refl) in
    let o : (k : Text) → get p.orphans k ≡ none = λ k. rw d (unfold get in refl) in
    (
      λ h. [],
      record {
        named = λ k b h. absurd (cc (f k, h));
        both = λ k id b h e. absurd (cc (f k, h));
        apart = λ k b h. absurd (cc (f k, h));
        known = λ k b h. absurd (cc (f k, h));
        left = λ k l h. absurd (cc (o k, h));
      },
    )

add_users-tables :
    (p : Pbx) (us : List User)
    → ((add_users p us).legs ≡ p.legs) × ((add_users p us).orphans ≡ p.orphans)
unfolding add_users
add_users-tables p [] = (refl, refl)
add_users-tables p (u ∷ us) =
    add_users-tables
      (record p {
        users = put p.users u.name u;
        exts = if is_empty u.ext then p.exts else put p.exts u.ext u;
      })
      us

start-IsOrdered : (cfg : Config) → IsOrdered (start cfg)
unfolding start
start-IsOrdered cfg = let v = add_users-tables _ cfg.users in no_calls (start cfg) v.0 v.1

module _ (parse_credentials : Text → Option Credentials) (digest : Question → Option Text) where
  unfoldable pub serve : Pbx → Event → Pbx
  unfolding on_register on_invite on_ack on_bye on_refer
  serve p (register req now) = on_register parse_credentials digest p req now
  serve p (invite req run reply now) = on_invite parse_credentials digest p req run reply now
  serve p (ack req) = on_ack p req
  serve p (bye req) = on_bye p req
  serve p (refer req rs) = on_refer p req rs
  serve p other_method = send p (Sent.respond 200 (codes "OK") [])

  -- The states that a PBX with a configuration comes to.
  pub data IsReachable (cfg : Config) : Pbx → Type 0 where
    started : IsReachable cfg (start cfg)
    served : {p : Pbx} → IsReachable cfg p → (e : Event) → IsFresh p e → IsReachable cfg (serve p e)

  register_known-IsQuiet :
      (p : Pbx) (req : Request) (u : User) (now : ℕ)
      → IsQuiet p (register_known parse_credentials digest p req u now)
  unfolding register_known
  register_known-IsQuiet p req u now =
      let r = authorized parse_credentials digest p req.method u req.authorization 401 now in
      let w =
        authorized-IsQuiet parse_credentials digest p req.method u req.authorization 401 now in
      if_both (IsQuiet p) p.auth_register
        (if_both (IsQuiet p) (r.1)
          (IsQuiet-trans p (r.0) (register_user (r.0) req) w (register_user-IsQuiet (r.0) req)) w)
        (register_user-IsQuiet p req)

  register_caller-IsQuiet :
      (p : Pbx) (req : Request) (u : Option User) (now : ℕ)
      → IsQuiet p (register_caller parse_credentials digest p req now u)
  unfolding register_caller
  register_caller-IsQuiet p req none now = record { legs = refl; orphans = refl; next = refl }
  register_caller-IsQuiet p req (some u) now = register_known-IsQuiet p req u now

  on_register-IsQuiet :
      (p : Pbx) (req : Request) (now : ℕ)
      → IsQuiet p (on_register parse_credentials digest p req now)
  unfolding on_register
  on_register-IsQuiet p req now =
      let counted : Pbx = record p { registers = p.registers + 1 } in
      let v = register_caller-IsQuiet counted req (get p.users req.to_user) now in
      record { legs = v.legs; orphans = v.orphans; next = v.next }

  invite-IsOrdered :
      (p : Pbx) (req : Request) (run : Serving) (reply : Reply) (now : ℕ) (inside : Bool)
      → req.to_tag ≡ inside
      → IsOrdered p
      → IsFresh p (invite req run reply now)
      → IsOrdered (on_invite parse_credentials digest p req run reply now)
  invite-IsOrdered p req run reply now true e (ids, v) fresh =
      unfold on_invite in
      rw e (ids, quiet-IsFine ids p (on_re_invite p req reply) (on_re_invite-IsQuiet p req reply) v)
  invite-IsOrdered p req run reply now false e v fresh =
      let (fa, fb, differ) = fresh e in
      elim (on_invite-outcome parse_credentials digest p req run reply now e fa fb) [
        | inl u ↦ unmoved-IsOrdered p _ u v
        | inr u ↦ connected-IsOrdered p _ req.call_id (new_id run.end) differ fa fb u v
      ]

  serve-IsOrdered : (p : Pbx) (e : Event) → IsOrdered p → IsFresh p e → IsOrdered (serve p e)
  unfolding serve
  serve-IsOrdered p (register req now) (ids, v) fresh = (
    ids,
    quiet-IsFine ids p (on_register parse_credentials digest p req now)
        (on_register-IsQuiet p req now) v,
  )
  serve-IsOrdered p (invite req run reply now) v fresh =
      invite-IsOrdered p req run reply now req.to_tag refl v fresh
  serve-IsOrdered p (ack req) (ids, v) fresh =
      (ids, quiet-IsFine ids p (on_ack p req) (on_ack-IsQuiet p req) v)
  serve-IsOrdered p (bye req) (ids, v) fresh = (ids, on_bye-IsFine ids p req v)
  serve-IsOrdered p (refer req rs) v fresh = on_refer-IsOrdered p req rs v (fresh.0) (fresh.1)
  serve-IsOrdered p other_method (ids, v) fresh = (ids, v)

  -- Whatever requests come in, and whatever the endpoints answer: each bridge in the table is found
  -- under the Call-IDs of its two legs, which differ, and under no other, and a leg that a
  -- transfer left alone is in no bridge. Requests are served one at a time, Call-IDs of new
  -- dialogs are not in use, and a response that refuses an INVITE is not a 200.
  pub reachable-IsOrdered : (cfg : Config) (p : Pbx) → IsReachable cfg p → IsOrdered p
  reachable-IsOrdered cfg p started = start-IsOrdered cfg
  reachable-IsOrdered cfg p (served r e fresh) =
      serve-IsOrdered _ e (reachable-IsOrdered cfg _ r) fresh
