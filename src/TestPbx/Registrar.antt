-- ===== src/TestPbx/Registrar.antt =====
-- testpbx/testpbx.go: onRegister and authorized. The digest library is a parameter: the reading of
-- credentials and the response to a challenge.
use xk6_sip.Common.{
  ℕ, zero, suc, ◌+◌, Bool, true, false, ◌&&◌, Option, none, some, List, [], ◌∷◌, if◌then◌else◌,
  ◌==◌,
}
use xk6_sip.Common.Int.{ℤ, pos, negsuc}
use xk6_sip.Common.Text.{Text, codes, is_empty, text_eq, trim_space, atoi}
use xk6_sip.Common.Table.{get, put, remove}
use xk6_sip.TestPbx.{User, Pbx, Request, respond, registered, challenge, send}

pub record Credentials : Type 0 where
  pub username : Text
  pub realm : Text
  pub nonce : Text
  pub opaque : Text
  pub algorithm : Text
  pub qop : Text
  pub uri : Text
  pub response : Text
  pub cnonce : Text
  pub nc : ℕ

-- What `digest.Digest` is asked for: the challenge and the options.
pub record Question : Type 0 where
  pub realm : Text
  pub nonce : Text
  pub opaque : Text
  pub algorithm : Text
  pub qops : List Text
  pub method : Text
  pub uri : Text
  pub username : Text
  pub password : Text
  pub cnonce : Text
  pub nc : ℕ

unfoldable pub qop_list : Text → List Text
qop_list q = if is_empty q then [] else q ∷ []

unfoldable pub question : Credentials → Text → User → Question
unfolding qop_list
question cred method u = record {
  realm = cred.realm;
  nonce = cred.nonce;
  opaque = cred.opaque;
  algorithm = cred.algorithm;
  qops = qop_list cred.qop;
  method = method;
  uri = cred.uri;
  username = u.name;
  password = u.password;
  cnonce = cred.cnonce;
  nc = cred.nc;
}

abbrev pub same_response : Option Text → Text → Bool
same_response none r = false
same_response (some want) r = text_eq want r

unfoldable pub atoi_or : ℤ → Text → ℤ
atoi_or z t = elim (atoi t) [ none ↦ z | some n ↦ n ]

unfoldable pub header_expires : Option Text → ℤ
unfolding atoi_or
header_expires none = pos 3600
header_expires (some h) = atoi_or (pos 3600) (trim_space h)

unfoldable pub contact_expires : Option (Text × Option Text) → ℤ → ℤ
unfolding atoi_or
contact_expires none z = z
contact_expires (some (c, none)) z = z
contact_expires (some (c, some v)) z = atoi_or z v

unfoldable pub expires_of : Request → ℤ
unfolding header_expires contact_expires
expires_of req = contact_expires req.contact (header_expires req.expires)

abbrev pub is_zero : ℤ → Bool
is_zero (pos n) = n == 0
is_zero (negsuc n) = false

abbrev pub bind_contact : Pbx → Text → Option (Text × Option Text) → ℤ → Pbx
bind_contact p name none z = record p { regs = remove p.regs name }
bind_contact p name (some c) z =
    if is_zero z
    then record p { regs = remove p.regs name }
    else record p { regs = put p.regs name (c.0) }

-- The Contact that the 200 confirms.
abbrev pub confirmed : Option (Text × Option Text) → ℤ → Option (Text × ℕ)
confirmed none z = none
confirmed (some c) (pos zero) = none
confirmed (some c) (pos (suc n)) = some (c.0, suc n)
confirmed (some c) (negsuc n) = none

unfoldable pub register_user : Pbx → Request → Pbx
unfolding expires_of
register_user p req =
    let z = expires_of req in
    send (bind_contact p req.to_user req.contact z) (registered (confirmed req.contact z))

module _ (parse_credentials : Text → Option Credentials) (digest : Question → Option Text) where
  unfoldable pub accepts : Text → User → Option Text → Bool
  unfolding question
  accepts method u none = false
  accepts method u (some h) = elim (parse_credentials h) [
    | none ↦ false
    | some cred ↦
        text_eq cred.username u.name
        && same_response (digest (question cred method u)) cred.response
  ]

  -- `now` is the clock in nanoseconds; the nonce of a challenge adds the count of challenges.
  unfoldable pub authorized : Pbx → Text → User → Option Text → ℕ → ℕ → Pbx × Bool
  unfolding accepts
  authorized p method u header code now = if accepts method u header then (p, true) else (
    send (record p { nonce = p.nonce + 1 })
        (challenge code
          (if code == 407 then codes "Proxy-Authenticate" else codes "WWW-Authenticate") p.domain
          (now + (p.nonce + 1))),
    false,
  )

  unfoldable pub register_known : Pbx → Request → User → ℕ → Pbx
  unfolding authorized register_user
  register_known p req u now =
      if p.auth_register
      then (let r = authorized p req.method u req.authorization 401 now in
          if r.1 then register_user (r.0) req else r.0)
      else register_user p req

  unfoldable pub register_caller : Pbx → Request → ℕ → Option User → Pbx
  unfolding register_known
  register_caller p req now none = send p (respond 404 (codes "Not Found") [])
  register_caller p req now (some u) = register_known p req u now

  unfoldable pub on_register : Pbx → Request → ℕ → Pbx
  unfolding register_caller
  on_register p req now =
      register_caller (record p { registers = p.registers + 1 }) req now (get p.users req.to_user)
