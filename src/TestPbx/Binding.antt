-- ===== src/TestPbx/Binding.antt =====
-- testpbx/testpbx.go: which bindings a REGISTER leaves.
use xk6_sip.Common.{
  ℕ, ◌+◌, ◌≡◌, refl, Bool, false, not, ◌&&◌, ◌||◌, Option, none, some, arith, if◌then◌else◌,
  Bool-cases, inl, inr,
}
use xk6_sip.Common.Int.{ℤ}
use xk6_sip.Common.Text.{Text, text_eq}
use xk6_sip.Common.Table.{get, get-put, get-remove}
use xk6_sip.TestPbx.{User, Pbx, Request}
use xk6_sip.TestPbx.Registrar.{
  Credentials, Question, accepts, authorized, is_zero, expires_of, bind_contact, register_user,
  register_known, register_caller, on_register,
}

-- The Contact that a REGISTER binds; none where it has no Contact or expires at once.
abbrev pub bound : Option (Text × Option Text) → ℤ → Option Text
bound none z = none
bound (some c) z = if is_zero z then none else some (c.0)

get-bind_contact :
    (p : Pbx) (name : Text) (c : Option (Text × Option Text)) (z : ℤ) (k : Text)
    → get (bind_contact p name c z).regs k ≡ (if text_eq name k then bound c z else get p.regs k)
get-bind_contact p name none z k = get-remove p.regs name k
get-bind_contact p name (some c) z k = elim (Bool-cases (is_zero z)) [
  | inl e ↦ rw e (get-remove p.regs name k)
  | inr e ↦ rw e (get-put p.regs name k (c.0))
]

get-register_user :
    (p : Pbx) (req : Request) (k : Text)
    → get (register_user p req).regs k
      ≡ (if text_eq req.to_user k then bound req.contact (expires_of req) else get p.regs k)
unfolding register_user
get-register_user p req k = get-bind_contact p req.to_user req.contact (expires_of req) k

module _ (parse_credentials : Text → Option Credentials) (digest : Question → Option Text) where
  -- Whether the registrar lets a user in.
  abbrev pub admits : Pbx → Request → Option User → Bool
  admits p req none = false
  admits p req (some u) =
      not p.auth_register || accepts parse_credentials digest req.method u req.authorization

  get-register_caller :
      (p : Pbx) (req : Request) (now : ℕ) (k : Text) (o : Option User)
      → get (register_caller parse_credentials digest p req now o).regs k ≡ (
          if admits p req o && text_eq req.to_user k
          then bound req.contact (expires_of req)
          else get p.regs k)
  unfolding register_caller register_known authorized
  get-register_caller p req now k none = refl
  get-register_caller p req now k (some u) = ground (arith, get-register_user p req k)

  -- A REGISTER of a known user, with the right credentials where they are asked for, binds the user to
  -- the Contact, or takes the binding away where there is no Contact or it expires at once;
  -- any other REGISTER binds nothing, and no REGISTER touches the binding of another user.
  pub get-on_register :
      (p : Pbx) (req : Request) (now : ℕ) (k : Text)
      → get (on_register parse_credentials digest p req now).regs k ≡ (
          if admits p req (get p.users req.to_user) && text_eq req.to_user k
          then bound req.contact (expires_of req)
          else get p.regs k)
  unfolding on_register
  get-on_register p req now k =
      get-register_caller (record p { registers = p.registers + 1 }) req now k
        (get p.users req.to_user)
