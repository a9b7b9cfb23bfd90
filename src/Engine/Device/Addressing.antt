-- ===== src/Engine/Device/Addressing.antt =====
-- engine/device.go: how a device is configured, where its requests go, and its life from Start to
-- Destroy. Reading and printing of a URI are sipgo's, and parameters; so is what the sockets come to.
pub mod Living
use xk6_sip.Common.{
  ℕ, suc, ◌+◌, ◌/◌, Bool, true, false, not, ◌&&◌, ◌||◌, Option, none, some, List, [], ◌∷◌, ◌++◌,
  if◌then◌else◌, ltb, leb, ◌==◌,
}
use xk6_sip.Common.Text.{Text, codes, is_empty, text_eq, has_prefix, cut, decimal}
use xk6_sip.Engine.Device.{Registration, Contact, Reply, register}

pub record Uri : Type 0 where
  pub scheme : Text
  pub user : Text
  pub host : Text
  pub port : ℕ  -- 0 if there is none

pub record Config : Type 0 where
  pub id : Text
  pub registrar : Text
  pub proxy : Text
  pub user : Text
  pub auth_user : Text
  pub expires : ℕ  -- in ns
  pub no_register : Bool

pub record Device : Type 0 where
  pub cfg : Config
  pub aor : Uri
  pub registrar_uri : Uri
  pub proxy_addr : Text
  pub auth_user : Text

pub data Made {ℓ} (A : Type ℓ) : Type ℓ where
  made : A → Made A
  no_registrar no_user bad_uri empty_target : Made A

abbrev pub or_text : Text → Text → Text
or_text [] t = t
or_text (c ∷ s) t = c ∷ s

unfoldable pub is_sip : Text → Bool
unfolding has_prefix
is_sip t = has_prefix t (codes "sip:") || has_prefix t (codes "sips:")

-- `net.JoinHostPort`: an IPv6 address is put into brackets.
unfoldable pub join_host_port : Text → ℕ → Text
unfolding cut decimal
join_host_port host port =
    (if (cut b':' host).2 then b'[' ∷ (host ++ b']' ∷ []) else host) ++ b':' ∷ decimal port

module _ (parse_uri : Text → Option Uri) (host_port : Uri → Text) where
  unfoldable pub device_of : Config → Uri → Device
  unfolding cut
  device_of cfg parsed =
      let reg : Uri = record parsed {
        user = [];
        port = if parsed.port == 0 then 5060 else parsed.port;
      } in
      let u = cut b'@' cfg.user in
      let domain = or_text (u.1) reg.host in
      record {
        cfg = record cfg {
          id = or_text cfg.id (u.0 ++ b'@' ∷ domain);
          expires = if cfg.expires == 0 then 300000000000 else cfg.expires;
        };
        aor = record { scheme = codes "sip"; user = u.0; host = domain; port = 0 };
        registrar_uri = reg;
        proxy_addr = or_text cfg.proxy (host_port reg);
        auth_user = or_text cfg.auth_user (u.0);
      }

  unfoldable pub device_at : Config → Option Uri → Made Device
  unfolding device_of
  device_at cfg none = bad_uri
  device_at cfg (some reg) = made (device_of cfg reg)

  unfoldable pub new_device : Config → Made Device
  unfolding is_sip device_at
  new_device cfg =
      if is_empty cfg.registrar
      then no_registrar
      else if is_empty cfg.user
      then no_user
      else device_at cfg (
          parse_uri (if is_sip cfg.registrar then cfg.registrar else codes "sip:" ++ cfg.registrar))

  abbrev pub made_uri : Option Uri → Made Uri
  made_uri none = bad_uri
  made_uri (some u) = made u

  unfoldable pub target_uri : Device → Text → Made Uri
  unfolding is_sip cut
  target_uri d target =
      let t = cut b'@' target in
      if is_empty target
      then empty_target
      else if is_sip target
      then made_uri (parse_uri target)
      else made
          (record { scheme = codes "sip"; user = t.0; host = or_text (t.1) d.aor.host; port = 0 })

unfoldable pub destination_for : Device → Uri → Text
unfolding join_host_port
destination_for d target =
    if not (is_empty d.cfg.proxy)
      || text_eq target.host d.aor.host
      || text_eq target.host d.registrar_uri.host
    then d.proxy_addr
    else join_host_port target.host (if target.port == 0 then 5060 else target.port)

-- A device between Start and Destroy: `has_socket` tells of its socket, `live` of the context that its
-- timers look at, and `hangups` counts the calls that Destroy hung up.
pub record Life : Type 0 where
  pub started : Bool
  pub has_socket : Bool
  pub live : Bool
  pub registration : Registration
  pub hangups : ℕ

-- What REGISTER comes to: whether the rate limiter lets it go, the answers, and the delays that
-- are drawn.
pub record Registrar : Type 0 where
  pub allowed : Bool
  pub reply : Reply
  pub retry_in : ℕ
  pub refresh_of : ℕ → ℕ

unfoldable pub limited_register : Registration → Contact → ℕ → Registrar → Registration × Bool
unfolding register
limited_register r ours expires net =
    if net.allowed
    then register r ours expires net.reply net.retry_in net.refresh_of
    else (r, false)

abbrev pub close : Life → Life
close l = record l { has_socket = false; live = false }

-- The socket is open; the CSeq begins anew.
unfoldable pub opened : Life → Life
opened l = record l {
  has_socket = true;
  live = true;
  registration = record l.registration { cseq = 0 };
}

abbrev pub seconds_of : ℕ → ℕ
seconds_of expires = expires / 1000000000

abbrev pub registered_start : Life → Registration × Bool → Life × Bool
registered_start l (r, false) = (close (record l { registration = r }), false)
registered_start l (r, true) = (record l { registration = r; started = true }, true)

-- `opens` tells whether the socket could be opened.
unfoldable pub start : Device → Contact → Life → Bool → Registrar → Life × Bool
unfolding opened limited_register
start d ours l opens net =
    if l.started
    then (l, true)
    else if not opens
    then (close l, false)
    else if d.cfg.no_register
    then (record (opened l) { started = true }, true)
    else registered_start (opened l)
        (limited_register (opened l).registration ours (seconds_of d.cfg.expires) net)

-- The timer of the refresh is stopped, and a registration is given up.
unfoldable pub unregister : Life → Contact → Registrar → Life
unfolding limited_register
unregister l ours net =
    let stopped : Registration = record l.registration { refresh_in = none } in
    if l.registration.registered
    then record l { registration = (limited_register stopped ours 0 net).0 }
    else record l { registration = stopped }

unfoldable pub destroy : Contact → Life → ℕ → Registrar → Life
unfolding unregister
destroy ours l calls net =
    if l.started
    then close (unregister (record l { started = false; hangups = l.hangups + calls }) ours net)
    else l

abbrev pub is_due : Option ℕ → Bool
is_due none = false
is_due (some n) = true

-- The timer of the refresh fires; it does nothing for a device that was closed.
unfoldable pub refresh : Device → Contact → Life → Registrar → Life
unfolding limited_register
refresh d ours l net =
    if l.live && is_due l.registration.refresh_in
    then record l {
      registration =
          (limited_register (record l.registration { refresh_in = none }) ours
            (seconds_of d.cfg.expires) net).0;
    }
    else l
