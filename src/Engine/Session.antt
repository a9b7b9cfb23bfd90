-- ===== src/Engine/Session.antt =====
-- engine/timers.go: session timers. Durations are in ns; a count of seconds is turned into one as
-- an int64, which wraps. A request or response is given by its header values.
pub mod Agreement
use xk6_sip.Common.{
  ℕ, zero, suc, ◌+◌, ◌-◌, ◌*◌, ◌/◌, ◌%◌, ◌^◌, min, Bool, true, false, not, ◌&&◌, ◌||◌, Option, none,
  some, List, [], ◌∷◌, ◌++◌, if◌then◌else◌, ltb, leb, ◌==◌,
}
use xk6_sip.Common.Int.{ℤ, pos, negsuc, sub_ℕ}
use xk6_sip.Common.Text.{
  Text, codes, text_eq, is_empty, trim_space, to_lower, equal_fold, cut, split, atoi, decimal,
}
use xk6_sip.Engine.Call.{Call, is_ended, is_connected}

abbrev pub second : ℕ
second = 1000000000

-- `time.Duration(secs) * time.Second` of a positive count.
unfoldable pub seconds : ℕ → ℤ
seconds n = let w = n * second % 2 ^ 64 in if ltb w (2 ^ 63) then pos w else negsuc (2 ^ 64 - 1 - w)

-- `int(d / time.Second)`, which rounds to 0.
unfoldable pub whole_seconds : ℤ → ℤ
whole_seconds (pos n) = pos (n / second)
whole_seconds (negsuc n) = sub_ℕ 0 (suc n / second)

unfoldable pub decimal_ℤ : ℤ → Text
decimal_ℤ (pos n) = decimal n
decimal_ℤ (negsuc n) = b'-' ∷ decimal (suc n)

pub record SessionExpires : Type 0 where
  pub expires : ℤ
  pub refresher : Text

-- One parameter of the header: the last `refresher` counts.
unfoldable pub read_param : Text → Text → Text
read_param refresher p =
    let (k, val, ok) = cut b'=' (trim_space p) in
    if ok && equal_fold k (codes "refresher") then to_lower val else refresher

unfoldable pub read_params : Text → List Text → Text
unfolding read_param
read_params refresher [] = refresher
read_params refresher (p ∷ ps) = read_params (read_param refresher p) ps

unfoldable pub session_of : Text → Option ℤ → Option SessionExpires
unfolding seconds read_params
session_of params none = none
session_of params (some (negsuc n)) = none
session_of params (some (pos zero)) = none
session_of params (some (pos (suc n))) =
    some (record { expires = seconds (suc n); refresher = read_params [] (split 0x3B params) })

unfoldable pub parse_value : Text → Option SessionExpires
unfolding session_of
parse_value value = let r = cut 0x3B value in session_of (r.1) (atoi (trim_space r.0))

-- The value of Session-Expires, or else of its compact form `x`.
unfoldable pub parse_session_expires : Option Text → Option Text → Option SessionExpires
unfolding parse_value
parse_session_expires (some value) x = parse_value value
parse_session_expires none (some value) = parse_value value
parse_session_expires none none = none

pub data Timer : Type 0 where
  refresh_after : ℕ → Timer
  expire_after : ℕ → Timer

-- `sessionTimer`; `startSession` makes it for positive durations only.
pub record Session : Type 0 where
  pub expires : ℕ
  pub refresher : Bool
  pub timer : Option Timer

-- The timer that a refresh starts in place of the old one.
unfoldable pub armed : Session → Timer
armed s =
    if s.refresher
    then refresh_after (s.expires / 2)
    else expire_after (s.expires - min (32 * second) (s.expires / 3))

unfoldable pub session_refreshed : Bool → Option Session → Option Session
unfolding armed
session_refreshed is_over none = none
session_refreshed is_over (some s) =
    if is_over then some s else some (record s { timer = some (armed s) })

unfoldable pub start_session : Bool → Option Session → ℤ → Bool → Option Session
unfolding session_refreshed
start_session is_over old (negsuc n) we_refresh = old
start_session is_over old (pos zero) we_refresh = old
start_session is_over old (pos (suc n)) we_refresh =
    session_refreshed is_over
      (some (record { expires = suc n; refresher = we_refresh; timer = none }))

unfoldable pub stop_session : Option Session → Option Session
stop_session none = none
stop_session (some s) = some (record s { timer = none })

unfoldable pub session_value : ℤ → Text → Text
unfolding whole_seconds decimal_ℤ
session_value expires refresher =
    decimal_ℤ (whole_seconds expires) ++ 0x3B ∷ (codes "refresher=" ++ refresher)

pub record Header : Type 0 where
  pub name : Text
  pub value : Text

-- `sessionHeaders`: for our own refresh, whose UAC is this side.
unfoldable pub session_headers : Option Session → List Header
unfolding session_value
session_headers none = record { name = codes "Supported"; value = codes "100rel, timer" } ∷ []
session_headers (some s) =
    record { name = codes "Supported"; value = codes "100rel, timer" }
    ∷ record {
      name = codes "Session-Expires";
      value = session_value (pos s.expires) (if s.refresher then codes "uac" else codes "uas");
    }
    ∷ []

abbrev pub or_uac : Text → Text
or_uac [] = codes "uac"
or_uac (c ∷ s) = c ∷ s

-- `addSessionHeaders`: what a response to a refresh echoes.
unfoldable pub echoed : Option SessionExpires → List Header
unfolding session_value
echoed none = []
echoed (some s) =
    record { name = codes "Session-Expires"; value = session_value s.expires (or_uac s.refresher) }
    ∷ record { name = codes "Require"; value = codes "timer" }
    ∷ []

-- `sessionFromAnswer`: the UAC refreshes unless the answer says otherwise.
unfoldable pub from_answer : Bool → Option Session → Option SessionExpires → Option Session
from_answer is_over old none = old
from_answer is_over old (some s) =
    start_session is_over old s.expires (not (text_eq s.refresher (codes "uas")))

-- What `sessionForAnswer` decides: the session that is started later, and the headers of the 2xx.
pub record Decided : Type 0 where
  pub expires : ℤ
  pub we_refresh : Bool
  pub headers : List Header

unfoldable pub decided : Bool → ℤ → Text → Decided
unfolding session_value
decided supported expires refresher = record {
  expires = expires;
  we_refresh = text_eq (or_uac refresher) (codes "uas");
  headers =
      record { name = codes "Session-Expires"; value = session_value expires (or_uac refresher) }
      ∷ (if supported then record { name = codes "Require"; value = codes "timer" } ∷ [] else []);
}

-- `configured` is `cfg.SessionExpires`; `supported` that the request lists `timer` as supported.
unfoldable pub default_session : Bool → ℤ → Option Decided
unfolding decided
default_session supported (negsuc n) = none
default_session supported (pos zero) = none
default_session supported (pos (suc n)) =
    if supported then some (decided supported (pos (suc n)) (codes "uac")) else none

unfoldable pub for_answer : ℤ → Bool → Option SessionExpires → Option Decided
unfolding default_session
for_answer configured supported none = default_session supported configured
for_answer configured supported (some s) = some (decided supported s.expires s.refresher)
