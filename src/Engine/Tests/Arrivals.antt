-- ===== src/Engine/Tests/Arrivals.antt =====
-- Incoming calls, and a device that is started and destroyed.
use xk6_sip.Common.{true, false, none, some, List, [], ◌∷◌}
use xk6_sip.Common.Int.{pos}
use xk6_sip.Common.Text.{codes}
use xk6_sip.Media.Sdp.{Resolver}
use xk6_sip.Engine.Device.{Contact}
use xk6_sip.Engine.Device.Addressing
use xk6_sip.Engine.Device.Addressing.{Config, Uri, Life, Registrar, start}
use xk6_sip.Engine.Device.Addressing.Living.{Operation, starts, refreshes}
use xk6_sip.Engine.Handlers.{Wake}
use xk6_sip.Engine.Incoming.{Invite, Device, Net}

abbrev resolver : Resolver
resolver = record {
  unmarshal = λ t. none;
  parse_ip = λ t. some t;
  lookup_ip = λ t. [];
  is_unspecified = λ t. false;
}

abbrev device : Device
device = record {
  calls = (codes "x1", 4) ∷ [];
  inbox = record { calls = []; signals = 0 };
  tags = λ c. record { to_tag = codes "a"; from_tag = codes "b" };
  session_expires = pos 0;
}

abbrev invite : Invite
invite = record {
  call_id = codes "x2";
  asserted = some (codes "701");
  from_user = codes "ann";
  replaces = some (codes "x1;to-tag=a;from-tag=b");
  timer = none;
  timer_supported = true;
  body = [];
}

abbrev net : Net
net = record {
  read = true;
  media = false;
  stream = none;
  rang = false;
  wake = Wake.decided (record { code = 200; reason = codes "OK" });
  written = true;
  start = 10;
  now = 20;
  text = [];
}

abbrev settings : Config
settings = record {
  id = codes "ann";
  registrar = codes "pbx";
  proxy = [];
  user = codes "ann@pbx";
  auth_user = [];
  expires = 300000000000;
  no_register = false;
}

abbrev uri : Uri
uri = record { scheme = codes "sip"; user = codes "ann"; host = codes "pbx"; port = 5060 }

abbrev phone : Addressing.Device
phone = record {
  cfg = settings;
  aor = uri;
  registrar_uri = uri;
  proxy_addr = codes "pbx:5060";
  auth_user = codes "ann";
}

abbrev ours : Contact
ours = record { host = codes "10.0.0.2"; port = 5062; expires = none }

abbrev unused : Life
unused = record {
  started = false;
  has_socket = false;
  live = false;
  registration = record { cseq = 0; registered = false; refresh_in = none };
  hangups = 0;
}

abbrev answers : Registrar
answers = record {
  allowed = true;
  reply = record {
    first = some 200;
    second = none;
    second_cseq = 0;
    contacts = [];
    expires = none;
  };
  retry_in = 5000;
  refresh_of = λ n. n;
}

abbrev operations : List Operation
operations = starts true answers ∷ refreshes answers ∷ []
