-- ===== src/StateStore/Samples.antt =====
-- Events and proxies for the tests of the store and of the engine.
use bbgrid.Prelude.{List, [], ◌∷◌, Text, ℤ, pos}
use bbgrid.GoText.{codes}
use bbgrid.Types.{
  ProxyState, EventType, added, deleted, Any, object, proxy_state, opaque, nil, GenericEvent,
}

abbrev pub event : Text → Text → EventType → Any → GenericEvent
event type name t payload = record {
  id = [];
  sequence = pos 0;
  timestamp = pos 0;
  version = pos 0;
  generation = pos 0;
  resource = record { type = type; namespace = codes "default"; name = name };
  event_type = t;
  payload = payload;
}

abbrev pub web : ProxyState
web = record {
  client_id = codes "a";
  remote_port = pos 80;
  local_port = pos 8080;
  local_ip = [];
  protocol = codes "tcp";
  bind_addr = [];
}

abbrev pub ssh : ProxyState
ssh = record web { client_id = codes "b"; remote_port = pos 22 }

abbrev pub ip : Text
ip = codes "1.2.3.4"

abbrev pub history : List (GenericEvent × ℤ)
history =
    (event (codes "client") (codes "a") added (object nil), pos 1)
    ∷ (event (codes "proxy") (codes "a:80") added (proxy_state web), pos 2)
    ∷ (event (codes "proxy") (codes "b:22") added (proxy_state ssh), pos 3)
    ∷ (event (codes "proxy") (codes "b:22") deleted opaque, pos 4)
    ∷ []
