-- ===== src/StateStore/Apply.antt =====
-- BBgrid_Server/runtime/statestore.go: `Apply` and the handlers it calls, one for each resource type.
use bbgrid.Prelude.{
  map, suc, ◌-◌, ◌*◌, ◌%◌, ◌^◌, Option, none, some, List, [], ◌∷◌, Text, ℤ, pos, negsuc, ◌==◌,
  if◌then◌else◌, text_key, int_key, signed,
}
use bbgrid.GoMap.{GoMap, get, put, delete, delete_if}
use bbgrid.GoText.{codes}
use bbgrid.Types.{
  ProxyState, ProxyDesiredState, RelaySession, RelayDesiredState, Any, string, int64, float64,
  object, proxy_state, relay_session, Fields, nil, field, EventType, added, modified, deleted,
  unknown, GenericEvent,
}
use bbgrid.StateStore.{StateStore, ClientEntry, fresh_entry, proxy_key, parse_client_id_from_key}

-- `m[k]` of a map[string]any; `none` is the nil of a missing key
unfoldable pub lookup : Fields → Text → Option Any
lookup nil k = none
lookup (field j v fs) k = if j == k then some v else lookup fs k

-- `v, _ := m[k].(string)`
abbrev pub as_string : Option Any → Option Text
as_string (some (string s)) = some s
as_string _ = none

-- `v, ok := m[k].(float64); int(v)`
abbrev pub as_int : Option Any → Option ℤ
as_int (some (float64 i)) = some i
as_int _ = none

abbrev pub or_else {ℓ} : {A : Type ℓ} → Option A → A → A
or_else none d = d
or_else (some a) d = a

-- `m[k].(string)`, or the zero value
unfoldable pub string_field : Fields → Text → Text
string_field fs k = or_else (as_string (lookup fs k)) []

unfoldable pub int_field : Fields → Text → ℤ
int_field fs k = or_else (as_int (lookup fs k)) (pos 0)

unfoldable pub proxy_from_fields : Fields → ProxyState
unfolding string_field int_field
proxy_from_fields fs = record {
  client_id = string_field fs (codes "client_id");
  remote_port = int_field fs (codes "remote_port");
  local_port = int_field fs (codes "local_port");
  local_ip = string_field fs (codes "local_ip");
  protocol = string_field fs (codes "protocol");
  bind_addr = string_field fs (codes "bind_addr");
}

unfoldable pub parse_proxy_from_payload : Any → Option ProxyState
unfolding proxy_from_fields
parse_proxy_from_payload (proxy_state p) = some p
parse_proxy_from_payload (object fs) = some (proxy_from_fields fs)
parse_proxy_from_payload _ = none

-- `time.Duration(v) * time.Millisecond` in an int64
unfoldable pub milliseconds : ℤ → ℤ
milliseconds (pos n) = signed 63 (n * 1_000_000)
milliseconds (negsuc n) = signed 63 (2 ^ 64 - (suc n * 1_000_000) % 2 ^ 64)

-- The `switch v := payload["latency"].(type)`; other types leave the entry alone.
abbrev latency_or : ℤ → Option Any → ℤ
latency_or old (some (int64 v)) = milliseconds v
latency_or old (some (float64 v)) = milliseconds v
latency_or old _ = old

-- An entry that has a connection keeps it; any other entry is replaced.
added_entry : Option ClientEntry → Text → Text → Text → ℤ → ClientEntry
added_entry none id remote_addr host now = record (fresh_entry id now) {
  remote_addr = remote_addr;
  host = host;
}
added_entry (some e) id remote_addr host now = elim e.conn [
  | none ↦ record (fresh_entry id now) { remote_addr = remote_addr; host = host }
  | some c ↦ record e { remote_addr = remote_addr; host = host }
]

-- What a MODIFIED event does to an entry.
modified_entry : Any → ClientEntry → ClientEntry
modified_entry (object fs) e = record e {
  host = or_else (as_string (lookup fs (codes "host"))) e.host;
  latency = latency_or e.latency (lookup fs (codes "latency"));
}
modified_entry _ e = e

client_added : StateStore → Text → Any → ℤ → StateStore
unfolding string_field added_entry
client_added s id (object fs) now = record s {
  clients = put s.clients id (
      added_entry (get s.clients id) id (string_field fs (codes "remote_addr"))
        (string_field fs (codes "host")) now);
}
client_added s id _ now = s

unfoldable pub modify_found : StateStore → Text → Any → Option ClientEntry → StateStore
unfolding modified_entry
modify_found s id payload none = s
modify_found s id payload (some e) = record s {
  clients = put s.clients id (modified_entry payload e);
}

client_modified : StateStore → Text → Any → StateStore
unfolding modify_found
client_modified s id payload = modify_found s id payload (get s.clients id)

client_deleted : StateStore → Text → StateStore
client_deleted s id = record s {
  port_index = delete_if (λ cid. cid == id) s.port_index;
  tunnel_tokens = delete_if (λ key. parse_client_id_from_key key == id) s.tunnel_tokens;
  clients = delete s.clients id;
}

unfoldable pub apply_client_event : StateStore → Text → EventType → Any → ℤ → StateStore
unfolding client_added client_modified client_deleted
apply_client_event s id added payload now = client_added s id payload now
apply_client_event s id modified payload now = client_modified s id payload
apply_client_event s id deleted payload now = client_deleted s id
apply_client_event s id (unknown t) payload now = s

abbrev pub desired_of : ProxyState → ProxyDesiredState
desired_of p = record {
  client_id = p.client_id;
  remote_port = p.remote_port;
  local_port = p.local_port;
  local_ip = p.local_ip;
  protocol = p.protocol;
  bind_addr = p.bind_addr;
}

unfoldable pub add_proxy : StateStore → ProxyState → StateStore
add_proxy s p =
    let key = proxy_key p.client_id p.remote_port in
    record s {
      proxies = put s.proxies key p;
      port_index = put s.port_index p.remote_port p.client_id;
      desired_proxies = put s.desired_proxies key (desired_of p);
    }

unfoldable pub proxy_added : StateStore → Option ProxyState → StateStore
unfolding add_proxy
proxy_added s none = s
proxy_added s (some p) = add_proxy s p

abbrev pub unindex : GoMap ℤ Text → Option ProxyState → GoMap ℤ Text
unindex index none = index
unindex index (some p) = delete index p.remote_port

unfoldable pub remove_proxy : StateStore → Text → StateStore
remove_proxy s key = record s {
  port_index = unindex s.port_index (get s.proxies key);
  proxies = delete s.proxies key;
  desired_proxies = delete s.desired_proxies key;
}

unfoldable pub apply_proxy_event : StateStore → Text → EventType → Any → StateStore
unfolding proxy_added remove_proxy
apply_proxy_event s name added payload = proxy_added s (parse_proxy_from_payload payload)
apply_proxy_event s name deleted payload = remove_proxy s name
apply_proxy_event s name _ payload = s

abbrev pub desired_relay_of : RelaySession → RelayDesiredState
desired_relay_of r = record {
  id = r.id;
  source_client = r.source_client;
  target_client = r.target_client;
  protocol = r.protocol;
  source_port = r.source_port;
  target_port = r.target_port;
  target_local_ip = r.target_local_ip;
  source_local_ip = r.source_local_ip;
  token = r.token;
}

unfoldable pub add_relay : StateStore → Any → StateStore
add_relay s (relay_session r) = record s {
  relays = put s.relays r.id r;
  desired_relays = put s.desired_relays r.id (desired_relay_of r);
}
add_relay s _ = s

unfoldable pub remove_relay : StateStore → Text → StateStore
remove_relay s id = record s {
  relays = delete s.relays id;
  desired_relays = delete s.desired_relays id;
}

unfoldable pub apply_relay_event : StateStore → Text → EventType → Any → StateStore
unfolding add_relay remove_relay
apply_relay_event s name added payload = add_relay s payload
apply_relay_event s name deleted payload = remove_relay s name
apply_relay_event s name _ payload = s

unfoldable pub apply : StateStore → GenericEvent → ℤ → StateStore
apply s e now =
    if e.resource.type == codes "client"
    then apply_client_event s e.resource.name e.event_type e.payload now
    else if e.resource.type == codes "proxy"
    then apply_proxy_event s e.resource.name e.event_type e.payload
    else if e.resource.type == codes "relay"
    then apply_relay_event s e.resource.name e.event_type e.payload
    else s

-- Events in the order of their delivery, each with the time at which it is applied.
unfoldable pub replay : StateStore → List (GenericEvent × ℤ) → StateStore
replay s [] = s
replay s ((e, now) ∷ es) = replay (apply s e now) es

-- Published events as they are handled, each at some time.
abbrev pub handled_at : (GenericEvent → ℤ) → List GenericEvent → List (GenericEvent × ℤ)
handled_at at es = map (λ e. (e, at e)) es
