-- ===== src/StateStore/Restore.antt =====
-- BBgrid_Server/runtime/statestore.go: `Snapshot` and `Restore`. The entries of a Go map come in an
-- order that Go leaves open; the loops take them in the order of the fields.
pub mod Laws
use bbgrid.Prelude.{
  ◌≡◌, refl, Bool, true, false, ◌||◌, Option, none, some, List, [], Text, ℤ, pos, arith, ◌==◌,
  text_key, int_key, if◌then◌else◌,
}
use bbgrid.GoText.{codes}
use bbgrid.GoMap.{GoMap, get, put}
use bbgrid.Types.{
  ProxyState, ProxyDesiredState, RelaySession, RelayDesiredState, Any, Fields, nil, field, object,
  proxy_map, relay_map,
}
use bbgrid.StateStore.{StateStore, proxy_key}
use bbgrid.StateStore.Apply.{lookup, as_string, or_else, string_field, int_field}

unfoldable pub snapshot : StateStore → Fields
snapshot s =
    field (codes "desired_proxies") (proxy_map s.desired_proxies)
      (field (codes "desired_relays") (relay_map s.desired_relays) nil)

unfoldable pub desired_from_fields : Fields → ProxyDesiredState
unfolding string_field int_field
desired_from_fields m = record {
  client_id = string_field m (codes "client_id");
  remote_port = int_field m (codes "remote_port");
  local_port = int_field m (codes "local_port");
  local_ip = string_field m (codes "local_ip");
  protocol = string_field m (codes "protocol");
  bind_addr = string_field m (codes "bind_addr");
}

abbrev pub actual_of : ProxyDesiredState → ProxyState
actual_of d = record {
  client_id = d.client_id;
  remote_port = d.remote_port;
  local_port = d.local_port;
  local_ip = d.local_ip;
  protocol = d.protocol;
  bind_addr = d.bind_addr;
}

unfoldable pub put_proxy : StateStore → Text → ProxyDesiredState → StateStore
put_proxy s key d = record s {
  desired_proxies = put s.desired_proxies key d;
  proxies = put s.proxies (proxy_key d.client_id d.remote_port) (actual_of d);
  port_index = put s.port_index d.remote_port d.client_id;
}

abbrev pub is_incomplete : ProxyDesiredState → Bool
is_incomplete d = d.client_id == [] || d.remote_port == pos 0

-- One round of the loop over the proxies; a value of another type is skipped.
unfoldable pub restore_proxy : StateStore → Text → Any → StateStore
unfolding put_proxy
restore_proxy s key (object m) =
    let d = desired_from_fields m in if is_incomplete d then s else put_proxy s key d
restore_proxy s key _ = s

unfoldable pub restore_proxies : StateStore → Fields → StateStore
restore_proxies s nil = s
restore_proxies s (field key v fs) = restore_proxies (restore_proxy s key v) fs

-- `m["id"]`, or else `m["session_id"]`
unfoldable pub relay_id : Fields → Text
relay_id m =
    or_else (as_string (lookup m (codes "id")))
      (or_else (as_string (lookup m (codes "session_id"))) [])

unfoldable pub relay_from_fields : Fields → RelayDesiredState
unfolding string_field int_field relay_id
relay_from_fields m = record {
  id = relay_id m;
  source_client = string_field m (codes "source_client");
  target_client = string_field m (codes "target_client");
  protocol = string_field m (codes "protocol");
  source_port = int_field m (codes "source_port");
  target_port = int_field m (codes "target_port");
  target_local_ip = string_field m (codes "target_local_ip");
  source_local_ip = string_field m (codes "source_local_ip");
  token = string_field m (codes "token");
}

-- `CreatedAt`, `Status` and `Error` keep their zero values.
abbrev pub session_of : RelayDesiredState → RelaySession
session_of r = record {
  id = r.id;
  source_client = r.source_client;
  target_client = r.target_client;
  protocol = r.protocol;
  source_port = r.source_port;
  target_port = r.target_port;
  target_local_ip = r.target_local_ip;
  source_local_ip = r.source_local_ip;
  token = r.token;
  created_at = pos 0;
  status = [];
  error = [];
}

unfoldable pub put_relay : StateStore → Text → RelayDesiredState → StateStore
put_relay s key r = record s {
  desired_relays = put s.desired_relays key r;
  relays = put s.relays r.id (session_of r);
}

unfoldable pub restore_relay : StateStore → Text → Any → StateStore
unfolding put_relay
restore_relay s key (object m) =
    let r = relay_from_fields m in if r.id == [] then s else put_relay s key r
restore_relay s key _ = s

unfoldable pub restore_relays : StateStore → Fields → StateStore
restore_relays s nil = s
restore_relays s (field key v fs) = restore_relays (restore_relay s key v) fs

-- `data[k].(map[string]any)`; the empty map stands for a failed assertion, over which no loop runs
abbrev pub map_field : Option Any → Fields
map_field (some (object fs)) = fs
map_field _ = nil

unfoldable pub restore : StateStore → Fields → StateStore
restore s data' =
    restore_relays (restore_proxies s (map_field (lookup data' (codes "desired_proxies"))))
      (map_field (lookup data' (codes "desired_relays")))
