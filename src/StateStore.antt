-- ===== src/StateStore.antt =====
-- BBgrid_Server/runtime/statestore.go: the state, the queries and the connection calls. Every method
-- holds the store's one lock from start to end, so each is a function from state to state.
pub mod Apply
pub mod Keys
pub mod Frame
pub mod Index
pub mod Mirror
pub mod Spec
pub mod Restore
pub mod Clients
pub mod Samples
mod Tests
use bbgrid.Prelude.{
  ℕ, zero, suc, ◌+◌, ◌-◌, ◌≡◌, Bool, true, false, ◌||◌, Option, none, some, List, [], ◌∷◌, ◌++◌,
  map, Text, ℤ, pos, ◌==◌, if◌then◌else◌, take, get_or, length, nat_eq, text_key, int_key,
}
use bbgrid.GoMap.{GoMap, get, put, delete, values}
use bbgrid.GoText.{codes, format_int}
use bbgrid.Types.{
  ProxyState, ProxyInfo, ProxyDesiredState, ClientInfo, RelaySession, RelayDesiredState,
}

-- An entry of `clients`. The connection is a handle; `none` is a nil interface.
pub record ClientEntry : Type 0 where
  pub client_id : Text
  pub conn : Option ℕ
  pub remote_addr : Text
  pub connected_at : ℤ
  pub host : Text
  pub latency : ℤ

pub record StateStore : Type 0 where
  pub clients : GoMap Text ClientEntry
  pub proxies : GoMap Text ProxyState
  pub relays : GoMap Text RelaySession
  pub port_index : GoMap ℤ Text
  pub desired_proxies : GoMap Text ProxyDesiredState
  pub desired_relays : GoMap Text RelayDesiredState
  pub tunnel_tokens : GoMap Text Text
  pub public_ip : Text

abbrev pub new_state_store : Text → StateStore
new_state_store ip = record {
  clients = [];
  proxies = [];
  relays = [];
  port_index = [];
  desired_proxies = [];
  desired_relays = [];
  tunnel_tokens = [];
  public_ip = ip;
}

unfoldable pub proxy_key : Text → ℤ → Text
proxy_key client_id port = client_id ++ b':' ∷ format_int port

-- `fmt.Sprintf("%s-%d", ...)` of TunnelKey
unfoldable pub tunnel_key : Text → ℤ → Text
tunnel_key client_id port = client_id ++ b'-' ∷ format_int port

-- `for i := len(key) - 1; i >= 0; i--`, with i + 1 rounds left
unfoldable pub parse_loop : ℕ → Text → Text
parse_loop zero key = key
parse_loop (suc i) key =
    let rest = parse_loop i key in
    if nat_eq (get_or key i 0) b'-' || nat_eq (get_or key i 0) b':' then take i key else rest

pub parse_client_id_from_key : Text → Text
unfolding parse_loop
parse_client_id_from_key key = parse_loop (length key) key

unfoldable pub get_client : StateStore → Text → Option ClientEntry
get_client s id = get s.clients id

unfoldable pub count_proxies : Text → List ProxyState → ℕ
count_proxies id [] = 0
count_proxies id (p ∷ ps) = (if p.client_id == id then 1 else 0) + count_proxies id ps

client_info : StateStore → ClientEntry → ClientInfo
client_info s entry = record {
  id = entry.client_id;
  remote_addr = entry.remote_addr;
  connected_at = entry.connected_at;
  proxy_count = count_proxies entry.client_id (values s.proxies);
  host = entry.host;
  online = true;
}

pub get_client_info : StateStore → Text → Option ClientInfo
unfolding client_info
get_client_info s id = elim (get s.clients id) [
  | none ↦ none
  | some entry ↦ some (client_info s entry)
]

pub list_clients : StateStore → List ClientInfo
unfolding client_info
list_clients s = map (client_info s) (values s.clients)

pub data SendError : Type 0 where
  client_not_found conn_not_ready write_failed : SendError

-- `conn.WriteJSON(cmd)` is the caller's: it says of a handle whether the write succeeds.
pub send_command : (ℕ → Bool) → StateStore → Text → Option SendError
send_command write_json s id = elim (get s.clients id) [
  | none ↦ some client_not_found
  | some entry ↦ elim entry.conn [
    | none ↦ some conn_not_ready
    | some conn ↦ if write_json conn then none else some write_failed
  ]
]

pub get_proxy : StateStore → Text → ℤ → Option ProxyState
get_proxy s id port = get s.proxies (proxy_key id port)

unfoldable pub proxy_info : Text → ProxyState → ProxyInfo
unfolding proxy_key
proxy_info ip p = record {
  client_id = p.client_id;
  remote_port = p.remote_port;
  local_port = p.local_port;
  local_ip = p.local_ip;
  protocol = p.protocol;
  bind_addr = p.bind_addr;
  public_addr = ip ++ b':' ∷ format_int p.remote_port;
}

unfoldable pub list_proxies : StateStore → List ProxyInfo
list_proxies s = map (proxy_info s.public_ip) (values s.proxies)

pub get_client_id_by_port : StateStore → ℤ → Option Text
get_client_id_by_port s port = get s.port_index port

unfoldable pub get_relay_session : StateStore → Text → Option RelaySession
get_relay_session s id = get s.relays id

unfoldable pub list_relay_sessions : StateStore → List RelaySession
list_relay_sessions s = values s.relays

pub data TokenError : Type 0 where
  invalid_token no_client : TokenError

pub data Found : Type 0 where
  found : ClientEntry → Text → Found
  failed : TokenError → Found

pub find_table_by_ws_token : StateStore → Text → Found
find_table_by_ws_token s token = elim (get s.tunnel_tokens token) [
  | none ↦ failed invalid_token
  | some key ↦ elim (get s.clients (parse_client_id_from_key key)) [
    | none ↦ failed no_client
    | some entry ↦ found entry key
  ]
]

abbrev pub entry_or : Option ClientEntry → ClientEntry → ClientEntry
entry_or none d = d
entry_or (some e) d = e

abbrev pub fresh_entry : Text → ℤ → ClientEntry
fresh_entry id now = record {
  client_id = id;
  conn = none;
  remote_addr = [];
  connected_at = now;
  host = [];
  latency = pos 0;
}

-- The entry is shared by pointer, so the write to its `Conn` is seen in the map.
unfoldable pub set_client_conn : StateStore → Text → Option ℕ → ℤ → StateStore
set_client_conn s id conn now =
    let entry = entry_or (get s.clients id) (fresh_entry id now) in
    record s { clients = put s.clients id (record entry { conn = conn }) }

-- `continue` on an entry with no client or no port
unfoldable pub valid_proxies : List ProxyDesiredState → List ProxyDesiredState
valid_proxies [] = []
valid_proxies (d ∷ ds) =
    let rest = valid_proxies ds in
    if d.client_id == [] || d.remote_port == pos 0 then rest else d ∷ rest

unfoldable pub get_desired_proxies : StateStore → List ProxyDesiredState
unfolding valid_proxies
get_desired_proxies s = valid_proxies (values s.desired_proxies)

unfoldable pub valid_relays : List RelayDesiredState → List RelayDesiredState
valid_relays [] = []
valid_relays (d ∷ ds) = let rest = valid_relays ds in if d.id == [] then rest else d ∷ rest

unfoldable pub get_desired_relays : StateStore → List RelayDesiredState
unfolding valid_relays
get_desired_relays s = valid_relays (values s.desired_relays)

pub store_tunnel_token : StateStore → Text → Text → StateStore
store_tunnel_token s token key = record s { tunnel_tokens = put s.tunnel_tokens token key }

pub remove_tunnel_token : StateStore → Text → StateStore
remove_tunnel_token s token = record s { tunnel_tokens = delete s.tunnel_tokens token }
