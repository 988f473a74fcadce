-- ===== src/Worker/State.antt =====
-- BBgrid_Server/workers/state.go: StateWorker. What an operation hands to the dispatcher, to the storage
-- and to the connections is returned in the order of the calls; an event is shown without the fresh
-- identifier and the time that it is given.
use bbgrid.Prelude.{
  ℕ, Bool, true, Option, none, some, List, [], ◌∷◌, ◌++◌, map, Text, ℤ, text_key, int_key, ◌==◌,
  if◌then◌else◌,
}
use bbgrid.GoText.{codes, format_int}
use bbgrid.GoMap.{GoMap, get, put, delete, delete_if, values}
use bbgrid.Types.{
  ResourceKey, EventType, added, deleted, ProxyInfo, ProxyDesiredState, ClientInfo, RelaySession,
  RelayDesiredState,
}
use bbgrid.StateStore.{proxy_key}
use bbgrid.Worker.Table.{
  Listener, ProxyState, ClientTable, new_client_table, table_add_proxy, table_remove_proxy,
  table_get_proxy, table_list_proxies, proxy_count, store_token, remove_token, find_token, clean_up,
}

pub data Payload : Type 0 where
  -- the map with the remote address and the host
  client_fields : Text → Text → Payload
  proxy_payload : ProxyState → Payload
  relay_payload : RelaySession → Payload
  nothing : Payload

pub record Event : Type 0 where
  pub resource : ResourceKey
  pub event_type : EventType
  pub payload : Payload

pub data Effect : Type 0 where
  dispatched : Event → Effect
  -- `AppendEventAndSave` with the payload as the resource, and `DeleteResource`
  saved : Event → Effect
  removed : ResourceKey → Effect
  closed : ℕ → Effect

pub record StateWorker : Type 0 where
  pub public_ip : Text
  pub clients : GoMap Text ClientTable
  pub port_index : GoMap ℤ Text
  pub relay_sessions : GoMap Text RelaySession
  pub desired_relays : GoMap Text RelayDesiredState
  pub desired_proxies : GoMap Text ProxyDesiredState
  -- whether there is a storage
  pub storage : Bool

abbrev pub new_state_worker : Text → Bool → StateWorker
new_state_worker public_ip storage = record {
  public_ip = public_ip;
  clients = [];
  port_index = [];
  relay_sessions = [];
  desired_relays = [];
  desired_proxies = [];
  storage = storage;
}

abbrev pub resource : Text → Text → ResourceKey
resource type name = record { type = type; namespace = codes "default"; name = name }

abbrev pub if_stored : StateWorker → Effect → List Effect
if_stored w e = if w.storage then e ∷ [] else []

unfoldable pub add_client : StateWorker → Text → ℕ → Text → Text → ℤ → StateWorker × List Effect
add_client w id conn remote_addr host now = (
  record w {
    clients =
        put w.clients id (record (new_client_table id conn now) { remote_addr = remote_addr });
  },
  dispatched (record {
    resource = resource (codes "client") id;
    event_type = added;
    payload = client_fields remote_addr host;
  })
      ∷ [],
)

unfoldable pub remove_found : StateWorker → Text → Option ClientTable → StateWorker × List Effect
unfolding clean_up
remove_found w id none = (w, [])
remove_found w id (some t) = (
  record w {
    clients = delete w.clients id;
    port_index = delete_if (λ cid. cid == id) w.port_index;
  },
  map closed (clean_up t).1
      ++ dispatched (record {
        resource = resource (codes "client") id;
        event_type = deleted;
        payload = nothing;
      })
        ∷ [],
)

unfoldable pub remove_client : StateWorker → Text → StateWorker × List Effect
unfolding remove_found
remove_client w id = remove_found w id (get w.clients id)

abbrev pub get_client : StateWorker → Text → Option ClientTable
get_client w id = get w.clients id

abbrev pub info_of : ClientTable → ClientInfo
info_of t = record {
  id = t.client_id;
  remote_addr = t.remote_addr;
  connected_at = t.connected_at;
  proxy_count = proxy_count t;
  host = t.host;
  online = true;
}

abbrev pub list_clients : StateWorker → List ClientInfo
list_clients w = map info_of (values w.clients)

-- The connection that `SendCommand` writes to.
abbrev pub conn_of : Option ClientTable → Option ℕ
conn_of none = none
conn_of (some t) = some t.conn

abbrev pub send_command : StateWorker → Text → Option ℕ
send_command w id = conn_of (get w.clients id)

abbrev pub desired_of : Text → ProxyState → ProxyDesiredState
desired_of id p = record {
  client_id = id;
  remote_port = p.remote_port;
  local_port = p.local_port;
  local_ip = p.local_ip;
  protocol = p.protocol;
  bind_addr = p.bind_addr;
}

-- `AddProxy` and `RemoveProxy` change the table of the client under its lock, and then the desired state
-- under another.
abbrev pub add_to_table : StateWorker → Text → ProxyState → ClientTable → StateWorker
add_to_table w id p t = record w { clients = put w.clients id (table_add_proxy t p) }

abbrev pub add_desired : StateWorker → Text → ProxyState → StateWorker
add_desired w id p = record w {
  desired_proxies = put w.desired_proxies (proxy_key id p.remote_port) (desired_of id p);
}

abbrev pub drop_from_table : StateWorker → Text → ℤ → ClientTable → StateWorker
drop_from_table w id port t = record w { clients = put w.clients id (table_remove_proxy t port) }

abbrev pub drop_desired : StateWorker → Text → ℤ → StateWorker
drop_desired w id port = record w { desired_proxies = delete w.desired_proxies (proxy_key id port) }

unfoldable pub add_found :
    StateWorker → Text → ProxyState → Option ClientTable → StateWorker × List Effect
add_found w id p none = (w, [])
add_found w id p (some t) =
    let key = proxy_key id p.remote_port in
    let event : Event = record {
      resource = resource (codes "proxy") key;
      event_type = added;
      payload = proxy_payload p;
    } in
    (add_desired (add_to_table w id p t) id p, dispatched event ∷ if_stored w (saved event))

-- `AddProxy`, where no other call comes between its halves; of a client that is not online it does
-- nothing.
unfoldable pub add_proxy : StateWorker → Text → ProxyState → StateWorker × List Effect
unfolding add_found
add_proxy w id p = add_found w id p (get w.clients id)

unfoldable pub drop_found : StateWorker → Text → ℤ → Option ClientTable → StateWorker × List Effect
drop_found w id port none = (w, [])
drop_found w id port (some t) =
    let key = proxy_key id port in
    let event : Event = record {
      resource = resource (codes "proxy") key;
      event_type = deleted;
      payload = nothing;
    } in
    (
      drop_desired (drop_from_table w id port t) id port,
      dispatched event ∷ if_stored w (removed event.resource),
    )

-- `RemoveProxy`, in the same way
unfoldable pub remove_proxy : StateWorker → Text → ℤ → StateWorker × List Effect
unfolding drop_found
remove_proxy w id port = drop_found w id port (get w.clients id)

abbrev pub proxy_of : Option ClientTable → ℤ → Option ProxyState
proxy_of none port = none
proxy_of (some t) port = table_get_proxy t port

abbrev pub get_proxy : StateWorker → Text → ℤ → Option ProxyState
get_proxy w id port = proxy_of (get w.clients id) port

-- The port to show: the listener's if there is one that has a port.
abbrev pub bound_text : Option Listener → Text
bound_text none = []
bound_text (some l) = l.bound

unfoldable pub port_text : ProxyState → Text
port_text p =
    if bound_text p.listener == [] then format_int p.remote_port else bound_text p.listener

abbrev pub proxy_info : Text → Text → ProxyState → ProxyInfo
proxy_info public_ip id p = record {
  client_id = id;
  remote_port = p.remote_port;
  local_port = p.local_port;
  local_ip = p.local_ip;
  protocol = p.protocol;
  bind_addr = p.bind_addr;
  public_addr = public_ip ++ codes ":" ++ port_text p;
}

abbrev pub all_proxies : Text → List ClientTable → List ProxyInfo
all_proxies public_ip [] = []
all_proxies public_ip (t ∷ ts) =
    map (proxy_info public_ip t.client_id) (table_list_proxies t) ++ all_proxies public_ip ts

abbrev pub list_proxies : StateWorker → List ProxyInfo
list_proxies w = all_proxies w.public_ip (values w.clients)

abbrev pub register_port : StateWorker → Text → ℤ → StateWorker
register_port w id port = record w { port_index = put w.port_index port id }

abbrev pub unregister_port : StateWorker → ℤ → StateWorker
unregister_port w port = record w { port_index = delete w.port_index port }

abbrev pub get_client_id_by_port : StateWorker → ℤ → Option Text
get_client_id_by_port w port = get w.port_index port

-- What `Range` does with each table.
unfoldable pub each_table :
    (ClientTable → ClientTable) → GoMap Text ClientTable → GoMap Text ClientTable
each_table f [] = []
each_table f ((id, t) ∷ m) = (id, f t) ∷ each_table f m

-- `StoreTunnelToken`: every client is given the token.
unfoldable pub store_tunnel_token : StateWorker → Text → Text → StateWorker
unfolding each_table
store_tunnel_token w token key = record w {
  clients = each_table (λ t. store_token t token key) w.clients;
}

unfoldable pub remove_tunnel_token_by_key : StateWorker → Text → StateWorker
unfolding each_table
remove_tunnel_token_by_key w key = record w {
  clients = each_table (λ t. remove_token t key) w.clients;
}

-- The table and the key of the first client in the range that has the token.
unfoldable pub find_in : GoMap Text ClientTable → Text → Option (ClientTable × Text)
find_in [] token = none
find_in ((id, t) ∷ m) token = elim (find_token t token) [
  | none ↦ find_in m token
  | some key ↦ some (t, key)
]

unfoldable pub find_table_by_ws_token : StateWorker → Text → Option (ClientTable × Text)
unfolding find_in
find_table_by_ws_token w token = find_in w.clients token
