-- ===== src/Worker/Table.antt =====
-- BBgrid_Server/workers/state.go: the table of one client. Connections, listeners and tunnels are
-- handles; an operation that closes some returns them.
use bbgrid.Prelude.{
  ℕ, Bool, false, Option, none, some, List, [], ◌∷◌, ◌++◌, Text, ℤ, text_key, int_key, nat_eq, ◌==◌,
  length, if◌then◌else◌,
}
use bbgrid.GoMap.{GoMap, get, put, delete, delete_if, values}

-- An io.Closer; `bound` is the port of its address if it is a net.Listener.
pub record Listener : Type 0 where
  pub handle : ℕ
  pub bound : Text

pub record ProxyState : Type 0 where
  pub remote_port : ℤ
  pub local_port : ℤ
  pub local_ip : Text
  pub protocol : Text
  pub bind_addr : Text
  pub listener : Option Listener

pub record ClientTable : Type 0 where
  pub client_id : Text
  pub conn : ℕ
  pub remote_addr : Text
  pub connected_at : ℤ
  pub host : Text
  pub proxies : GoMap ℤ ProxyState
  pub tunnels : GoMap Text ℕ
  pub tunnel_tokens : GoMap Text Text

abbrev pub new_client_table : Text → ℕ → ℤ → ClientTable
new_client_table id conn now = record {
  client_id = id;
  conn = conn;
  remote_addr = [];
  connected_at = now;
  host = [];
  proxies = [];
  tunnels = [];
  tunnel_tokens = [];
}

abbrev pub set_host : ClientTable → Text → ClientTable
set_host t h = record t { host = h }

unfoldable pub tunnel_host : ClientTable → Text → Text
tunnel_host t public_ip = if t.host == [] then public_ip else t.host

-- `AddProxy`, `RemoveProxy`, `GetProxy`, `GetProxyListener`, `ListProxies` and `ProxyCount`
abbrev pub table_add_proxy : ClientTable → ProxyState → ClientTable
table_add_proxy t p = record t { proxies = put t.proxies p.remote_port p }

abbrev pub table_remove_proxy : ClientTable → ℤ → ClientTable
table_remove_proxy t port = record t { proxies = delete t.proxies port }

abbrev pub table_get_proxy : ClientTable → ℤ → Option ProxyState
table_get_proxy t port = get t.proxies port

abbrev pub listener_of : Option ProxyState → Option Listener
listener_of none = none
listener_of (some p) = p.listener

abbrev pub get_proxy_listener : ClientTable → ℤ → Option Listener
get_proxy_listener t port = listener_of (get t.proxies port)

abbrev pub table_list_proxies : ClientTable → List ProxyState
table_list_proxies t = values t.proxies

abbrev pub proxy_count : ClientTable → ℕ
proxy_count t = length t.proxies

-- `StoreTunnelToken`, `RemoveTunnelTokenByKey` and `FindTableByWSToken`
abbrev pub store_token : ClientTable → Text → Text → ClientTable
store_token t token key = record t { tunnel_tokens = put t.tunnel_tokens token key }

abbrev pub remove_token : ClientTable → Text → ClientTable
remove_token t key = record t { tunnel_tokens = delete_if (λ k. k == key) t.tunnel_tokens }

abbrev pub find_token : ClientTable → Text → Option Text
find_token t token = get t.tunnel_tokens token

abbrev pub listeners : List ProxyState → List ℕ
listeners [] = []
listeners (p ∷ ps) = elim p.listener [ none ↦ listeners ps | some l ↦ l.handle ∷ listeners ps ]

-- `Cleanup`: the empty table, with what it closes
unfoldable pub clean_up : ClientTable → ClientTable × List ℕ
clean_up t =
    (record t { proxies = []; tunnels = [] }, listeners (values t.proxies) ++ values t.tunnels)

-- `PutTunnel`: the tunnel that was there is closed.
unfoldable pub put_tunnel : ClientTable → Text → ℕ → ClientTable × Option ℕ
put_tunnel t key tunnel = (record t { tunnels = put t.tunnels key tunnel }, get t.tunnels key)

abbrev pub get_tunnel : ClientTable → Text → Option ℕ
get_tunnel t key = get t.tunnels key

abbrev pub is_tunnel : ℕ → Option ℕ → Bool
is_tunnel tunnel none = false
is_tunnel tunnel (some t) = nat_eq t tunnel

-- `RemoveTunnel`: only if it is still the one under the key
unfoldable pub remove_tunnel : ClientTable → Text → ℕ → ClientTable
remove_tunnel t key tunnel =
    if is_tunnel tunnel (get t.tunnels key) then record t { tunnels = delete t.tunnels key } else t
