-- ===== src/Session/Server.antt =====
-- BBgrid_Server/session/server.go: the table of the sessions, and what it sends to the clients. Every
-- goroutine of trackSession has a phase; the goroutines take their steps in any order.
pub mod Frame
use bbgrid.Session.ProxyKey.{
  proxy_client_key, cut_colon, with_port, parse_cut, parse_proxy_resource_key,
}
use bbgrid.Prelude.{
  ℕ, suc, ◌+◌, ◌++◌, Bool, true, false, ◌&&◌, ◌||◌, not, Option, none, some, List, [], ◌∷◌, Text, ℤ,
  pos, text_key, nat_key, int_key, ◌==◌, if◌then◌else◌, nat_eq,
}
use bbgrid.GoMap.{GoMap, get, put, delete}
use bbgrid.GoText.{codes}
use bbgrid.GoText.Atoi.{atoi}
use bbgrid.Types.{
  ProxyInfo, ProxyState, RelaySession, Any, GenericEvent, EventType, added, modified, deleted,
  unknown,
}
use bbgrid.StateStore.{
  StateStore, list_proxies, list_relay_sessions, proxy_key, tunnel_key, get_relay_session,
}
use bbgrid.StateStore.Apply.{parse_proxy_from_payload}
use bbgrid.Session.Messages.{
  ProxyCommand, RelaySignal, Outgoing, proxy_command, relay_signal, proxy_closed, WsMessage, Call,
}
use bbgrid.Session.Protocol.{Session, Hub, new_session, write_json, handle_message, close}

-- Where the goroutine of trackSession is: before its select, waiting for the end of a session that it has
-- stored under an id or of one without an id, or over.
pub data Phase : Type 0 where
  waiting : Phase
  tracking : Option Text → Phase
  over : Phase

pub record Server : Type 0 where
  pub hub : Hub
  pub tunnel_port : ℤ
  -- the sessions by their connections, with their goroutines
  pub live : GoMap ℕ Session
  pub phases : GoMap ℕ Phase
  -- `sessions`
  pub sessions : GoMap Text ℕ
  pub pending_relay_signal : GoMap Text (List Outgoing)
  -- `activeLoops`, and the loops that run
  pub active_loops : GoMap Text Bool
  pub running : List Text
  -- the next connection
  pub next_conn : ℕ

abbrev pub new_server : Hub → ℤ → Server
new_server hub tunnel_port = record {
  hub = hub;
  tunnel_port = tunnel_port;
  live = [];
  phases = [];
  sessions = [];
  pending_relay_signal = [];
  active_loops = [];
  running = [];
  next_conn = 0;
}

abbrev pub write_to : Server → ℕ → Outgoing → Bool → Option Session → Server
write_to s conn m taken none = s
write_to s conn m taken (some x) = record s { live = put s.live conn (write_json x m taken) }

pub data SendResult : Type 0 where
  client_not_found send_timeout sent : SendResult

unfoldable pub send_found : Server → Outgoing → Bool → Option ℕ → Server × SendResult
send_found s m taken none = (s, client_not_found)
send_found s m taken (some conn) =
    (write_to s conn m taken (get s.live conn), if taken then sent else send_timeout)

-- `SendToClient`; `taken` says whether the queue of the session takes the message in three seconds.
unfoldable pub send_to_client : Server → Text → Outgoing → Bool → Server × SendResult
unfolding send_found
send_to_client s id m taken = send_found s m taken (get s.sessions id)

-- The result is logged only.
abbrev pub tell : Server → Text → Outgoing → Bool → Server
tell s id m taken = (send_to_client s id m taken).0

abbrev pub signal_role : RelaySession → Text → Text
signal_role r id = if r.target_client == id then codes "target" else codes "source"

abbrev pub signal_peer : RelaySession → Text → Text
signal_peer r id = if r.target_client == id then r.source_client else r.target_client

abbrev pub signal_of : RelaySession → Text → Text → Outgoing
signal_of r id ip = relay_signal (record {
  session_id = r.id;
  protocol = r.protocol;
  role = signal_role r id;
  peer_client_id = signal_peer r id;
  source_port = r.source_port;
  target_port = r.target_port;
  target_local_ip = r.target_local_ip;
  source_local_ip = r.source_local_ip;
  server_host = ip;
  token = r.token;
})

abbrev pub is_party : RelaySession → Text → Bool
is_party r id = r.source_client == id || r.target_client == id

-- The loop of `syncClientRelays`; `taken` is by the relay.
unfoldable pub sync_relays : Server → Text → (RelaySession → Bool) → List RelaySession → Server
unfolding send_to_client
sync_relays s id taken [] = s
sync_relays s id taken (r ∷ rs) =
    let next =
      (if is_party r id then tell s id (signal_of r id s.hub.store.public_ip) (taken r) else s) in
    sync_relays next id taken rs

-- `syncClientRelays`
abbrev pub sync_client_relays : Server → Text → (RelaySession → Bool) → Server
sync_client_relays s id taken = sync_relays s id taken (list_relay_sessions s.hub.store)

unfoldable pub tell_all : Server → Text → List Outgoing → (Outgoing → Bool) → Server
unfolding send_to_client
tell_all s id [] taken = s
tell_all s id (m ∷ ms) taken = tell_all (tell s id m (taken m)) id ms taken

abbrev pub signals_or : Option (List Outgoing) → List Outgoing
signals_or none = []
signals_or (some ms) = ms

-- `deliverPendingRelaySignals`
abbrev pub deliver_pending_relay_signals : Server → Text → (Outgoing → Bool) → Server
deliver_pending_relay_signals s id taken =
    tell_all (record s { pending_relay_signal = delete s.pending_relay_signal id }) id
      (signals_or (get s.pending_relay_signal id)) taken

abbrev pub command_of : Server → ProxyState → Outgoing
command_of s p = proxy_command (record {
  remote_port = p.remote_port;
  local_port = p.local_port;
  local_ip = p.local_ip;
  protocol = p.protocol;
  bind_addr = p.bind_addr;
  server_host = s.hub.store.public_ip;
  tunnel_port = s.tunnel_port;
})

abbrev pub is_active : Option Bool → Bool
is_active none = false
is_active (some b) = b

-- `startTunnelLoop`; `has_listener` says whether the provider is registered and has the listener.
unfoldable pub start_tunnel_loop : Server → ProxyState → Bool → Server
start_tunnel_loop s p has_listener =
    let key = proxy_key p.client_id p.remote_port in
    let marked = record s { active_loops = put s.active_loops key true } in
    if is_active (get s.active_loops key)
    then s
    else if has_listener
    then record marked { running = key ∷ s.running }
    else marked

abbrev pub state_of : ProxyInfo → ProxyState
state_of p = record {
  client_id = p.client_id;
  remote_port = p.remote_port;
  local_port = p.local_port;
  local_ip = p.local_ip;
  protocol = p.protocol;
  bind_addr = p.bind_addr;
}

-- What the calls of the queue and of the provider return.
pub record Outcomes : Type 0 where
  pub taken : ProxyState → Bool
  pub has_listener : ProxyState → Bool
  pub relay_taken : RelaySession → Bool
  pub signal_taken : Outgoing → Bool

-- The loop of `syncClientProxies`.
unfoldable pub sync_proxies : Server → Text → Outcomes → List ProxyInfo → Server
unfolding send_to_client start_tunnel_loop
sync_proxies s id o [] = s
sync_proxies s id o (p ∷ ps) =
    let q = state_of p in
    let next =
      (if p.client_id == id
        then start_tunnel_loop (tell s id (command_of s q) (o.taken q)) q (o.has_listener q)
        else s) in
    sync_proxies next id o ps

-- `syncClientProxies`
abbrev pub sync_client_proxies : Server → Text → Outcomes → Server
sync_client_proxies s id o = sync_proxies s id o (list_proxies s.hub.store)

-- What trackSession sends to a client that it has stored.
unfoldable pub sync_client : Server → Text → Outcomes → Server
unfolding sync_proxies sync_relays tell_all
sync_client s id o =
    let proxies = sync_client_proxies s id o in
    let relays = sync_client_relays proxies id o.relay_taken in
    deliver_pending_relay_signals relays id o.signal_taken

-- `notifyProxyClient`
abbrev pub notify_proxy_client : Server → ProxyState → Outcomes → Server
notify_proxy_client s p o = tell s p.client_id (command_of s p) (o.taken p)

unfoldable pub proxy_added : Server → Bool → Outcomes → Option ProxyState → Server
unfolding send_to_client start_tunnel_loop
proxy_added s restoring o none = s
proxy_added s restoring o (some p) =
    if p.client_id == [] || p.remote_port == pos 0
    then s
    else start_tunnel_loop (if restoring then s else notify_proxy_client s p o) p (o.has_listener p)

-- `handleProxyAdded`; `restoring` is the flag of Core.
abbrev pub handle_proxy_added : Server → GenericEvent → Bool → Outcomes → Server
handle_proxy_added s e restoring o = proxy_added s restoring o (parse_proxy_from_payload e.payload)

unfoldable pub proxy_deleted : Server → (Text → Bool) → Option (Text × ℤ) → Server
unfolding send_to_client
proxy_deleted s taken none = s
proxy_deleted s taken (some (id, port)) =
    tell s id (proxy_closed (proxy_client_key id port)) (taken id)

-- `handleProxyDeleted`
abbrev pub handle_proxy_deleted : Server → GenericEvent → (Text → Bool) → Server
handle_proxy_deleted s e taken = proxy_deleted s taken (parse_proxy_resource_key e.resource.name)

unfoldable pub proxy_event :
    Server → GenericEvent → EventType → Bool → Outcomes → (Text → Bool) → Server
unfolding proxy_added proxy_deleted
proxy_event s e added restoring o taken = handle_proxy_added s e restoring o
proxy_event s e deleted restoring o taken = handle_proxy_deleted s e taken
proxy_event s e _ restoring o taken = s

-- `handleProxyEvent`
abbrev pub handle_proxy_event : Server → GenericEvent → Bool → Outcomes → (Text → Bool) → Server
handle_proxy_event s e restoring o taken = proxy_event s e e.event_type restoring o taken
