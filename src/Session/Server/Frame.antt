-- ===== src/Session/Server/Frame.antt =====
-- BBgrid_Server/session/server.go: what the sending of messages and the start of a loop leave alone.
use bbgrid.Prelude.{
  ◌≡◌, refl, ◌∙◌, Bool, true, false, ◌||◌, Option, none, some, List, [], ◌∷◌, Text, ℕ, ℤ, pos,
  text_key, int_key, nat_key, ◌==◌, inl, inr, Bool-cases,
}
use bbgrid.GoMap.{GoMap, get, delete}
use bbgrid.Types.{
  ProxyInfo, ProxyState, RelaySession, GenericEvent, EventType, added, modified, deleted, unknown,
}
use bbgrid.StateStore.{proxy_key, list_proxies, list_relay_sessions}
use bbgrid.StateStore.Apply.{parse_proxy_from_payload}
use bbgrid.Session.Messages.{Outgoing}
use bbgrid.Session.Protocol.{Session}
use bbgrid.Session.Server.{
  Server, Outcomes, write_to, send_found, send_to_client, tell, is_party, sync_relays, tell_all,
  sync_client_proxies, sync_client_relays, sync_client, signals_or, is_active, start_tunnel_loop,
  state_of, sync_proxies, proxy_added, proxy_deleted, proxy_event,
}

-- The sessions and the goroutines that track them are the same.
pub record SameTable (s t : Server) : Type 0 where
  pub sessions : t.sessions ≡ s.sessions
  pub phases : t.phases ≡ s.phases
  pub next_conn : t.next_conn ≡ s.next_conn

pub SameTable-refl : (s : Server) → SameTable s s
SameTable-refl s = record { sessions = refl; phases = refl; next_conn = refl }

SameTable-trans : (s t u : Server) → SameTable s t → SameTable t u → SameTable s u
SameTable-trans s t u p q = record {
  sessions = q.sessions ∙ p.sessions;
  phases = q.phases ∙ p.phases;
  next_conn = q.next_conn ∙ p.next_conn;
}

-- What writes to queues and starts of loops keep, from a server to a later one.
pub record Keeps (R : Server → Server → Type 0) : Type 0 where
  pub same : (s : Server) → R s s
  pub trans : (s t u : Server) → R s t → R t u → R s u
  pub queue :
      (s : Server) (conn : ℕ) (m : Outgoing) (taken : Bool) (x : Option Session)
      → get s.live conn ≡ x
      → R s (write_to s conn m taken x)
  pub delivered :
      (s : Server) (m : GoMap Text (List Outgoing)) → R s (record s { pending_relay_signal = m })
  pub start : (s : Server) (p : ProxyState) (b : Bool) → R s (start_tunnel_loop s p b)

-- All that a goroutine of the server sends keeps it too.
module _ (R : Server → Server → Type 0) (k : Keeps R) where
  tell_found :
      (s : Server) (m : Outgoing) (taken : Bool) (o : Option ℕ) → R s (send_found s m taken o).0
  unfolding send_found
  tell_found s m taken none = k.same s
  tell_found s m taken (some conn) = k.queue s conn m taken (get s.live conn) refl

  tell_keeps : (s : Server) (id : Text) (m : Outgoing) (taken : Bool) → R s (tell s id m taken)
  unfolding send_to_client
  tell_keeps s id m taken = tell_found s m taken _

  sync_relays_keeps :
      (rs : List RelaySession) (s : Server) (id : Text) (taken : RelaySession → Bool)
      → R s (sync_relays s id taken rs)
  unfolding sync_relays
  sync_relays_keeps [] s id taken = k.same s
  sync_relays_keeps (r ∷ rs) s id taken = elim (Bool-cases (is_party r id)) [
    | inl e ↦ rw e (k.trans _ _ _ (tell_keeps s id _ _) (sync_relays_keeps rs _ id taken))
    | inr e ↦ rw e (sync_relays_keeps rs s id taken)
  ]

  tell_all_keeps :
      (ms : List Outgoing) (s : Server) (id : Text) (taken : Outgoing → Bool)
      → R s (tell_all s id ms taken)
  unfolding tell_all
  tell_all_keeps [] s id taken = k.same s
  tell_all_keeps (m ∷ ms) s id taken =
      k.trans _ _ _ (tell_keeps s id m _) (tell_all_keeps ms _ id taken)

  sync_proxies_keeps :
      (ps : List ProxyInfo) (s : Server) (id : Text) (o : Outcomes) → R s (sync_proxies s id o ps)
  unfolding sync_proxies
  sync_proxies_keeps [] s id o = k.same s
  sync_proxies_keeps (p ∷ ps) s id o = elim (Bool-cases (p.client_id == id)) [
    | inl e ↦ rw e (
        k.trans _ _ _ (tell_keeps s id _ _)
          (k.trans _ _ _ (k.start _ (state_of p) _) (sync_proxies_keeps ps _ id o)))
    | inr e ↦ rw e (sync_proxies_keeps ps s id o)
  ]

  -- What is sent to a client that is stored.
  pub sync_client_keeps : (s : Server) (id : Text) (o : Outcomes) → R s (sync_client s id o)
  unfolding sync_client
  sync_client_keeps s id o =
      let proxies = sync_client_proxies s id o in
      let relays = sync_client_relays proxies id o.relay_taken in
      let signals = delete relays.pending_relay_signal id in
      k.trans s proxies _ (sync_proxies_keeps (list_proxies s.hub.store) s id o) (
        k.trans proxies relays _
          (sync_relays_keeps (list_relay_sessions proxies.hub.store) proxies id o.relay_taken)
          (k.trans relays (record relays { pending_relay_signal = signals }) _
            (k.delivered relays signals)
            (tell_all_keeps (signals_or (get relays.pending_relay_signal id)) _ id o.signal_taken)))

  proxy_added_keeps :
      (s : Server) (restoring : Bool) (o : Outcomes) (p : Option ProxyState)
      → R s (proxy_added s restoring o p)
  unfolding proxy_added
  proxy_added_keeps s restoring o none = k.same s
  proxy_added_keeps s restoring o (some p) =
      elim (Bool-cases (p.client_id == [] || p.remote_port == pos 0)) [
        | inl e ↦ rw e (k.same s)
        | inr e ↦ rw e (elim (Bool-cases restoring) [
          | inl f ↦ rw f (k.start s p _)
          | inr f ↦ rw f (k.trans _ _ _ (tell_keeps s p.client_id _ _) (k.start _ p _))
        ])
      ]

  proxy_deleted_keeps :
      (s : Server) (taken : Text → Bool) (f : Option (Text × ℤ)) → R s (proxy_deleted s taken f)
  unfolding proxy_deleted
  proxy_deleted_keeps s taken none = k.same s
  proxy_deleted_keeps s taken (some (id, port)) = tell_keeps s id _ _

  pub proxy_event_keeps :
      (s : Server) (e : GenericEvent) (t : EventType) (restoring : Bool) (o : Outcomes)
      (taken : Text → Bool)
      → R s (proxy_event s e t restoring o taken)
  unfolding proxy_event
  proxy_event_keeps s e added restoring o taken =
      proxy_added_keeps s restoring o (parse_proxy_from_payload e.payload)
  proxy_event_keeps s e deleted restoring o taken = proxy_deleted_keeps s taken _
  proxy_event_keeps s e modified restoring o taken = k.same s
  proxy_event_keeps s e (unknown t) restoring o taken = k.same s

queue-SameTable :
    (s : Server) (conn : ℕ) (m : Outgoing) (taken : Bool) (x : Option Session)
    → get s.live conn ≡ x
    → SameTable s (write_to s conn m taken x)
queue-SameTable s conn m taken none e = SameTable-refl s
queue-SameTable s conn m taken (some x) e = record {
  sessions = refl;
  phases = refl;
  next_conn = refl;
}

start-SameTable : (s : Server) (p : ProxyState) (b : Bool) → SameTable s (start_tunnel_loop s p b)
unfolding start_tunnel_loop
start-SameTable s p true =
    elim (Bool-cases (is_active (get s.active_loops (proxy_key p.client_id p.remote_port)))) [
      | inl e ↦ rw e (SameTable-refl s)
      | inr e ↦ rw e (record { sessions = refl; phases = refl; next_conn = refl })
    ]
start-SameTable s p false =
    elim (Bool-cases (is_active (get s.active_loops (proxy_key p.client_id p.remote_port)))) [
      | inl e ↦ rw e (SameTable-refl s)
      | inr e ↦ rw e (record { sessions = refl; phases = refl; next_conn = refl })
    ]

pub table_keeps : Keeps SameTable
table_keeps = record {
  same = SameTable-refl;
  trans = SameTable-trans;
  queue = queue-SameTable;
  delivered = λ s m. record { sessions = refl; phases = refl; next_conn = refl };
  start = start-SameTable;
}
