-- ===== src/StateStore/Index.antt =====
-- The port index of BBgrid_Server/runtime/statestore.go against the table of proxies.
use bbgrid.Prelude.{
  ◌≡◌, refl, sym, ◌∙◌, inl, inr, Bool, Option, none, some, List, Text, ℤ, arith, ◌==◌, Bool-cases,
  text_key, int_key, text_eq_iff,
}
use bbgrid.GoMap.{
  GoMap, get, put, delete, delete_if, Unique, get-put, get-delete, get-delete_if, put-Unique,
  delete-Unique, delete_if-Unique,
}
use bbgrid.Types.{ProxyState, Any, EventType, added, modified, deleted, unknown, GenericEvent}
use bbgrid.StateStore.Frame.{
  apply_client_event-SameResources, port_index-client_added, port_index-client_modified,
  apply_relay_event-SameProxies, apply_cases, replay_induction,
}
use bbgrid.StateStore.{get_proxy, get_client_id_by_port, StateStore, proxy_key, new_state_store}
use bbgrid.StateStore.Apply.{
  apply, apply_client_event, apply_proxy_event, proxy_added, remove_proxy, unindex,
  parse_proxy_from_payload, replay,
}
use bbgrid.StateStore.Keys.{proxy_key_eq, proxy_key_injective}

-- A proxy stands under its own key.
abbrev pub Keyed : GoMap Text ProxyState → Type 0
Keyed m = (k : Text) (p : ProxyState) → get m k ≡ some p → k ≡ proxy_key p.client_id p.remote_port

-- A port that the index gives to a client is a port of a proxy of that client.
abbrev pub Indexed : GoMap ℤ Text → GoMap Text ProxyState → Type 0
Indexed index proxies =
    (port : ℤ) (cid : Text)
    → get index port ≡ some cid
    → (p : ProxyState) × (get proxies (proxy_key cid port) ≡ some p)

pub record Agree (index : GoMap ℤ Text) (proxies : GoMap Text ProxyState) : Type 0 where
  pub keyed : Keyed proxies
  pub indexed : Indexed index proxies
  pub unique : Unique index

abbrev pub IsIndexed : StateStore → Type 0
IsIndexed s = Agree s.port_index s.proxies

add_proxy-Keyed :
    (m : GoMap Text ProxyState) (p : ProxyState)
    → Keyed m
    → Keyed (put m (proxy_key p.client_id p.remote_port) p)
add_proxy-Keyed m p h k q e = ground (
  arith,
  get-put m (proxy_key p.client_id p.remote_port) k p,
  text_eq_iff (proxy_key p.client_id p.remote_port) k,
  h k q,
)

put_found :
    (m : GoMap Text ProxyState) (k j : Text) (p q : ProxyState)
    → get m j ≡ some q
    → (r : ProxyState) × (get (put m k p) j ≡ some r)
put_found m k j p q e = elim (Bool-cases (k == j)) [
  | inl same ↦ (p, get-put m k j p ∙ (ground arith))
  | inr other ↦ (q, get-put m k j p ∙ (ground arith))
]

add_proxy-Indexed :
    (index : GoMap ℤ Text) (m : GoMap Text ProxyState) (p : ProxyState)
    → Indexed index m
    → Indexed (put index p.remote_port p.client_id) (put m (proxy_key p.client_id p.remote_port) p)
add_proxy-Indexed index m p h port cid e = elim (Bool-cases (p.remote_port == port)) [
  | inl same ↦ (
    p,
    get-put m (proxy_key p.client_id p.remote_port) (proxy_key cid port) p
        ∙ (ground (
          arith,
          get-put index p.remote_port port p.client_id,
          proxy_key_eq p.client_id cid p.remote_port port,
          text_eq_iff p.client_id cid,
        )),
  )
  | inr other ↦
      let (q, found) = h port cid (ground (arith, get-put index p.remote_port port p.client_id)) in
      put_found m (proxy_key p.client_id p.remote_port) (proxy_key cid port) p q found
]

delete-Keyed : (m : GoMap Text ProxyState) (k : Text) → Keyed m → Keyed (delete m k)
delete-Keyed m k h j q e = ground (arith, get-delete m k j, h j q)

-- The index entry that goes is that of the proxy that goes.
remove-Indexed :
    (index : GoMap ℤ Text) (m : GoMap Text ProxyState) (k : Text) (o : Option ProxyState)
    → get m k ≡ o
    → Keyed m
    → Indexed index m
    → Indexed (unindex index o) (delete m k)
remove-Indexed index m k none found keyed h port cid e =
    let (q, there) = h port cid e in
    (q, get-delete m k (proxy_key cid port) ∙ (ground (arith, text_eq_iff k (proxy_key cid port))))
remove-Indexed index m k (some p) found keyed h port cid e =
    let (q, there) = h port cid (ground (arith, get-delete index p.remote_port port)) in
    (
      q,
      get-delete m k (proxy_key cid port)
          ∙ (ground (
            arith,
            keyed k p,
            text_eq_iff k (proxy_key cid port),
            proxy_key_eq p.client_id cid p.remote_port port,
            get-delete index p.remote_port port,
          )),
    )

unindex-Unique :
    (index : GoMap ℤ Text) (o : Option ProxyState) → Unique index → Unique (unindex index o)
unindex-Unique index none u = u
unindex-Unique index (some p) u = delete-Unique index p.remote_port u

pub add_proxy-Agree :
    (index : GoMap ℤ Text) (m : GoMap Text ProxyState) (p : ProxyState)
    → Agree index m
    → Agree (put index p.remote_port p.client_id) (put m (proxy_key p.client_id p.remote_port) p)
add_proxy-Agree index m p v = record {
  keyed = add_proxy-Keyed m p v.keyed;
  indexed = add_proxy-Indexed index m p v.indexed;
  unique = put-Unique index p.remote_port p.client_id v.unique;
}

proxy_added-IsIndexed :
    (s : StateStore) (o : Option ProxyState) → IsIndexed s → IsIndexed (proxy_added s o)
unfolding proxy_added
proxy_added-IsIndexed s none v = v
proxy_added-IsIndexed s (some p) v = add_proxy-Agree s.port_index s.proxies p v

remove_proxy-IsIndexed : (s : StateStore) (k : Text) → IsIndexed s → IsIndexed (remove_proxy s k)
unfolding remove_proxy
remove_proxy-IsIndexed s k v = record {
  keyed = delete-Keyed s.proxies k v.keyed;
  indexed = remove-Indexed s.port_index s.proxies k (get s.proxies k) refl v.keyed v.indexed;
  unique = unindex-Unique s.port_index (get s.proxies k) v.unique;
}

apply_proxy_event-IsIndexed :
    (s : StateStore) (name : Text) (t : EventType) (payload : Any)
    → IsIndexed s
    → IsIndexed (apply_proxy_event s name t payload)
unfolding apply_proxy_event
apply_proxy_event-IsIndexed s name added payload v =
    proxy_added-IsIndexed s (parse_proxy_from_payload payload) v
apply_proxy_event-IsIndexed s name deleted payload v = remove_proxy-IsIndexed s name v
apply_proxy_event-IsIndexed s name _ payload v = v

delete_if-Indexed :
    (f : Text → Bool) (index : GoMap ℤ Text) (m : GoMap Text ProxyState)
    → Unique index
    → Indexed index m
    → Indexed (delete_if f index) m
delete_if-Indexed f index m u h port cid e =
    h port cid (ground (arith, get-delete_if f index port u))

apply_client_event-IsIndexed :
    (s : StateStore) (name : Text) (t : EventType) (payload : Any) (now : ℤ)
    → IsIndexed s
    → IsIndexed (apply_client_event s name t payload now)
unfolding apply_client_event
apply_client_event-IsIndexed s name deleted payload now v = record {
  keyed = v.keyed;
  indexed = delete_if-Indexed (λ cid. cid == name) s.port_index s.proxies v.unique v.indexed;
  unique = delete_if-Unique (λ cid. cid == name) s.port_index v.unique;
}
apply_client_event-IsIndexed s name modified payload now v =
    rw
      (
        port_index-client_modified s name payload now,
        (apply_client_event-SameResources s name modified payload now).proxies,
      )
      v
apply_client_event-IsIndexed s name added payload now v =
    rw
      (
        port_index-client_added s name payload now,
        (apply_client_event-SameResources s name added payload now).proxies,
      )
      v
apply_client_event-IsIndexed s name (unknown x) payload now v = v

-- Every event keeps the port index and the table of proxies in agreement.
pub apply-IsIndexed :
    (s : StateStore) (e : GenericEvent) (now : ℤ) → IsIndexed s → IsIndexed (apply s e now)
apply-IsIndexed s e now v =
    let same = apply_relay_event-SameProxies s e.resource.name e.event_type e.payload in
    apply_cases IsIndexed s e now
      (apply_client_event-IsIndexed s e.resource.name e.event_type e.payload now v)
      (apply_proxy_event-IsIndexed s e.resource.name e.event_type e.payload v)
      (rw (same.port_index, same.proxies) v) v

pub new_state_store-IsIndexed : (ip : Text) → IsIndexed (new_state_store ip)
unfolding get
new_state_store-IsIndexed ip = record {
  keyed = λ k p e. cc;
  indexed = λ port cid e. cc;
  unique = tt;
}

-- After any history of events, if `GetClientIDByPort` answers a client for a port, then `GetProxy`
-- finds a proxy of that client at that port, which carries this client and this port.
pub get_client_id_by_port-get_proxy :
    (ip : Text) (es : List (GenericEvent × ℤ)) (port : ℤ) (cid : Text)
    → get_client_id_by_port (replay (new_state_store ip) es) port ≡ some cid
    → (p : ProxyState) × (get_proxy (replay (new_state_store ip) es) cid port ≡ some p)
      × (p.client_id ≡ cid)
      × (p.remote_port ≡ port)
unfolding get_client_id_by_port get_proxy
get_client_id_by_port-get_proxy ip es port cid h =
    let v =
      replay_induction IsIndexed apply-IsIndexed (new_state_store ip) es
        (new_state_store-IsIndexed ip) in
    let (p, found) = v.indexed port cid h in
    let same = proxy_key_injective cid p.client_id port p.remote_port (v.keyed _ p found) in
    (p, found, sym same.0, sym same.1)
