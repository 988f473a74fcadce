-- ===== src/StateStore/Spec.antt =====
-- What BBgrid_Server/runtime/statestore.go promises: the store as three tables without
-- representation, and the effect of an event on them.
use bbgrid.Prelude.{
  ◌≡◌, refl, ap, ◌∙◌, Bool, true, false, ◌&&◌, Option, none, some, List, [], ◌∷◌, Text, ℤ, arith,
  ◌==◌, text_key, int_key, text_eq_iff, if◌then◌else◌, is_some, fun_ext, Bool-cases, inl, inr,
}
use bbgrid.GoText.{codes}
use bbgrid.GoMap.{GoMap, get, put, get-put, get-delete}
use bbgrid.Types.{
  ProxyState, RelaySession, Any, EventType, added, modified, deleted, unknown, GenericEvent,
  relay_session, object,
}
use bbgrid.StateStore.{StateStore, ClientEntry, proxy_key, get_proxy, get_client, get_relay_session}
use bbgrid.StateStore.Apply.{
  apply, modify_found, apply_client_event, apply_proxy_event, apply_relay_event, proxy_added,
  add_relay, parse_proxy_from_payload, replay,
}
use bbgrid.StateStore.Frame.{
  apply_client_event-SameResources, apply_relay_event-SameProxies, apply_proxy_event-SameRelays,
}
use bbgrid.StateStore.Keys.{proxy_key_eq}

pub record View : Type 0 where
  pub online : Text → Bool
  pub proxy : Text → ℤ → Option ProxyState
  pub relay : Text → Option RelaySession

abbrev pub view : StateStore → View
view s = record {
  online = λ id. is_some (get_client s id);
  proxy = get_proxy s;
  relay = get_relay_session s;
}

-- A client goes online by an ADDED event that carries a map, and offline by a DELETED event.
abbrev spec_client : EventType → Any → Text → (Text → Bool) → Text → Bool
spec_client added (object fs) name f id = if name == id then true else f id
spec_client deleted payload name f id = if name == id then false else f id
spec_client _ payload name f id = f id

abbrev set_proxy : Option ProxyState → (Text → ℤ → Option ProxyState) → Text → ℤ → Option ProxyState
set_proxy none f c port = f c port
set_proxy (some p) f c port = if p.client_id == c && p.remote_port == port then some p else f c port

abbrev spec_proxy :
    EventType → Any → Text → (Text → ℤ → Option ProxyState) → Text → ℤ → Option ProxyState
spec_proxy added payload name f = set_proxy (parse_proxy_from_payload payload) f
spec_proxy deleted payload name f = λ c port. if name == proxy_key c port then none else f c port
spec_proxy _ payload name f = f

abbrev spec_relay :
    EventType → Any → Text → (Text → Option RelaySession) → Text → Option RelaySession
spec_relay added (relay_session r) name f id = if r.id == id then some r else f id
spec_relay deleted payload name f id = if name == id then none else f id
spec_relay _ payload name f id = f id

-- An event touches the table of its own type and no other.
abbrev pub spec_apply : View → GenericEvent → View
spec_apply v e =
    if e.resource.type == codes "client"
    then record v { online = spec_client e.event_type e.payload e.resource.name v.online }
    else if e.resource.type == codes "proxy"
    then record v { proxy = spec_proxy e.event_type e.payload e.resource.name v.proxy }
    else if e.resource.type == codes "relay"
    then record v { relay = spec_relay e.event_type e.payload e.resource.name v.relay }
    else v

abbrev pub spec_replay : View → List (GenericEvent × ℤ) → View
spec_replay v [] = v
spec_replay v ((e, now) ∷ es) = spec_replay (spec_apply v e) es

is_some-put :
    (m : GoMap Text ClientEntry) (k j : Text) (v : ClientEntry)
    → is_some (get (put m k v) j) ≡ (if k == j then true else is_some (get m j))
is_some-put m k j v = ground (arith, get-put m k j v)

online_modify_found :
    (s : StateStore) (name : Text) (payload : Any) (o : Option ClientEntry) (id : Text)
    → get s.clients name ≡ o
    → is_some (get_client (modify_found s name payload o) id) ≡ is_some (get_client s id)
unfolding get_client modify_found
online_modify_found s name payload none id h = refl
online_modify_found s name payload (some e) id h =
    is_some-put s.clients name id _ ∙ (ground (arith, text_eq_iff name id))

online_added :
    (s : StateStore) (name : Text) (payload : Any) (now : ℤ) (id : Text)
    → is_some (get_client (apply_client_event s name added payload now) id)
      ≡ spec_client added payload name (view s).online id
unfolding get_client apply_client_event
online_added s name (object fs) now id = is_some-put s.clients name id _
online_added s name _ now id = refl

online_lem :
    (s : StateStore) (name : Text) (t : EventType) (payload : Any) (now : ℤ) (id : Text)
    → is_some (get_client (apply_client_event s name t payload now) id)
      ≡ spec_client t payload name (view s).online id
unfolding get_client apply_client_event
online_lem s name added payload now id =
    unfold get_client apply_client_event in online_added s name payload now id
online_lem s name modified payload now id =
    online_modify_found s name payload (get s.clients name) id refl
online_lem s name deleted payload now id = ground (arith, get-delete s.clients name id)
online_lem s name (unknown t) payload now id = refl

proxy_added_lem :
    (s : StateStore) (o : Option ProxyState) (c : Text) (port : ℤ)
    → get_proxy (proxy_added s o) c port ≡ set_proxy o (get_proxy s) c port
unfolding get_proxy proxy_added
proxy_added_lem s none c port = refl
proxy_added_lem s (some p) c port = ground (
  arith,
  get-put s.proxies (proxy_key p.client_id p.remote_port) (proxy_key c port) p,
  proxy_key_eq p.client_id c p.remote_port port,
)

proxy_lem :
    (s : StateStore) (name : Text) (t : EventType) (payload : Any) (c : Text) (port : ℤ)
    → get_proxy (apply_proxy_event s name t payload) c port
      ≡ spec_proxy t payload name (get_proxy s) c port
unfolding apply_proxy_event get_proxy
proxy_lem s name added payload c port =
    unfold get_proxy in proxy_added_lem s (parse_proxy_from_payload payload) c port
proxy_lem s name deleted payload c port = get-delete s.proxies name (proxy_key c port)
proxy_lem s name _ payload c port = refl

add_relay_lem :
    (s : StateStore) (name : Text) (payload : Any) (id : Text)
    → get_relay_session (add_relay s payload) id
      ≡ spec_relay added payload name (get_relay_session s) id
unfolding add_relay get_relay_session
add_relay_lem s name (relay_session r) id = get-put s.relays r.id id r
add_relay_lem s name _ id = refl

relay_lem :
    (s : StateStore) (name : Text) (t : EventType) (payload : Any) (id : Text)
    → get_relay_session (apply_relay_event s name t payload) id
      ≡ spec_relay t payload name (get_relay_session s) id
unfolding apply_relay_event get_relay_session
relay_lem s name added payload id = add_relay_lem s name payload id
relay_lem s name deleted payload id = get-delete s.relays name id
relay_lem s name _ payload id = refl

View_eq : {v w : View} → v.online ≡ w.online → v.proxy ≡ w.proxy → v.relay ≡ w.relay → v ≡ w
View_eq p q r = λ i. record { online = p i; proxy = q i; relay = r i }

view-client :
    (s : StateStore) (name : Text) (t : EventType) (payload : Any) (now : ℤ)
    → view (apply_client_event s name t payload now)
      ≡ record (view s) { online = spec_client t payload name (view s).online }
unfolding get_proxy get_relay_session
view-client s name t payload now =
    let same = apply_client_event-SameResources s name t payload now in
    View_eq (fun_ext (online_lem s name t payload now))
      (fun_ext λ c. fun_ext λ port. ap (λ m. get m (proxy_key c port)) same.proxies)
      (fun_ext λ id. ap (λ m. get m id) same.relays)

view-proxy :
    (s : StateStore) (name : Text) (t : EventType) (payload : Any)
    → view (apply_proxy_event s name t payload)
      ≡ record (view s) { proxy = spec_proxy t payload name (view s).proxy }
unfolding get_client get_relay_session
view-proxy s name t payload =
    let same = apply_proxy_event-SameRelays s name t payload in
    View_eq (fun_ext λ id. ap (λ m. is_some (get m id)) same.clients)
      (fun_ext λ c. fun_ext (proxy_lem s name t payload c))
      (fun_ext λ id. ap (λ m. get m id) same.relays)

view-relay :
    (s : StateStore) (name : Text) (t : EventType) (payload : Any)
    → view (apply_relay_event s name t payload)
      ≡ record (view s) { relay = spec_relay t payload name (view s).relay }
unfolding get_client get_proxy
view-relay s name t payload =
    let same = apply_relay_event-SameProxies s name t payload in
    View_eq (fun_ext λ id. ap (λ m. is_some (get m id)) same.clients)
      (fun_ext λ c. fun_ext λ port. ap (λ m. get m (proxy_key c port)) same.proxies)
      (fun_ext (relay_lem s name t payload))

view-apply :
    (s : StateStore) (e : GenericEvent) (now : ℤ) → view (apply s e now) ≡ spec_apply (view s) e
unfolding apply
view-apply s e now =
    let name = e.resource.name in
    elim (Bool-cases (e.resource.type == codes "client")) [
      | inl c ↦ rw c (view-client s name e.event_type e.payload now)
      | inr c ↦ elim (Bool-cases (e.resource.type == codes "proxy")) [
        | inl d ↦ rw (c, d) (view-proxy s name e.event_type e.payload)
        | inr d ↦ elim (Bool-cases (e.resource.type == codes "relay")) [
          | inl r ↦ rw (c, d, r) (view-relay s name e.event_type e.payload)
          | inr r ↦ rw (c, d, r) refl
        ]
      ]
    ]

-- The store refines its specification: after any sequence of events, from any state, what it answers
-- on clients, proxies and relays is what the specification says of that sequence.
pub view-replay :
    (s : StateStore) (es : List (GenericEvent × ℤ)) → view (replay s es) ≡ spec_replay (view s) es
unfolding replay
view-replay s [] = refl
view-replay s ((e, now) ∷ es) =
    view-replay (apply s e now) es ∙ ap (λ v. spec_replay v es) (view-apply s e now)
