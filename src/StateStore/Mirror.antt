-- ===== src/StateStore/Mirror.antt =====
-- Desired state against actual state in BBgrid_Server/runtime/statestore.go.
use bbgrid.Prelude.{◌≡◌, refl, Option, none, some, List, [], Text, ℤ, arith, text_key}
use bbgrid.GoMap.{GoMap, get, put, delete, Unique, get-put, get-delete, put-Unique, delete-Unique}
use bbgrid.Types.{ProxyState, Any, EventType, added, deleted, GenericEvent, relay_session}
use bbgrid.StateStore.{StateStore, proxy_key, new_state_store}
use bbgrid.StateStore.Apply.{
  apply, apply_proxy_event, apply_relay_event, proxy_added, add_relay, parse_proxy_from_payload,
  replay, desired_of, desired_relay_of,
}
use bbgrid.StateStore.Frame.{
  apply_client_event-SameResources, apply_relay_event-SameProxies, apply_proxy_event-SameRelays,
  apply_cases, replay_induction,
}

-- One table is the image of another, key by key.
module _ {A B : Type 0} (f : A → B) where
  abbrev pub image : Option A → Option B
  image none = none
  image (some a) = some (f a)

  pub record Mirrors (actual : GoMap Text A) (desired : GoMap Text B) : Type 0 where
    pub at : (k : Text) → get desired k ≡ image (get actual k)
    pub unique : Unique actual
    pub desired_unique : Unique desired

  pub put-Mirrors :
      (m : GoMap Text A) (n : GoMap Text B) (k : Text) (a : A)
      → Mirrors m n
      → Mirrors (put m k a) (put n k (f a))
  put-Mirrors m n k a h = record {
    at = λ j. ground (arith, get-put m k j a, get-put n k j (f a), h.at j);
    unique = put-Unique m k a h.unique;
    desired_unique = put-Unique n k (f a) h.desired_unique;
  }

  pub delete-Mirrors :
      (m : GoMap Text A) (n : GoMap Text B) (k : Text)
      → Mirrors m n
      → Mirrors (delete m k) (delete n k)
  delete-Mirrors m n k h = record {
    at = λ j. ground (arith, get-delete m k j, get-delete n k j, h.at j);
    unique = delete-Unique m k h.unique;
    desired_unique = delete-Unique n k h.desired_unique;
  }

  pub Mirrors-empty : Mirrors [] []
  unfolding get
  Mirrors-empty = record { at = λ k. refl; unique = tt; desired_unique = tt }

-- Desired state and actual state hold the same proxies and the same relays.
pub record IsMirrored (s : StateStore) : Type 0 where
  pub proxies : Mirrors desired_of s.proxies s.desired_proxies
  pub relays : Mirrors desired_relay_of s.relays s.desired_relays

proxy_event-Mirrors :
    (s : StateStore) (name : Text) (t : EventType) (payload : Any)
    → Mirrors desired_of s.proxies s.desired_proxies
    → let s' = apply_proxy_event s name t payload in
      Mirrors desired_of s'.proxies s'.desired_proxies
unfolding apply_proxy_event
proxy_event-Mirrors s name added payload h = added_lem (parse_proxy_from_payload payload)
  where
    added_lem :
        (o : Option ProxyState)
        → Mirrors desired_of (proxy_added s o).proxies (proxy_added s o).desired_proxies
    added_lem none = h
    added_lem (some p) = put-Mirrors desired_of _ _ (proxy_key p.client_id p.remote_port) p h
proxy_event-Mirrors s name deleted payload h = delete-Mirrors desired_of _ _ name h
proxy_event-Mirrors s name _ payload h = h

add_relay-Mirrors :
    (s : StateStore) (payload : Any)
    → Mirrors desired_relay_of s.relays s.desired_relays
    → Mirrors desired_relay_of (add_relay s payload).relays (add_relay s payload).desired_relays
unfolding add_relay
add_relay-Mirrors s (relay_session r) h = put-Mirrors desired_relay_of _ _ r.id r h
add_relay-Mirrors s _ h = h

relay_event-Mirrors :
    (s : StateStore) (name : Text) (t : EventType) (payload : Any)
    → Mirrors desired_relay_of s.relays s.desired_relays
    → let s' = apply_relay_event s name t payload in
      Mirrors desired_relay_of s'.relays s'.desired_relays
unfolding apply_relay_event
relay_event-Mirrors s name added payload h = add_relay-Mirrors s payload h
relay_event-Mirrors s name deleted payload h = delete-Mirrors desired_relay_of _ _ name h
relay_event-Mirrors s name _ payload h = h

-- Every event changes desired and actual state together.
pub apply-IsMirrored :
    (s : StateStore) (e : GenericEvent) (now : ℤ) → IsMirrored s → IsMirrored (apply s e now)
apply-IsMirrored s e now v =
    let name = e.resource.name in
    let client = apply_client_event-SameResources s name e.event_type e.payload now in
    let proxy = apply_proxy_event-SameRelays s name e.event_type e.payload in
    let relay = apply_relay_event-SameProxies s name e.event_type e.payload in
    apply_cases IsMirrored s e now
      (record {
        proxies = rw (client.proxies, client.desired_proxies) v.proxies;
        relays = rw (client.relays, client.desired_relays) v.relays;
      })
      (record {
        proxies = proxy_event-Mirrors s name e.event_type e.payload v.proxies;
        relays = rw (proxy.relays, proxy.desired_relays) v.relays;
      })
      (record {
        proxies = rw (relay.proxies, relay.desired_proxies) v.proxies;
        relays = relay_event-Mirrors s name e.event_type e.payload v.relays;
      })
      v

-- After any history of events the desired proxies are the actual proxies and the desired relays the
-- actual relays, under the same keys and with the same fields.
pub replay-IsMirrored :
    (ip : Text) (es : List (GenericEvent × ℤ)) → IsMirrored (replay (new_state_store ip) es)
replay-IsMirrored ip es =
    replay_induction IsMirrored apply-IsMirrored (new_state_store ip) es
      (record { proxies = Mirrors-empty desired_of; relays = Mirrors-empty desired_relay_of })
