-- ===== src/StateStore/Frame.antt =====
-- What the handlers of BBgrid_Server/runtime/statestore.go leave alone: each writes the tables of its
-- own resource type only.
use bbgrid.Prelude.{
  ◌≡◌, refl, ◌∙◌, Text, ℤ, arith, List, [], ◌∷◌, Bool-cases, inl, inr, ◌==◌, text_key,
}
use bbgrid.GoText.{codes}
use bbgrid.Types.{Any, EventType, added, modified, deleted, unknown, GenericEvent}
use bbgrid.StateStore.{StateStore}
use bbgrid.StateStore.Apply.{
  apply_client_event, apply_proxy_event, apply_relay_event, apply, replay,
}

-- The tables of proxies and relays, desired and actual, are the same in two states.
pub record SameResources (s t : StateStore) : Type 0 where
  pub proxies : t.proxies ≡ s.proxies
  pub desired_proxies : t.desired_proxies ≡ s.desired_proxies
  pub relays : t.relays ≡ s.relays
  pub desired_relays : t.desired_relays ≡ s.desired_relays

pub SameResources-refl : (s : StateStore) → SameResources s s
SameResources-refl s = record {
  proxies = refl;
  desired_proxies = refl;
  relays = refl;
  desired_relays = refl;
}

pub apply_client_event-SameResources :
    (s : StateStore) (name : Text) (t : EventType) (payload : Any) (now : ℤ)
    → SameResources s (apply_client_event s name t payload now)
unfolding apply_client_event
apply_client_event-SameResources s name added payload now = ground arith
apply_client_event-SameResources s name modified payload now = ground arith
apply_client_event-SameResources s name deleted payload now = ground arith
apply_client_event-SameResources s name (unknown x) payload now = ground arith

-- A client event other than DELETED leaves the port index alone.
pub port_index-client_added :
    (s : StateStore) (name : Text) (payload : Any) (now : ℤ)
    → (apply_client_event s name added payload now).port_index ≡ s.port_index
unfolding apply_client_event
port_index-client_added s name payload now = ground arith

pub port_index-client_modified :
    (s : StateStore) (name : Text) (payload : Any) (now : ℤ)
    → (apply_client_event s name modified payload now).port_index ≡ s.port_index
unfolding apply_client_event
port_index-client_modified s name payload now = ground arith

pub record SameProxies (s t : StateStore) : Type 0 where
  pub clients : t.clients ≡ s.clients
  pub proxies : t.proxies ≡ s.proxies
  pub desired_proxies : t.desired_proxies ≡ s.desired_proxies
  pub port_index : t.port_index ≡ s.port_index

pub SameProxies-refl : (s : StateStore) → SameProxies s s
SameProxies-refl s = record {
  clients = refl;
  proxies = refl;
  desired_proxies = refl;
  port_index = refl;
}

pub SameProxies-trans : {s t u : StateStore} → SameProxies s t → SameProxies t u → SameProxies s u
SameProxies-trans h k = record {
  clients = k.clients ∙ h.clients;
  proxies = k.proxies ∙ h.proxies;
  desired_proxies = k.desired_proxies ∙ h.desired_proxies;
  port_index = k.port_index ∙ h.port_index;
}

pub apply_relay_event-SameProxies :
    (s : StateStore) (name : Text) (t : EventType) (payload : Any)
    → SameProxies s (apply_relay_event s name t payload)
unfolding apply_relay_event
apply_relay_event-SameProxies s name added payload = ground arith
apply_relay_event-SameProxies s name modified payload = ground arith
apply_relay_event-SameProxies s name deleted payload = ground arith
apply_relay_event-SameProxies s name (unknown x) payload = ground arith

pub record SameRelays (s t : StateStore) : Type 0 where
  pub relays : t.relays ≡ s.relays
  pub desired_relays : t.desired_relays ≡ s.desired_relays
  pub clients : t.clients ≡ s.clients
  pub tunnel_tokens : t.tunnel_tokens ≡ s.tunnel_tokens

pub apply_proxy_event-SameRelays :
    (s : StateStore) (name : Text) (t : EventType) (payload : Any)
    → SameRelays s (apply_proxy_event s name t payload)
unfolding apply_proxy_event
apply_proxy_event-SameRelays s name added payload = ground arith
apply_proxy_event-SameRelays s name modified payload = ground arith
apply_proxy_event-SameRelays s name deleted payload = ground arith
apply_proxy_event-SameRelays s name (unknown x) payload = ground arith

-- To show something of `apply`, show it of the three handlers and of the state as it was.
pub apply_cases {ℓ} :
    (P : StateStore → Type ℓ) (s : StateStore) (e : GenericEvent) (now : ℤ)
    → P (apply_client_event s e.resource.name e.event_type e.payload now)
    → P (apply_proxy_event s e.resource.name e.event_type e.payload)
    → P (apply_relay_event s e.resource.name e.event_type e.payload)
    → P s
    → P (apply s e now)
unfolding apply
apply_cases P s e now client proxy relay same =
    elim (Bool-cases (e.resource.type == codes "client")) [
      | inl c ↦ rw c client
      | inr c ↦ elim (Bool-cases (e.resource.type == codes "proxy")) [
        | inl d ↦ rw (c, d) proxy
        | inr d ↦ elim (Bool-cases (e.resource.type == codes "relay")) [
          | inl r ↦ rw (c, d, r) relay
          | inr r ↦ rw (c, d, r) same
        ]
      ]
    ]

-- What every event keeps, every history keeps.
pub replay_induction {ℓ} :
    (P : StateStore → Type ℓ)
    → ((s : StateStore) (e : GenericEvent) (now : ℤ) → P s → P (apply s e now))
    → (s : StateStore) (es : List (GenericEvent × ℤ)) → P s
    → P (replay s es)
unfolding replay
replay_induction P step s [] h = h
replay_induction P step s ((e, now) ∷ es) h =
    replay_induction P step (apply s e now) es (step s e now h)
