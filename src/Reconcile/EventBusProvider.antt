-- ===== src/Reconcile/EventBusProvider.antt =====
-- BBgrid_Server/runtime/provider.go: the provider of the engine, which publishes an event for each call.
-- The time and the identifiers of new events belong to its world.
use bbgrid.Prelude.{ℕ, Bool, true, ◌++◌, List, [], ◌∷◌, Text, ℤ, length}
use bbgrid.GoText.{codes}
use bbgrid.Types.{
  ResourceKey, ProxyState, RelaySession, EventType, added, deleted, Any, proxy_state, relay_session,
  opaque, GenericEvent,
}
use bbgrid.ResourceKey.{new_generic_event}
use bbgrid.StateStore.{proxy_key}
use bbgrid.Reconcile.{Provider}

pub record Publications : Type 0 where
  pub now : ℤ
  pub now_milli : ℤ
  -- the identifier of the n-th event
  pub draw : ℕ → Text
  pub published : List GenericEvent

abbrev pub publish : Publications → Text → Text → EventType → Any → Publications
publish w type name t payload =
    let resource : ResourceKey = record { type = type; namespace = codes "default"; name = name } in
    let event = new_generic_event (w.draw (length w.published)) w.now_milli resource t payload in
    record w { published = w.published ++ event ∷ [] }

-- `CreateProxy`
abbrev pub create_proxy : Text → ProxyState → Publications → Bool × Publications
create_proxy id p w =
    (true, publish w (codes "proxy") (proxy_key id p.remote_port) added (proxy_state p))

-- `DeleteProxy`
abbrev pub delete_proxy : Text → ℤ → Publications → Bool × Publications
delete_proxy id port w = (true, publish w (codes "proxy") (proxy_key id port) deleted opaque)

-- `CreateRelay`
abbrev pub create_relay : RelaySession → Publications → Bool × Publications
create_relay r w = (true, publish w (codes "relay") r.id added (relay_session r))

-- `DeleteRelay`
abbrev pub delete_relay : Text → Publications → Bool × Publications
delete_relay id w = (true, publish w (codes "relay") id deleted opaque)

-- `EventBusReconcileProvider`
abbrev pub event_bus_provider : Provider Publications
event_bus_provider = record {
  now = λ w. w.now;
  create_proxy = create_proxy;
  delete_proxy = delete_proxy;
  create_relay = create_relay;
  delete_relay = delete_relay;
}
