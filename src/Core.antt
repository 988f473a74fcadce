-- ===== src/Core.antt =====
-- BBgrid_Server/runtime/core.go: what Core does with an event that the bus hands to it. The state store,
-- the storage and the signal of the reconcile engine are its state; what the storage returns is logged
-- only. Events of other types reach no handler of Core.
pub mod Laws
mod Tests
use bbgrid.Prelude.{
  Bool, true, false, ◌||◌, Option, none, some, List, [], ◌∷◌, Text, ℤ, text_key, ◌==◌,
  if◌then◌else◌,
}
use bbgrid.GoText.{codes}
use bbgrid.Types.{EventType, added, modified, deleted, unknown, GenericEvent, Any}
use bbgrid.StateStore.{StateStore}
use bbgrid.StateStore.Apply.{apply}
use bbgrid.Storage.Manager.{StorageManager, Call, append_event_and_save, delete_stored}

pub record Core : Type 0 where
  pub store : StateStore
  -- nil where there is no storage
  pub storage : Option StorageManager
  pub restoring : Bool
  -- the signal in `triggerCh` of the engine
  pub triggered : Bool

-- An event with the time at which it is applied, whether its payload is nil, and what the calls of the
-- storage are given.
pub record Delivery : Type 0 where
  pub event : GenericEvent
  pub now : ℤ
  pub nil_payload : Bool
  pub call : Call

-- `SetRestoring`
abbrev pub set_restoring : Core → Bool → Core
set_restoring c v = record c { restoring = v }

abbrev pub payload_to_save : Delivery → Option Any
payload_to_save d = if d.nil_payload then none else some d.event.payload

module _ (marshal : GenericEvent → Option Text) (unmarshal : Text → Option GenericEvent) where
  unfoldable pub persist_as : StorageManager → Delivery → EventType → StorageManager
  persist_as m d added =
      (append_event_and_save marshal unmarshal m d.event (payload_to_save d) d.call).0
  persist_as m d deleted = (delete_stored marshal unmarshal m d.event.resource d.call).0
  persist_as m d modified = m
  persist_as m d (unknown t) = m

  unfoldable pub persist : Option StorageManager → Bool → Delivery → Option StorageManager
  unfolding persist_as
  persist none restoring d = none
  persist (some m) true d = some m
  persist (some m) false d = some (persist_as m d d.event.event_type)

  abbrev pub apply_to : Core → Delivery → Core
  apply_to c d = record c { store = apply c.store d.event d.now }

  abbrev pub apply_and_persist : Core → Delivery → Core
  apply_and_persist c d = record (apply_to c d) {
    storage = persist c.storage c.restoring d;
    triggered = true;
  }

  -- The handlers that `NewCore` subscribes.
  unfoldable pub handle : Core → Delivery → Core
  unfolding persist
  handle c d =
      if d.event.resource.type == codes "client"
      then apply_to c d
      else if (d.event.resource.type == codes "proxy") || (d.event.resource.type == codes "relay")
      then apply_and_persist c d
      else c

  unfoldable pub handle_all : Core → List Delivery → Core
  unfolding handle
  handle_all c [] = c
  handle_all c (d ∷ ds) = handle_all (handle c d) ds
