-- ===== src/Storage/Manager.antt =====
-- common/store/manager.go: the manager of the three stores.
pub mod Laws
use bbgrid.Prelude.{
  ℕ, suc, ◌+◌, Bool, true, false, Option, none, some, List, [], ◌∷◌, ◌++◌, Text, ℤ, pos, negsuc,
  ltb, leb, ◌==◌, text_key, if◌then◌else◌,
}
use bbgrid.GoText.{codes}
use bbgrid.GoMap.{GoMap, put}
use bbgrid.Types.{ResourceKey, GenericEvent, Any, deleted, opaque}
use bbgrid.ResourceKey.{parse_resource_key, new_generic_event}
use bbgrid.EventLog.{EventStore, Outcome, AppendError, append, count}
use bbgrid.Storage.Meta.{MetaStore, put_resource, delete_resource, list_all}
use bbgrid.Storage.Snapshots.{SnapshotStore, save_snapshot}

pub record StorageManager : Type 0 where
  pub events : EventStore
  pub snapshots : SnapshotStore
  pub meta : MetaStore Any
  pub snapshot_interval : ℕ
  pub event_count : ℕ

-- The default of `NewStorageManager`
abbrev pub interval_of : ℤ → ℕ
interval_of (pos (suc n)) = suc n
interval_of _ = 1000

-- What the world contributes to one call: the clock, fresh identifiers, and how each write ends.
pub record Call : Type 0 where
  pub now : ℤ
  pub event_id : Text
  pub snapshot_id : Text
  pub line : Outcome
  pub snapshot_renamed : Bool
  pub meta_renamed : Bool

pub data StorageError : Type 0 where
  append_error : AppendError → StorageError
  meta_error : StorageError

abbrev pub name_or : Text → Option ResourceKey → Text
name_or key none = key
name_or key (some k) = k.name

-- The resources of a type under their names; of two with one name, one stays.
unfoldable pub normalized : GoMap Text Any → GoMap Text Any
unfolding parse_resource_key
normalized [] = []
normalized ((key, r) ∷ m) = put (normalized m) (name_or key (parse_resource_key key)) r

unfoldable pub snapshot_state : GoMap Text (GoMap Text Any) → GoMap Text (GoMap Text Any)
unfolding normalized
snapshot_state [] = []
snapshot_state ((t, m) ∷ types) =
    let rest = snapshot_state types in
    if t == codes "proxy"
    then put rest (codes "desired_proxies") (normalized m)
    else if t == codes "relay"
    then put rest (codes "desired_relays") (normalized m)
    else put rest t m

-- `createSnapshot`; its error is dropped.
unfoldable pub create_snapshot : StorageManager → Call → StorageManager
unfolding snapshot_state save_snapshot
create_snapshot m c = record m {
  snapshots =
      (save_snapshot m.snapshots c.snapshot_id c.now (snapshot_state (list_all m.meta))
        (pos (count m.events)) c.snapshot_renamed).0;
}

-- An event was appended: it is counted, and a snapshot is due at the interval.
unfoldable pub count_event : StorageManager → Call → StorageManager
unfolding create_snapshot
count_event m c =
    let next = m.event_count + 1 in
    if leb m.snapshot_interval next
    then record (create_snapshot (record m { event_count = next }) c) { event_count = 0 }
    else record m { event_count = next }

module _ (marshal : GenericEvent → Option Text) (unmarshal : Text → Option GenericEvent) where
  unfoldable pub appended :
      StorageManager → Call → EventStore × Option AppendError → StorageManager × Option StorageError
  unfolding count_event
  appended m c (events, some e) = (record m { events = events }, some (append_error e))
  appended m c (events, none) = (count_event (record m { events = events }) c, none)

  -- `AppendEvent`
  unfoldable pub append_event :
      StorageManager → GenericEvent → Call → StorageManager × Option StorageError
  unfolding appended append
  append_event m e c = appended m c (append marshal unmarshal m.events e c.now c.line)

  abbrev pub meta_result :
      StorageManager → MetaStore Any × Bool → StorageManager × Option StorageError
  meta_result m (meta, true) = (record m { meta = meta }, none)
  meta_result m (meta, false) = (record m { meta = meta }, some meta_error)

  unfoldable pub save_after :
      StorageManager × Option StorageError
      → ResourceKey
      → Option Any
      → Call
      → StorageManager × Option StorageError
  unfolding put_resource
  save_after (m, some e) k r c = (m, some e)
  save_after (m, none) k none c = (m, none)
  save_after (m, none) k (some r) c = meta_result m (put_resource m.meta k r c.meta_renamed)

  -- `AppendEventAndSave`
  unfoldable pub append_event_and_save :
      StorageManager → GenericEvent → Option Any → Call → StorageManager × Option StorageError
  unfolding save_after append_event
  append_event_and_save m e r c = save_after (append_event m e c) e.resource r c

  unfoldable pub delete_after :
      StorageManager × Option StorageError
      → ResourceKey
      → Call
      → StorageManager × Option StorageError
  unfolding append_event
  delete_after (m, some e) k c = (m, some e)
  delete_after (m, none) k c =
      append_event m (new_generic_event c.event_id c.now k deleted opaque) c

  -- `DeleteResource`
  unfoldable pub delete_stored :
      StorageManager → ResourceKey → Call → StorageManager × Option StorageError
  unfolding delete_after delete_resource
  delete_stored m k c = delete_after (meta_result m (delete_resource m.meta k c.meta_renamed)) k c
