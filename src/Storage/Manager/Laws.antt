-- ===== src/Storage/Manager/Laws.antt =====
-- common/store/manager.go: how far behind the events the latest snapshot is.
use bbgrid.Prelude.{
  ℕ, suc, ◌+◌, ◌-◌, ◌≤◌, ◌<◌, ◌≡◌, refl, sym, ap, ◌∙◌, Bool, true, false, Option, none, some, List,
  [], ◌∷◌, Text, ℤ, pos, leb, length-append, Bool-cases, inl, inr, arith,
}
use bbgrid.Types.{ResourceKey, GenericEvent, Any, deleted, opaque}
use bbgrid.ResourceKey.{new_generic_event}
use bbgrid.EventLog.{
  EventStore, Outcome, stored, sync_error, write_error, AppendError, append, write_marshalled,
  write_line, count, stamped, next,
}
use bbgrid.Storage.Meta.{MetaStore, put_resource, delete_resource, list_all}
use bbgrid.Storage.Snapshots.{SnapshotStore, save_snapshot, get_sequence, load_snapshot}
use bbgrid.Storage.Manager.{
  StorageManager, Call, StorageError, snapshot_state, create_snapshot, count_event, appended,
  append_event, meta_result, save_after, append_event_and_save, delete_after, delete_stored,
}

-- The latest snapshot names the number of events that it covers: all but those counted since.
pub record IsCovered (m : StorageManager) : Type 0 where
  pub sequence : get_sequence m.snapshots ≡ pos (count m.events - m.event_count)
  pub counted : m.event_count ≤ count m.events
  pub within : m.event_count < m.snapshot_interval

-- What an append does to the number of events.
abbrev Counts : EventStore → EventStore × Option AppendError → Type 0
Counts s (s', none) = count s' ≡ suc (count s)
Counts s (s', some e) = count s' ≡ count s

write_line-Counts :
    (s : EventStore) (e : GenericEvent) (line : Text) (w : Outcome)
    → Counts s (write_line s e line w)
unfolding write_line
write_line-Counts s e line stored = omega (arith, length-append s.events (e ∷ []))
write_line-Counts s e line sync_error = refl
write_line-Counts s e line (write_error n) = refl

write_marshalled-Counts :
    (s : EventStore) (e : GenericEvent) (o : Option Text) (w : Outcome)
    → Counts s (write_marshalled s e o w)
unfolding write_marshalled
write_marshalled-Counts s e none w = refl
write_marshalled-Counts s e (some line) w = write_line-Counts s e line w

count_event-IsCovered :
    (m : StorageManager) (events : EventStore) (c : Call)
    → IsCovered m
    → count events ≡ suc (count m.events)
    → c.snapshot_renamed ≡ true
    → IsCovered (count_event (record m { events = events }) c)
unfolding count_event create_snapshot save_snapshot
count_event-IsCovered m events c h n renamed =
    elim (Bool-cases (leb m.snapshot_interval (m.event_count + 1))) [
      | inl p ↦
          rw (p, renamed)
            (record {
              sequence = ap pos (omega arith);
              counted = omega arith;
              within = ground (arith, h.within);
            })
      | inr p ↦ rw p (record {
        sequence = h.sequence ∙ ap pos (omega (arith, n, h.counted));
        counted = omega (arith, n, h.counted);
        within = ground arith;
      })
    ]

module _ (marshal : GenericEvent → Option Text) (unmarshal : Text → Option GenericEvent) where
  appended-IsCovered :
      (m : StorageManager) (c : Call) (r : EventStore × Option AppendError)
      → IsCovered m
      → Counts m.events r
      → c.snapshot_renamed ≡ true
      → IsCovered (appended marshal unmarshal m c r).0
  unfolding appended
  appended-IsCovered m c (events, none) h n renamed = count_event-IsCovered m events c h n renamed
  appended-IsCovered m c (events, some e) h n renamed = record {
    sequence = h.sequence ∙ ap (λ (k : ℕ). pos (k - m.event_count)) (sym n);
    counted = omega (arith, n, h.counted);
    within = h.within;
  }

  append_event-IsCovered :
      (m : StorageManager) (e : GenericEvent) (c : Call)
      → IsCovered m
      → c.snapshot_renamed ≡ true
      → IsCovered (append_event marshal unmarshal m e c).0
  unfolding append_event append
  append_event-IsCovered m e c h renamed =
      appended-IsCovered m c _ h
        (write_marshalled-Counts (next m.events) (stamped m.events e c.now)
          (marshal (stamped m.events e c.now)) c.line)
        renamed

  meta_result-IsCovered :
      (m : StorageManager) (r : MetaStore Any × Bool)
      → IsCovered m
      → IsCovered (meta_result marshal unmarshal m r).0
  meta_result-IsCovered m (meta, true) h = record {
    sequence = h.sequence;
    counted = h.counted;
    within = h.within;
  }
  meta_result-IsCovered m (meta, false) h = record {
    sequence = h.sequence;
    counted = h.counted;
    within = h.within;
  }

  save_after-IsCovered :
      (r : StorageManager × Option StorageError) (k : ResourceKey) (o : Option Any) (c : Call)
      → IsCovered r.0
      → IsCovered (save_after marshal unmarshal r k o c).0
  unfolding save_after
  save_after-IsCovered (m, some e) k o c h = h
  save_after-IsCovered (m, none) k none c h = h
  save_after-IsCovered (m, none) k (some r) c h =
      meta_result-IsCovered m (put_resource m.meta k r c.meta_renamed) h

  delete_after-IsCovered :
      (r : StorageManager × Option StorageError) (k : ResourceKey) (c : Call)
      → IsCovered r.0
      → c.snapshot_renamed ≡ true
      → IsCovered (delete_after marshal unmarshal r k c).0
  unfolding delete_after
  delete_after-IsCovered (m, some e) k c h renamed = h
  delete_after-IsCovered (m, none) k c h renamed =
      append_event-IsCovered m (new_generic_event c.event_id c.now k deleted opaque) c h renamed

-- A call of the manager.
pub data Operation : Type 0 where
  appends : GenericEvent → Call → Operation
  saves : GenericEvent → Option Any → Call → Operation
  deletes : ResourceKey → Call → Operation

abbrev pub call_of : Operation → Call
call_of (appends e c) = c
call_of (saves e r c) = c
call_of (deletes k c) = c

module _ (marshal : GenericEvent → Option Text) (unmarshal : Text → Option GenericEvent) where
  unfoldable pub operate : StorageManager → Operation → StorageManager
  unfolding append_event append_event_and_save delete_stored
  operate m (appends e c) = (append_event marshal unmarshal m e c).0
  operate m (saves e r c) = (append_event_and_save marshal unmarshal m e r c).0
  operate m (deletes k c) = (delete_stored marshal unmarshal m k c).0

  unfoldable pub operate_all : StorageManager → List Operation → StorageManager
  unfolding operate
  operate_all m [] = m
  operate_all m (o ∷ os) = operate_all (operate m o) os

  pub operate-IsCovered :
      (m : StorageManager) (o : Operation)
      → IsCovered m
      → (call_of o).snapshot_renamed ≡ true
      → IsCovered (operate m o)
  unfolding operate
  operate-IsCovered m (appends e c) h renamed =
      append_event-IsCovered marshal unmarshal m e c h renamed
  operate-IsCovered m (saves e r c) h renamed =
      unfold append_event_and_save in
      save_after-IsCovered marshal unmarshal (append_event marshal unmarshal m e c) e.resource r c
        (append_event-IsCovered marshal unmarshal m e c h renamed)
  operate-IsCovered m (deletes k c) h renamed =
      unfold delete_stored in
      delete_after-IsCovered marshal unmarshal
        (meta_result marshal unmarshal m (delete_resource m.meta k c.meta_renamed)) k c
        (meta_result-IsCovered marshal unmarshal m (delete_resource m.meta k c.meta_renamed) h)
        renamed

  append_stored :
      (s : EventStore) (e : GenericEvent) (now : ℤ) (w : Outcome) (line : Text)
      → marshal (stamped s e now) ≡ some line
      → w ≡ stored
      → append marshal unmarshal s e now w ≡ write_line (next s) (stamped s e now) line stored
  unfolding append write_marshalled
  append_stored s e now w line h p = rw (h, p) refl

  snapshot_after_save :
      (m : StorageManager) (r : MetaStore Any × Bool)
      → (meta_result marshal unmarshal m r).0.snapshots ≡ m.snapshots
  snapshot_after_save m (meta, true) = refl
  snapshot_after_save m (meta, false) = refl

  due_snapshot :
      (m : StorageManager) (events : EventStore) (c : Call)
      → m.snapshot_interval ≤ m.event_count + 1
      → c.snapshot_renamed ≡ true
      → load_snapshot (count_event (record m { events = events }) c).snapshots
        ≡ some (record {
          id = c.snapshot_id;
          timestamp = c.now;
          sequence = pos (count events);
          state = snapshot_state (list_all m.meta);
        })
  unfolding count_event create_snapshot save_snapshot
  due_snapshot m events c due renamed =
      let p : leb m.snapshot_interval (m.event_count + 1) ≡ true = ground arith in
      rw (p, renamed) refl

  -- The snapshot that `AppendEventAndSave` takes at the interval counts the new event, but holds the
  -- resources as they were before it: the resource of the event is saved afterwards.
  append_event_and_save-snapshot :
      (m : StorageManager) (e : GenericEvent) (r : Any) (c : Call) (line : Text)
      → marshal (stamped m.events e c.now) ≡ some line
      → c.line ≡ stored
      → c.snapshot_renamed ≡ true
      → m.snapshot_interval ≤ m.event_count + 1
      → load_snapshot (append_event_and_save marshal unmarshal m e (some r) c).0.snapshots
        ≡ some (record {
          id = c.snapshot_id;
          timestamp = c.now;
          sequence = pos (count m.events + 1);
          state = snapshot_state (list_all m.meta);
        })
  unfolding append_event_and_save append_event appended save_after write_line
  append_event_and_save-snapshot m e r c line h w renamed due =
      let written = (write_line (next m.events) (stamped m.events e c.now) line stored).0 in
      let saved = count_event (record m { events = written }) c in
      ap
        (λ (a : EventStore × Option AppendError).
          load_snapshot
            (save_after marshal unmarshal (appended marshal unmarshal m c a) e.resource (some r)
              c).0.snapshots)
        (append_stored m.events e c.now c.line line h w)
      ∙ ap (λ (s : SnapshotStore). load_snapshot s)
          (snapshot_after_save saved (put_resource saved.meta e.resource r c.meta_renamed))
      ∙ due_snapshot m written c due renamed
      ∙ ap
          (λ (n : ℕ). some (record {
            id = c.snapshot_id;
            timestamp = c.now;
            sequence = pos n;
            state = snapshot_state (list_all m.meta);
          }))
          (omega (arith, length-append m.events.events (stamped m.events e c.now ∷ [])))
