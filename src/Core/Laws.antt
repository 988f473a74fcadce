-- ===== src/Core/Laws.antt =====
-- BBgrid_Server/runtime/core.go: the state store and the storage after any events.
use bbgrid.Prelude.{
  ◌≡◌, refl, sym, ap, ◌∙◌, Bool, true, false, Option, none, some, List, [], ◌∷◌, map, Text, ℤ,
  text_key, ◌==◌, Bool-cases, inl, inr, All,
}
use bbgrid.GoText.{codes}
use bbgrid.Types.{EventType, added, modified, deleted, unknown, GenericEvent}
use bbgrid.StateStore.{StateStore}
use bbgrid.StateStore.Apply.{apply, replay}
use bbgrid.Storage.Manager.{StorageManager}
use bbgrid.Storage.Manager.Laws.{IsCovered, operate, saves, deletes, operate-IsCovered}
use bbgrid.Core.{
  Core, Delivery, payload_to_save, persist_as, persist, apply_and_persist, handle, handle_all,
}

abbrev pub AllCovered : Option StorageManager → Type 0
AllCovered none = Unit
AllCovered (some m) = IsCovered m

abbrev pub applied : Delivery → GenericEvent × ℤ
applied d = (d.event, d.now)

apply_other :
    (s : StateStore) (e : GenericEvent) (now : ℤ)
    → e.resource.type == codes "client" ≡ false
    → e.resource.type == codes "proxy" ≡ false
    → e.resource.type == codes "relay" ≡ false
    → apply s e now ≡ s
unfolding apply
apply_other s e now p q r = rw (p, q, r) refl

module _ (marshal : GenericEvent → Option Text) (unmarshal : Text → Option GenericEvent) where
  persist_as-IsCovered :
      (m : StorageManager) (d : Delivery) (t : EventType)
      → d.call.snapshot_renamed ≡ true
      → IsCovered m
      → IsCovered (persist_as marshal unmarshal m d t)
  unfolding persist_as
  persist_as-IsCovered m d added r h =
      unfold operate in
      operate-IsCovered marshal unmarshal m (saves d.event (payload_to_save d) d.call) h r
  persist_as-IsCovered m d deleted r h =
      unfold operate in operate-IsCovered marshal unmarshal m (deletes d.event.resource d.call) h r
  persist_as-IsCovered m d modified r h = h
  persist_as-IsCovered m d (unknown t) r h = h

  persist-AllCovered :
      (o : Option StorageManager) (restoring : Bool) (d : Delivery)
      → d.call.snapshot_renamed ≡ true
      → AllCovered o
      → AllCovered (persist marshal unmarshal o restoring d)
  unfolding persist
  persist-AllCovered none restoring d r h = tt
  persist-AllCovered (some m) true d r h = h
  persist-AllCovered (some m) false d r h = persist_as-IsCovered m d d.event.event_type r h

  persist-restoring :
      (o : Option StorageManager) (d : Delivery) → persist marshal unmarshal o true d ≡ o
  unfolding persist
  persist-restoring none d = refl
  persist-restoring (some m) d = refl

  -- What holds between the state before and after events.
  pub record Handles (c c' : Core) (ds : List Delivery) : Type 0 where
    pub store : c'.store ≡ replay c.store (map applied ds)
    pub restoring : c'.restoring ≡ c.restoring
    pub untouched : c.restoring ≡ true → c'.storage ≡ c.storage

  -- One event, whose handler is found by its type.
  record HandlesOne (c c' : Core) (d : Delivery) : Type 0 where
    store : c'.store ≡ apply c.store d.event d.now
    restoring : c'.restoring ≡ c.restoring
    covered : d.call.snapshot_renamed ≡ true → AllCovered c.storage → AllCovered c'.storage
    untouched : c.restoring ≡ true → c'.storage ≡ c.storage

  persisted-HandlesOne :
      (c : Core) (d : Delivery) → HandlesOne c (apply_and_persist marshal unmarshal c d) d
  persisted-HandlesOne c d = record {
    store = refl;
    restoring = refl;
    covered = λ r. persist-AllCovered c.storage c.restoring d r;
    untouched = λ e. rw e (persist-restoring c.storage d);
  }

  handle-HandlesOne : (c : Core) (d : Delivery) → HandlesOne c (handle marshal unmarshal c d) d
  unfolding handle
  handle-HandlesOne c d = elim (Bool-cases (d.event.resource.type == codes "client")) [
    | inl p ↦
        rw p (record { store = refl; restoring = refl; covered = λ r h. h; untouched = λ e. refl })
    | inr p ↦ elim (Bool-cases (d.event.resource.type == codes "proxy")) [
      | inl q ↦ rw (p, q) (persisted-HandlesOne c d)
      | inr q ↦ elim (Bool-cases (d.event.resource.type == codes "relay")) [
        | inl s ↦ rw (p, q, s) (persisted-HandlesOne c d)
        | inr s ↦
            rw (p, q, s)
              (record {
                store = sym (apply_other c.store d.event d.now p q s);
                restoring = refl;
                covered = λ r h. h;
                untouched = λ e. refl;
              })
      ]
    ]
  ]

  -- After any events, whatever the storage returns, the state store is what the same events make of it
  -- one after the other, Core is restoring if and only if it was before, and while it is restoring, the
  -- storage stays as it was.
  pub handle_all-Handles :
      (c : Core) (ds : List Delivery) → Handles c (handle_all marshal unmarshal c ds) ds
  unfolding handle_all replay
  handle_all-Handles c [] = record { store = refl; restoring = refl; untouched = λ e. refl }
  handle_all-Handles c (d ∷ ds) =
      let one = handle-HandlesOne c d in
      let rest = handle_all-Handles (handle marshal unmarshal c d) ds in
      record {
        store = rest.store ∙ ap (λ s. replay s (map applied ds)) one.store;
        restoring = rest.restoring ∙ one.restoring;
        untouched = λ e. rest.untouched (one.restoring ∙ e) ∙ one.untouched e;
      }

  -- If no snapshot fails, then after any events the latest snapshot of the storage of Core still covers
  -- all its events but those counted since.
  pub handle_all-AllCovered :
      (c : Core) (ds : List Delivery)
      → All (λ d. d.call.snapshot_renamed ≡ true) ds
      → AllCovered c.storage
      → AllCovered (handle_all marshal unmarshal c ds).storage
  unfolding handle_all
  handle_all-AllCovered c [] r h = h
  handle_all-AllCovered c (d ∷ ds) r h =
      handle_all-AllCovered (handle marshal unmarshal c d) ds r.1
        ((handle-HandlesOne c d).covered r.0 h)
