-- ===== src/EventBus/Laws.antt =====
-- BBgrid_Server/runtime/eventbus.go: what the bus hands on, in which order.
use bbgrid.Prelude.{
  ◌≡◌, refl, sym, ap, ◌∙◌, Bool, true, false, not, ◌&&◌, Option, none, some, List, [], ◌∷◌, ◌++◌,
  Text, Eq, ◌==◌, text_key, if◌then◌else◌, ltb, length, is_some, Bool-cases, Option-cases, inl, inr,
  text_eq_iff,
}
use mathlib.Core.List.{append_assoc, append-nil}
use bbgrid.GoMap.{GoMap, get, put, get-put}
use bbgrid.Types.{GenericEvent}
use bbgrid.EventBus.{
  EventBus, list_or, queue_size, enqueue, take_number, pick, enqueue_picked, enqueue_nth, subscribe,
  unsubscribe, drop_handler, take_event, worker, close, finish, all_empty, Step, numbers, enqueues,
  subscribes, unsubscribes, works, closes, finishes, step, run,
}

-- The events of a type that are queued and not yet taken, oldest first.
abbrev pub pending : {H : Type 0} → EventBus H → Text → List GenericEvent
pending b t = list_or (get b.draining t) ++ list_or (get b.queues t)

module _ {H : Type 0} where
  abbrev pub has_room : EventBus H → Option (List GenericEvent) → Bool
  has_room b none = not b.stopped
  has_room b (some q) = ltb (length q) queue_size

  -- An event is put into the queue of its type if this has room, or is new and the bus is not stopped.
  abbrev pub queued_of :
      Text → EventBus H → Option (GenericEvent × List GenericEvent) → List GenericEvent
  queued_of t b none = []
  queued_of t b (some (ev, rest)) =
      if has_room b (get b.queues ev.resource.type) && ev.resource.type == t then ev ∷ [] else []

  abbrev pub accepted_of : Text → EventBus H → Step H → List GenericEvent
  accepted_of t b (enqueues n) = queued_of t b (pick n b.in_flight)
  accepted_of t b _ = []

  abbrev pub events : List (List H × GenericEvent) → List GenericEvent
  events [] = []
  events ((hs, ev) ∷ ds) = ev ∷ events ds

  abbrev pub delivered_of : Text → EventBus H → Step H → List GenericEvent
  delivered_of t b (works u) = if u == t then events (worker b u).1 else []
  delivered_of t b _ = []

  -- An open bus has no queue that its workers drain for `Close`.
  abbrev pub IsTidy : EventBus H → Type 0
  IsTidy b = b.closed ≡ false → b.draining ≡ []

module _ {H : Type 0} ⦃e : Eq H⦄ where
  unfoldable pub accepted : Text → EventBus H → List (Step H) → List GenericEvent
  accepted t b [] = []
  accepted t b (s ∷ ss) = accepted_of t b s ++ accepted t (step b s) ss

  unfoldable pub delivered : Text → EventBus H → List (Step H) → List GenericEvent
  delivered t b [] = []
  delivered t b (s ∷ ss) = delivered_of t b s ++ delivered t (step b s) ss

list_or-put :
    (m : GoMap Text (List GenericEvent)) (k t : Text) (q : List GenericEvent)
    → list_or (get (put m k q) t) ≡ (if k == t then q else list_or (get m t))
list_or-put m k t q = elim (Bool-cases (k == t)) [
  | inl p ↦ rw (get-put m k t q, p) refl
  | inr p ↦ rw (get-put m k t q, p) refl
]

-- An event that is put at the end of the queue of its type.
append-put :
    (m : GoMap Text (List GenericEvent)) (k t : Text) (ev : GenericEvent)
    → list_or (get (put m k (list_or (get m k) ++ ev ∷ [])) t)
      ≡ list_or (get m t) ++ (if k == t then ev ∷ [] else [])
append-put m k t ev = elim (Bool-cases (k == t)) [
  | inl p ↦ rw (list_or-put m k t, p, (text_eq_iff k t).0 p) refl
  | inr p ↦ rw (list_or-put m k t, p) (sym (append-nil (list_or (get m t))))
]

module _ {H : Type 0} where
  abbrev appended : EventBus H → GenericEvent → EventBus H
  appended b ev = record b {
    queues = put b.queues ev.resource.type (list_or (get b.queues ev.resource.type) ++ ev ∷ []);
  }

  enqueue_lem :
      (b : EventBus H) (ev : GenericEvent) (o : Option (List GenericEvent))
      → get b.queues ev.resource.type ≡ o
      → enqueue b ev o ≡ (if has_room b o then appended b ev else b)
  unfolding enqueue
  enqueue_lem b ev none h = elim (Bool-cases b.stopped) [
    | inl p ↦ rw p refl
    | inr p ↦ rw (p, h) refl
  ]
  enqueue_lem b ev (some q) h = rw h refl

  appended-pending :
      (b : EventBus H) (ev : GenericEvent) (t : Text)
      → pending (appended b ev) t ≡ pending b t ++ (if ev.resource.type == t then ev ∷ [] else [])
  appended-pending b ev t =
      rw (append-put b.queues ev.resource.type t ev)
        (sym (append_assoc (list_or (get b.draining t)) (list_or (get b.queues t)) _))

  enqueue-pending :
      (b : EventBus H) (ev : GenericEvent) (t : Text)
      → pending (enqueue b ev (get b.queues ev.resource.type)) t
        ≡ pending b t
          ++ (if has_room b (get b.queues ev.resource.type) && ev.resource.type == t
              then ev ∷ []
              else [])
  enqueue-pending b ev t =
      ap (λ (c : EventBus H). pending c t) (enqueue_lem b ev (get b.queues ev.resource.type) refl)
      ∙ elim (Bool-cases (has_room b (get b.queues ev.resource.type))) [
        | inl p ↦ rw p (appended-pending b ev t)
        | inr p ↦ rw p (sym (append-nil (pending b t)))
      ]

  take_number-pending :
      (b : EventBus H) (ev : GenericEvent) (t : Text) → pending (take_number b ev) t ≡ pending b t
  unfolding take_number
  take_number-pending b ev t = elim (Bool-cases b.closed) [
    | inl p ↦ rw p refl
    | inr p ↦ elim (Bool-cases (is_some (get b.type_subs ev.resource.type))) [
      | inl q ↦ rw (p, q) refl
      | inr q ↦ rw (p, q) refl
    ]
  ]

  enqueue_picked-pending :
      (b : EventBus H) (t : Text) (o : Option (GenericEvent × List GenericEvent))
      → pending (enqueue_picked b o) t ≡ pending b t ++ queued_of t b o
  unfolding enqueue_picked
  enqueue_picked-pending b t none = sym (append-nil (pending b t))
  enqueue_picked-pending b t (some (ev, rest)) =
      enqueue-pending (record b { in_flight = rest }) ev t

  worker-pending :
      (b : EventBus H) (u t : Text)
      → (if u == t then events (worker b u).1 else []) ++ pending (worker b u).0 t ≡ pending b t
  unfolding worker take_event
  worker-pending b u t = take_lem (list_or (get b.draining u)) (list_or (get b.queues u)) refl refl
    where
      take_lem :
          (q q' : List GenericEvent)
          → list_or (get b.draining u) ≡ q
          → list_or (get b.queues u) ≡ q'
          → (if u == t then events (take_event b u q q').1 else [])
              ++ pending (take_event b u q q').0 t
            ≡ pending b t
      take_lem (ev ∷ q) q' h h' = elim (Bool-cases (u == t)) [
        | inl p ↦ rw (list_or-put b.draining u t q, p, sym ((text_eq_iff u t).0 p), h) refl
        | inr p ↦ rw (list_or-put b.draining u t q, p) refl
      ]
      take_lem [] (ev ∷ q') h h' = elim (Bool-cases (u == t)) [
        | inl p ↦ rw (list_or-put b.queues u t q', p, sym ((text_eq_iff u t).0 p), h, h') refl
        | inr p ↦ rw (list_or-put b.queues u t q', p) refl
      ]
      take_lem [] [] h h' = elim (Bool-cases (u == t)) [ inl p ↦ rw p refl | inr p ↦ rw p refl ]

  close-pending : (b : EventBus H) (t : Text) → IsTidy b → pending (close b) t ≡ pending b t
  unfolding close get
  close-pending b t tidy = elim (Bool-cases b.closed) [
    | inl p ↦ rw p refl
    | inr p ↦ rw (p, tidy p) (append-nil (list_or (get b.queues t)))
  ]

module _ {H : Type 0} ⦃e : Eq H⦄ where
  step-pending :
      (b : EventBus H) (s : Step H) (t : Text)
      → IsTidy b
      → delivered_of t b s ++ pending (step b s) t ≡ pending b t ++ accepted_of t b s
  unfolding step
  step-pending b (numbers ev) t h = take_number-pending b ev t ∙ sym (append-nil (pending b t))
  step-pending b (enqueues n) t h =
      unfold enqueue_nth in enqueue_picked-pending b t (pick n b.in_flight)
  step-pending b (subscribes u g) t h = unfold subscribe in sym (append-nil (pending b t))
  step-pending b (unsubscribes u g) t h =
      unfold unsubscribe in
      elim (Option-cases (get b.type_subs u)) [
        | inl p ↦ rw p (unfold drop_handler in sym (append-nil (pending b t)))
        | inr (hs, p) ↦ rw p (unfold drop_handler in sym (append-nil (pending b t)))
      ]
  step-pending b (works u) t h = worker-pending b u t ∙ sym (append-nil (pending b t))
  step-pending b closes t h = close-pending b t h ∙ sym (append-nil (pending b t))
  step-pending b finishes t h =
      unfold finish in
      elim (Bool-cases (b.closed && all_empty b.draining)) [
        | inl p ↦ rw p (sym (append-nil (pending b t)))
        | inr p ↦ rw p (sym (append-nil (pending b t)))
      ]

  if-IsTidy : (c : Bool) (x y : EventBus H) → IsTidy x → IsTidy y → IsTidy (if c then x else y)
  if-IsTidy true x y h h' = h
  if-IsTidy false x y h h' = h'

  enqueue-IsTidy :
      (b : EventBus H) (ev : GenericEvent) (o : Option (List GenericEvent))
      → IsTidy b
      → IsTidy (enqueue b ev o)
  unfolding enqueue
  enqueue-IsTidy b ev none h = if-IsTidy b.stopped _ _ h h
  enqueue-IsTidy b ev (some q) h = if-IsTidy (ltb (length q) queue_size) _ _ h h

  take_number-IsTidy : (b : EventBus H) (ev : GenericEvent) → IsTidy b → IsTidy (take_number b ev)
  unfolding take_number
  take_number-IsTidy b ev h =
      if-IsTidy b.closed _ _ h (if-IsTidy (is_some (get b.type_subs ev.resource.type)) _ _ h h)

  enqueue_picked-IsTidy :
      (b : EventBus H) (o : Option (GenericEvent × List GenericEvent))
      → IsTidy b
      → IsTidy (enqueue_picked b o)
  unfolding enqueue_picked
  enqueue_picked-IsTidy b none h = h
  enqueue_picked-IsTidy b (some (ev, rest)) h =
      enqueue-IsTidy (record b { in_flight = rest }) ev (get b.queues ev.resource.type) h

  take_event-IsTidy :
      (b : EventBus H) (t : Text) (q q' : List GenericEvent)
      → list_or (get b.draining t) ≡ q
      → IsTidy b
      → IsTidy (take_event b t q q').0
  unfolding take_event get
  take_event-IsTidy b t (ev ∷ q) q' p h = λ open_bus.
      let none_left : list_or (get b.draining t) ≡ [] = rw (h open_bus) refl in absurd cc
  take_event-IsTidy b t [] (ev ∷ q') p h = h
  take_event-IsTidy b t [] [] p h = h

  step-IsTidy : (b : EventBus H) (s : Step H) → IsTidy b → IsTidy (step b s)
  unfolding step
  step-IsTidy b (numbers ev) h = take_number-IsTidy b ev h
  step-IsTidy b (enqueues n) h =
      unfold enqueue_nth in enqueue_picked-IsTidy b (pick n b.in_flight) h
  step-IsTidy b (subscribes u g) h = unfold subscribe in h
  step-IsTidy b (unsubscribes u g) h =
      unfold unsubscribe in
      elim (Option-cases (get b.type_subs u)) [
        | inl p ↦ rw p (unfold drop_handler in h)
        | inr (hs, p) ↦ rw p (unfold drop_handler in h)
      ]
  step-IsTidy b (works u) h =
      unfold worker in take_event-IsTidy b u _ (list_or (get b.queues u)) refl h
  step-IsTidy b closes h = unfold close in if-IsTidy b.closed b _ h (λ shut. absurd cc)
  step-IsTidy b finishes h =
      unfold finish in
      if-IsTidy (b.closed && all_empty b.draining) (record b { type_subs = [] }) b h h

  -- Each type has its own first-in first-out queue: what the workers of a type have taken, followed by
  -- what is still queued, is what was queued before followed by what was put into the queue since, in
  -- the order in which the calls of `Publish` get to the queue, whatever else happens between.
  pub fifo :
      (b : EventBus H) (ss : List (Step H)) (t : Text)
      → IsTidy b
      → delivered t b ss ++ pending (run b ss) t ≡ pending b t ++ accepted t b ss
  unfolding delivered accepted run
  fifo b [] t h = sym (append-nil (pending b t))
  fifo b (s ∷ ss) t h =
      append_assoc (delivered_of t b s) (delivered t (step b s) ss) (pending (run (step b s) ss) t)
      ∙ ap (λ (xs : List GenericEvent). delivered_of t b s ++ xs)
          (fifo (step b s) ss t (step-IsTidy b s h))
      ∙ sym (append_assoc (delivered_of t b s) (pending (step b s) t) (accepted t (step b s) ss))
      ∙ ap (λ (xs : List GenericEvent). xs ++ accepted t (step b s) ss) (step-pending b s t h)
      ∙ append_assoc (pending b t) (accepted_of t b s) (accepted t (step b s) ss)
