-- ===== src/EventBus.antt =====
-- BBgrid_Server/runtime/eventbus.go: the event bus. A handler is a function pointer, of which the bus
-- only compares the address. A queue is the list of its events, oldest first. A list of steps is one
-- interleaving of the publishers and the workers: `Publish` is two steps, since it takes the number of
-- its event under one lock and looks for the queue under another, and a worker's round over one event
-- and each half of `Close` are one step each.
pub mod Laws
mod Tests
use bbgrid.Prelude.{
  Bool, true, false, not, ◌&&◌, Option, none, some, List, [], ◌∷◌, ◌++◌, ℕ, Text, ℤ, pos, ◌+ℤ◌, Eq,
  zero, suc, ◌==◌, text_key, if◌then◌else◌, ltb, length, is_some,
}
use bbgrid.GoMap.{GoMap, get, put}
use bbgrid.Types.{GenericEvent}

-- `make(chan proto.GenericEvent, 256)`
abbrev pub queue_size : ℕ
queue_size = 256

-- `draining` holds the queues that `Close` took out of the map while their workers still read them;
-- `in_flight` holds the events of the calls of `Publish` that have a number and are not yet queued.
pub record EventBus (H : Type 0) : Type 0 where
  pub type_subs : GoMap Text (List H)
  pub closed : Bool
  pub seq : ℤ
  pub queues : GoMap Text (List GenericEvent)
  pub draining : GoMap Text (List GenericEvent)
  pub in_flight : List GenericEvent
  pub stopped : Bool

abbrev pub new_event_bus : {H : Type 0} → EventBus H
new_event_bus = record {
  type_subs = [];
  closed = false;
  seq = pos 0;
  queues = [];
  draining = [];
  in_flight = [];
  stopped = false;
}

abbrev pub list_or {ℓ} : {A : Type ℓ} → Option (List A) → List A
list_or none = []
list_or (some xs) = xs

abbrev pub is_empty {ℓ} : {A : Type ℓ} → List A → Bool
is_empty [] = true
is_empty (x ∷ xs) = false

abbrev pub all_empty : GoMap Text (List GenericEvent) → Bool
all_empty [] = true
all_empty ((t, q) ∷ qs) = is_empty q && all_empty qs

abbrev beside {ℓ} : {A : Type ℓ} → A → Option (A × List A) → Option (A × List A)
beside x none = none
beside x (some (y, ys)) = some (y, x ∷ ys)

-- The `n`-th of a list, and the list without it.
unfoldable pub pick {ℓ} : {A : Type ℓ} → ℕ → List A → Option (A × List A)
pick n [] = none
pick zero (x ∷ xs) = some (x, xs)
pick (suc n) (x ∷ xs) = beside x (pick n xs)

module _ {H : Type 0} where
  -- From the lookup of the queue on: a new queue is made unless the bus is stopped, a full one drops.
  unfoldable pub enqueue : EventBus H → GenericEvent → Option (List GenericEvent) → EventBus H
  enqueue b e none =
      if b.stopped then b else record b { queues = put b.queues e.resource.type (e ∷ []) }
  enqueue b e (some q) =
      if ltb (length q) queue_size
      then record b { queues = put b.queues e.resource.type (q ++ e ∷ []) }
      else b

  -- The event with its number.
  abbrev pub numbered : EventBus H → GenericEvent → GenericEvent
  numbered b e = record e { sequence = b.seq +ℤ pos 1 }

  -- `Publish` up to the test that somebody has subscribed to the type
  unfoldable pub take_number : EventBus H → GenericEvent → EventBus H
  take_number b e =
      let b' = record b { seq = b.seq +ℤ pos 1 } in
      if b.closed
      then b
      else if is_some (get b.type_subs e.resource.type)
      then record b' { in_flight = b.in_flight ++ numbered b e ∷ [] }
      else b'

  -- The rest of `Publish`, for the event that has been picked.
  unfoldable pub enqueue_picked :
      EventBus H → Option (GenericEvent × List GenericEvent) → EventBus H
  unfolding enqueue
  enqueue_picked b none = b
  enqueue_picked b (some (e, rest)) =
      enqueue (record b { in_flight = rest }) e (get b.queues e.resource.type)

  -- The call of `Publish` whose event is the `n`-th of those that have a number goes on.
  unfoldable pub enqueue_nth : EventBus H → ℕ → EventBus H
  unfolding enqueue_picked pick
  enqueue_nth b n = enqueue_picked b (pick n b.in_flight)

  unfoldable pub subscribe : EventBus H → Text → H → EventBus H
  subscribe b t h = record b {
    type_subs = put b.type_subs t (list_or (get b.type_subs t) ++ h ∷ []);
  }

  -- One round of `worker`: the event that it takes, with the handlers that it calls with it, in order.
  unfoldable pub take_event :
      EventBus H
      → Text
      → List GenericEvent
      → List GenericEvent
      → EventBus H × List (List H × GenericEvent)
  take_event b t (e ∷ q) q' =
      (record b { draining = put b.draining t q }, (list_or (get b.type_subs t), e) ∷ [])
  take_event b t [] (e ∷ q) =
      (record b { queues = put b.queues t q }, (list_or (get b.type_subs t), e) ∷ [])
  take_event b t [] [] = (b, [])

  unfoldable pub worker : EventBus H → Text → EventBus H × List (List H × GenericEvent)
  unfolding take_event
  worker b t = take_event b t (list_or (get b.draining t)) (list_or (get b.queues t))

  -- The first half of `Close`, up to the wait. A second call finds no queue in the map.
  unfoldable pub close : EventBus H → EventBus H
  close b =
      if b.closed
      then b
      else record b { closed = true; stopped = true; draining = b.queues; queues = [] }

  -- The second half of `Close`: the wait is over once no worker has an event left.
  unfoldable pub finish : EventBus H → EventBus H
  finish b = if b.closed && all_empty b.draining then record b { type_subs = [] } else b

module _ {H : Type 0} ⦃e : Eq H⦄ where
  unfoldable pub remove_first : List H → H → List H
  remove_first [] h = []
  remove_first (g ∷ gs) h = let rest = remove_first gs h in if g == h then gs else g ∷ rest

  -- Without the handler among them the handlers stay; an entry without handlers stays in the map.
  unfoldable pub drop_handler : EventBus H → Text → H → Option (List H) → EventBus H
  unfolding remove_first
  drop_handler b t h none = b
  drop_handler b t h (some hs) = record b { type_subs = put b.type_subs t (remove_first hs h) }

  unfoldable pub unsubscribe : EventBus H → Text → H → EventBus H
  unfolding drop_handler
  unsubscribe b t h = drop_handler b t h (get b.type_subs t)

-- What publishers, subscribers, workers and the owner of the bus do, one step after the other.
pub data Step (H : Type 0) : Type 0 where
  numbers : GenericEvent → Step H
  enqueues : ℕ → Step H
  subscribes : Text → H → Step H
  unsubscribes : Text → H → Step H
  works : Text → Step H
  closes : Step H
  finishes : Step H

module _ {H : Type 0} ⦃e : Eq H⦄ where
  unfoldable pub step : EventBus H → Step H → EventBus H
  unfolding take_number enqueue_nth subscribe unsubscribe worker close finish
  step b (numbers ev) = take_number b ev
  step b (enqueues n) = enqueue_nth b n
  step b (subscribes t h) = subscribe b t h
  step b (unsubscribes t h) = unsubscribe b t h
  step b (works t) = (worker b t).0
  step b closes = close b
  step b finishes = finish b

  unfoldable pub run : EventBus H → List (Step H) → EventBus H
  unfolding step
  run b [] = b
  run b (s ∷ ss) = run (step b s) ss
