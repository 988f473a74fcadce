-- ===== src/EventBus/Tests.antt =====
-- The event bus on concrete runs. Handlers are numbers.
use bbgrid.Prelude.{◌≡◌, refl, ℕ, List, [], ◌∷◌, ◌++◌, Text, nat_key, text_key, pos, ◌+ℤ◌, map}
use bbgrid.GoText.{codes}
use bbgrid.GoMap.{get, put}
use bbgrid.Types.{GenericEvent, added, opaque}
use bbgrid.StateStore.Samples.{event}
use bbgrid.EventBus.{
  new_event_bus, Step, numbers, enqueues, subscribes, works, worker, closes, finishes, step, run,
}
use bbgrid.EventBus.Laws.{pending, accepted, delivered, fifo}

abbrev proxy_event : Text → GenericEvent
proxy_event name = event (codes "proxy") name added opaque

-- Two calls of `Publish` have taken their numbers when the second gets to the queue first.
abbrev session : List (Step ℕ)
session =
    numbers (proxy_event (codes "lost"))
    ∷ subscribes (codes "proxy") 7
    ∷ numbers (proxy_event (codes "a:80"))
    ∷ numbers (proxy_event (codes "b:22"))
    ∷ enqueues 1
    ∷ enqueues 0
    ∷ works (codes "proxy")
    ∷ numbers (proxy_event (codes "in time"))
    ∷ closes
    ∷ enqueues 0
    ∷ numbers (proxy_event (codes "late"))
    ∷ works (codes "proxy")
    ∷ finishes
    ∷ []

-- The first event had no subscriber, but a number; the next two are handled in the wrong order; the one
-- after them is dropped since its queue has been closed; and the last came after the close.
numbers_taken :
    map
      (λ (ev : GenericEvent). ev.sequence)
      (delivered (codes "proxy") (new_event_bus {H = ℕ}) session)
    ≡ pos 3 ∷ pos 2 ∷ []
unfolding delivered worker get step put ◌+ℤ◌
numbers_taken = refl

fifo_example :
    delivered (codes "proxy") (new_event_bus {H = ℕ}) session
      ++ pending (run (new_event_bus {H = ℕ}) session) (codes "proxy")
    ≡ pending (new_event_bus {H = ℕ}) (codes "proxy")
      ++ accepted (codes "proxy") (new_event_bus {H = ℕ}) session
fifo_example = fifo new_event_bus session (codes "proxy") (λ open_bus. refl)
