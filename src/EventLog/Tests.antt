-- ===== src/EventLog/Tests.antt =====
-- The log of events on concrete events, with a decimal number as the encoding of an event.
use bbgrid.Prelude.{
  ◌≡◌, refl, ◌==◌, Option, none, some, List, [], ◌∷◌, Text, ℤ, pos, ◌+ℤ◌, text_key, if◌then◌else◌,
}
use bbgrid.GoText.{codes}
use bbgrid.Types.{GenericEvent, added, opaque}
use bbgrid.StateStore.Samples.{event}
use bbgrid.EventLog.{EventStore, load_events}
use bbgrid.EventLog.Laws.{append_all, AreReadable, load_events-append_all}

abbrev empty_log : EventStore
empty_log = record { file = []; events = []; sequence = pos 0 }

abbrev first_event : GenericEvent
first_event = event (codes "proxy") (codes "a:80") added opaque

abbrev stamped_event : GenericEvent
stamped_event = record first_event { sequence = pos 1; timestamp = pos 1000 }

abbrev marshal : GenericEvent → Option Text
marshal e = some (codes "{}")

abbrev unmarshal : Text → Option GenericEvent
unmarshal line = if line == codes "{}" then some stamped_event else none

abbrev entries : List (GenericEvent × ℤ)
entries = (first_event, pos 1000) ∷ []

entries-AreReadable : AreReadable marshal unmarshal empty_log entries
unfolding AreReadable ◌+ℤ◌
entries-AreReadable = (
  record {
    first = 123;
    more = 125 ∷ [];
    marshals = refl;
    one_line = (refl, (refl, tt));
    unmarshals = refl;
  },
  tt,
)

load_events-append_all_example :
    load_events marshal unmarshal (append_all marshal unmarshal empty_log entries).file
    ≡ append_all marshal unmarshal empty_log entries
load_events-append_all_example =
    load_events-append_all marshal unmarshal entries entries-AreReadable
