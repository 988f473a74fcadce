-- ===== src/EventLog.antt =====
-- common/store/event.go: the log of events. The file is the bytes that were written to it, which the
-- next start reads; encoding/json and the outcome of each write are parameters.
pub mod Laws
mod Tests
use bbgrid.Prelude.{
  ℕ, ◌+◌, Bool, true, false, not, ◌&&◌, ◌||◌, Option, none, some, List, [], ◌∷◌, ◌++◌, Text, ℤ, pos,
  ◌+ℤ◌, ltb_ℤ, ◌==◌, text_key, int_key, if◌then◌else◌, nat_eq, length, take,
}
use bbgrid.GoText.{codes}
use bbgrid.Types.{GenericEvent, EventType, added, modified, deleted, unknown}

pub record EventStore : Type 0 where
  pub file : Text
  pub events : List GenericEvent
  pub sequence : ℤ

abbrev pub newline : ℕ
newline = 10

-- How the write of one line ends: the line on disk, a part of it written, or all of it but not synced.
pub data Outcome : Type 0 where
  stored sync_error : Outcome
  write_error : ℕ → Outcome

pub data AppendError : Type 0 where
  marshal_failed write_failed sync_failed : AppendError

-- The event as it is written.
abbrev pub stamped : EventStore → GenericEvent → ℤ → GenericEvent
stamped s e now = record e {
  sequence = s.sequence +ℤ pos 1;
  timestamp = if e.timestamp == pos 0 then now else e.timestamp;
}

abbrev pub next : EventStore → EventStore
next s = record s { sequence = s.sequence +ℤ pos 1 }

unfoldable pub write_line :
    EventStore → GenericEvent → Text → Outcome → EventStore × Option AppendError
write_line s e line stored =
    (record s { file = s.file ++ (line ++ newline ∷ []); events = s.events ++ e ∷ [] }, none)
write_line s e line sync_error =
    (record s { file = s.file ++ (line ++ newline ∷ []) }, some sync_failed)
write_line s e line (write_error n) =
    (record s { file = s.file ++ take n (line ++ newline ∷ []) }, some write_failed)

unfoldable pub write_marshalled :
    EventStore → GenericEvent → Option Text → Outcome → EventStore × Option AppendError
unfolding write_line
write_marshalled s e none w = (s, some marshal_failed)
write_marshalled s e (some line) w = write_line s e line w

-- `splitLines`; `start` is the line that is being read.
abbrev pub rest_of_line : Text → List Text
rest_of_line [] = []
rest_of_line (b ∷ bs) = (b ∷ bs) ∷ []

unfoldable pub split_from : Text → Text → List Text
split_from start [] = rest_of_line start
split_from start (b ∷ bs) =
    let cut = split_from [] bs in
    let longer = split_from (start ++ b ∷ []) bs in if nat_eq b newline then start ∷ cut else longer

unfoldable pub split_lines : Text → List Text
unfolding split_from
split_lines bytes = split_from [] bytes

module _ (marshal : GenericEvent → Option Text) (unmarshal : Text → Option GenericEvent) where
  unfoldable pub append : EventStore → GenericEvent → ℤ → Outcome → EventStore × Option AppendError
  unfolding write_marshalled
  append s e now w = write_marshalled (next s) (stamped s e now) (marshal (stamped s e now)) w

  -- An event of the file joins the events in memory, and the highest number is kept.
  unfoldable pub load_event : EventStore → Option GenericEvent → EventStore
  load_event s none = s
  load_event s (some e) = record s {
    events = s.events ++ e ∷ [];
    sequence = if ltb_ℤ s.sequence e.sequence then e.sequence else s.sequence;
  }

  unfoldable pub load_lines : EventStore → List Text → EventStore
  unfolding load_event
  load_lines s [] = s
  load_lines s ([] ∷ lines) = load_lines s lines
  load_lines s ((b ∷ bs) ∷ lines) = load_lines (load_event s (unmarshal (b ∷ bs))) lines

  -- `NewEventStore` on a directory that holds one file.
  unfoldable pub load_events : Text → EventStore
  unfolding load_lines split_lines
  load_events file =
      load_lines (record { file = file; events = []; sequence = pos 0 }) (split_lines file)

pub record EventFilter : Type 0 where
  pub resource_type : Text
  pub namespace : Text
  pub event_type : Text
  pub start_time : ℤ
  pub end_time : ℤ

abbrev pub event_type_text : EventType → Text
event_type_text added = codes "ADDED"
event_type_text modified = codes "MODIFIED"
event_type_text deleted = codes "DELETED"
event_type_text (unknown t) = t

-- A field of the filter that is empty matches everything.
unfoldable pub matches : EventFilter → GenericEvent → Bool
matches f e =
    if not (f.resource_type == []) && not (e.resource.type == f.resource_type)
    then false
    else if not (f.namespace == []) && not (e.resource.namespace == f.namespace)
    then false
    else if not (f.event_type == []) && not (event_type_text e.event_type == f.event_type)
    then false
    else if ltb_ℤ (pos 0) f.start_time && ltb_ℤ e.timestamp f.start_time
    then false
    else if ltb_ℤ (pos 0) f.end_time && ltb_ℤ f.end_time e.timestamp
    then false
    else true

unfoldable pub query_from : EventFilter → List GenericEvent → List GenericEvent
unfolding matches
query_from f [] = []
query_from f (e ∷ es) = let rest = query_from f es in if matches f e then e ∷ rest else rest

unfoldable pub query : EventStore → EventFilter → List GenericEvent
unfolding query_from
query s f = query_from f s.events

abbrev pub count : EventStore → ℕ
count s = length s.events
