-- ===== src/ResourceKey.antt =====
-- common/proto/event.go: the text of a resource key and its parser, and the constructors of events.
pub mod Laws
use bbgrid.Prelude.{
  Bool, ◌||◌, Option, none, some, List, [], ◌∷◌, ◌++◌, Text, ℤ, pos, nat_eq, ◌==◌, text_key,
  if◌then◌else◌,
}
use bbgrid.GoText.{codes}
use bbgrid.Types.{ResourceKey, EventType, Any, GenericEvent}

abbrev pub slash : Text
slash = b'/' ∷ []

-- `String()`
unfoldable pub key_string : ResourceKey → Text
key_string k =
    if k.namespace == []
    then k.type ++ b'/' ∷ k.name
    else k.type ++ b'/' ∷ (k.namespace ++ b'/' ∷ k.name)

-- The text before the first slash, and what comes after it if there is one.
unfoldable pub cut : Text → Text × Option Text
cut [] = ([], none)
cut (b ∷ bs) =
    let (head, tail) = cut bs in if nat_eq b b'/' then ([], some bs) else (b ∷ head, tail)

-- The parts of `strings.SplitN(s, "/", 3)`, which are accepted if there are three and none is empty.
unfoldable pub parse_parts : Text → Text → Option Text → Option ResourceKey
parse_parts type namespace none = none
parse_parts type namespace (some name) =
    if type == [] || (namespace == [] || name == [])
    then none
    else some (record { type = type; namespace = namespace; name = name })

unfoldable pub parse_rest : Text → Option Text → Option ResourceKey
unfolding parse_parts cut
parse_rest type none = none
parse_rest type (some rest) = parse_parts type (cut rest).0 (cut rest).1

-- `ParseResourceKey`
unfoldable pub parse_resource_key : Text → Option ResourceKey
unfolding parse_rest cut
parse_resource_key s = parse_rest (cut s).0 (cut s).1

-- `NewGenericEvent`; the identifier and the time are arguments.
abbrev pub new_generic_event : Text → ℤ → ResourceKey → EventType → Any → GenericEvent
new_generic_event id now resource t payload = record {
  id = id;
  sequence = pos 0;
  timestamp = now;
  version = pos 0;
  generation = pos 0;
  resource = resource;
  event_type = t;
  payload = payload;
}

abbrev pub with_version : GenericEvent → ℤ → GenericEvent
with_version e version = record e { version = version }

abbrev pub with_generation : GenericEvent → ℤ → GenericEvent
with_generation e generation = record e { generation = generation }
