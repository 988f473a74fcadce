-- ===== src/Session/Protocol/Laws.antt =====
-- BBgrid_Server/session/server.go: what a session does not do.
use bbgrid.Prelude.{
  ℕ, ◌+◌, ◌≡◌, Bool, true, false, not, Option, none, some, List, [], ◌∷◌, Text, text_key, ◌==◌,
  if◌then◌else◌,
}
use bbgrid.GoText.{codes}
use bbgrid.Types.{EventType, added, modified, deleted, unknown, Fields, GenericEvent}
use bbgrid.StateStore.Apply.{string_field}
use bbgrid.Session.Messages.{WsMessage}
use bbgrid.Session.Protocol.{Session, Hub, as_object}

abbrev pub is_added : EventType → Bool
is_added added = true
is_added modified = false
is_added deleted = false
is_added (unknown t) = false

unfoldable pub added_in : List GenericEvent → ℕ
added_in [] = 0
added_in (e ∷ es) = (if is_added e.event_type then 1 else 0) + added_in es

-- Nothing of the registration is different.
pub record SameRegistration (a b : Session × Hub) : Type 0 where
  pub client_id : b.0.client_id ≡ a.0.client_id
  pub registered : b.0.registered ≡ a.0.registered
  pub store : b.1.store ≡ a.1.store
  pub registry : b.1.registry ≡ a.1.registry
  pub added : added_in b.1.published ≡ added_in a.1.published

-- The token that a message carries.
abbrev pub token_of : Option Fields → Text
token_of none = []
token_of (some fs) = string_field fs (codes "token")

abbrev pub lacks_token : Text → WsMessage → Bool
lacks_token client_token m = not (token_of (as_object m.payload) == client_token)
