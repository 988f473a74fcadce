-- ===== src/Session/Protocol.antt =====
-- BBgrid_Server/session/server.go: what a session makes of the messages of its client, and its end. The
-- session shares the state store, the registry and the bus with the others; the clock, the identifiers,
-- the outcome of a write to the registry and whether the queue took a reply in time are arguments.
pub mod Laws
pub mod Lifecycle
use bbgrid.Session.Messages.{
  ProxyCommand, RelaySignal, Outgoing, WsMessage, Call, client_key, new_client_event,
  in_milliseconds, new_client_modified_event, new_client_deleted_event, since, proxy_command,
  relay_signal, proxy_closed, error_data, registered_data,
}
use bbgrid.Prelude.{
  ℕ, suc, ◌/◌, ◌++◌, Bool, true, false, ◌&&◌, ◌||◌, not, Option, none, some, List, [], ◌∷◌, Text, ℤ,
  pos, negsuc, ◌-ℤ◌, ltb_ℤ, text_key, ◌==◌, if◌then◌else◌,
}
use bbgrid.GoText.{codes}
use bbgrid.Types.{
  ResourceKey, EventType, added, modified, deleted, Any, string, int64, object, opaque, Fields, nil,
  field, GenericEvent,
}
use bbgrid.ResourceKey.{new_generic_event}
use bbgrid.StateStore.{StateStore, set_client_conn}
use bbgrid.StateStore.Apply.{lookup, as_string, string_field}
use bbgrid.Auth.Disk.{WriteOutcome}
use bbgrid.Auth.Registry.{Registry}
use bbgrid.Auth.Approval.{set_client_namespace}

-- `connectedAt` is left out: nothing reads it.
pub record Session : Type 0 where
  pub client_id : Text
  -- the connection, by its handle
  pub conn : ℕ
  -- what went into `send`
  pub send : List Outgoing
  -- whether `done` and `registered` are closed
  pub done : Bool
  pub registered : Bool
  pub is_temp : Bool
  pub remote_addr : Text
  pub host : Text
  pub last_ping_at : ℤ
  pub latency : ℤ

abbrev pub new_session : ℕ → Text → Bool → Text → Session
new_session conn client_id is_temp remote_addr = record {
  client_id = client_id;
  conn = conn;
  send = [];
  done = false;
  registered = false;
  is_temp = is_temp;
  remote_addr = remote_addr;
  host = [];
  last_ping_at = pos 0;
  latency = pos 0;
}

-- What the sessions share: the state store of Core, the registry, and the events published in order.
pub record Hub : Type 0 where
  pub store : StateStore
  pub registry : Registry
  pub published : List GenericEvent

abbrev pub publish : Hub → GenericEvent → Hub
publish h e = record h { published = h.published ++ e ∷ [] }

-- `WriteJSON`: the message is dropped where the queue stays full for three seconds.
abbrev pub write_json : Session → Outgoing → Bool → Session
write_json s m taken = if taken then record s { send = s.send ++ m ∷ [] } else s

-- The end of both registrations.
unfoldable pub announce : Session → Hub → Text → Text → Call → Session × Hub
announce s h host ns c =
    let event = new_client_event c s.client_id s.remote_addr host in
    let store = set_client_conn h.store s.client_id (some s.conn) c.now_unix in
    let registry = (set_client_namespace h.registry s.client_id ns (codes "node") c.outcome).0 in
    (
      record (write_json s (registered_data s.client_id store.public_ip) c.taken) {
        registered = true;
      },
      record (publish h event) { store = store; registry = registry },
    )

abbrev pub refuse : Session → Hub → ℕ → Text → Call → Session × Hub
refuse s h code message c = (write_json s (error_data code message) c.taken, h)

-- `data.(map[string]any)`
abbrev pub as_object : Any → Option Fields
as_object (object fs) = some fs
as_object _ = none

-- The certificate names another client.
unfoldable pub mismatches : Session → Text → Bool
mismatches s client_id =
    not s.is_temp && (not (s.client_id == []) && not (s.client_id == client_id))

-- `client_token` is the token of the configuration; `parse_time` is `time.Parse` in nanoseconds.
module _ (client_token : Text) (parse_time : Text → Option ℤ) where
  -- `ValidateClientToken`
  abbrev pub validate_client_token : Text → Bool
  validate_client_token token = token == client_token

  unfoldable pub register_fields : Session → Hub → Fields → Call → Session × Hub
  unfolding announce mismatches
  register_fields s h fs c =
      let token = string_field fs (codes "token") in
      let client_id = string_field fs (codes "client_id") in
      if token == [] || client_id == []
      then refuse s h 400 (codes "missing token or client_id") c
      else if not (validate_client_token token)
      then refuse s h 401 (codes "invalid token") c
      else if mismatches s client_id
      then refuse s h 403 (codes "client_id does not match certificate") c
      else (let host = string_field fs (codes "host") in
          announce (record s { client_id = client_id; host = host }) h host
            (if s.is_temp then codes "temporary" else codes "permanent") c)

  -- `handleRegister`
  unfoldable pub handle_register : Session → Hub → Option Fields → Call → Session × Hub
  unfolding register_fields
  handle_register s h (some fs) c = register_fields s h fs c
  handle_register s h none c = (s, h)

  unfoldable pub temp_fields : Session → Hub → Fields → Call → Session × Hub
  unfolding announce
  temp_fields s h fs c =
      let token = string_field fs (codes "token") in
      let client_id = string_field fs (codes "client_id") in
      if token == [] || client_id == []
      then refuse s h 400 (codes "missing token or client_id") c
      else if not (validate_client_token token)
      then refuse s h 401 (codes "invalid token") c
      else announce (record s { client_id = client_id }) h [] (codes "temporary") c

  -- `handleTempRegister`
  unfoldable pub handle_temp_register : Session → Hub → Option Fields → Call → Session × Hub
  unfolding temp_fields
  handle_temp_register s h (some fs) c = temp_fields s h fs c
  handle_temp_register s h none c = (s, h)

  abbrev pub then_parse : Option Text → Option ℤ
  then_parse none = none
  then_parse (some t) = parse_time t

  unfoldable pub pong_at : Session → Hub → Option ℤ → Call → Session × Hub
  unfolding since
  pong_at s h none c = (s, h)
  pong_at s h (some t) c =
      let s' = record s { latency = since c.now t; last_ping_at = c.now } in
      (s', publish h (new_client_modified_event c s'.client_id s'.latency))

  -- `handlePong`
  unfoldable pub handle_pong : Session → Hub → Option Fields → Call → Session × Hub
  unfolding pong_at
  handle_pong s h (some fs) c =
      pong_at s h (then_parse (as_string (lookup fs (codes "timestamp")))) c
  handle_pong s h none c = (s, h)

  -- `handleMessage`
  unfoldable pub handle_message : Session → Hub → WsMessage → Call → Session × Hub
  unfolding handle_register handle_temp_register handle_pong
  handle_message s h m c =
      if m.type == codes "register"
      then handle_register s h (as_object m.payload) c
      else if m.type == codes "temp_register"
      then handle_temp_register s h (as_object m.payload) c
      else if m.type == codes "pong"
      then handle_pong s h (as_object m.payload) c
      else (s, h)

  -- The loop of `readPump` over the messages that can be decoded.
  unfoldable pub read_pump : Session → Hub → List (WsMessage × Call) → Session × Hub
  unfolding handle_message
  read_pump s h [] = (s, h)
  read_pump s h ((m, c) ∷ ms) = let (s', h') = handle_message s h m c in read_pump s' h' ms

abbrev pub closed_hub : Session → Hub → Call → Hub
closed_hub s h c =
    if s.client_id == [] then h else publish h (new_client_deleted_event c s.client_id)

-- `Close`, whose body runs once
unfoldable pub close : Session → Hub → Call → Session × Hub
close s h c = if s.done then (s, h) else (record s { done = true }, closed_hub s h c)
