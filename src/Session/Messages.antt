-- ===== src/Session/Messages.antt =====
-- BBgrid_Server/session/server.go and common/model/message.go: the messages between a session and its
-- client, and the events of clients.
use bbgrid.Prelude.{ℕ, suc, ◌/◌, Bool, Text, ℤ, pos, negsuc, ◌-ℤ◌, ltb_ℤ, text_key, if◌then◌else◌}
use bbgrid.GoText.{codes}
use bbgrid.Types.{
  ResourceKey, added, modified, deleted, Any, string, int64, object, opaque, nil, field,
  GenericEvent,
}
use bbgrid.ResourceKey.{new_generic_event}
use bbgrid.Auth.Disk.{WriteOutcome}

-- `CommandData`, with the fields that the server fills
pub record ProxyCommand : Type 0 where
  pub remote_port : ℤ
  pub local_port : ℤ
  pub local_ip : Text
  pub protocol : Text
  pub bind_addr : Text
  pub server_host : Text
  pub tunnel_port : ℤ

-- The data of a relay_signal.
pub record RelaySignal : Type 0 where
  pub session_id : Text
  pub protocol : Text
  pub role : Text
  pub peer_client_id : Text
  pub source_port : ℤ
  pub target_port : ℤ
  pub target_local_ip : Text
  pub source_local_ip : Text
  pub server_host : Text
  pub token : Text

-- The messages to the client.
pub data Outgoing : Type 0 where
  proxy_command : ProxyCommand → Outgoing
  relay_signal : RelaySignal → Outgoing
  proxy_closed : Text → Outgoing
  error_data : ℕ → Text → Outgoing
  registered_data : Text → Text → Outgoing

-- `WSMessage`, decoded
pub record WsMessage : Type 0 where
  pub type : Text
  pub payload : Any

-- What a call is given besides its message. The clock counts nanoseconds.
pub record Call : Type 0 where
  pub now : ℤ
  pub now_unix : ℤ
  pub now_milli : ℤ
  pub event_id : Text
  pub outcome : WriteOutcome
  pub taken : Bool

abbrev pub client_key : Text → ResourceKey
client_key id = record { type = codes "client"; namespace = codes "default"; name = id }

-- `newClientEvent`
abbrev pub new_client_event : Call → Text → Text → Text → GenericEvent
new_client_event c id remote_addr host =
    new_generic_event c.event_id c.now_milli (client_key id) added (
      object
        (field (codes "remote_addr") (string remote_addr) (field (codes "host") (string host) nil)))

-- `Milliseconds` of a duration: the quotient is cut towards zero.
unfoldable pub in_milliseconds : ℤ → ℤ
in_milliseconds (pos n) = pos (n / 1_000_000)
in_milliseconds (negsuc n) = pos 0 -ℤ pos (suc n / 1_000_000)

-- `newClientModifiedEvent`
abbrev pub new_client_modified_event : Call → Text → ℤ → GenericEvent
new_client_modified_event c id latency =
    new_generic_event c.event_id c.now_milli (client_key id) modified
      (object (field (codes "latency") (int64 (in_milliseconds latency)) nil))

-- `newClientDeletedEvent`
abbrev pub new_client_deleted_event : Call → Text → GenericEvent
new_client_deleted_event c id =
    new_generic_event c.event_id c.now_milli (client_key id) deleted opaque

-- `time.Since`, which saturates in an int64.
unfoldable pub since : ℤ → ℤ → ℤ
since now t =
    let d = now -ℤ t in
    if ltb_ℤ (pos 9_223_372_036_854_775_807) d
    then pos 9_223_372_036_854_775_807
    else if ltb_ℤ d (negsuc 9_223_372_036_854_775_807)
    then negsuc 9_223_372_036_854_775_807
    else d
