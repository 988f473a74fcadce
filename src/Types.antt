-- ===== src/Types.antt =====
-- The data of the control plane: common/proto/event.go and BBgrid_Server/runtime/types.go. Go's
-- `int`, `int64` and times are integers, a string is its bytes, a live connection is a handle, and
-- the dynamic values of type `any` are those that the runtime tells apart by a type assertion.
use bbgrid.Prelude.{ℕ, Bool, Text, ℤ}
use bbgrid.GoMap.{GoMap}

pub record ResourceKey : Type 0 where
  pub type : Text
  pub namespace : Text
  pub name : Text

pub data EventType : Type 0 where
  added modified deleted : EventType
  -- any other string
  unknown : Text → EventType

pub record ProxyState : Type 0 where
  pub client_id : Text
  pub remote_port : ℤ
  pub local_port : ℤ
  pub local_ip : Text
  pub protocol : Text
  pub bind_addr : Text

pub record ProxyInfo : Type 0 where
  pub client_id : Text
  pub remote_port : ℤ
  pub local_port : ℤ
  pub local_ip : Text
  pub protocol : Text
  pub bind_addr : Text
  pub public_addr : Text

pub record ProxyDesiredState : Type 0 where
  pub client_id : Text
  pub remote_port : ℤ
  pub local_port : ℤ
  pub local_ip : Text
  pub protocol : Text
  pub bind_addr : Text

pub record ClientInfo : Type 0 where
  pub id : Text
  pub remote_addr : Text
  pub connected_at : ℤ
  pub proxy_count : ℕ
  pub host : Text
  pub online : Bool

pub record RelaySession : Type 0 where
  pub id : Text
  pub source_client : Text
  pub target_client : Text
  pub protocol : Text
  pub source_port : ℤ
  pub target_port : ℤ
  pub target_local_ip : Text
  pub source_local_ip : Text
  pub token : Text
  pub created_at : ℤ
  pub status : Text
  pub error : Text

pub record RelayDesiredState : Type 0 where
  pub id : Text
  pub source_client : Text
  pub target_client : Text
  pub protocol : Text
  pub source_port : ℤ
  pub target_port : ℤ
  pub target_local_ip : Text
  pub source_local_ip : Text
  pub token : Text

mutual
  pub data Any : Type 0 where
    string : Text → Any
    int64 : ℤ → Any
    -- a float64 is only ever converted: this is the integer that `int(v)` gives
    float64 : ℤ → Any
    -- map[string]any
    object : Fields → Any
    proxy_state : ProxyState → Any
    relay_session : RelaySession → Any
    -- map[string]ProxyDesiredState and map[string]RelayDesiredState
    proxy_map : GoMap Text ProxyDesiredState → Any
    relay_map : GoMap Text RelayDesiredState → Any
    -- nil, and every type that no assertion names
    opaque : Any

  pub data Fields : Type 0 where
    nil : Fields
    field : Text → Any → Fields → Fields

pub record GenericEvent : Type 0 where
  pub id : Text
  pub sequence : ℤ
  pub timestamp : ℤ
  pub version : ℤ
  pub generation : ℤ
  pub resource : ResourceKey
  pub event_type : EventType
  pub payload : Any
