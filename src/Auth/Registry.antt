-- ===== src/Auth/Registry.antt =====
-- BBgrid_Server/auth/auth.go: the registry of clients and the namespaces. The clock, the outcome of the
-- write and what a signature draws on (its serial number and the time) are arguments.
use bbgrid.Prelude.{
  Option, none, some, List, [], ◌∷◌, Text, ℤ, pos, text_key, if◌then◌else◌, is_some,
}
use bbgrid.GoText.{codes}
use bbgrid.GoMap.{GoMap, get, put, delete}
use bbgrid.Auth.Disk.{WriteOutcome, write_file, writes, loaded}

pub data Status : Type 0 where
  pending approved : Status
  -- any other string
  other : Text → Status

pub record ClientRecord : Type 0 where
  pub client_id : Text
  pub public_key : Text
  pub certificate : Text
  pub status : Status
  pub namespace : Text
  pub role : Text
  pub created_at : ℤ
  pub approved_at : ℤ

pub record NamespaceInfo : Type 0 where
  pub name : Text
  pub description : Text
  pub type : Text
  pub clients : List Text
  pub created_at : ℤ

pub record Registry : Type 0 where
  pub clients : GoMap Text ClientRecord
  pub namespaces : GoMap Text NamespaceInfo
  -- what registry.json decodes to
  pub file : Option (GoMap Text ClientRecord)

pub data AuthError : Type 0 where
  already_exists not_found sign_failed save_failed no_namespace : AuthError
  already : Status → AuthError

pub data Reply (A : Type 0) : Type 0 where
  ok : A → Reply A
  failed : AuthError → Reply A

-- `saveRegistry`
unfoldable pub save_registry : Registry → WriteOutcome → Registry
save_registry m o = record m { file = write_file m.file m.clients o }

abbrev pub after_save : {A : Type 0} → A → WriteOutcome → Reply A
after_save a o = if writes o then ok a else failed save_failed

abbrev pub add_namespace : GoMap Text NamespaceInfo → Text → Text → ℤ → GoMap Text NamespaceInfo
add_namespace ns name desc now =
    if is_some (get ns name)
    then ns
    else put ns name (record {
      name = name;
      description = desc;
      type = codes "system";
      clients = [];
      created_at = now;
    })

-- `initDefaultNamespaces`
unfoldable pub init_namespaces :
    GoMap Text NamespaceInfo → List (Text × Text) → ℤ → GoMap Text NamespaceInfo
init_namespaces ns [] now = ns
init_namespaces ns ((name, desc) ∷ defaults) now =
    init_namespaces (add_namespace ns name desc now) defaults now

-- The descriptions, in UTF-8.
abbrev temporary_description : Text
temporary_description =
    228 ∷ 184 ∷ 180 ∷ 230 ∷ 151 ∷ 182 ∷ 229 ∷ 174 ∷ 162 ∷ 230 ∷ 136 ∷ 183 ∷ 231 ∷ 171 ∷ 175 ∷ []

abbrev permanent_description : Text
permanent_description =
    230 ∷ 176 ∷ 184 ∷ 228 ∷ 185 ∷ 133 ∷ 229 ∷ 174 ∷ 162 ∷ 230 ∷ 136 ∷ 183 ∷ 231 ∷ 171 ∷ 175 ∷ []

abbrev mediated_description : Text
mediated_description =
    228 ∷ 184 ∷ 173 ∷ 231 ∷ 187 ∷ 167 ∷ 229 ∷ 174 ∷ 162 ∷ 230 ∷ 136 ∷ 183 ∷ 231 ∷ 171 ∷ 175 ∷ []

abbrev pub default_namespaces : List (Text × Text)
default_namespaces =
    (codes "temporary", temporary_description)
    ∷ (codes "permanent", permanent_description)
    ∷ (codes "mediated", mediated_description)
    ∷ []

-- `Init` of a new manager, as far as the registry goes; namespaces are on no file.
unfoldable pub init_registry : Option (GoMap Text ClientRecord) → ℤ → Registry
init_registry file now = record {
  clients = loaded file;
  namespaces = init_namespaces [] default_namespaces now;
  file = file;
}

abbrev pub application : Text → Text → ℤ → ClientRecord
application id key now = record {
  client_id = id;
  public_key = key;
  certificate = [];
  status = pending;
  namespace = codes "permanent";
  role = codes "node";
  created_at = now;
  approved_at = pos 0;
}

-- `AddApplication`: a failed save takes the client out again.
unfoldable pub add_application : Registry → Text → Text → ℤ → WriteOutcome → Registry × Reply Unit
unfolding save_registry
add_application m id key now o =
    let m' = save_registry (record m { clients = put m.clients id (application id key now) }) o in
    if is_some (get m.clients id)
    then (m, failed already_exists)
    else if writes o
    then (m', ok tt)
    else (record m' { clients = delete m'.clients id }, failed save_failed)

unfoldable pub update_found :
    Registry → Text → Text → WriteOutcome → Option ClientRecord → Registry × Reply Unit
unfolding save_registry
update_found m id key o none = (m, failed not_found)
update_found m id key o (some r) = (
  save_registry
      (record m {
        clients =
            put m.clients id (record r { public_key = key; certificate = []; status = pending });
      })
      o,
  after_save tt o,
)

-- `UpdatePublicKey`
unfoldable pub update_public_key : Registry → Text → Text → WriteOutcome → Registry × Reply Unit
unfolding update_found
update_public_key m id key o = update_found m id key o (get m.clients id)

unfoldable pub reset_found : Registry → Text → WriteOutcome → Option ClientRecord → Registry
unfolding save_registry
reset_found m id o none = m
reset_found m id o (some r) =
    save_registry
      (record m { clients = put m.clients id (record r { status = pending; certificate = [] }) }) o

-- `ResetClientStatus`
unfoldable pub reset_client_status : Registry → Text → WriteOutcome → Registry
unfolding reset_found
reset_client_status m id o = reset_found m id o (get m.clients id)
