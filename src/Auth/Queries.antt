-- ===== src/Auth/Queries.antt =====
-- BBgrid_Server/auth/auth.go: what the registry is asked.
use bbgrid.Prelude.{
  Bool, true, false, Option, none, some, List, [], ◌∷◌, Text, text_key, ◌==◌, if◌then◌else◌,
}
use bbgrid.GoMap.{GoMap, get, values}
use bbgrid.Auth.Registry.{Status, pending, approved, other, ClientRecord, NamespaceInfo, Registry}

-- `GetByClientID` and `GetNamespace`
abbrev pub get_by_client_id : Registry → Text → Option ClientRecord
get_by_client_id m id = get m.clients id

abbrev pub get_namespace : Registry → Text → Option NamespaceInfo
get_namespace m name = get m.namespaces name

abbrev pub has_status : Status → Status → Bool
has_status pending pending = true
has_status approved approved = true
has_status (other s) (other t) = s == t
has_status _ _ = false

unfoldable pub with_status : Status → List ClientRecord → List ClientRecord
with_status s [] = []
with_status s (r ∷ rs) =
    let rest = with_status s rs in if has_status r.status s then r ∷ rest else rest

-- `GetPending`, `GetApproved` and `ListNamespaces`
abbrev pub get_pending : Registry → List ClientRecord
get_pending m = with_status pending (values m.clients)

abbrev pub get_approved : Registry → List ClientRecord
get_approved m = with_status approved (values m.clients)

abbrev pub list_namespaces : Registry → List NamespaceInfo
list_namespaces m = values m.namespaces

abbrev pub with_found : Option ClientRecord → List ClientRecord → List ClientRecord
with_found none rs = rs
with_found (some r) rs = r ∷ rs

unfoldable pub members : GoMap Text ClientRecord → List Text → List ClientRecord
members clients [] = []
members clients (id ∷ ids) = with_found (get clients id) (members clients ids)

abbrev pub members_of : GoMap Text ClientRecord → Option NamespaceInfo → List ClientRecord
members_of clients none = []
members_of clients (some n) = members clients n.clients

-- `GetClientsByNamespace`
unfoldable pub get_clients_by_namespace : Registry → Text → List ClientRecord
unfolding members
get_clients_by_namespace m name = members_of m.clients (get m.namespaces name)
