-- ===== src/Auth/Approval.antt =====
-- BBgrid_Server/auth/auth.go: the calls that change who belongs to a namespace: Delete, SetClientNamespace
-- and Approve.
use bbgrid.Prelude.{
  ℕ, Bool, true, false, Option, none, some, List, [], ◌∷◌, ◌++◌, Text, ℤ, text_key, ◌==◌,
  if◌then◌else◌, is_some,
}
use bbgrid.GoMap.{GoMap, get, put, delete}
use bbgrid.Auth.Disk.{WriteOutcome}
use bbgrid.Auth.Registry.{
  Status, pending, approved, other, ClientRecord, NamespaceInfo, Registry, not_found, sign_failed,
  no_namespace, already, Reply, failed, save_registry, after_save,
}

unfoldable pub remove_first : Text → List Text → List Text
remove_first id [] = []
remove_first id (i ∷ is) = let rest = remove_first id is in if i == id then is else i ∷ rest

-- `if ns, ok := m.namespaces[name]; ok { … }`
unfoldable pub change_found :
    (List Text → List Text)
    → GoMap Text NamespaceInfo
    → Text
    → Option NamespaceInfo
    → GoMap Text NamespaceInfo
change_found f ns name none = ns
change_found f ns name (some n) = put ns name (record n { clients = f n.clients })

abbrev pub change_members :
    (List Text → List Text) → GoMap Text NamespaceInfo → Text → GoMap Text NamespaceInfo
change_members f ns name = change_found f ns name (get ns name)

abbrev pub enlist : GoMap Text NamespaceInfo → Text → Text → GoMap Text NamespaceInfo
enlist ns name id = change_members (λ ids. ids ++ id ∷ []) ns name

abbrev pub strike : GoMap Text NamespaceInfo → Text → Text → GoMap Text NamespaceInfo
strike ns name id = change_members (remove_first id) ns name

unfoldable pub delete_found : Registry → Text → WriteOutcome → Option ClientRecord → Registry × Bool
unfolding save_registry
delete_found m id o none = (m, false)
delete_found m id o (some r) = (
  save_registry
      (record m { clients = delete m.clients id; namespaces = strike m.namespaces r.namespace id })
      o,
  true,
)

-- `Delete`
unfoldable pub delete_client : Registry → Text → WriteOutcome → Registry × Bool
unfolding delete_found
delete_client m id o = delete_found m id o (get m.clients id)

unfoldable pub move_found :
    Registry → Text → Text → Text → WriteOutcome → Option ClientRecord → Registry × Reply Unit
unfolding save_registry
move_found m id name role o none = (m, failed not_found)
move_found m id name role o (some r) =
    let moved = record m {
      clients = put m.clients id (record r { namespace = name; role = role });
      namespaces = enlist (strike m.namespaces r.namespace id) name id;
    } in
    if is_some (get m.namespaces name)
    then (save_registry moved o, after_save tt o)
    else (m, failed no_namespace)

-- `SetClientNamespace`
unfoldable pub set_client_namespace :
    Registry → Text → Text → Text → WriteOutcome → Registry × Reply Unit
unfolding move_found
set_client_namespace m id name role o = move_found m id name role o (get m.clients id)

-- `signClientCertificate` is a parameter: of a draw, the public key and the client.
module _ (sign : ℕ → Text → Text → Option Text) where
  abbrev pub approval : ClientRecord → Text → Text → Text → ℤ → ClientRecord
  approval r certificate name role now = record r {
    status = approved;
    certificate = certificate;
    namespace = name;
    role = role;
    approved_at = now;
  }

  unfoldable pub approve_signed :
      Registry
      → Text
      → Text
      → Text
      → ℤ
      → WriteOutcome
      → ClientRecord
      → Option Text
      → Registry × Reply Text
  unfolding save_registry
  approve_signed m id name role now o r none = (m, failed sign_failed)
  approve_signed m id name role now o r (some certificate) = (
    save_registry
        (record m {
          clients = put m.clients id (approval r certificate name role now);
          namespaces = enlist m.namespaces name id;
        })
        o,
    after_save certificate o,
  )

  unfoldable pub approve_status :
      Registry
      → Text
      → Text
      → Text
      → ℕ
      → ℤ
      → WriteOutcome
      → ClientRecord
      → Status
      → Registry × Reply Text
  unfolding approve_signed
  approve_status m id name role draw now o r pending =
      approve_signed m id name role now o r (sign draw r.public_key id)
  approve_status m id name role draw now o r approved = (m, failed (already approved))
  approve_status m id name role draw now o r (other s) = (m, failed (already (other s)))

  unfoldable pub approve_found :
      Registry
      → Text
      → Text
      → Text
      → ℕ
      → ℤ
      → WriteOutcome
      → Option ClientRecord
      → Registry × Reply Text
  unfolding approve_status
  approve_found m id name role draw now o none = (m, failed not_found)
  approve_found m id name role draw now o (some r) =
      approve_status m id name role draw now o r r.status

  -- `Approve`
  unfoldable pub approve :
      Registry → Text → Text → Text → ℕ → ℤ → WriteOutcome → Registry × Reply Text
  unfolding approve_found
  approve m id name role draw now o = approve_found m id name role draw now o (get m.clients id)
