-- ===== src/Auth/Restart.antt =====
-- BBgrid_Server/auth/auth.go: what a manager that is started anew knows of its clients.
use bbgrid.Prelude.{
  ℕ, ◌≡◌, refl, Option, none, some, List, [], ◌∷◌, Text, ℤ, text_key, is_some, Bool-cases, inl, inr,
  All,
}
use bbgrid.GoMap.{GoMap, get, Each, put-Each}
use bbgrid.Auth.Disk.{WriteOutcome, written, write_file, writes, loaded}
use bbgrid.Auth.Registry.{
  Status, pending, approved, other, ClientRecord, NamespaceInfo, Registry, save_registry,
  init_registry, add_namespace, init_namespaces, default_namespaces, add_application, update_found,
  update_public_key, reset_found, reset_client_status,
}
use bbgrid.Auth.Approval.{
  delete_found, delete_client, move_found, set_client_namespace, approve_signed, approve_status,
  approve_found, approve,
}
use bbgrid.Auth.Queries.{members, members_of, get_clients_by_namespace}
use bbgrid.Auth.Runs.{
  Operation, applies, updates_key, resets, approves, deletes, moves, restarts, operate, operate_all,
}

-- No namespace has a client.
abbrev Empty : GoMap Text NamespaceInfo → Type 0
Empty ns = Each (λ name n. n.clients ≡ []) ns

add_namespace-Empty :
    (ns : GoMap Text NamespaceInfo) (name desc : Text) (now : ℤ)
    → Empty ns
    → Empty (add_namespace ns name desc now)
add_namespace-Empty ns name desc now h = elim (Bool-cases (is_some (get ns name))) [
  | inl p ↦ rw p h
  | inr p ↦ rw p (put-Each (λ name n. n.clients ≡ []) ns name _ h refl)
]

init_namespaces-Empty :
    (ns : GoMap Text NamespaceInfo) (defaults : List (Text × Text)) (now : ℤ)
    → Empty ns
    → Empty (init_namespaces ns defaults now)
unfolding init_namespaces
init_namespaces-Empty ns [] now h = h
init_namespaces-Empty ns ((name, desc) ∷ ds) now h =
    init_namespaces-Empty (add_namespace ns name desc now) ds now
      (add_namespace-Empty ns name desc now h)

members_of-Empty :
    (clients : GoMap Text ClientRecord) (o : Option NamespaceInfo)
    → ((n : NamespaceInfo) → o ≡ some n → n.clients ≡ [])
    → members_of clients o ≡ []
unfolding members
members_of-Empty clients none h = refl
members_of-Empty clients (some n) h = rw (h n refl) refl

get_clients_by_namespace-init_registry :
    (file : Option (GoMap Text ClientRecord)) (now : ℤ) (name : Text)
    → get_clients_by_namespace (init_registry file now) name ≡ []
unfolding get_clients_by_namespace init_registry
get_clients_by_namespace-init_registry file now name =
    members_of-Empty (loaded file) _
      (init_namespaces-Empty [] default_namespaces now (λ k n found. unfold get in cc) name)

-- The file holds the clients.
abbrev pub IsSaved : Registry → Type 0
IsSaved m = loaded m.file ≡ m.clients

abbrev pub outcome_of : Operation → WriteOutcome
outcome_of (applies id key now o) = o
outcome_of (updates_key id key o) = o
outcome_of (resets id o) = o
outcome_of (approves id name role draw now o) = o
outcome_of (deletes id o) = o
outcome_of (moves id name role o) = o
outcome_of (restarts now) = written

module _ (sign : ℕ → Text → Text → Option Text) where
  add_application-IsSaved :
      (m : Registry) (id key : Text) (now : ℤ)
      → IsSaved m
      → IsSaved (add_application m id key now written).0
  unfolding add_application save_registry write_file writes
  add_application-IsSaved m id key now h = elim (Bool-cases (is_some (get m.clients id))) [
    | inl p ↦ rw p h
    | inr p ↦ rw p refl
  ]

  update_found-IsSaved :
      (m : Registry) (id key : Text) (f : Option ClientRecord)
      → IsSaved m
      → IsSaved (update_found m id key written f).0
  unfolding update_found save_registry write_file
  update_found-IsSaved m id key none h = h
  update_found-IsSaved m id key (some r) h = refl

  reset_found-IsSaved :
      (m : Registry) (id : Text) (f : Option ClientRecord)
      → IsSaved m
      → IsSaved (reset_found m id written f)
  unfolding reset_found save_registry write_file
  reset_found-IsSaved m id none h = h
  reset_found-IsSaved m id (some r) h = refl

  delete_found-IsSaved :
      (m : Registry) (id : Text) (f : Option ClientRecord)
      → IsSaved m
      → IsSaved (delete_found m id written f).0
  unfolding delete_found save_registry write_file
  delete_found-IsSaved m id none h = h
  delete_found-IsSaved m id (some r) h = refl

  move_found-IsSaved :
      (m : Registry) (id name role : Text) (f : Option ClientRecord)
      → IsSaved m
      → IsSaved (move_found m id name role written f).0
  unfolding move_found save_registry write_file
  move_found-IsSaved m id name role none h = h
  move_found-IsSaved m id name role (some r) h =
      elim (Bool-cases (is_some (get m.namespaces name))) [ inl p ↦ rw p refl | inr p ↦ rw p h ]

  approve_signed-IsSaved :
      (m : Registry) (id name role : Text) (now : ℤ) (r : ClientRecord) (c : Option Text)
      → IsSaved m
      → IsSaved (approve_signed sign m id name role now written r c).0
  unfolding approve_signed save_registry write_file
  approve_signed-IsSaved m id name role now r none h = h
  approve_signed-IsSaved m id name role now r (some c) h = refl

  approve_status-IsSaved :
      (m : Registry) (id name role : Text) (draw : ℕ) (now : ℤ) (r : ClientRecord) (s : Status)
      → IsSaved m
      → IsSaved (approve_status sign m id name role draw now written r s).0
  unfolding approve_status
  approve_status-IsSaved m id name role draw now r pending h =
      approve_signed-IsSaved m id name role now r (sign draw r.public_key id) h
  approve_status-IsSaved m id name role draw now r approved h = h
  approve_status-IsSaved m id name role draw now r (other s) h = h

  approve_found-IsSaved :
      (m : Registry) (id name role : Text) (draw : ℕ) (now : ℤ) (f : Option ClientRecord)
      → IsSaved m
      → IsSaved (approve_found sign m id name role draw now written f).0
  unfolding approve_found
  approve_found-IsSaved m id name role draw now none h = h
  approve_found-IsSaved m id name role draw now (some r) h =
      approve_status-IsSaved m id name role draw now r r.status h

  operate-IsSaved :
      (m : Registry) (op : Operation)
      → outcome_of op ≡ written
      → IsSaved m
      → IsSaved (operate sign m op)
  unfolding operate update_public_key reset_client_status delete_client set_client_namespace approve
      init_registry
  operate-IsSaved m (applies id key now o) e h = rw e (add_application-IsSaved m id key now h)
  operate-IsSaved m (updates_key id key o) e h = rw e (update_found-IsSaved m id key _ h)
  operate-IsSaved m (resets id o) e h = rw e (reset_found-IsSaved m id _ h)
  operate-IsSaved m (approves id name role draw now o) e h =
      rw e (approve_found-IsSaved m id name role draw now _ h)
  operate-IsSaved m (deletes id o) e h = rw e (delete_found-IsSaved m id _ h)
  operate-IsSaved m (moves id name role o) e h = rw e (move_found-IsSaved m id name role _ h)
  operate-IsSaved m (restarts now) e h = refl

  operate_all-IsSaved :
      (m : Registry) (ops : List Operation)
      → All (λ op. outcome_of op ≡ written) ops
      → IsSaved m
      → IsSaved (operate_all sign m ops)
  unfolding operate_all
  operate_all-IsSaved m [] e h = h
  operate_all-IsSaved m (op ∷ ops) e h =
      operate_all-IsSaved (operate sign m op) ops e.1 (operate-IsSaved m op e.0 h)

  -- Where every write succeeds, a restart after any calls finds the same clients, but no client in any
  -- namespace.
  pub operate_all-restart :
      (m : Registry) (ops : List Operation) (now : ℤ)
      → All (λ op. outcome_of op ≡ written) ops
      → IsSaved m
      → let after = operate sign (operate_all sign m ops) (restarts now) in
        (after.clients ≡ (operate_all sign m ops).clients)
        × ((name : Text) → get_clients_by_namespace after name ≡ [])
  unfolding operate init_registry
  operate_all-restart m ops now e h = (
    operate_all-IsSaved m ops e h,
    get_clients_by_namespace-init_registry (operate_all sign m ops).file now,
  )
