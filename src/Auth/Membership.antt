-- ===== src/Auth/Membership.antt =====
-- BBgrid_Server/auth/auth.go: which clients a namespace lists.
use bbgrid.Prelude.{
  ℕ, ◌≡◌, refl, subst, Bool, true, false, ◌||◌, Option, none, some, List, [], ◌∷◌, ◌++◌, Text, ℤ,
  text_key, ◌==◌, arith, is_some, if◌then◌else◌, Bool-cases, inl, inr, All, ==_refl,
}
use bbgrid.GoMap.{GoMap, get, get-put, Each, put-Others, put-Each, delete-Others, delete-Each}
use bbgrid.Auth.Disk.{WriteOutcome, writes}
use bbgrid.Auth.Registry.{
  Status, pending, approved, other, ClientRecord, NamespaceInfo, Registry, save_registry,
  application, add_application, update_found, update_public_key, reset_found, reset_client_status,
}
use bbgrid.Auth.Approval.{
  remove_first, change_found, enlist, strike, delete_found, delete_client, move_found,
  set_client_namespace, approve_signed, approve_status, approve_found, approve,
}
use bbgrid.Auth.Runs.{
  Operation, applies, updates_key, resets, approves, deletes, moves, restarts, operate, operate_all,
}

unfoldable pub contains : Text → List Text → Bool
contains id [] = false
contains id (i ∷ is) = i == id || contains id is

contains-append :
    (id k : Text) (ids : List Text) → contains k ids ≡ true → contains k (ids ++ id ∷ []) ≡ true
unfolding contains
contains-append id k [] h = cc
contains-append id k (i ∷ is) h = ground (arith, contains-append id k is)

contains-last : (id : Text) (ids : List Text) → contains id (ids ++ id ∷ []) ≡ true
unfolding contains
contains-last id [] = rw (==_refl id) refl
contains-last id (i ∷ is) = ground (arith, contains-last id is)

contains-remove_first :
    (id k : Text) (ids : List Text)
    → id == k ≡ false
    → contains k ids ≡ true
    → contains k (remove_first id ids) ≡ true
unfolding contains remove_first
contains-remove_first id k [] d h = h
contains-remove_first id k (i ∷ is) d h = ground (
  arith,
  text_key.same_iff i id,
  text_key.same_iff id k,
  text_key.same_iff i k,
  contains-remove_first id k is d,
)

-- Where the namespace exists, it lists the client.
abbrev pub lists : Option NamespaceInfo → Text → Bool
lists none id = true
lists (some n) id = contains id n.clients

lists-either :
    (ns : GoMap Text NamespaceInfo) (n n' : NamespaceInfo) (name j k : Text) (b : Bool)
    → name == j ≡ b
    → get ns name ≡ some n
    → (contains k n.clients ≡ true → contains k n'.clients ≡ true)
    → lists (get ns j) k ≡ true
    → lists (if b then some n' else get ns j) k ≡ true
lists-either ns n n' name j k true same e keeps h = keeps (
    subst (λ o. lists o k ≡ true)
      (subst (λ i. get ns i ≡ some n) ((text_key.same_iff name j).0 same) e) h)
lists-either ns n n' name j k false same e keeps h = h

-- A change that drops nobody keeps who is listed.
change_found-lists :
    (f : List Text → List Text) (ns : GoMap Text NamespaceInfo) (name j k : Text)
    (o : Option NamespaceInfo)
    → get ns name ≡ o
    → ((ids : List Text) → contains k ids ≡ true → contains k (f ids) ≡ true)
    → lists (get ns j) k ≡ true
    → lists (get (change_found f ns name o) j) k ≡ true
unfolding change_found
change_found-lists f ns name j k none e keeps h = h
change_found-lists f ns name j k (some n) e keeps h =
    rw (get-put ns name j (record n { clients = f n.clients }))
      (lists-either ns n _ name j k (name == j) refl e (keeps n.clients) h)

enlist-lists :
    (ns : GoMap Text NamespaceInfo) (name id j k : Text)
    → lists (get ns j) k ≡ true
    → lists (get (enlist ns name id) j) k ≡ true
enlist-lists ns name id j k =
    change_found-lists _ ns name j k (get ns name) refl (contains-append id k)

strike-lists :
    (ns : GoMap Text NamespaceInfo) (name id j k : Text)
    → id == k ≡ false
    → lists (get ns j) k ≡ true
    → lists (get (strike ns name id) j) k ≡ true
strike-lists ns name id j k d =
    change_found-lists _ ns name j k (get ns name) refl (λ ids. contains-remove_first id k ids d)

-- Whoever is enlisted is listed.
enlist_found-lists :
    (ns : GoMap Text NamespaceInfo) (name id : Text) (o : Option NamespaceInfo)
    → get ns name ≡ o
    → lists (get (change_found (λ ids. ids ++ id ∷ []) ns name o) name) id ≡ true
unfolding change_found
enlist_found-lists ns name id none e = rw e refl
enlist_found-lists ns name id (some n) e =
    rw (get-put ns name name (record n { clients = n.clients ++ id ∷ [] }), ==_refl name)
      (contains-last id n.clients)

-- An approved client is listed in its namespace, where this exists.
abbrev pub ListedIn : GoMap Text NamespaceInfo → Text → ClientRecord → Type 0
ListedIn ns id r = r.status ≡ approved → lists (get ns r.namespace) id ≡ true

abbrev pub IsListed : Registry → Type 0
IsListed m = Each (ListedIn m.namespaces) m.clients

not_approved : (s : Status) → s ≡ pending → s ≡ approved → (b : Bool) → b ≡ true
not_approved s p a b = cc

add_application-IsListed :
    (m : Registry) (id key : Text) (now : ℤ) (o : WriteOutcome)
    → IsListed m
    → IsListed (add_application m id key now o).0
unfolding add_application save_registry
add_application-IsListed m id key now o h =
    let fresh =
      put-Each (ListedIn m.namespaces) m.clients id (application id key now) h
        (λ a. not_approved pending refl a _) in
    elim (Bool-cases (is_some (get m.clients id))) [
      | inl p ↦ rw p h
      | inr p ↦ elim (Bool-cases (writes o)) [
        | inl q ↦ rw (p, q) fresh
        | inr q ↦ rw (p, q) (delete-Each (ListedIn m.namespaces) _ id fresh)
      ]
    ]

update_found-IsListed :
    (m : Registry) (id key : Text) (o : WriteOutcome) (f : Option ClientRecord)
    → IsListed m
    → IsListed (update_found m id key o f).0
unfolding update_found save_registry
update_found-IsListed m id key o none h = h
update_found-IsListed m id key o (some r) h =
    put-Each (ListedIn m.namespaces) m.clients id _ h (λ a. not_approved pending refl a _)

reset_found-IsListed :
    (m : Registry) (id : Text) (o : WriteOutcome) (f : Option ClientRecord)
    → IsListed m
    → IsListed (reset_found m id o f)
unfolding reset_found save_registry
reset_found-IsListed m id o none h = h
reset_found-IsListed m id o (some r) h =
    put-Each (ListedIn m.namespaces) m.clients id _ h (λ a. not_approved pending refl a _)

delete_found-IsListed :
    (m : Registry) (id : Text) (o : WriteOutcome) (f : Option ClientRecord)
    → IsListed m
    → IsListed (delete_found m id o f).0
unfolding delete_found save_registry
delete_found-IsListed m id o none h = h
delete_found-IsListed m id o (some r) h =
    delete-Others (ListedIn (strike m.namespaces r.namespace id)) m.clients id
      (λ k v d found a. strike-lists m.namespaces r.namespace id v.namespace k d (h k v found a))

move_found-IsListed :
    (m : Registry) (id name role : Text) (o : WriteOutcome) (f : Option ClientRecord)
    → IsListed m
    → IsListed (move_found m id name role o f).0
unfolding move_found save_registry
move_found-IsListed m id name role o none h = h
move_found-IsListed m id name role o (some r) h =
    let struck = strike m.namespaces r.namespace id in
    elim (Bool-cases (is_some (get m.namespaces name))) [
      | inl p ↦ rw p (
          put-Others (ListedIn (enlist struck name id)) m.clients id _
            (λ k v d found a.
              enlist-lists struck name id v.namespace k
                (strike-lists m.namespaces r.namespace id v.namespace k d (h k v found a)))
            (λ a. enlist_found-lists struck name id (get struck name) refl))
      | inr p ↦ rw p h
    ]

abbrev pub is_restart : Operation → Bool
is_restart (restarts now) = true
is_restart _ = false

module _ (sign : ℕ → Text → Text → Option Text) where
  approve_signed-IsListed :
      (m : Registry) (id name role : Text) (now : ℤ) (o : WriteOutcome) (r : ClientRecord)
      (c : Option Text)
      → IsListed m
      → IsListed (approve_signed sign m id name role now o r c).0
  unfolding approve_signed save_registry
  approve_signed-IsListed m id name role now o r none h = h
  approve_signed-IsListed m id name role now o r (some c) h =
      put-Each (ListedIn (enlist m.namespaces name id)) m.clients id _
        (λ k v found a. enlist-lists m.namespaces name id v.namespace k (h k v found a))
        (λ a. enlist_found-lists m.namespaces name id (get m.namespaces name) refl)

  approve_status-IsListed :
      (m : Registry) (id name role : Text) (draw : ℕ) (now : ℤ) (o : WriteOutcome)
      (r : ClientRecord) (s : Status)
      → IsListed m
      → IsListed (approve_status sign m id name role draw now o r s).0
  unfolding approve_status
  approve_status-IsListed m id name role draw now o r pending h =
      approve_signed-IsListed m id name role now o r (sign draw r.public_key id) h
  approve_status-IsListed m id name role draw now o r approved h = h
  approve_status-IsListed m id name role draw now o r (other s) h = h

  approve_found-IsListed :
      (m : Registry) (id name role : Text) (draw : ℕ) (now : ℤ) (o : WriteOutcome)
      (f : Option ClientRecord)
      → IsListed m
      → IsListed (approve_found sign m id name role draw now o f).0
  unfolding approve_found
  approve_found-IsListed m id name role draw now o none h = h
  approve_found-IsListed m id name role draw now o (some r) h =
      approve_status-IsListed m id name role draw now o r r.status h

  operate-IsListed :
      (m : Registry) (op : Operation)
      → is_restart op ≡ false
      → IsListed m
      → IsListed (operate sign m op)
  unfolding operate update_public_key reset_client_status delete_client set_client_namespace approve
  operate-IsListed m (applies id key now o) e h = add_application-IsListed m id key now o h
  operate-IsListed m (updates_key id key o) e h = update_found-IsListed m id key o _ h
  operate-IsListed m (resets id o) e h = reset_found-IsListed m id o _ h
  operate-IsListed m (approves id name role draw now o) e h =
      approve_found-IsListed m id name role draw now o _ h
  operate-IsListed m (deletes id o) e h = delete_found-IsListed m id o _ h
  operate-IsListed m (moves id name role o) e h = move_found-IsListed m id name role o _ h
  operate-IsListed m (restarts now) e h = cc

  -- Where every approved client is listed in its namespace, if this exists, it is still so after any
  -- calls without a restart, whatever the writes leave.
  pub operate_all-IsListed :
      (m : Registry) (ops : List Operation)
      → All (λ op. is_restart op ≡ false) ops
      → IsListed m
      → IsListed (operate_all sign m ops)
  unfolding operate_all
  operate_all-IsListed m [] e h = h
  operate_all-IsListed m (op ∷ ops) e h =
      operate_all-IsListed (operate sign m op) ops e.1 (operate-IsListed m op e.0 h)
