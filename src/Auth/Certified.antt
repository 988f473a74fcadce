-- ===== src/Auth/Certified.antt =====
-- BBgrid_Server/auth/auth.go: which certificates the registry holds.
use bbgrid.Prelude.{
  ℕ, ◌≡◌, refl, Option, none, some, List, [], ◌∷◌, Text, ℤ, text_key, is_some, Bool-cases, inl, inr,
}
use bbgrid.GoMap.{GoMap, get, put, Each, put-Each, delete-Each}
use bbgrid.Auth.Disk.{
  WriteOutcome, written, not_opened, cut_off, not_closed, write_file, writes, loaded,
}
use bbgrid.Auth.Registry.{
  Status, pending, approved, other, ClientRecord, Registry, application, save_registry,
  init_registry, add_application, update_found, update_public_key, reset_found, reset_client_status,
}
use bbgrid.Auth.Approval.{
  delete_found, delete_client, move_found, set_client_namespace, approve_signed, approve_status,
  approve_found, approve,
}
use bbgrid.Auth.Runs.{
  Operation, applies, updates_key, resets, approves, deletes, moves, restarts, operate, operate_all,
}

module _ (sign : ℕ → Text → Text → Option Text) where
  -- A pending client has no certificate; an approved one has one that was signed for its present key.
  abbrev pub CertifiedAs : ClientRecord → Status → Type 0
  CertifiedAs r pending = r.certificate ≡ []
  CertifiedAs r approved = (draw : ℕ) × (sign draw r.public_key r.client_id ≡ some r.certificate)
  CertifiedAs r (other s) = Unit

  pub record IsProper (id : Text) (r : ClientRecord) : Type 0 where
    pub named : r.client_id ≡ id
    pub certified : CertifiedAs r r.status

  -- Both the clients in memory and those on the disk.
  pub record IsCertified (m : Registry) : Type 0 where
    pub clients : Each IsProper m.clients
    pub file : Each IsProper (loaded m.file)

  write_file-Each :
      (old : Option (GoMap Text ClientRecord)) (new : GoMap Text ClientRecord) (o : WriteOutcome)
      → Each IsProper (loaded old)
      → Each IsProper new
      → Each IsProper (loaded (write_file old new o))
  unfolding write_file get
  write_file-Each old new written h n = n
  write_file-Each old new not_opened h n = h
  write_file-Each old new cut_off h n = λ k v found. cc
  write_file-Each old new not_closed h n = n

  -- What is saved where the new clients are proper.
  saved-IsCertified :
      (m m' : Registry) (o : WriteOutcome)
      → IsCertified m
      → Each IsProper m'.clients
      → m'.file ≡ m.file
      → IsCertified (save_registry m' o)
  unfolding save_registry
  saved-IsCertified m m' o h n same = record {
    clients = n;
    file = write_file-Each m'.file m'.clients o (rw same h.file) n;
  }

  add_application-IsCertified :
      (m : Registry) (id key : Text) (now : ℤ) (o : WriteOutcome)
      → IsCertified m
      → IsCertified (add_application m id key now o).0
  unfolding add_application save_registry
  add_application-IsCertified m id key now o h =
      let fresh : Each IsProper (put m.clients id (application id key now)) =
        put-Each IsProper m.clients id _ h.clients (record { named = refl; certified = refl }) in
      let saved =
        saved-IsCertified m (record m { clients = put m.clients id (application id key now) }) o h
          fresh refl in
      elim (Bool-cases (is_some (get m.clients id))) [
        | inl p ↦ rw p h
        | inr p ↦ elim (Bool-cases (writes o)) [
          | inl q ↦ rw (p, q) saved
          | inr q ↦
              rw (p, q)
                (record { clients = delete-Each IsProper _ id saved.clients; file = saved.file })
        ]
      ]

  update_found-IsCertified :
      (m : Registry) (id key : Text) (o : WriteOutcome) (f : Option ClientRecord)
      → get m.clients id ≡ f
      → IsCertified m
      → IsCertified (update_found m id key o f).0
  unfolding update_found
  update_found-IsCertified m id key o none e h = h
  update_found-IsCertified m id key o (some r) e h =
      saved-IsCertified m _ o h
        (put-Each IsProper m.clients id _ h.clients
          (record { named = (h.clients id r e).named; certified = refl }))
        refl

  reset_found-IsCertified :
      (m : Registry) (id : Text) (o : WriteOutcome) (f : Option ClientRecord)
      → get m.clients id ≡ f
      → IsCertified m
      → IsCertified (reset_found m id o f)
  unfolding reset_found
  reset_found-IsCertified m id o none e h = h
  reset_found-IsCertified m id o (some r) e h =
      saved-IsCertified m _ o h
        (put-Each IsProper m.clients id _ h.clients
          (record { named = (h.clients id r e).named; certified = refl }))
        refl

  delete_found-IsCertified :
      (m : Registry) (id : Text) (o : WriteOutcome) (f : Option ClientRecord)
      → IsCertified m
      → IsCertified (delete_found m id o f).0
  unfolding delete_found
  delete_found-IsCertified m id o none h = h
  delete_found-IsCertified m id o (some r) h =
      saved-IsCertified m _ o h (delete-Each IsProper m.clients id h.clients) refl

  move_found-IsCertified :
      (m : Registry) (id name role : Text) (o : WriteOutcome) (f : Option ClientRecord)
      → get m.clients id ≡ f
      → IsCertified m
      → IsCertified (move_found m id name role o f).0
  unfolding move_found
  move_found-IsCertified m id name role o none e h = h
  move_found-IsCertified m id name role o (some r) e h =
      elim (Bool-cases (is_some (get m.namespaces name))) [
        | inl p ↦ rw p (
            saved-IsCertified m _ o h
              (put-Each IsProper m.clients id _ h.clients (record {
                named = (h.clients id r e).named;
                certified = (h.clients id r e).certified;
              }))
              refl)
        | inr p ↦ rw p h
      ]

  approve_signed-IsCertified :
      (m : Registry) (id name role : Text) (draw : ℕ) (now : ℤ) (o : WriteOutcome)
      (r : ClientRecord) (c : Option Text)
      → r.client_id ≡ id
      → sign draw r.public_key id ≡ c
      → IsCertified m
      → IsCertified (approve_signed sign m id name role now o r c).0
  unfolding approve_signed
  approve_signed-IsCertified m id name role draw now o r none named e h = h
  approve_signed-IsCertified m id name role draw now o r (some c) named e h =
      saved-IsCertified m _ o h
        (put-Each IsProper m.clients id _ h.clients
          (record { named = named; certified = (draw, rw named e) }))
        refl

  approve_status-IsCertified :
      (m : Registry) (id name role : Text) (draw : ℕ) (now : ℤ) (o : WriteOutcome)
      (r : ClientRecord) (s : Status)
      → r.client_id ≡ id
      → IsCertified m
      → IsCertified (approve_status sign m id name role draw now o r s).0
  unfolding approve_status
  approve_status-IsCertified m id name role draw now o r pending named h =
      approve_signed-IsCertified m id name role draw now o r (sign draw r.public_key id) named refl
        h
  approve_status-IsCertified m id name role draw now o r approved named h = h
  approve_status-IsCertified m id name role draw now o r (other s) named h = h

  approve_found-IsCertified :
      (m : Registry) (id name role : Text) (draw : ℕ) (now : ℤ) (o : WriteOutcome)
      (f : Option ClientRecord)
      → get m.clients id ≡ f
      → IsCertified m
      → IsCertified (approve_found sign m id name role draw now o f).0
  unfolding approve_found
  approve_found-IsCertified m id name role draw now o none e h = h
  approve_found-IsCertified m id name role draw now o (some r) e h =
      approve_status-IsCertified m id name role draw now o r r.status (h.clients id r e).named h

  operate-IsCertified :
      (m : Registry) (op : Operation) → IsCertified m → IsCertified (operate sign m op)
  unfolding operate update_public_key reset_client_status delete_client set_client_namespace approve
      init_registry
  operate-IsCertified m (applies id key now o) h = add_application-IsCertified m id key now o h
  operate-IsCertified m (updates_key id key o) h = update_found-IsCertified m id key o _ refl h
  operate-IsCertified m (resets id o) h = reset_found-IsCertified m id o _ refl h
  operate-IsCertified m (approves id name role draw now o) h =
      approve_found-IsCertified m id name role draw now o _ refl h
  operate-IsCertified m (deletes id o) h = delete_found-IsCertified m id o _ h
  operate-IsCertified m (moves id name role o) h = move_found-IsCertified m id name role o _ refl h
  operate-IsCertified m (restarts now) h = record { clients = h.file; file = h.file }

  -- Where every client is proper, in memory and on the disk, as in a new registry, this holds after any
  -- calls and restarts, whatever the writes leave: an approved client has a certificate that was signed
  -- for its present public key under its own name, and a pending one has none.
  pub operate_all-IsCertified :
      (m : Registry) (ops : List Operation) → IsCertified m → IsCertified (operate_all sign m ops)
  unfolding operate_all
  operate_all-IsCertified m [] h = h
  operate_all-IsCertified m (op ∷ ops) h =
      operate_all-IsCertified (operate sign m op) ops (operate-IsCertified m op h)

  -- A new registry has no clients.
  pub init_registry-IsCertified : (now : ℤ) → IsCertified (init_registry none now)
  unfolding init_registry get
  init_registry-IsCertified now = record { clients = λ id r found. cc; file = λ id r found. cc }
