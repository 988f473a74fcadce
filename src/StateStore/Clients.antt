-- ===== src/StateStore/Clients.antt =====
-- BBgrid_Server/runtime/statestore.go: what events of one client leave of the entries of the clients.
use bbgrid.Prelude.{
  ◌≡◌, refl, ◌∙◌, true, false, Option, none, some, List, [], ◌∷◌, Text, ℤ, text_key, ◌==◌, arith,
  ==_refl, All, ℕ, is_some, ◌⊎◌, inl, inr, Bool-cases,
}
use bbgrid.GoMap.{GoMap, get, put, get-put, get-delete}
use bbgrid.GoText.{codes}
use bbgrid.Types.{Any, object, Fields, EventType, added, modified, deleted, unknown, GenericEvent}
use bbgrid.StateStore.{StateStore, ClientEntry, get_client, set_client_conn}
use bbgrid.StateStore.Apply.{modify_found, apply_client_event, apply, replay}

modify_found-other :
    (s : StateStore) (id : Text) (payload : Any) (o : Option ClientEntry) (k : Text)
    → id == k ≡ false
    → get (modify_found s id payload o).clients k ≡ get s.clients k
unfolding modify_found
modify_found-other s id payload none k n = refl
modify_found-other s id payload (some e) k n = rw (get-put s.clients id k _, n) refl

client_event-other :
    (s : StateStore) (id : Text) (t : EventType) (payload : Any) (now : ℤ) (k : Text)
    → id == k ≡ false
    → get (apply_client_event s id t payload now).clients k ≡ get s.clients k
unfolding apply_client_event
client_event-other s id added (object fs) now k n = rw (get-put s.clients id k _, n) refl
client_event-other s id added _ now k n = refl
client_event-other s id modified payload now k n =
    modify_found-other s id payload (get s.clients id) k n
client_event-other s id deleted payload now k n = rw (get-delete s.clients id k, n) refl
client_event-other s id (unknown t) payload now k n = refl

-- The event is one of this client.
abbrev pub IsOfClient : Text → GenericEvent → Type 0
IsOfClient id e = (e.resource.type ≡ codes "client") × (e.resource.name ≡ id)

pub apply-other_client :
    (s : StateStore) (e : GenericEvent) (now : ℤ) (id k : Text)
    → IsOfClient id e
    → id == k ≡ false
    → get_client (apply s e now) k ≡ get_client s k
unfolding apply get_client
apply-other_client s e now id k (type, name) n =
    rw (type, name) (client_event-other s id e.event_type e.payload now k n)

pub apply-deleted_client :
    (s : StateStore) (e : GenericEvent) (now : ℤ) (id : Text)
    → IsOfClient id e
    → e.event_type ≡ deleted
    → get_client (apply s e now) id ≡ none
unfolding apply apply_client_event get_client
apply-deleted_client s e now id (type, name) d =
    rw (type, name, d, get-delete s.clients id id, ==_refl id) refl

pub replay-other_client :
    (s : StateStore) (es : List (GenericEvent × ℤ)) (id k : Text)
    → All (λ (p : GenericEvent × ℤ). IsOfClient id p.0) es
    → id == k ≡ false
    → get_client (replay s es) k ≡ get_client s k
unfolding replay
replay-other_client s [] id k a n = refl
replay-other_client s ((e, now) ∷ es) id k (a, rest) n =
    replay-other_client (apply s e now) es id k rest n ∙ apply-other_client s e now id k a n

-- There is no entry, or one that has a connection.
abbrev pub HasConn : Option ClientEntry → Type 0
HasConn none = Unit
HasConn (some e) = is_some e.conn ≡ true

same_key : (m : GoMap Text ClientEntry) (id : Text) (v : ClientEntry) → get (put m id v) id ≡ some v
same_key m id v = rw (get-put m id id v, ==_refl id) refl

same_entry :
    (m m' : GoMap Text ClientEntry) (id k : Text) (v v' : ClientEntry)
    → v ≡ v'
    → get m k ≡ get m' k ⊎ (id == k ≡ true)
    → get (put m id v) k ≡ get (put m' id v') k
same_entry m m' id k v v' e (inl o) = rw (get-put m id k v, get-put m' id k v', e, o) refl
same_entry m m' id k v v' e (inr o) = rw (get-put m id k v, get-put m' id k v', e, o) refl

module _ (s : StateStore) (id k : Text) (fs : Fields) (c : ℕ) (now : ℤ) where
  put_either :
      (v v' : ClientEntry)
      → get (put s.clients id v) k ≡ get (put s.clients id v') k ⊎ (id == k ≡ true)
  put_either v v' = elim (Bool-cases (id == k)) [
    | inl e ↦ inr e
    | inr e ↦ inl (rw (get-put s.clients id k v, get-put s.clients id k v', e) refl)
  ]

  conn-added_conn :
      (x : ClientEntry) (w : Option ℕ)
      → get s.clients id ≡ some x
      → x.conn ≡ w
      → is_some w ≡ true
      → get
          (set_client_conn (apply_client_event s id added (object fs) now) id (some c) now).clients
          k
        ≡ get
            (apply_client_event
              (set_client_conn s id (some c) now)
              id
              added
              (object fs)
              now).clients
            k
  unfolding set_client_conn apply_client_event
  conn-added_conn x none e f h = ground arith
  conn-added_conn x (some d) e f h =
      same_entry _ _ id k _ _ (simp (same_key, e, f)) (put_either _ _)

  conn-added_found :
      (o : Option ClientEntry)
      → get s.clients id ≡ o
      → HasConn o
      → get
          (set_client_conn (apply_client_event s id added (object fs) now) id (some c) now).clients
          k
        ≡ get
            (apply_client_event
              (set_client_conn s id (some c) now)
              id
              added
              (object fs)
              now).clients
            k
  unfolding set_client_conn apply_client_event
  conn-added_found none e h = same_entry _ _ id k _ _ (simp (same_key, e)) (put_either _ _)
  conn-added_found (some x) e h =
      unfold set_client_conn apply_client_event in conn-added_conn x x.conn e refl h

-- A registration may reach the store in either order, the connection before the ADDED event or after
-- it: if this is in one second, the payload of the event is a map, and the client had no entry or one
-- with a connection, then all entries are the same.
pub set_client_conn-apply :
    (s : StateStore) (e : GenericEvent) (fs : Fields) (id : Text) (c : ℕ) (now : ℤ) (k : Text)
    → IsOfClient id e
    → e.event_type ≡ added
    → e.payload ≡ object fs
    → HasConn (get_client s id)
    → get_client (set_client_conn (apply s e now) id (some c) now) k
      ≡ get_client (apply (set_client_conn s id (some c) now) e now) k
unfolding apply get_client
set_client_conn-apply s e fs id c now k (type, name) a p h =
    rw (type, name, a, p) (conn-added_found s id k fs c now (get s.clients id) refl h)
