-- ===== src/Worker/Tokens.antt =====
-- BBgrid_Server/workers/state.go: tunnel tokens, tunnels and ports.
use bbgrid.Prelude.{
  ℕ, ◌≡◌, ◌≢◌, refl, sym, ap, ◌∙◌, Bool, true, false, Option, none, some, [], ◌∷◌, Text, ℤ,
  text_key, int_key, text_eq_iff, ◌==◌, ==_refl, nat_eq, if◌then◌else◌, All, Bool-cases,
  Option-cases, inl, inr, arith,
}
use bbgrid.GoMap.{
  GoMap, get, put, delete_if, keep_unless, values, get-put, get-delete, get-delete_if, Unique,
}
use bbgrid.Worker.Table.{
  ClientTable, store_token, remove_token, find_token, put_tunnel, get_tunnel, remove_tunnel,
}
use bbgrid.Worker.State.{
  StateWorker, remove_client, remove_found, get_client_id_by_port, each_table, store_tunnel_token,
  remove_tunnel_token_by_key, find_in, find_table_by_ws_token,
}

find_in-here :
    (id : Text) (t : ClientTable) (m : GoMap Text ClientTable) (token key : Text)
    → find_token t token ≡ some key
    → find_in ((id, t) ∷ m) token ≡ some (t, key)
unfolding find_in
find_in-here id t m token key h = rw (h, find_in) refl

find_in-later :
    (id : Text) (t : ClientTable) (m : GoMap Text ClientTable) (token : Text)
    → find_token t token ≡ none
    → find_in ((id, t) ∷ m) token ≡ find_in m token
unfolding find_in
find_in-later id t m token h = rw (h, find_in) refl

-- A token that was stored is found with the client that comes first in the range, whichever client its
-- key names: every client was given it.
find_table_by_ws_token-store_tunnel_token :
    (w : StateWorker) (token key id : Text) (t : ClientTable) (rest : GoMap Text ClientTable)
    → w.clients ≡ (id, t) ∷ rest
    → find_table_by_ws_token (store_tunnel_token w token key) token
      ≡ some (store_token t token key, key)
unfolding find_table_by_ws_token store_tunnel_token each_table
find_table_by_ws_token-store_tunnel_token w token key id t rest h = rw h (
    find_in-here id (store_token t token key) (each_table (λ s. store_token s token key) rest) token
      key (get-put t.tunnel_tokens token token key ∙ rw (==_refl token) refl))

keep_unless-other :
    (key k : Text) (o : Option Text) → keep_unless (λ j. j == key) o ≡ some k → k ≢ key
keep_unless-other key k none h = cc
keep_unless-other key k (some j) h = ground (arith, text_eq_iff j key)

found_other :
    (m : GoMap Text ClientTable) (key token k : Text) (t : ClientTable)
    → All (λ t. Unique t.tunnel_tokens) (values m)
    → find_in (each_table (λ t. remove_token t key) m) token ≡ some (t, k)
    → k ≢ key
unfolding each_table find_in
found_other [] key token k t u h = cc
found_other ((id, s) ∷ m) key token k t u h =
    elim (Option-cases (get (delete_if (λ j. j == key) s.tunnel_tokens) token)) [
      | inl p ↦ found_other m key token k t u.1 (
          sym
            (find_in-later id (remove_token s key) (each_table (λ t. remove_token t key) m) token p)
          ∙ h)
      | inr (j, p) ↦
          let found : some (remove_token s key, j) ≡ some (t, k) =
            sym (
              find_in-here id (remove_token s key) (each_table (λ t. remove_token t key) m) token j
                p)
            ∙ h in
          let same : j ≡ k = cc in
          let kept = sym (get-delete_if (λ j. j == key) s.tunnel_tokens token u.0) ∙ p in
          rw⁻¹ same (keep_unless-other key j (get s.tunnel_tokens token) kept)
    ]

-- Once the tokens of a key are removed, no token leads to this key any more.
find_table_by_ws_token-remove_tunnel_token_by_key :
    (w : StateWorker) (key token k : Text) (t : ClientTable)
    → All (λ t. Unique t.tunnel_tokens) (values w.clients)
    → find_table_by_ws_token (remove_tunnel_token_by_key w key) token ≡ some (t, k)
    → k ≢ key
unfolding find_table_by_ws_token remove_tunnel_token_by_key
find_table_by_ws_token-remove_tunnel_token_by_key w key token k t u h =
    found_other w.clients key token k t u h

-- After a client that was online is removed, no port leads to it, and every other port leads where it
-- led before.
pub get_client_id_by_port-remove_client :
    (w : StateWorker) (id : Text) (t : ClientTable) (port : ℤ)
    → Unique w.port_index
    → get w.clients id ≡ some t
    → get_client_id_by_port (remove_client w id).0 port
      ≡ keep_unless (λ cid. cid == id) (get_client_id_by_port w port)
unfolding remove_client remove_found
get_client_id_by_port-remove_client w id t port u h =
    rw h (get-delete_if (λ cid. cid == id) w.port_index port u)

-- A tunnel that takes the place of an older one under its key stays there when the older one is
-- removed late, and goes when it is removed itself; other keys are not touched.
get_tunnel-remove_tunnel :
    (t : ClientTable) (key other : Text) (old new : ℕ)
    → get_tunnel (remove_tunnel (put_tunnel t key new).0 key old) other
      ≡ (if key == other then if nat_eq new old then none else some new else get_tunnel t other)
unfolding remove_tunnel put_tunnel
get_tunnel-remove_tunnel t key other old new =
    let here : get (put t.tunnels key new) key ≡ some new =
      get-put t.tunnels key key new ∙ rw (==_refl key) refl in
    elim (Bool-cases (nat_eq new old)) [
      | inl p ↦
          rw (here, p)
            (get-delete (put t.tunnels key new) key other
              ∙ ap (λ (o : Option ℕ). if key == other then none else o)
                  (get-put t.tunnels key other new)
              ∙ if_twice (key == other) new (get t.tunnels other))
      | inr p ↦ rw (here, p) (get-put t.tunnels key other new)
    ]
  where
    if_twice :
        (c : Bool) (n : ℕ) (o : Option ℕ)
        → (if c then none else if c then some n else o) ≡ (if c then none else o)
    if_twice true n o = refl
    if_twice false n o = refl
