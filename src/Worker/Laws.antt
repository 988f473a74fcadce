-- ===== src/Worker/Laws.antt =====
-- BBgrid_Server/workers/state.go: what holds between the tables of the clients and the desired state.
use bbgrid.Prelude.{
  ℕ, ◌≡◌, refl, sym, ap, ◌∙◌, Bool, true, false, ◌&&◌, Option, none, some, List, [], ◌∷◌, Text, ℤ,
  Eq, text_key, int_key, text_eq_iff, ◌==◌, if◌then◌else◌, is_some, Bool-cases, inl, inr, arith,
}
use bbgrid.GoMap.{GoMap, get, put, delete, get-put, get-delete}
use bbgrid.Types.{ProxyDesiredState, RelayDesiredState, RelaySession}
use bbgrid.StateStore.{proxy_key}
use bbgrid.StateStore.Keys.{proxy_key_eq}
use bbgrid.Worker.Table.{ProxyState, ClientTable, new_client_table, table_remove_proxy}
use bbgrid.Worker.State.{
  StateWorker, add_to_table, add_desired, drop_from_table, drop_desired, add_client, remove_found,
  add_found, drop_found, desired_of, get_proxy, proxy_of, each_table,
}
use bbgrid.Worker.Relays.{create_relay_session, remove_relay_session, put_relays, put_proxies}

-- The online client has a proxy at the port.
abbrev pub runs : StateWorker → Text → ℤ → Bool
runs w id port = is_some (get_proxy w id port)

-- The proxy is desired.
abbrev pub wants : StateWorker → Text → ℤ → Bool
wants w id port = is_some (get w.desired_proxies (proxy_key id port))

-- What runs is desired, so that it comes back after a restart.
pub record IsKept (w : StateWorker) : Type 0 where
  pub proxies : (id : Text) (port : ℤ) → runs w id port ≡ true → wants w id port ≡ true
  pub relays :
      (id : Text)
      → is_some (get w.relay_sessions id) ≡ true
      → is_some (get w.desired_relays id) ≡ true

proxy_of-put :
    (m : GoMap Text ClientTable) (id j : Text) (t : ClientTable) (port : ℤ)
    → proxy_of (get (put m id t) j) port
      ≡ (if id == j then get t.proxies port else proxy_of (get m j) port)
proxy_of-put m id j t port = elim (Bool-cases (id == j)) [
  | inl p ↦ rw (get-put m id j t, p) refl
  | inr p ↦ rw (get-put m id j t, p) refl
]

proxy_of-delete :
    (m : GoMap Text ClientTable) (id j : Text) (port : ℤ)
    → proxy_of (get (delete m id) j) port ≡ (if id == j then none else proxy_of (get m j) port)
proxy_of-delete m id j port = elim (Bool-cases (id == j)) [
  | inl p ↦ rw (get-delete m id j, p) refl
  | inr p ↦ rw (get-delete m id j, p) refl
]

is_some-put :
    {K V : Type 0} ⦃e : Eq K⦄ (m : GoMap K V) (k j : K) (v : V)
    → is_some (get (put m k v) j) ≡ (if k == j then true else is_some (get m j))
is_some-put m k j v = elim (Bool-cases (k == j)) [
  | inl p ↦ rw (get-put m k j v, p) refl
  | inr p ↦ rw (get-put m k j v, p) refl
]

is_some-delete :
    {K V : Type 0} ⦃e : Eq K⦄ (m : GoMap K V) (k j : K)
    → is_some (get (delete m k) j) ≡ (if k == j then false else is_some (get m j))
is_some-delete m k j = elim (Bool-cases (k == j)) [
  | inl p ↦ rw (get-delete m k j, p) refl
  | inr p ↦ rw (get-delete m k j, p) refl
]

pub add_client-IsKept :
    (w : StateWorker) (id : Text) (conn : ℕ) (addr host : Text) (now : ℤ)
    → IsKept w
    → IsKept (add_client w id conn addr host now).0
unfolding add_client get
add_client-IsKept w id conn addr host now k = record {
  proxies = λ j port h.
      let t : ClientTable = record (new_client_table id conn now) { remote_addr = addr } in
      let e = ap (λ (o : Option ProxyState). is_some o) (proxy_of-put w.clients id j t port) in
      elim (Bool-cases (id == j)) [
        | inl p ↦ let no_proxy : false ≡ true = sym (e ∙ rw p refl) ∙ h in absurd cc
        | inr p ↦ k.proxies j port (sym (e ∙ rw p refl) ∙ h)
      ];
  relays = k.relays;
}

pub remove_found-IsKept :
    (w : StateWorker) (id : Text) (o : Option ClientTable)
    → IsKept w
    → IsKept (remove_found w id o).0
unfolding remove_found
remove_found-IsKept w id none k = k
remove_found-IsKept w id (some t) k = record {
  proxies = λ j port h.
      let e = ap (λ (o : Option ProxyState). is_some o) (proxy_of-delete w.clients id j port) in
      elim (Bool-cases (id == j)) [
        | inl p ↦ let no_proxy : false ≡ true = sym (e ∙ rw p refl) ∙ h in absurd cc
        | inr p ↦ k.proxies j port (sym (e ∙ rw p refl) ∙ h)
      ];
  relays = k.relays;
}

-- The client's proxy at the port was set or cleared, on both sides.
abbrev at_key : Text → ℤ → Bool → Bool → Text → ℤ → Bool
at_key id port new old j q = if id == j && port == q then new else old

both_changed :
    (w w' : StateWorker) (id : Text) (port : ℤ) (new : Bool)
    → ((j : Text) (q : ℤ) → runs w' j q ≡ at_key id port new (runs w j q) j q)
    → ((j : Text) (q : ℤ) → wants w' j q ≡ at_key id port new (wants w j q) j q)
    → w'.relay_sessions ≡ w.relay_sessions
    → w'.desired_relays ≡ w.desired_relays
    → IsKept w
    → IsKept w'
both_changed w w' id port new r d s t k = record {
  proxies = λ j q h. elim (Bool-cases (id == j && port == q)) [
    | inl p ↦ let now : new ≡ true = sym (r j q ∙ rw p refl) ∙ h in d j q ∙ rw p now
    | inr p ↦ d j q ∙ rw p (k.proxies j q (sym (r j q ∙ rw p refl) ∙ h))
  ];
  relays = rw (s, t) k.relays;
}

runs-change :
    (w w' : StateWorker) (id : Text) (t : ClientTable) (ps : GoMap ℤ ProxyState) (port : ℤ)
    (new : Bool)
    → get w.clients id ≡ some t
    → w'.clients ≡ put w.clients id (record t { proxies = ps })
    → ((q : ℤ) → is_some (get ps q) ≡ (if port == q then new else is_some (get t.proxies q)))
    → (j : Text) (q : ℤ) → runs w' j q ≡ at_key id port new (runs w j q) j q
runs-change w w' id t ps port new found c h j q =
    let e : runs w' j q ≡ is_some (if id == j then get ps q else proxy_of (get w.clients j) q) =
      ap (λ (m : GoMap Text ClientTable). is_some (proxy_of (get m j) q)) c
      ∙ ap (λ (o : Option ProxyState). is_some o)
          (proxy_of-put w.clients id j (record t { proxies = ps }) q) in
    elim (Bool-cases (id == j)) [
      | inl p ↦
          let old : is_some (get t.proxies q) ≡ runs w j q =
            rw⁻¹ ((text_eq_iff id j).0 p) (rw found refl) in
          e ∙ simp p (h q ∙ rw old refl)
      | inr p ↦ e ∙ simp p refl
    ]

pub add_found-IsKept :
    (w : StateWorker) (id : Text) (p : ProxyState) (o : Option ClientTable)
    → get w.clients id ≡ o
    → IsKept w
    → IsKept (add_found w id p o).0
unfolding add_found
add_found-IsKept w id p none found k = k
add_found-IsKept w id p (some t) found k =
    both_changed w (add_found w id p (some t)).0 id p.remote_port true
      (runs-change w (add_found w id p (some t)).0 id t (put t.proxies p.remote_port p)
        p.remote_port true found refl (λ q. is_some-put t.proxies p.remote_port q p))
      (λ j q.
        is_some-put w.desired_proxies (proxy_key id p.remote_port) (proxy_key j q) (desired_of id p)
        ∙ ap (λ (b : Bool). if b then true else wants w j q) (proxy_key_eq id j p.remote_port q))
      refl refl k

pub drop_found-IsKept :
    (w : StateWorker) (id : Text) (port : ℤ) (o : Option ClientTable)
    → get w.clients id ≡ o
    → IsKept w
    → IsKept (drop_found w id port o).0
unfolding drop_found
drop_found-IsKept w id port none found k = k
drop_found-IsKept w id port (some t) found k =
    both_changed w (drop_found w id port (some t)).0 id port false
      (runs-change w (drop_found w id port (some t)).0 id t (delete t.proxies port) port false found
        refl (λ q. is_some-delete t.proxies port q))
      (λ j q.
        is_some-delete w.desired_proxies (proxy_key id port) (proxy_key j q)
        ∙ ap (λ (b : Bool). if b then false else wants w j q) (proxy_key_eq id j port q))
      refl refl k

-- A removal and an addition of one proxy that overlap: the table loses the proxy and gets it back, and
-- then the proxy is written to the desired state and deleted there.
abbrev pub overlapped : StateWorker → Text → ProxyState → ClientTable → StateWorker
overlapped w id p t =
    let removing = drop_from_table w id p.remote_port t in
    let adding = add_to_table removing id p (table_remove_proxy t p.remote_port) in
    drop_desired (add_desired adding id p) id p.remote_port

-- What happens to each table and leaves its proxies alone.
runs-each_table :
    (m : GoMap Text ClientTable) (f : ClientTable → ClientTable) (id : Text) (port : ℤ)
    → ((t : ClientTable) → (f t).proxies ≡ t.proxies)
    → proxy_of (get (each_table f m) id) port ≡ proxy_of (get m id) port
unfolding each_table get
runs-each_table [] f id port h = refl
runs-each_table ((k, t) ∷ m) f id port h = elim (Bool-cases (k == id)) [
  | inl p ↦ rw p (rw (h t) refl)
  | inr p ↦ rw p (runs-each_table m f id port h)
]

pub each_table-IsKept :
    (w : StateWorker) (f : ClientTable → ClientTable)
    → ((t : ClientTable) → (f t).proxies ≡ t.proxies)
    → IsKept w
    → IsKept (record w { clients = each_table f w.clients })
each_table-IsKept w f h k = record {
  proxies = λ id port r.
      k.proxies id port (
        sym (ap (λ (o : Option ProxyState). is_some o) (runs-each_table w.clients f id port h))
        ∙ r);
  relays = k.relays;
}

pub create_relay_session-IsKept :
    (w : StateWorker) (r : RelaySession) → IsKept w → IsKept (create_relay_session w r).0
unfolding create_relay_session
create_relay_session-IsKept w r k = record {
  proxies = k.proxies;
  relays = λ id h.
      is_some-put w.desired_relays r.id id _
      ∙ (let old = k.relays id in
          let there = is_some-put w.relay_sessions r.id id r in ground arith);
}

pub remove_relay_session-IsKept :
    (w : StateWorker) (id : Text) → IsKept w → IsKept (remove_relay_session w id).0
unfolding remove_relay_session
remove_relay_session-IsKept w id k = record {
  proxies = k.proxies;
  relays = λ j h.
      is_some-delete w.desired_relays id j
      ∙ (let old = k.relays j in let there = is_some-delete w.relay_sessions id j in ground arith);
}

pub put_relays-keeps :
    (m : GoMap Text RelayDesiredState) (rs : List RelayDesiredState) (id : Text)
    → is_some (get m id) ≡ true
    → is_some (get (put_relays m rs) id) ≡ true
unfolding put_relays
put_relays-keeps m [] id h = h
put_relays-keeps m (r ∷ rs) id h =
    put_relays-keeps (put m r.id r) rs id (is_some-put m r.id id r ∙ ground arith)

pub put_proxies-keeps :
    (m : GoMap Text ProxyDesiredState) (ds : List ProxyDesiredState) (key : Text)
    → is_some (get m key) ≡ true
    → is_some (get (put_proxies m ds) key) ≡ true
unfolding put_proxies
put_proxies-keeps m [] key h = h
put_proxies-keeps m (d ∷ ds) key h =
    put_proxies-keeps (put m (proxy_key d.client_id d.remote_port) d) ds key
      (is_some-put m (proxy_key d.client_id d.remote_port) key d ∙ ground arith)
