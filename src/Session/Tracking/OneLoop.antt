-- ===== src/Session/Tracking/OneLoop.antt =====
-- BBgrid_Server/session/server.go: how many tunnel loops of a proxy run.
use bbgrid.Prelude.{
  ◌≡◌, refl, Bool, true, false, Option, some, List, [], ◌∷◌, Text, ℤ, text_key, ◌==◌, if◌then◌else◌,
  inl, inr, Bool-cases, arith, ==_refl,
}
use bbgrid.GoMap.{GoMap, get, get-put, get-delete}
use bbgrid.Types.{ProxyState}
use bbgrid.StateStore.{proxy_key}
use bbgrid.Session.Protocol.{Hub}
use bbgrid.Session.Server.{Server, new_server, is_active, start_tunnel_loop}
use bbgrid.Session.Tracking.{remove, runs, end_loop, ServerStep, server_run}
use bbgrid.Session.Tracking.Loops.{HoldsAt, server_run_keeps}

-- No key stands twice.
abbrev pub Once : List Text → Type 0
Once [] = Unit
Once (k ∷ ks) = (runs k ks ≡ false) × Once ks

-- Each proxy has one loop at most, and is marked as active where it has one.
pub record IsLooped (active : GoMap Text Bool) (running : List Text) : Type 0 where
  pub once : Once running
  pub marked : (key : Text) → runs key running ≡ true → get active key ≡ some true

-- The proxy is marked as active, and has no loop.
pub record IsStuck (key : Text) (active : GoMap Text Bool) (running : List Text) : Type 0 where
  pub marked : get active key ≡ some true
  pub idle : runs key running ≡ false

runs-remove :
    (key k : Text) (ks : List Text)
    → runs k (remove key ks) ≡ (if key == k then false else runs k ks)
unfolding remove runs
runs-remove key k [] = ground arith
runs-remove key k (j ∷ ks) = ground (
  arith,
  runs-remove key k ks,
  text_key.same_iff j key,
  text_key.same_iff j k,
  text_key.same_iff key k,
)

remove-Once : (key : Text) (ks : List Text) → Once ks → Once (remove key ks)
unfolding remove
remove-Once key [] h = tt
remove-Once key (k ∷ ks) (n, h) = elim (Bool-cases (k == key)) [
  | inl e ↦ rw e (remove-Once key ks h)
  | inr e ↦ rw e (ground (arith, runs-remove key k ks), remove-Once key ks h)
]

start-IsLooped :
    (s : Server) (p : ProxyState) (b : Bool)
    → HoldsAt IsLooped s
    → HoldsAt IsLooped (start_tunnel_loop s p b)
unfolding start_tunnel_loop runs
start-IsLooped s p b h =
    let key = proxy_key p.client_id p.remote_port in
    elim (Bool-cases (is_active (get s.active_loops key))) [
      | inl e ↦ rw e h
      | inr e ↦ rw e (elim (Bool-cases b) [
        | inl f ↦ rw f (record {
          once = (ground (arith, h.marked key), h.once);
          marked = λ k r. ground (arith, get-put s.active_loops key k true, h.marked k);
        })
        | inr f ↦ rw f (record {
          once = h.once;
          marked = λ k r. ground (arith, get-put s.active_loops key k true, h.marked k);
        })
      ])
    ]

finish-IsLooped : (s : Server) (key : Text) → HoldsAt IsLooped s → HoldsAt IsLooped (end_loop s key)
unfolding end_loop
finish-IsLooped s key h = elim (Bool-cases (runs key s.running)) [
  | inl e ↦ rw e (record {
    once = remove-Once key s.running h.once;
    marked = λ k r.
        ground (arith, runs-remove key k s.running, get-delete s.active_loops key k, h.marked k);
  })
  | inr e ↦ rw e h
]

-- In every run of the server each proxy has one tunnel loop at most, and is marked as active while it has
-- one.
pub server_run-IsLooped :
    (client_token : Text) (parse_time : Text → Option ℤ) (hub : Hub) (port : ℤ)
    (ps : List ServerStep)
    → HoldsAt IsLooped (server_run client_token parse_time (new_server hub port) ps)
unfolding runs
server_run-IsLooped client_token parse_time hub port ps =
    server_run_keeps IsLooped start-IsLooped finish-IsLooped client_token parse_time
      (new_server hub port) ps (record { once = tt; marked = λ key r. ground arith })

module _ (key : Text) where
  start-IsStuck :
      (s : Server) (p : ProxyState) (b : Bool)
      → HoldsAt (IsStuck key) s
      → HoldsAt (IsStuck key) (start_tunnel_loop s p b)
  unfolding start_tunnel_loop runs
  start-IsStuck s p b h =
      let k = proxy_key p.client_id p.remote_port in
      elim (Bool-cases (is_active (get s.active_loops k))) [
        | inl e ↦ rw e h
        | inr e ↦
            (let other : k == key ≡ false = ground (arith, text_key.same_iff k key, h.marked) in
              rw e (elim (Bool-cases b) [
                | inl f ↦ rw f (record {
                  marked = rw (get-put s.active_loops k key true, other) h.marked;
                  idle = rw other h.idle;
                })
                | inr f ↦ rw f (record {
                  marked = rw (get-put s.active_loops k key true, other) h.marked;
                  idle = h.idle;
                })
              ]))
      ]

  finish-IsStuck :
      (s : Server) (k : Text) → HoldsAt (IsStuck key) s → HoldsAt (IsStuck key) (end_loop s k)
  unfolding end_loop
  finish-IsStuck s k h = elim (Bool-cases (runs k s.running)) [
    | inl e ↦ rw e (record {
      marked =
          ground
            (arith, get-delete s.active_loops k key, text_key.same_iff k key, h.marked, h.idle);
      idle = ground (arith, runs-remove k key s.running, h.idle);
    })
    | inr e ↦ rw e h
  ]

unstarted :
    (s : Server) (p : ProxyState)
    → HoldsAt IsLooped s
    → is_active (get s.active_loops (proxy_key p.client_id p.remote_port)) ≡ false
    → HoldsAt (IsStuck (proxy_key p.client_id p.remote_port)) (start_tunnel_loop s p false)
unfolding start_tunnel_loop
unstarted s p h n =
    let key = proxy_key p.client_id p.remote_port in
    rw n (record {
      marked = rw (get-put s.active_loops key key true, ==_refl key) refl;
      idle = elim (Bool-cases (runs key s.running)) [
        | inl e ↦ absurd (ground (arith, h.marked key e, n))
        | inr e ↦ e
      ];
    })

-- When startTunnelLoop finds no provider or no listener for a proxy that is not active, in a server
-- whose running loops are marked, no later step gives this proxy a tunnel loop.
pub server_run-IsStuck :
    (client_token : Text) (parse_time : Text → Option ℤ) (s : Server) (p : ProxyState)
    (ps : List ServerStep)
    → HoldsAt IsLooped s
    → is_active (get s.active_loops (proxy_key p.client_id p.remote_port)) ≡ false
    → HoldsAt
        (IsStuck (proxy_key p.client_id p.remote_port))
        (server_run client_token parse_time (start_tunnel_loop s p false) ps)
server_run-IsStuck client_token parse_time s p ps h n =
    let key = proxy_key p.client_id p.remote_port in
    server_run_keeps (IsStuck key) (start-IsStuck key) (finish-IsStuck key) client_token parse_time
      (start_tunnel_loop s p false) ps (unstarted s p h n)
