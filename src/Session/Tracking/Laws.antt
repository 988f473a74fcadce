-- ===== src/Session/Tracking/Laws.antt =====
-- BBgrid_Server/session/server.go: whom a message to a client reaches.
use bbgrid.Prelude.{
  ℕ, ◌≡◌, refl, sym, ap, subst, ◌∙◌, Bool, true, false, Option, none, some, List, [], ◌∷◌, Text, ℤ,
  text_key, nat_key, ◌==◌, if◌then◌else◌, inl, inr, ◌⊎◌, Bool-cases, arith, nat_eq_iff, ==_refl,
}
use bbgrid.GoMap.{GoMap, get, put, get-put, get-delete}
use bbgrid.Types.{ProxyState}
use bbgrid.StateStore.{proxy_key}
use bbgrid.Session.Messages.{Call, Outgoing}
use bbgrid.Session.Protocol.{Session, Hub}
use bbgrid.Session.Server.{
  waiting, tracking, over, Server, Outcomes, new_server, client_not_found, send_timeout, sent,
  write_to, send_found, send_to_client, sync_client, start_tunnel_loop, is_active,
}
use bbgrid.Session.Server.Frame.{SameTable, Keeps, table_keeps, sync_client_keeps}
use bbgrid.Session.Tracking.{
  on_registered, set_phase, store_session, wake_as, wake_found, wake, forget, leave_found, leave,
  ServerStep, wakes, leaves, server_step, server_run,
}
use bbgrid.Session.Tracking.Table.{IsTracked, apart_phases, server_run-IsTracked}

-- The outcome of a message to a client: there is no session for it, or the message goes to the queue of a
-- session whose trackSession holds this client.
abbrev pub Reaches : Server → Text → Outgoing → Bool → Type 0
Reaches s id m taken =
    (send_to_client s id m taken ≡ (s, client_not_found))
    ⊎ ((conn : ℕ) × (get s.phases conn ≡ some (tracking (some id)))
        × (send_to_client s id m taken
            ≡ (write_to s conn m taken (get s.live conn), if taken then sent else send_timeout)))

reaches :
    (s : Server) (id : Text) (m : Outgoing) (taken : Bool) (o : Option ℕ)
    → IsTracked s
    → get s.sessions id ≡ o
    → Reaches s id m taken
unfolding send_to_client send_found
reaches s id m taken none h e = inl (rw e refl)
reaches s id m taken (some conn) h e = inr (conn, h.table id conn e, rw e refl)

empty-IsTracked : (hub : Hub) (port : ℤ) → IsTracked (new_server hub port)
unfolding get
empty-IsTracked hub port = record { fresh = λ c p e. cc; table = λ id c e. cc }

-- Whatever the goroutines have done, a message to a client reaches nobody or a session that is tracked for
-- this client.
pub server_run-Reaches :
    (client_token : Text) (parse_time : Text → Option ℤ) (hub : Hub) (port : ℤ)
    (ps : List ServerStep) (id : Text) (m : Outgoing) (taken : Bool)
    → Reaches (server_run client_token parse_time (new_server hub port) ps) id m taken
server_run-Reaches client_token parse_time hub port ps id m taken =
    reaches (server_run client_token parse_time (new_server hub port) ps) id m taken _
      (server_run-IsTracked client_token parse_time (new_server hub port) ps
        (empty-IsTracked hub port))
      refl

-- Whether a session is over.
abbrev is_done : Option Session → Bool
is_done none = false
is_done (some x) = x.done

-- The same sessions are over.
abbrev SameEnds : Server → Server → Type 0
SameEnds s t = (conn : ℕ) → is_done (get t.live conn) ≡ is_done (get s.live conn)

put_done :
    (m : GoMap ℕ Session) (conn d : ℕ) (x y : Session)
    → get m conn ≡ some x
    → y.done ≡ x.done
    → is_done (get (put m conn y) d) ≡ is_done (get m d)
put_done m conn d x y e same = elim (Bool-cases (conn == d)) [
  | inl f ↦
      let there : get m d ≡ some x = ap (get m) (sym ((nat_eq_iff conn d).0 f)) ∙ e in
      rw (get-put m conn d y, f, there) same
  | inr f ↦ rw (get-put m conn d y, f) refl
]

queue-SameEnds :
    (s : Server) (conn : ℕ) (m : Outgoing) (taken : Bool) (x : Option Session)
    → get s.live conn ≡ x
    → SameEnds s (write_to s conn m taken x)
queue-SameEnds s conn m taken none e d = refl
queue-SameEnds s conn m true (some x) e d = put_done s.live conn d x _ e refl
queue-SameEnds s conn m false (some x) e d = put_done s.live conn d x x e refl

start-SameEnds : (s : Server) (p : ProxyState) (b : Bool) → SameEnds s (start_tunnel_loop s p b)
unfolding start_tunnel_loop
start-SameEnds s p true d =
    elim (Bool-cases (is_active (get s.active_loops (proxy_key p.client_id p.remote_port)))) [
      | inl e ↦ rw e refl
      | inr e ↦ rw e refl
    ]
start-SameEnds s p false d =
    elim (Bool-cases (is_active (get s.active_loops (proxy_key p.client_id p.remote_port)))) [
      | inl e ↦ rw e refl
      | inr e ↦ rw e refl
    ]

ends_keep : Keeps SameEnds
ends_keep = record {
  same = λ s d. refl;
  trans = λ s t u p q d. q d ∙ p d;
  queue = queue-SameEnds;
  delivered = λ s m d. refl;
  start = start-SameEnds;
}

leave_done :
    (s : Server) (conn : ℕ) (id : Option Text) (x : Option Session)
    → is_done x ≡ true
    → leave_found s conn (some (tracking id)) x ≡ set_phase (forget s id) conn over
unfolding leave_found
leave_done s conn id none d = ground arith
leave_done s conn id (some x) d = rw d refl

-- An old and a new session of one client.
pub record IsReconnected (s : Server) (id : Text) (old new : ℕ) (x y : Session) : Type 0 where
  pub tracked : get s.phases old ≡ some (tracking (some id))
  pub old_live : get s.live old ≡ some x
  pub old_done : x.done ≡ true
  pub waits : get s.phases new ≡ some waiting
  pub new_live : get s.live new ≡ some y
  pub new_open : y.done ≡ false
  pub registered : y.registered ≡ true
  pub client_id : y.client_id ≡ id
  pub named : id == [] ≡ false

-- The new session is tracked and open, but a message to the client reaches nobody.
pub record IsLost (s : Server) (id : Text) (new : ℕ) : Type 0 where
  pub tracked : get s.phases new ≡ some (tracking (some id))
  pub still_open : is_done (get s.live new) ≡ false
  pub unheard : (m : Outgoing) (taken : Bool) → send_to_client s id m taken ≡ (s, client_not_found)

module _ (s : Server) (id : Text) (old new : ℕ) (x y : Session) (c : Call) (o : Outcomes)
    (h : IsReconnected s id old new x y) where
  abbrev after_store : Server
  after_store = record (set_phase s new (tracking (some id))) { sessions = put s.sessions id new }

  woken : wake s new on_registered c o ≡ sync_client after_store id o
  unfolding wake wake_found wake_as store_session
  woken = rw (h.waits, h.new_live, h.registered, h.client_id, h.named) refl

  abbrev after_sync : Server
  after_sync = sync_client after_store id o

  differs : new == old ≡ false
  differs = apart_phases s.phases new old waiting (tracking (some id)) h.waits h.tracked (cc)

  old_phase : get after_sync.phases old ≡ some (tracking (some id))
  old_phase =
      ap (λ m. get m old) (sync_client_keeps SameTable table_keeps after_store id o).phases
      ∙ rw (get-put s.phases new old (tracking (some id)), differs) h.tracked

  new_phase : get after_sync.phases new ≡ some (tracking (some id))
  new_phase =
      ap (λ m. get m new) (sync_client_keeps SameTable table_keeps after_store id o).phases
      ∙ rw (get-put s.phases new new (tracking (some id)), ==_refl new) refl

  left : leave after_sync old ≡ set_phase (forget after_sync (some id)) old over
  unfolding leave
  left = rw old_phase (
      leave_done after_sync old (some id) (get after_sync.live old)
        (sync_client_keeps SameEnds ends_keep after_store id o old ∙ rw h.old_live h.old_done))

  lost : IsLost (set_phase (forget after_sync (some id)) old over) id new
  unfolding send_to_client send_found
  lost = record {
    tracked =
        rw
          (
            get-put after_sync.phases old new over,
            apart_phases s.phases old new (tracking (some id)) waiting h.tracked h.waits (cc),
          )
          new_phase;
    still_open =
        sync_client_keeps SameEnds ends_keep after_store id o new ∙ rw h.new_live h.new_open;
    unheard = λ m taken. rw (get-delete after_sync.sessions id id, ==_refl id) refl;
  }

-- When the new session of a client has registered before trackSession of its old session, which is
-- over, returns, the deferred Delete of the old one takes the new session out of the table: this is
-- open and tracked, but no message to the client reaches it.
pub server_run-IsLost :
    (client_token : Text) (parse_time : Text → Option ℤ) (s : Server) (id : Text) (old new : ℕ)
    (x y : Session) (c : Call) (o : Outcomes)
    → IsReconnected s id old new x y
    → IsLost
        (server_run client_token parse_time s (wakes new on_registered c o ∷ leaves old ∷ []))
        id
        new
unfolding server_run server_step
server_run-IsLost client_token parse_time s id old new x y c o h =
    subst (λ t. IsLost t id new)
      (sym (ap (λ t. leave t old) (woken s id old new x y c o h) ∙ left s id old new x y c o h))
      (lost s id old new x y c o h)
