-- ===== src/Session/Tracking/Table.antt =====
-- BBgrid_Server/session/server.go: the table of the sessions leads to sessions that are being tracked.
use bbgrid.Prelude.{
  ℕ, ◌+◌, ◌<◌, ◌≡◌, ◌≢◌, refl, sym, ap, subst, ◌∙◌, Bool, false, Option, none, some, List, [], ◌∷◌,
  Text, ℤ, text_key, nat_key, ◌==◌, inl, inr, Bool-cases, arith, nat_eq_iff, ==_refl,
}
use bbgrid.GoMap.{GoMap, get, put, delete, get-put, delete-found, Each, put-Each}
use bbgrid.Session.Pending.Channels.{differ}
use bbgrid.Session.Messages.{WsMessage, Call}
use bbgrid.Session.Protocol.{Session}
use bbgrid.Session.Server.{Phase, waiting, tracking, over, Server, Outcomes, sync_client}
use bbgrid.Session.Server.Frame.{SameTable, table_keeps, sync_client_keeps, proxy_event_keeps}
use bbgrid.Session.Tracking.{
  Wake, on_registered, on_done, on_timeout, connect, close_found, close_session, set_phase,
  store_session, wake_as, wake_found, wake, forget, leave_found, leave, runs, end_loop, ServerStep,
  connects, reads, closes, wakes, leaves, handles, ends, read_found, server_step, server_run,
}

pub record IsTracked (s : Server) : Type 0 where
  pub fresh : Each (λ c p. c < s.next_conn) s.phases
  pub table : Each (λ id c. get s.phases c ≡ some (tracking (some id))) s.sessions

same-IsTracked : (s t : Server) → SameTable s t → IsTracked s → IsTracked t
same-IsTracked s t q h = record {
  fresh = λ c p e.
      subst (λ n. c < n) (sym q.next_conn) (h.fresh c p (ap (λ m. get m c) (sym q.phases) ∙ e));
  table =
      λ id c e. ap (λ m. get m c) q.phases ∙ h.table id c (ap (λ m. get m id) (sym q.sessions) ∙ e);
}

-- Two connections in different phases are different.
pub apart_phases :
    (m : GoMap ℕ Phase) (a b : ℕ) (p q : Phase)
    → get m a ≡ some p
    → get m b ≡ some q
    → p ≢ q
    → a == b ≡ false
apart_phases m a b p q e f n = elim (Bool-cases (a == b)) [
  | inl same ↦
      let equal : a ≡ b = (nat_eq_iff a b).0 same in
      let both : some p ≡ some q = sym e ∙ (ap (get m) equal ∙ f) in absurd (n (cc))
  | inr other ↦ other
]

-- A goroutine moves on, and no entry of the new table leads to its session.
moved :
    (s : Server) (conn : ℕ) (p : Phase) (m : GoMap Text ℕ)
    → IsTracked s
    → conn < s.next_conn
    → Each (λ id c. (get s.phases c ≡ some (tracking (some id))) × (conn == c ≡ false)) m
    → IsTracked (record (set_phase s conn p) { sessions = m })
moved s conn p m h l others = record {
  fresh = put-Each (λ c q. c < s.next_conn) s.phases conn p h.fresh l;
  table = λ id c e. let (t, n) = others id c e in rw (get-put s.phases conn c p, n) t;
}

-- The session that was waiting is in no entry.
unlisted :
    (s : Server) (conn : ℕ) (p : Phase)
    → IsTracked s
    → get s.phases conn ≡ some p
    → ((id : Text) → p ≢ tracking (some id))
    → Each (λ id c. (get s.phases c ≡ some (tracking (some id))) × (conn == c ≡ false)) s.sessions
unlisted s conn p h e n id c f =
    let t = h.table id c f in (t, apart_phases s.phases conn c p (tracking (some id)) e t (n id))

stored-IsTracked :
    (s : Server) (conn : ℕ) (id : Text)
    → IsTracked s
    → get s.phases conn ≡ some waiting
    → IsTracked
        (record (set_phase s conn (tracking (some id))) { sessions = put s.sessions id conn })
stored-IsTracked s conn id h e = record {
  fresh =
      put-Each (λ c q. c < s.next_conn) s.phases conn (tracking (some id)) h.fresh
        (h.fresh conn waiting e);
  table =
      put-Each (λ k c. get (put s.phases conn (tracking (some id))) c ≡ some (tracking (some k)))
        s.sessions id conn
        (λ k c f.
          let (t, n) = unlisted s conn waiting h e (λ j. cc) k c f in
          rw (get-put s.phases conn c (tracking (some id)), n) t)
        (rw (get-put s.phases conn conn (tracking (some id)), ==_refl conn) refl);
}

store_session-IsTracked :
    (s : Server) (conn : ℕ) (id : Text) (o : Outcomes)
    → IsTracked s
    → get s.phases conn ≡ some waiting
    → IsTracked (store_session s conn id o)
unfolding store_session
store_session-IsTracked s conn id o h e = elim (Bool-cases (id == [])) [
  | inl f ↦ rw f (
      moved s conn (tracking none) s.sessions h (h.fresh conn waiting e)
        (unlisted s conn waiting h e (λ j. cc)))
  | inr f ↦ rw f (
      let stored = record (set_phase s conn (tracking (some id))) {
        sessions = put s.sessions id conn;
      } in
      same-IsTracked stored (sync_client stored id o)
        (sync_client_keeps SameTable table_keeps stored id o) (stored-IsTracked s conn id h e))
]

close_found-same :
    (s : Server) (conn : ℕ) (c : Call) (x : Option Session) → SameTable s (close_found s conn c x)
unfolding close_found
close_found-same s conn c none = record { sessions = refl; phases = refl; next_conn = refl }
close_found-same s conn c (some x) = record { sessions = refl; phases = refl; next_conn = refl }

close_session-same : (s : Server) (conn : ℕ) (c : Call) → SameTable s (close_session s conn c)
unfolding close_session
close_session-same s conn c = close_found-same s conn c (get s.live conn)

-- trackSession is over without having stored anything.
ended :
    (s : Server) (conn : ℕ)
    → IsTracked s
    → get s.phases conn ≡ some waiting
    → IsTracked (set_phase s conn over)
ended s conn h e =
    moved s conn over s.sessions h (h.fresh conn waiting e) (unlisted s conn waiting h e (λ j. cc))

wake_as-IsTracked :
    (s : Server) (conn : ℕ) (w : Wake) (c : Call) (o : Outcomes) (x : Session)
    → IsTracked s
    → get s.phases conn ≡ some waiting
    → IsTracked (wake_as s conn w c o x)
unfolding wake_as
wake_as-IsTracked s conn on_registered c o x h e = elim (Bool-cases x.registered) [
  | inl f ↦ rw f (store_session-IsTracked s conn x.client_id o h e)
  | inr f ↦ rw f h
]
wake_as-IsTracked s conn on_done c o x h e = elim (Bool-cases x.done) [
  | inl f ↦ rw f (ended s conn h e)
  | inr f ↦ rw f h
]
wake_as-IsTracked s conn on_timeout c o x h e = elim (Bool-cases (x.client_id == [])) [
  | inl f ↦ rw f (
      let q = close_session-same s conn c in
      ended (close_session s conn c) conn (same-IsTracked s (close_session s conn c) q h)
        (ap (λ m. get m conn) q.phases ∙ e))
  | inr f ↦ rw f (store_session-IsTracked s conn x.client_id o h e)
]

wake_found-IsTracked :
    (s : Server) (conn : ℕ) (w : Wake) (c : Call) (o : Outcomes) (p : Option Phase)
    (x : Option Session)
    → IsTracked s
    → get s.phases conn ≡ p
    → IsTracked (wake_found s conn w c o p x)
unfolding wake_found
wake_found-IsTracked s conn w c o (some waiting) (some x) h e = wake_as-IsTracked s conn w c o x h e
wake_found-IsTracked s conn w c o (some waiting) none h e = h
wake_found-IsTracked s conn w c o (some (tracking id)) x h e = h
wake_found-IsTracked s conn w c o (some over) x h e = h
wake_found-IsTracked s conn w c o none x h e = h

forget-IsTracked :
    (s : Server) (conn : ℕ) (id : Option Text)
    → IsTracked s
    → get s.phases conn ≡ some (tracking id)
    → IsTracked (set_phase (forget s id) conn over)
forget-IsTracked s conn none h e =
    moved s conn over s.sessions h (h.fresh conn (tracking none) e)
      (unlisted s conn (tracking none) h e (λ j. cc))
forget-IsTracked s conn (some id) h e =
    moved s conn over (delete s.sessions id) h (h.fresh conn (tracking (some id)) e) (λ k c f.
      let (n, g) = delete-found s.sessions id k c f in
      let t = h.table k c g in
      (
        t,
        apart_phases s.phases conn c (tracking (some id)) (tracking (some k)) e t
            (λ q. ground (arith, ==_refl id)),
      ))

leave_found-IsTracked :
    (s : Server) (conn : ℕ) (p : Option Phase) (x : Option Session)
    → IsTracked s
    → get s.phases conn ≡ p
    → IsTracked (leave_found s conn p x)
unfolding leave_found
leave_found-IsTracked s conn (some (tracking id)) (some x) h e = elim (Bool-cases x.done) [
  | inl f ↦ rw f (forget-IsTracked s conn id h e)
  | inr f ↦ rw f h
]
leave_found-IsTracked s conn (some (tracking id)) none h e = h
leave_found-IsTracked s conn (some waiting) x h e = h
leave_found-IsTracked s conn (some over) x h e = h
leave_found-IsTracked s conn none x h e = h

connect-IsTracked :
    (s : Server) (id : Text) (is_temp : Bool) (addr : Text)
    → IsTracked s
    → IsTracked (connect s id is_temp addr)
unfolding connect
connect-IsTracked s id is_temp addr h = record {
  fresh =
      put-Each (λ c p. c < s.next_conn + 1) s.phases s.next_conn waiting
        (λ c p e. let l = h.fresh c p e in omega arith) (omega arith);
  table = λ k c e.
      let t = h.table k c e in
      rw (get-put s.phases s.next_conn c waiting, differ c s.next_conn (h.fresh c _ t)) t;
}

end_loop-same : (s : Server) (key : Text) → SameTable s (end_loop s key)
unfolding end_loop
end_loop-same s key = elim (Bool-cases (runs key s.running)) [
  | inl e ↦ rw e (record { sessions = refl; phases = refl; next_conn = refl })
  | inr e ↦ rw e (record { sessions = refl; phases = refl; next_conn = refl })
]

module _ (client_token : Text) (parse_time : Text → Option ℤ) where
  read_found-same :
      (s : Server) (conn : ℕ) (m : WsMessage) (c : Call) (x : Option Session)
      → SameTable s (read_found client_token parse_time s conn m c x)
  unfolding read_found
  read_found-same s conn m c none = record { sessions = refl; phases = refl; next_conn = refl }
  read_found-same s conn m c (some x) = record { sessions = refl; phases = refl; next_conn = refl }

  server_step-IsTracked :
      (s : Server) (p : ServerStep)
      → IsTracked s
      → IsTracked (server_step client_token parse_time s p)
  unfolding server_step wake leave
  server_step-IsTracked s (connects id is_temp addr) h = connect-IsTracked s id is_temp addr h
  server_step-IsTracked s (reads conn m c) h =
      same-IsTracked s _ (read_found-same s conn m c (get s.live conn)) h
  server_step-IsTracked s (closes conn c) h = same-IsTracked s _ (close_session-same s conn c) h
  server_step-IsTracked s (wakes conn w c o) h =
      wake_found-IsTracked s conn w c o _ (get s.live conn) h refl
  server_step-IsTracked s (leaves conn) h = leave_found-IsTracked s conn _ (get s.live conn) h refl
  server_step-IsTracked s (handles e restoring o taken) h =
      same-IsTracked s _
        (proxy_event_keeps SameTable table_keeps s e e.event_type restoring o taken) h
  server_step-IsTracked s (ends key) h = same-IsTracked s _ (end_loop-same s key) h

  pub server_run-IsTracked :
      (s : Server) (ps : List ServerStep)
      → IsTracked s
      → IsTracked (server_run client_token parse_time s ps)
  unfolding server_run
  server_run-IsTracked s [] h = h
  server_run-IsTracked s (p ∷ ps) h =
      server_run-IsTracked (server_step client_token parse_time s p) ps
        (server_step-IsTracked s p h)
