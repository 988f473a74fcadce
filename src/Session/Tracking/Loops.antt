-- ===== src/Session/Tracking/Loops.antt =====
-- BBgrid_Server/session/server.go: the tunnel loops over all steps of the goroutines.
use bbgrid.Prelude.{
  ℕ, ◌≡◌, Bool, Option, none, some, List, [], ◌∷◌, Text, ℤ, text_key, nat_key, ◌==◌, inl, inr,
  Bool-cases,
}
use bbgrid.GoMap.{GoMap, get}
use bbgrid.Types.{ProxyState}
use bbgrid.Session.Messages.{WsMessage, Call, Outgoing}
use bbgrid.Session.Protocol.{Session}
use bbgrid.Session.Server.{
  Phase, waiting, tracking, over, Server, Outcomes, write_to, start_tunnel_loop,
}
use bbgrid.Session.Server.Frame.{Keeps, sync_client_keeps, proxy_event_keeps}
use bbgrid.Session.Tracking.{
  Wake, on_registered, on_done, on_timeout, connect, close_found, close_session, set_phase,
  store_session, wake_as, wake_found, wake, forget, leave_found, leave, end_loop, ServerStep,
  connects, reads, closes, wakes, leaves, handles, ends, read_found, server_step, server_run,
}

abbrev LoopFact : Type 1
LoopFact = GoMap Text Bool → List Text → Type 0

abbrev pub HoldsAt : LoopFact → Server → Type 0
HoldsAt P s = P s.active_loops s.running

-- What starts and ends of loops keep, every step keeps.
module _ (P : LoopFact)
    (start : (s : Server) (p : ProxyState) (b : Bool)
      → HoldsAt P s
      → HoldsAt P (start_tunnel_loop s p b))
    (finish : (s : Server) (key : Text) → HoldsAt P s → HoldsAt P (end_loop s key)) where
  Follows : Server → Server → Type 0
  Follows s t = HoldsAt P s → HoldsAt P t

  queue-Follows :
      (s : Server) (conn : ℕ) (m : Outgoing) (taken : Bool) (x : Option Session)
      → get s.live conn ≡ x
      → Follows s (write_to s conn m taken x)
  unfolding Follows
  queue-Follows s conn m taken none e h = h
  queue-Follows s conn m taken (some x) e h = h

  loops_kept : Keeps Follows
  unfolding Follows
  loops_kept = record {
    same = λ s h. h;
    trans = λ s t u p q h. q (p h);
    queue = queue-Follows;
    delivered = λ s m h. h;
    start = start;
  }

  close_found-Follows :
      (s : Server) (conn : ℕ) (c : Call) (x : Option Session) → Follows s (close_found s conn c x)
  unfolding Follows close_found
  close_found-Follows s conn c none h = h
  close_found-Follows s conn c (some x) h = h

  store_session-Follows :
      (s : Server) (conn : ℕ) (id : Text) (o : Outcomes) → Follows s (store_session s conn id o)
  unfolding Follows store_session
  store_session-Follows s conn id o h = elim (Bool-cases (id == [])) [
    | inl e ↦ rw e h
    | inr e ↦ rw e (unfold Follows in sync_client_keeps Follows loops_kept _ id o h)
  ]

  wake_as-Follows :
      (s : Server) (conn : ℕ) (w : Wake) (c : Call) (o : Outcomes) (x : Session)
      → Follows s (wake_as s conn w c o x)
  unfolding Follows wake_as close_session
  wake_as-Follows s conn on_registered c o x h = elim (Bool-cases x.registered) [
    | inl e ↦ rw e (unfold Follows in store_session-Follows s conn x.client_id o h)
    | inr e ↦ rw e h
  ]
  wake_as-Follows s conn on_done c o x h = elim (Bool-cases x.done) [
    | inl e ↦ rw e h
    | inr e ↦ rw e h
  ]
  wake_as-Follows s conn on_timeout c o x h = elim (Bool-cases (x.client_id == [])) [
    | inl e ↦ rw e (unfold Follows in close_found-Follows s conn c (get s.live conn) h)
    | inr e ↦ rw e (unfold Follows in store_session-Follows s conn x.client_id o h)
  ]

  wake_found-Follows :
      (s : Server) (conn : ℕ) (w : Wake) (c : Call) (o : Outcomes) (p : Option Phase)
      (x : Option Session)
      → Follows s (wake_found s conn w c o p x)
  unfolding Follows wake_found
  wake_found-Follows s conn w c o (some waiting) (some x) h =
      unfold Follows in wake_as-Follows s conn w c o x h
  wake_found-Follows s conn w c o (some waiting) none h = h
  wake_found-Follows s conn w c o (some (tracking id)) x h = h
  wake_found-Follows s conn w c o (some over) x h = h
  wake_found-Follows s conn w c o none x h = h

  forget-Follows :
      (s : Server) (conn : ℕ) (id : Option Text) → Follows s (set_phase (forget s id) conn over)
  unfolding Follows
  forget-Follows s conn none h = h
  forget-Follows s conn (some id) h = h

  leave_found-Follows :
      (s : Server) (conn : ℕ) (p : Option Phase) (x : Option Session)
      → Follows s (leave_found s conn p x)
  unfolding Follows leave_found
  leave_found-Follows s conn (some (tracking id)) (some x) h = elim (Bool-cases x.done) [
    | inl e ↦ rw e (unfold Follows in forget-Follows s conn id h)
    | inr e ↦ rw e h
  ]
  leave_found-Follows s conn (some (tracking id)) none h = h
  leave_found-Follows s conn (some waiting) x h = h
  leave_found-Follows s conn (some over) x h = h
  leave_found-Follows s conn none x h = h

  read_found-Follows :
      (client_token : Text) (parse_time : Text → Option ℤ) (s : Server) (conn : ℕ) (m : WsMessage)
      (c : Call) (x : Option Session)
      → Follows s (read_found client_token parse_time s conn m c x)
  unfolding Follows read_found
  read_found-Follows client_token parse_time s conn m c none h = h
  read_found-Follows client_token parse_time s conn m c (some x) h = h

  server_step_keeps :
      (client_token : Text) (parse_time : Text → Option ℤ) (s : Server) (p : ServerStep)
      → HoldsAt P s
      → HoldsAt P (server_step client_token parse_time s p)
  unfolding server_step connect close_session wake leave Follows
  server_step_keeps client_token parse_time s (connects id is_temp addr) h = h
  server_step_keeps client_token parse_time s (reads conn m c) h =
      read_found-Follows client_token parse_time s conn m c (get s.live conn) h
  server_step_keeps client_token parse_time s (closes conn c) h =
      close_found-Follows s conn c (get s.live conn) h
  server_step_keeps client_token parse_time s (wakes conn w c o) h =
      wake_found-Follows s conn w c o (get s.phases conn) (get s.live conn) h
  server_step_keeps client_token parse_time s (leaves conn) h =
      leave_found-Follows s conn (get s.phases conn) (get s.live conn) h
  server_step_keeps client_token parse_time s (handles e restoring o taken) h =
      proxy_event_keeps Follows loops_kept s e e.event_type restoring o taken h
  server_step_keeps client_token parse_time s (ends key) h = finish s key h

  pub server_run_keeps :
      (client_token : Text) (parse_time : Text → Option ℤ) (s : Server) (ps : List ServerStep)
      → HoldsAt P s
      → HoldsAt P (server_run client_token parse_time s ps)
  unfolding server_run
  server_run_keeps client_token parse_time s [] h = h
  server_run_keeps client_token parse_time s (p ∷ ps) h =
      server_run_keeps client_token parse_time (server_step client_token parse_time s p) ps
        (server_step_keeps client_token parse_time s p h)
