-- ===== src/Session/Tracking.antt =====
-- BBgrid_Server/session/server.go: the goroutines of the sessions in any order: the connections with their
-- messages and ends, trackSession, the events of proxies, and the ends of the tunnel loops.
pub mod Table
pub mod Laws
pub mod Loops
pub mod OneLoop
use bbgrid.Prelude.{
  ℕ, suc, ◌+◌, Bool, true, false, Option, none, some, List, [], ◌∷◌, Text, ℤ, text_key, nat_key,
  ◌==◌, if◌then◌else◌,
}
use bbgrid.GoMap.{GoMap, get, put, delete}
use bbgrid.Types.{GenericEvent}
use bbgrid.Session.Messages.{WsMessage, Call}
use bbgrid.Session.Protocol.{Session, Hub, new_session, handle_message, close}
use bbgrid.Session.Server.{
  Phase, waiting, tracking, over, Server, Outcomes, sync_client, handle_proxy_event,
}

-- What ends the select of trackSession.
pub data Wake : Type 0 where
  on_registered on_done on_timeout : Wake

-- `Handle` and `HandleTemp` up to the start of the goroutines.
unfoldable pub connect : Server → Text → Bool → Text → Server
connect s client_id is_temp remote_addr = record s {
  live = put s.live s.next_conn (new_session s.next_conn client_id is_temp remote_addr);
  phases = put s.phases s.next_conn waiting;
  next_conn = s.next_conn + 1;
}

abbrev pub set_session : Server → ℕ → Session × Hub → Server
set_session s conn r = record s { live = put s.live conn r.0; hub = r.1 }

unfoldable pub close_found : Server → ℕ → Call → Option Session → Server
close_found s conn c none = s
close_found s conn c (some x) = set_session s conn (close x s.hub c)

-- `Close` of the session with this connection
unfoldable pub close_session : Server → ℕ → Call → Server
unfolding close_found
close_session s conn c = close_found s conn c (get s.live conn)

abbrev pub set_phase : Server → ℕ → Phase → Server
set_phase s conn p = record s { phases = put s.phases conn p }

-- trackSession after its select.
unfoldable pub store_session : Server → ℕ → Text → Outcomes → Server
unfolding sync_client
store_session s conn id o =
    if id == []
    then set_phase s conn (tracking none)
    else (sync_client
        (record (set_phase s conn (tracking (some id))) { sessions = put s.sessions id conn }) id o)

-- The select: a case is taken only where it is ready.
unfoldable pub wake_as : Server → ℕ → Wake → Call → Outcomes → Session → Server
wake_as s conn on_registered c o x = if x.registered then store_session s conn x.client_id o else s
wake_as s conn on_done c o x = if x.done then set_phase s conn over else s
wake_as s conn on_timeout c o x =
    if x.client_id == []
    then set_phase (close_session s conn c) conn over
    else store_session s conn x.client_id o

unfoldable pub wake_found :
    Server → ℕ → Wake → Call → Outcomes → Option Phase → Option Session → Server
unfolding wake_as
wake_found s conn w c o (some waiting) (some x) = wake_as s conn w c o x
wake_found s conn w c o _ _ = s

unfoldable pub wake : Server → ℕ → Wake → Call → Outcomes → Server
unfolding wake_found
wake s conn w c o = wake_found s conn w c o (get s.phases conn) (get s.live conn)

-- `<-session.Done()`, and the deferred Delete.
abbrev pub forget : Server → Option Text → Server
forget s none = s
forget s (some id) = record s { sessions = delete s.sessions id }

unfoldable pub leave_found : Server → ℕ → Option Phase → Option Session → Server
leave_found s conn (some (tracking id)) (some x) =
    if x.done then set_phase (forget s id) conn over else s
leave_found s conn _ _ = s

unfoldable pub leave : Server → ℕ → Server
unfolding leave_found
leave s conn = leave_found s conn (get s.phases conn) (get s.live conn)

unfoldable pub remove : Text → List Text → List Text
remove key [] = []
remove key (k ∷ ks) = let rest = remove key ks in if k == key then rest else k ∷ rest

unfoldable pub runs : Text → List Text → Bool
runs key [] = false
runs key (k ∷ ks) = let rest = runs key ks in if k == key then true else rest

-- The listener of a tunnel loop is closed, or the server stops.
unfoldable pub end_loop : Server → Text → Server
unfolding remove runs
end_loop s key =
    if runs key s.running
    then record s { running = remove key s.running; active_loops = delete s.active_loops key }
    else s

pub data ServerStep : Type 0 where
  connects : Text → Bool → Text → ServerStep
  reads : ℕ → WsMessage → Call → ServerStep
  closes : ℕ → Call → ServerStep
  wakes : ℕ → Wake → Call → Outcomes → ServerStep
  leaves : ℕ → ServerStep
  handles : GenericEvent → Bool → Outcomes → (Text → Bool) → ServerStep
  ends : Text → ServerStep

module _ (client_token : Text) (parse_time : Text → Option ℤ) where
  unfoldable pub read_found : Server → ℕ → WsMessage → Call → Option Session → Server
  unfolding handle_message
  read_found s conn m c none = s
  read_found s conn m c (some x) =
      set_session s conn (handle_message client_token parse_time x s.hub m c)

  unfoldable pub server_step : Server → ServerStep → Server
  unfolding connect read_found close_session wake leave end_loop
  server_step s (connects client_id is_temp remote_addr) = connect s client_id is_temp remote_addr
  server_step s (reads conn m c) = read_found s conn m c (get s.live conn)
  server_step s (closes conn c) = close_session s conn c
  server_step s (wakes conn w c o) = wake s conn w c o
  server_step s (leaves conn) = leave s conn
  server_step s (handles e restoring o taken) = handle_proxy_event s e restoring o taken
  server_step s (ends key) = end_loop s key

  unfoldable pub server_run : Server → List ServerStep → Server
  unfolding server_step
  server_run s [] = s
  server_run s (p ∷ ps) = server_run (server_step s p) ps
