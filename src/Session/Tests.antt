-- ===== src/Session/Tests.antt =====
-- The session layer on concrete visitors, tunnels and messages.
use bbgrid.Prelude.{◌≡◌, refl, true, false, some, List, [], ◌∷◌, pos, All}
use bbgrid.GoMap.{get, put, delete}
use bbgrid.GoText.{codes}
use bbgrid.Session.Pending.{
  PendingStep, Tunnel, Visitor, Pending, no_pending, register_pending, give_up, give_up_found,
  registers, accepts, cleans, receives, gives_up, pending_step, pending_run,
}
use bbgrid.Session.Pending.Laws.{pending_run-pairs, reached-IsPaired}
use bbgrid.Session.Pending.Stranded.{IsStranded, accept_tunnel-strands}
use bbgrid.Types.{RelaySession, object, nil, added, proxy_state, GenericEvent}
use bbgrid.StateStore.{StateStore, new_state_store, get_client, set_client_conn, proxy_key}
use bbgrid.StateStore.Apply.{apply}
use bbgrid.StateStore.Clients.{set_client_conn-apply}
use bbgrid.StateStore.Samples.{event, ip, web}
use bbgrid.Session.Relay.Admitted.{Asked, relay_run-Asked}
use bbgrid.Session.Relay.{RelayRequest, RelayStep, requests, meets, relay_run}
use bbgrid.Session.Messages.{WsMessage, Call, proxy_closed}
use bbgrid.Session.Protocol.{read_pump, close}
use bbgrid.Session.Protocol.Lifecycle.{TakesOut, close-TakesOut}
use bbgrid.Session.Samples.{
  client_token, no_time, call, register, pong, hub, certified, outcomes, old_session,
  new_session_of_client, reconnected,
}
use bbgrid.Session.Server.{new_server, start_tunnel_loop}
use bbgrid.Session.Tracking.{
  ServerStep, connects, reads, wakes, leaves, handles, on_registered, server_run, runs,
}
use bbgrid.Session.Tracking.Laws.{Reaches, IsLost, server_run-Reaches, server_run-IsLost}
use bbgrid.Session.Tracking.Loops.{HoldsAt}
use bbgrid.Session.Tracking.OneLoop.{IsLooped, IsStuck, server_run-IsLooped, server_run-IsStuck}

abbrev first_visitor : Visitor
first_visitor = record { conn = 1; token = codes "t1" }

abbrev second_visitor : Visitor
second_visitor = record { conn = 2; token = codes "t2" }

abbrev first_tunnel : Tunnel
first_tunnel = record { conn = 7; token = codes "t1" }

abbrev second_tunnel : Tunnel
second_tunnel = record { conn = 8; token = codes "t2" }

abbrev meeting : List PendingStep
meeting =
    registers first_visitor (pos 0)
    ∷ registers second_visitor (pos 1)
    ∷ accepts second_tunnel true
    ∷ accepts first_tunnel true
    ∷ receives 0
    ∷ receives 1
    ∷ cleans (pos 70_000_000_000)
    ∷ []

pending_run-pairs_example :
    (s : Pending) × (pending_run no_pending meeting ≡ some s)
    × All (λ (p : Visitor × Tunnel). p.1.token ≡ p.0.token) s.piped
pending_run-pairs_example = pending_run-pairs meeting

abbrev given_up : Pending
given_up = record no_pending {
  entries = (codes "t1", record { chan = 0; created_at = pos 0 }) ∷ [];
  chans = (0, []) ∷ [];
  closed_visitors = first_visitor ∷ [];
  next_chan = 1;
}

given_up-run :
    pending_run no_pending (registers first_visitor (pos 0) ∷ gives_up 0 ∷ []) ≡ some given_up
unfolding pending_run pending_step register_pending give_up give_up_found get put delete
given_up-run = refl

abbrev late : List PendingStep
late = registers second_visitor (pos 5) ∷ cleans (pos 70_000_000_000) ∷ receives 0 ∷ []

accept_tunnel-strands_example :
    (s : Pending) × (pending_run given_up (accepts first_tunnel true ∷ late) ≡ some s)
    × IsStranded s 0 first_tunnel
unfolding get
accept_tunnel-strands_example =
    accept_tunnel-strands given_up first_tunnel (record { chan = 0; created_at = pos 0 }) late
      (reached-IsPaired (registers first_visitor (pos 0) ∷ gives_up 0 ∷ []) given_up given_up-run)
      refl refl

abbrev guesses : List (WsMessage × Call)
guesses = (register (codes "guess"), call) ∷ (pong, call) ∷ []

abbrev visit : List (WsMessage × Call)
visit = (register client_token, call) ∷ (pong, call) ∷ []

close-TakesOut_example :
    let r = read_pump client_token no_time certified hub visit in
    TakesOut (codes "a") hub (close r.0 r.1 call).1
close-TakesOut_example =
    close-TakesOut client_token no_time (codes "a") certified hub visit call refl refl refl refl
      (refl, (refl, tt))

abbrev arrival : GenericEvent
arrival = event (codes "client") (codes "a") added (object nil)

set_client_conn-apply_example :
    get_client
      (set_client_conn (apply (new_state_store ip) arrival (pos 1)) (codes "a") (some 4) (pos 1))
      (codes "a")
    ≡ get_client
        (apply (set_client_conn (new_state_store ip) (codes "a") (some 4) (pos 1)) arrival (pos 1))
        (codes "a")
unfolding get_client get
set_client_conn-apply_example =
    set_client_conn-apply (new_state_store ip) arrival nil (codes "a") 4 (pos 1) (codes "a")
      (refl, refl) refl refl tt

abbrev session_steps : List ServerStep
session_steps =
    connects (codes "a") false (codes "10.0.0.1:5")
    ∷ reads 0 (register client_token) call
    ∷ wakes 0 on_registered call outcomes
    ∷ handles (event (codes "proxy") (codes "a:80") added (proxy_state web)) false outcomes
        (λ id. true)
    ∷ []

server_run-Reaches_example :
    Reaches
      (server_run client_token no_time (new_server hub (pos 7000)) session_steps)
      (codes "a")
      (proxy_closed (codes "a-80"))
      true
server_run-Reaches_example =
    server_run-Reaches client_token no_time hub (pos 7000) session_steps (codes "a")
      (proxy_closed (codes "a-80")) true

server_run-IsLost_example :
    IsLost
      (server_run client_token no_time reconnected
        (wakes 1 on_registered call outcomes ∷ leaves 0 ∷ []))
      (codes "a")
      1
unfolding get
server_run-IsLost_example =
    server_run-IsLost client_token no_time reconnected (codes "a") 0 1 old_session
      new_session_of_client call outcomes
      (record {
        tracked = refl;
        old_live = refl;
        old_done = refl;
        waits = refl;
        new_live = refl;
        new_open = refl;
        registered = refl;
        client_id = refl;
        named = refl;
      })

server_run-IsLooped_example :
    HoldsAt IsLooped (server_run client_token no_time (new_server hub (pos 7000)) session_steps)
server_run-IsLooped_example = server_run-IsLooped client_token no_time hub (pos 7000) session_steps

server_run-IsStuck_example : HoldsAt (IsStuck (proxy_key (codes "a") (pos 80))) (
    server_run client_token no_time
      (start_tunnel_loop (new_server hub (pos 7000)) web false)
      session_steps)
unfolding get runs server_run
server_run-IsStuck_example =
    server_run-IsStuck client_token no_time (new_server hub (pos 7000)) web session_steps
      (server_run-IsLooped client_token no_time hub (pos 7000) []) refl

abbrev relay : RelaySession
relay = record {
  id = codes "r";
  source_client = codes "a";
  target_client = codes "b";
  protocol = codes "tcp";
  source_port = pos 22;
  target_port = pos 2222;
  target_local_ip = [];
  source_local_ip = [];
  token = codes "k";
  created_at = pos 0;
  status = [];
  error = [];
}

abbrev relay_store : StateStore
relay_store = record (new_state_store ip) { relays = (codes "r", relay) ∷ [] }

abbrev source_end : RelayRequest
source_end = record {
  conn = 1;
  session = codes "r";
  token = codes "k";
  role = codes "source";
  client_id = codes "a";
}

abbrev relay_steps : List RelayStep
relay_steps =
    requests relay_store source_end
    ∷ requests relay_store (record source_end { conn = 2; client_id = codes "b" })
    ∷ meets 0
    ∷ []

relay_run-Asked_example :
    (s : Pending) × (relay_run no_pending relay_steps ≡ some s)
    × All (λ (p : Visitor × Tunnel). p.1.token ≡ p.0.token) s.piped
    × All
        (λ (p : Visitor × Tunnel).
          Asked relay_steps p.0.conn p.0.token × Asked relay_steps p.1.conn p.1.token)
        s.piped
relay_run-Asked_example = relay_run-Asked relay_steps
