-- ===== src/Session/Samples.antt =====
-- A server of sessions, with its clients, for the tests.
use bbgrid.Prelude.{true, false, Option, none, some, [], ◌∷◌, Text, ℤ, pos}
use bbgrid.GoText.{codes}
use bbgrid.Types.{string, object, field, nil}
use bbgrid.StateStore.{new_state_store}
use bbgrid.StateStore.Samples.{ip}
use bbgrid.Auth.Disk.{written}
use bbgrid.Auth.Registry.{init_registry}
use bbgrid.Session.Messages.{WsMessage, Call}
use bbgrid.Session.Protocol.{Session, Hub, new_session}
use bbgrid.Session.Server.{waiting, tracking, Server, Outcomes, new_server}

abbrev pub client_token : Text
client_token = codes "secret"

-- No text is a time.
abbrev pub no_time : Text → Option ℤ
no_time text = none

abbrev pub call : Call
call = record {
  now = pos 5;
  now_unix = pos 0;
  now_milli = pos 0;
  event_id = codes "e";
  outcome = written;
  taken = true;
}

abbrev pub register : Text → WsMessage
register token = record {
  type = codes "register";
  payload = object (
      field (codes "token") (string token) (
        field (codes "client_id") (string (codes "a"))
          (field (codes "host") (string (codes "h")) nil)));
}

abbrev pub pong : WsMessage
pong = record {
  type = codes "pong";
  payload = object (field (codes "timestamp") (string (codes "now")) nil);
}

abbrev pub hub : Hub
hub = record { store = new_state_store ip; registry = init_registry none (pos 0); published = [] }

abbrev pub certified : Session
certified = new_session 0 (codes "a") false (codes "10.0.0.1:5")

abbrev pub outcomes : Outcomes
outcomes = record {
  taken = λ p. true;
  has_listener = λ p. true;
  relay_taken = λ r. true;
  signal_taken = λ m. true;
}

abbrev pub old_session : Session
old_session = record certified { done = true; registered = true }

abbrev pub new_session_of_client : Session
new_session_of_client = record (new_session 1 (codes "a") false (codes "10.0.0.1:6")) {
  registered = true;
}

-- A client whose old session is over and whose new one has registered.
abbrev pub reconnected : Server
reconnected = record (new_server hub (pos 7000)) {
  live = (0, old_session) ∷ (1, new_session_of_client) ∷ [];
  phases = (0, tracking (some (codes "a"))) ∷ (1, waiting) ∷ [];
  sessions = (codes "a", 0) ∷ [];
  next_conn = 2;
}
