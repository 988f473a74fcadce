-- ===== src/Worker/Relays.antt =====
-- BBgrid_Server/workers/state.go: the relay sessions, and what the persistence exports and imports. The
-- import is shown from the decoded list on.
use bbgrid.Prelude.{Option, List, [], ◌∷◌, Text, text_key}
use bbgrid.GoText.{codes}
use bbgrid.GoMap.{GoMap, get, put, delete, values}
use bbgrid.Types.{added, deleted, RelaySession, RelayDesiredState, ProxyDesiredState}
use bbgrid.StateStore.{proxy_key}
use bbgrid.Worker.State.{
  StateWorker, Event, Effect, dispatched, saved, removed, relay_payload, nothing, resource,
  if_stored,
}

-- RelayDesiredState of the workers has no token.
abbrev pub desired_relay : RelaySession → RelayDesiredState
desired_relay r = record {
  id = r.id;
  source_client = r.source_client;
  target_client = r.target_client;
  protocol = r.protocol;
  source_port = r.source_port;
  target_port = r.target_port;
  target_local_ip = r.target_local_ip;
  source_local_ip = r.source_local_ip;
  token = [];
}

unfoldable pub create_relay_session : StateWorker → RelaySession → StateWorker × List Effect
create_relay_session w r =
    let event : Event = record {
      resource = resource (codes "relay") r.id;
      event_type = added;
      payload = relay_payload r;
    } in
    (
      record w {
        relay_sessions = put w.relay_sessions r.id r;
        desired_relays = put w.desired_relays r.id (desired_relay r);
      },
      dispatched event ∷ if_stored w (saved event),
    )

abbrev pub get_relay_session : StateWorker → Text → Option RelaySession
get_relay_session w id = get w.relay_sessions id

unfoldable pub remove_relay_session : StateWorker → Text → StateWorker × List Effect
remove_relay_session w id =
    let event : Event = record {
      resource = resource (codes "relay") id;
      event_type = deleted;
      payload = nothing;
    } in
    (
      record w {
        relay_sessions = delete w.relay_sessions id;
        desired_relays = delete w.desired_relays id;
      },
      dispatched event ∷ if_stored w (removed event.resource),
    )

abbrev pub list_relay_sessions : StateWorker → List RelaySession
list_relay_sessions w = values w.relay_sessions

abbrev pub export_relays : StateWorker → List RelayDesiredState
export_relays w = values w.desired_relays

unfoldable pub put_relays :
    GoMap Text RelayDesiredState → List RelayDesiredState → GoMap Text RelayDesiredState
put_relays m [] = m
put_relays m (r ∷ rs) = put_relays (put m r.id r) rs

unfoldable pub import_relays : StateWorker → List RelayDesiredState → StateWorker
unfolding put_relays
import_relays w rs = record w { desired_relays = put_relays w.desired_relays rs }

abbrev pub export_proxies : StateWorker → List ProxyDesiredState
export_proxies w = values w.desired_proxies

unfoldable pub put_proxies :
    GoMap Text ProxyDesiredState → List ProxyDesiredState → GoMap Text ProxyDesiredState
put_proxies m [] = m
put_proxies m (d ∷ ds) = put_proxies (put m (proxy_key d.client_id d.remote_port) d) ds

unfoldable pub import_proxies : StateWorker → List ProxyDesiredState → StateWorker
unfolding put_proxies
import_proxies w ds = record w { desired_proxies = put_proxies w.desired_proxies ds }
