-- ===== src/Core/Tests.antt =====
-- Core on concrete events.
use bbgrid.Prelude.{refl, true, false, Option, none, some, List, [], ◌∷◌, Text, pos, arith}
use bbgrid.GoText.{codes}
use bbgrid.Types.{added, deleted, proxy_state, opaque, object, nil, GenericEvent}
use bbgrid.EventLog.{stored}
use bbgrid.StateStore.{new_state_store}
use bbgrid.StateStore.Samples.{event, web, ip}
use bbgrid.Storage.Manager.{StorageManager, Call}
use bbgrid.Core.{Core, Delivery, handle_all}
use bbgrid.Core.Laws.{AllCovered, Handles, handle_all-Handles, handle_all-AllCovered}

abbrev call : Call
call = record {
  now = pos 3;
  event_id = codes "e";
  snapshot_id = codes "s";
  line = stored;
  snapshot_renamed = true;
  meta_renamed = true;
}

abbrev marshal : GenericEvent → Option Text
marshal e = some (codes "{}")

abbrev unmarshal : Text → Option GenericEvent
unmarshal line = none

abbrev manager : StorageManager
manager = record {
  events = record { file = []; events = []; sequence = pos 0 };
  snapshots = record { files = []; latest = none };
  meta = record { resources = []; files = [] };
  snapshot_interval = 2;
  event_count = 0;
}

abbrev new_core : Core
new_core = record {
  store = new_state_store ip;
  storage = some manager;
  restoring = false;
  triggered = false;
}

abbrev deliver : GenericEvent → Delivery
deliver e = record { event = e; now = pos 2; nil_payload = false; call = call }

abbrev deliveries : List Delivery
deliveries =
    deliver (event (codes "client") (codes "a") added (object nil))
    ∷ deliver (event (codes "proxy") (codes "a:80") added (proxy_state web))
    ∷ record (deliver (event (codes "proxy") (codes "a:80") deleted opaque)) { nil_payload = true }
    ∷ []

handle_all-Handles_example :
    Handles marshal unmarshal new_core (handle_all marshal unmarshal new_core deliveries) deliveries
handle_all-Handles_example = handle_all-Handles marshal unmarshal new_core deliveries

still_covered : AllCovered (handle_all marshal unmarshal new_core deliveries).storage
still_covered =
    handle_all-AllCovered marshal unmarshal new_core deliveries (refl, (refl, (refl, tt)))
      (record { sequence = refl; counted = omega arith; within = omega arith })
