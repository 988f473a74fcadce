-- ===== src/Storage/Tests.antt =====
-- The stores of common/store on concrete resources, events and files.
use bbgrid.Prelude.{
  ℕ, ◌≡◌, refl, true, false, Option, none, some, List, [], ◌∷◌, Text, pos, text_key,
}
use bbgrid.GoText.{codes}
use bbgrid.GoMap.{GoMap, get, delete}
use bbgrid.Types.{
  ResourceKey, GenericEvent, Any, string, int64, float64, object, proxy_state, relay_session,
  proxy_map, relay_map, added, opaque, nil,
}
use bbgrid.StateStore.Samples.{event, web}
use bbgrid.EventLog.{stored}
use bbgrid.Storage.Meta.{get_resource, load_all}
use bbgrid.Storage.Meta.Laws.{reread_of, Change, puts, deletes, changes, get_resource-load_all}
use bbgrid.Storage.Snapshots.{cleanup, remove_files, sort_files, sort_loop, settle}
use bbgrid.Storage.Snapshots.Sorting.{UpTo}
use bbgrid.Storage.Snapshots.Cleanup.{cleanup-newest}
use bbgrid.Storage.Manager.{StorageManager, Call}
use bbgrid.Storage.Manager.Laws.{Operation, appends, saves, deletes as deletes_stored}

abbrev web_key : ResourceKey
web_key = record { type = codes "proxy"; namespace = codes "default"; name = codes "a:80" }

abbrev ssh_key : ResourceKey
ssh_key = record web_key { name = codes "b:22" }

-- The first save fails, the second reaches the disk.
abbrev some_changes : List (Change Any)
some_changes =
    puts web_key (proxy_state web) false
    ∷ puts ssh_key (int64 (pos 8)) true
    ∷ deletes ssh_key true
    ∷ []

-- A JSON that reads a number as a float and a struct as a map, whose fields it loses.
unfoldable through_json : Any → Any
through_json (string s) = string s
through_json (int64 n) = float64 n
through_json (float64 n) = float64 n
through_json (object fs) = object fs
through_json (proxy_state p) = object nil
through_json (relay_session r) = object nil
through_json (proxy_map m) = object nil
through_json (relay_map m) = object nil
through_json opaque = opaque

through_json-stable : (r : Any) → through_json (through_json r) ≡ through_json r
unfolding through_json
through_json-stable (string s) = refl
through_json-stable (int64 n) = refl
through_json-stable (float64 n) = refl
through_json-stable (object fs) = refl
through_json-stable (proxy_state p) = refl
through_json-stable (relay_session r) = refl
through_json-stable (proxy_map m) = refl
through_json-stable (relay_map m) = refl
through_json-stable opaque = refl

get_resource-load_all_example :
    get_resource
      (load_all through_json (changes (load_all through_json []) some_changes).files)
      web_key
    ≡ reread_of through_json
        (get_resource (changes (load_all through_json []) some_changes) web_key)
get_resource-load_all_example =
    get_resource-load_all through_json [] some_changes web_key through_json-stable refl

-- The stored struct is a map when the store is opened again.
struct_is_lost :
    get_resource
      (load_all through_json (changes (load_all through_json []) some_changes).files)
      web_key
    ≡ some (object nil)
unfolding through_json get_resource changes get bbgrid.GoMap.put delete
    bbgrid.ResourceKey.key_string
struct_is_lost = refl

abbrev call : Call
call = record {
  now = pos 1000;
  event_id = codes "e";
  snapshot_id = codes "s";
  line = stored;
  snapshot_renamed = true;
  meta_renamed = true;
}

abbrev marshal : GenericEvent → Option Text
marshal e = some (codes "{}")

abbrev unmarshal : Text → Option GenericEvent
unmarshal line = none

-- A manager that takes a snapshot at every second event.
abbrev new_manager : StorageManager
new_manager = record {
  events = record { file = []; events = []; sequence = pos 0 };
  snapshots = record { files = []; latest = none };
  meta = record { resources = []; files = [] };
  snapshot_interval = 2;
  event_count = 0;
}

abbrev web_event : GenericEvent
web_event = event (codes "proxy") (codes "a:80") added opaque

abbrev operations : List Operation
operations =
    appends web_event call
    ∷ saves web_event (some (string (codes "x"))) call
    ∷ deletes_stored web_key call
    ∷ []

abbrev two_files : GoMap Text ℕ
two_files = (codes "200.json", 2) ∷ (codes "100.json", 1) ∷ []

old_removed : get (cleanup 1 two_files) (codes "100.json") ≡ none
unfolding cleanup remove_files sort_files sort_loop settle get delete
old_removed = refl

new_left : get (cleanup 1 two_files) (codes "200.json") ≡ some 2
unfolding cleanup remove_files sort_files sort_loop settle get delete
new_left = refl

old_there : get two_files (codes "100.json") ≡ some 1
unfolding get
old_there = refl

cleanup-newest_example : UpTo (codes "100.json") (codes "200.json")
cleanup-newest_example =
    cleanup-newest 1 two_files (codes "100.json") (codes "200.json") 1 2 old_there old_removed
      new_left
