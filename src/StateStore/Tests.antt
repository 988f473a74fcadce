-- ===== src/StateStore/Tests.antt =====
-- BBgrid_Server/runtime/statestore.go on concrete events.
use bbgrid.Prelude.{◌≡◌, refl, none, some, [], ◌∷◌, pos, negsuc, text_key, int_key}
use bbgrid.GoText.{codes, format_int}
use bbgrid.GoMap.{get, put, delete, delete_if}
use bbgrid.Types.{
  ProxyState, added, deleted, proxy_state, opaque, object, string, float64, Fields, nil, field,
}
use bbgrid.StateStore.{StateStore, new_state_store, proxy_key, get_proxy, get_client_id_by_port}
use bbgrid.StateStore.Apply.{
  apply, apply_proxy_event, apply_client_event, replay, lookup, parse_proxy_from_payload,
}
use bbgrid.StateStore.Samples.{event, web, ip, history}
use bbgrid.StateStore.Index.{get_client_id_by_port-get_proxy}
use bbgrid.StateStore.Mirror.{IsMirrored, replay-IsMirrored}
use bbgrid.StateStore.Spec.{view, spec_replay, view-replay}
use bbgrid.StateStore.Restore.{
  restore, map_field, desired_from_fields, restore_relays, restore_relay, relay_from_fields,
  restore_proxies, restore_proxy,
}
use bbgrid.StateStore.Restore.Laws.{Distinct, Each, CanonicalProxy, CanonicalRelay}

key_form : proxy_key (codes "a") (negsuc 4) ≡ codes "a:-5"
unfolding proxy_key format_int
key_form = refl

view-replay_example :
    view (replay (new_state_store ip) history) ≡ spec_replay (view (new_state_store ip)) history
view-replay_example = view-replay (new_state_store ip) history

owner_of_80 :
    get_client_id_by_port (replay (new_state_store ip) history) (pos 80) ≡ some (codes "a")
unfolding get_client_id_by_port replay apply apply_proxy_event apply_client_event
    parse_proxy_from_payload get put delete delete_if proxy_key format_int
owner_of_80 = refl

get_client_id_by_port-get_proxy_example :
    (p : ProxyState) × (get_proxy (replay (new_state_store ip) history) (codes "a") (pos 80)
      ≡ some p)
    × (p.client_id ≡ codes "a")
    × (p.remote_port ≡ pos 80)
get_client_id_by_port-get_proxy_example =
    get_client_id_by_port-get_proxy ip history (pos 80) (codes "a") owner_of_80

replay-IsMirrored_example : IsMirrored (replay (new_state_store ip) history)
replay-IsMirrored_example = replay-IsMirrored ip history

abbrev saved_web : Fields
saved_web = field (codes "client_id") (string (codes "a")) (
    field (codes "remote_port") (float64 (pos 80)) (
      field (codes "local_port") (float64 (pos 8080))
        (field (codes "protocol") (string (codes "tcp")) nil)))

abbrev saved_relay : Fields
saved_relay =
    field (codes "session_id") (string (codes "r1"))
      (field (codes "source_client") (string (codes "a")) nil)

abbrev saved : Fields
saved =
    field (codes "desired_proxies") (object (field (codes "a:80") (object saved_web) nil))
      (field (codes "desired_relays") (object (field (codes "r1") (object saved_relay) nil)) nil)

abbrev empty : StateStore
empty = new_state_store ip

Distinct-saved : Distinct (map_field (lookup saved (codes "desired_proxies")))
unfolding lookup
Distinct-saved = (refl, tt)

restored_web : get (restore empty saved).proxies (codes "a:80") ≡ some web
unfolding restore restore_relays restore_relay relay_from_fields restore_proxies restore_proxy
    desired_from_fields get put lookup proxy_key format_int
restored_web = refl

canonical_proxies : Each CanonicalProxy (map_field (lookup saved (codes "desired_proxies")))
unfolding lookup desired_from_fields proxy_key format_int
canonical_proxies = (refl, tt)

canonical_relays : Each CanonicalRelay (map_field (lookup saved (codes "desired_relays")))
unfolding lookup relay_from_fields
canonical_relays = (refl, tt)

abbrev web_of_b : ProxyState
web_of_b = record web { client_id = codes "b" }

-- Two clients have a proxy at port 80; once one of them is deleted, the port has no client.
port_lost :
    get_client_id_by_port
      (replay (new_state_store ip) (
        (event (codes "proxy") (codes "a:80") added (proxy_state web), pos 1)
        ∷ (event (codes "proxy") (codes "b:80") added (proxy_state web_of_b), pos 2)
        ∷ (event (codes "proxy") (codes "a:80") deleted opaque, pos 3)
        ∷ []))
      (pos 80)
    ≡ none
unfolding get_client_id_by_port get replay apply apply_proxy_event parse_proxy_from_payload put
    proxy_key format_int delete
port_lost = refl
