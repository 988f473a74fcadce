-- ===== src/Reconcile/Tests.antt =====
-- BBgrid_Server/runtime/reconcile.go on concrete failures and passes.
use bbgrid.Prelude.{
  suc, ℕ, ◌+◌, ◌*◌, ◌^◌, ◌≡◌, refl, min, Bool, true, false, none, List, [], ◌∷◌, Text, ℤ, pos,
  arith, ltb, text_key,
}
use bbgrid.GoText.{codes}
use bbgrid.GoMap.{get}
use bbgrid.Types.{added, proxy_state, GenericEvent, ProxyState}
use bbgrid.StateStore.{StateStore, new_state_store}
use bbgrid.StateStore.Apply.{replay, handled_at}
use bbgrid.Reconcile.EventBusProvider.{Publications, event_bus_provider}
use bbgrid.Reconcile.Convergence.{reconcile_proxies-converges}
use bbgrid.StateStore.Samples.{event, ip, web}
use bbgrid.Reconcile.Backoff.{
  Failures, fail_count, in_backoff, record_failure, base_delay, max_delay,
}
use bbgrid.Reconcile.Backoff.Laws.{in_backoff-record_failure, in_backoff-many_failures}
use bbgrid.Reconcile.{Provider, Pass, reconcile_items, reconcile_proxies, start_pass}
use bbgrid.Reconcile.Engine.{
  new_reconcile_engine, Step, wakes, triggers, stops, elapses, timer, takes_trigger, sees_stop, run,
}
use bbgrid.Reconcile.History.{recent, newest, results, run-history}

abbrev key : Text
key = codes "a:80"

-- Two failures in a row, the second at 100 s.
abbrev twice : Failures
twice = record { count = (key, 1) ∷ []; time = (key, pos 70_000_000_000) ∷ [] }

in_backoff-record_failure_example :
    in_backoff (record_failure twice key (pos 100_000_000_000)) key (pos 159_000_000_000)
    ≡ ltb 159_000_000_000 (100_000_000_000 + min (2 ^ fail_count twice key * base_delay) max_delay)
unfolding get
in_backoff-record_failure_example =
    in_backoff-record_failure twice key 100_000_000_000 159_000_000_000 (omega arith)

abbrev often : Failures
often = record { count = (key, 60) ∷ []; time = (key, pos 0) ∷ [] }

in_backoff-many_failures_example : in_backoff (record_failure often key (pos 5)) key (pos 6) ≡ false
unfolding get
in_backoff-many_failures_example =
    in_backoff-many_failures often key 5 6 (omega arith) (omega arith)

-- A provider that always succeeds and counts its calls in the world.
abbrev counting : Provider ℕ
counting = record {
  now = λ w. pos w;
  create_proxy = λ id p w. (true, w + 1);
  delete_proxy = λ id port w. (true, w + 1);
  create_relay = λ r w. (true, w + 1);
  delete_relay = λ id w. (true, w + 1);
}

abbrev no_failures : Failures
no_failures = record { count = []; time = [] }

-- The events leave one proxy that lacks a client.
abbrev nameless : ProxyState
nameless = record {
  client_id = [];
  remote_port = pos 80;
  local_port = pos 8080;
  local_ip = [];
  protocol = codes "tcp";
  bind_addr = [];
}

abbrev events : List (GenericEvent × ℤ)
events = (event (codes "proxy") (codes ":80") added (proxy_state nameless), pos 1) ∷ []

abbrev wanted : List ℕ
wanted = 1 ∷ 2 ∷ []

abbrev existing : List ℕ
existing = 2 ∷ 3 ∷ []

abbrev one_key : ℕ → Text
one_key n = n ∷ []

abbrev count_call : ℕ → ℕ → Bool × ℕ
count_call n w = (true, w + 1)

abbrev pass : Pass ℕ
pass =
    reconcile_items (λ w. pos w) count_call count_call one_key one_key wanted existing
      (start_pass 0 no_failures)

-- A pass after the delay, two triggers that give one pass, and a stop.
abbrev steps : List (Step ℕ)
steps =
    wakes timer
    ∷ triggers
    ∷ elapses suc
    ∷ triggers
    ∷ wakes takes_trigger
    ∷ wakes takes_trigger
    ∷ stops
    ∷ wakes sees_stop
    ∷ []

run-history_example :
    let e = new_reconcile_engine {W = ℕ} 0 in
    let state : ℕ → StateStore = λ w. new_state_store (codes "1.2.3.4") in
    ((run counting state e steps).history ≡ recent (results counting state e steps))
    × ((run counting state e steps).last ≡ newest none (results counting state e steps))
run-history_example = run-history counting (λ w. new_state_store (codes "1.2.3.4")) 0 steps

abbrev no_events : Publications
no_events = record { now = pos 0; now_milli = pos 0; draw = λ n. codes "e"; published = [] }

-- A proxy without a port.
abbrev portless : List (GenericEvent × ℤ)
portless =
    (
      event (codes "proxy") (codes "a:0") added (proxy_state (record web { remote_port = pos 0 })),
      pos 1,
    )
    ∷ (event (codes "proxy") (codes "a:80") added (proxy_state web), pos 2)
    ∷ []

reconcile_proxies-converges_example :
    let s = replay (new_state_store ip) portless in
    let first = reconcile_proxies event_bus_provider s no_events often in
    let t = replay s (handled_at (λ e. pos 3) first.world.published) in
    (reconcile_proxies event_bus_provider t first.world often).total ≡ 0
reconcile_proxies-converges_example =
    reconcile_proxies-converges ip portless no_events often often (λ e. pos 3) refl
