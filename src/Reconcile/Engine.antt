-- ===== src/Reconcile/Engine.antt =====
-- BBgrid_Server/runtime/reconcile.go: the loop of the engine around its passes. What the provider does
-- belongs to the world, and so does the state store that the passes read.
use bbgrid.Prelude.{
  ℕ, Bool, true, false, not, ◌&&◌, Option, none, some, List, [], ◌∷◌, ◌++◌, ℤ, ◌-ℤ◌, ltb, length,
  drop, if◌then◌else◌,
}
use bbgrid.StateStore.{StateStore}
use bbgrid.Reconcile.Backoff.{Failures}
use bbgrid.Reconcile.{Pass, Provider, reconcile_proxies, reconcile_relays}

pub record ReconcileResult : Type 0 where
  pub timestamp : ℤ
  pub proxies_total : ℕ
  pub proxies_fixed : ℕ
  pub proxies_failed : ℕ
  pub relays_total : ℕ
  pub relays_fixed : ℕ
  pub relays_failed : ℕ
  pub duration : ℤ

-- The engine, with what its provider and its state store live in.
pub record ReconcileEngine (W : Type 0) : Type 0 where
  pub world : W
  -- whether `triggerCh`, which holds one signal, is full
  pub triggered : Bool
  pub stopped : Bool
  -- whether the initial delay is over, and whether `Run` has returned
  pub started : Bool
  pub ended : Bool
  pub last : Option ReconcileResult
  pub history : List ReconcileResult
  pub proxy_failures : Failures
  pub relay_failures : Failures

abbrev no_failures : Failures
no_failures = record { count = []; time = [] }

abbrev pub new_reconcile_engine : {W : Type 0} → W → ReconcileEngine W
new_reconcile_engine w = record {
  world = w;
  triggered = false;
  stopped = false;
  started = false;
  ended = false;
  last = none;
  history = [];
  proxy_failures = no_failures;
  relay_failures = no_failures;
}

abbrev pub history_size : ℕ
history_size = 100

-- The result is appended, and the oldest goes where there are more than a hundred.
unfoldable pub remember : List ReconcileResult → ReconcileResult → List ReconcileResult
remember history r =
    let longer = history ++ r ∷ [] in
    if ltb history_size (length longer) then drop 1 longer else longer

-- What wakes `Run`: the initial delay or the ticker, a trigger, the stop.
pub data Wake : Type 0 where
  timer takes_trigger sees_stop : Wake

-- What the engine does, what others call, and what others do to the world between two passes: time goes
-- by, events reach the state store.
pub data Step (W : Type 0) : Type 0 where
  wakes : Wake → Step W
  triggers stops : Step W
  elapses : (W → W) → Step W

module _ {W : Type 0} (p : Provider W) (state : W → StateStore) where
  abbrev pub proxy_pass : ReconcileEngine W → Pass W
  proxy_pass e = reconcile_proxies p (state e.world) e.world e.proxy_failures

  abbrev pub relay_pass : ReconcileEngine W → Pass W
  relay_pass e =
      reconcile_relays p (state (proxy_pass e).world) (proxy_pass e).world e.relay_failures

  abbrev pub result_of : ReconcileEngine W → ReconcileResult
  result_of e = record {
    timestamp = p.now e.world;
    proxies_total = (proxy_pass e).total;
    proxies_fixed = (proxy_pass e).fixed;
    proxies_failed = (proxy_pass e).failed;
    relays_total = (relay_pass e).total;
    relays_fixed = (relay_pass e).fixed;
    relays_failed = (relay_pass e).failed;
    duration = p.now (relay_pass e).world -ℤ p.now e.world;
  }

  -- `doReconcile`
  unfoldable pub do_reconcile : ReconcileEngine W → ReconcileEngine W
  unfolding remember
  do_reconcile e = record e {
    world = (relay_pass e).world;
    last = some (result_of e);
    history = remember e.history (result_of e);
    proxy_failures = (proxy_pass e).failures;
    relay_failures = (relay_pass e).failures;
  }

  -- Whether a wake is possible: a trigger is only waited for after the first pass.
  abbrev pub can_wake : ReconcileEngine W → Wake → Bool
  can_wake e timer = not e.ended
  can_wake e takes_trigger = not e.ended && (e.started && e.triggered)
  can_wake e sees_stop = not e.ended && e.stopped

  abbrev pub woken : ReconcileEngine W → Wake → ReconcileEngine W
  woken e timer = do_reconcile (record e { started = true })
  woken e takes_trigger = do_reconcile (record e { triggered = false })
  woken e sees_stop = record e { ended = true }

  -- One step of `Run`, or a call of `Trigger` or `Stop`; a wake that is not possible does nothing.
  unfoldable pub step : ReconcileEngine W → Step W → ReconcileEngine W
  unfolding do_reconcile
  step e (wakes k) = if can_wake e k then woken e k else e
  step e triggers = record e { triggered = true }
  step e stops = record e { stopped = true }
  step e (elapses f) = record e { world = f e.world }

  unfoldable pub run : ReconcileEngine W → List (Step W) → ReconcileEngine W
  unfolding step
  run e [] = e
  run e (s ∷ ss) = run (step e s) ss
