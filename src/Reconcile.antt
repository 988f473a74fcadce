-- ===== src/Reconcile.antt =====
-- BBgrid_Server/runtime/reconcile.go: the engine that compares desired and actual state. The provider
-- and the clock belong to a world `W` that each call of the provider may change. Proxies and relays go
-- through the same loops, which are written once over the items and their keys.
pub mod Backoff
pub mod Laws
pub mod Store
pub mod Engine
pub mod EventBusProvider
pub mod Convergence
pub mod History
mod Tests
use Backoff.{Failures, in_backoff, record_failure, forget}
use bbgrid.Prelude.{
  ℕ, suc, ◌+◌, Bool, true, false, ◌||◌, List, [], ◌∷◌, ◌++◌, map, Text, ℤ, pos, ◌==◌, text_key,
  if◌then◌else◌, ltb, length, drop, ◌-ℤ◌,
}
use bbgrid.GoMap.{GoMap}
use bbgrid.Types.{ProxyState, ProxyInfo, ProxyDesiredState, RelaySession, RelayDesiredState}
use bbgrid.StateStore.{
  StateStore, proxy_key, get_desired_proxies, list_proxies, get_desired_relays, list_relay_sessions,
}
use bbgrid.StateStore.Restore.{actual_of, session_of}

-- A map[string]bool that is only asked whether a key was put.
unfoldable pub contains : Text → List Text → Bool
contains k [] = false
contains k (j ∷ js) = j == k || contains k js

-- The variables of one pass.
pub record Pass (W : Type 0) : Type 0 where
  pub world : W
  pub failures : Failures
  pub total : ℕ
  pub fixed : ℕ
  pub failed : ℕ

module _ {W D A : Type 0} (now : W → ℤ) (create : D → W → Bool × W) (delete : A → W → Bool × W)
    (desired_key : D → Text) (actual_key : A → Text) where
  -- The call of the provider and what follows it.
  unfoldable pub create_item : Pass W → D → Pass W
  create_item r d =
      let (done, w) = create d r.world in
      if done
      then record r {
        world = w;
        failures = forget r.failures (desired_key d);
        total = r.total + 1;
        fixed = r.fixed + 1;
      }
      else record r {
        world = w;
        failures = record_failure r.failures (desired_key d) (now w);
        total = r.total + 1;
        failed = r.failed + 1;
      }

  unfoldable pub visit_desired : List Text → Pass W → D → Pass W
  unfolding create_item
  visit_desired actual_set r d =
      if contains (desired_key d) actual_set
      then record r { failures = forget r.failures (desired_key d) }
      else if in_backoff r.failures (desired_key d) (now r.world)
      then record r { total = r.total + 1 }
      else create_item r d

  unfoldable pub visit_actual : List Text → Pass W → A → Pass W
  visit_actual desired_set r a =
      let (done, w) = delete a r.world in
      if contains (actual_key a) desired_set
      then r
      else if done
      then record r { world = w; total = r.total + 1; fixed = r.fixed + 1 }
      else record r { world = w; total = r.total + 1; failed = r.failed + 1 }

  unfoldable pub create_missing : List Text → List D → Pass W → Pass W
  create_missing actual_set [] r = r
  create_missing actual_set (d ∷ ds) r = create_missing actual_set ds (visit_desired actual_set r d)

  unfoldable pub delete_extra : List Text → List A → Pass W → Pass W
  delete_extra desired_set [] r = r
  delete_extra desired_set (a ∷ as') r = delete_extra desired_set as' (visit_actual desired_set r a)

  unfoldable pub reconcile_items : List D → List A → Pass W → Pass W
  reconcile_items desired actual r =
      delete_extra (map desired_key desired) actual
        (create_missing (map actual_key actual) desired r)

-- ReconcileProvider, with the clock. A call returns whether it succeeded.
pub record Provider (W : Type 0) : Type 0 where
  pub now : W → ℤ
  pub create_proxy : Text → ProxyState → W → Bool × W
  pub delete_proxy : Text → ℤ → W → Bool × W
  pub create_relay : RelaySession → W → Bool × W
  pub delete_relay : Text → W → Bool × W

abbrev pub desired_proxy_key : ProxyDesiredState → Text
desired_proxy_key d = proxy_key d.client_id d.remote_port

abbrev pub proxy_info_key : ProxyInfo → Text
proxy_info_key a = proxy_key a.client_id a.remote_port

-- `Token` is not copied into the session that is created anew.
abbrev pub session_to_create : RelayDesiredState → RelaySession
session_to_create d = record (session_of d) { token = [] }

abbrev pub start_pass : {W : Type 0} → W → Failures → Pass W
start_pass w f = record { world = w; failures = f; total = 0; fixed = 0; failed = 0 }

unfoldable pub reconcile_proxies : {W : Type 0} → Provider W → StateStore → W → Failures → Pass W
reconcile_proxies p s w f =
    reconcile_items p.now (λ d. p.create_proxy d.client_id (actual_of d))
      (λ a. p.delete_proxy a.client_id a.remote_port) desired_proxy_key proxy_info_key
      (get_desired_proxies s) (list_proxies s) (start_pass w f)

unfoldable pub reconcile_relays : {W : Type 0} → Provider W → StateStore → W → Failures → Pass W
reconcile_relays p s w f =
    reconcile_items p.now (λ d. p.create_relay (session_to_create d)) (λ a. p.delete_relay a.id)
      (λ d. d.id) (λ a. a.id) (get_desired_relays s) (list_relay_sessions s) (start_pass w f)
