-- ===== src/Auth/Runs.antt =====
-- BBgrid_Server/auth/auth.go: the registry over any sequence of calls and restarts.
use bbgrid.Prelude.{ℕ, Option, List, [], ◌∷◌, Text, ℤ}
use bbgrid.Auth.Disk.{WriteOutcome}
use bbgrid.Auth.Registry.{
  Registry, init_registry, add_application, update_public_key, reset_client_status,
}
use bbgrid.Auth.Approval.{delete_client, set_client_namespace, approve}

pub data Operation : Type 0 where
  applies : Text → Text → ℤ → WriteOutcome → Operation
  updates_key : Text → Text → WriteOutcome → Operation
  resets : Text → WriteOutcome → Operation
  approves : Text → Text → Text → ℕ → ℤ → WriteOutcome → Operation
  deletes : Text → WriteOutcome → Operation
  moves : Text → Text → Text → WriteOutcome → Operation
  restarts : ℤ → Operation

module _ (sign : ℕ → Text → Text → Option Text) where
  unfoldable pub operate : Registry → Operation → Registry
  unfolding add_application update_public_key reset_client_status approve delete_client
      set_client_namespace init_registry
  operate m (applies id key now o) = (add_application m id key now o).0
  operate m (updates_key id key o) = (update_public_key m id key o).0
  operate m (resets id o) = reset_client_status m id o
  operate m (approves id name role draw now o) = (approve sign m id name role draw now o).0
  operate m (deletes id o) = (delete_client m id o).0
  operate m (moves id name role o) = (set_client_namespace m id name role o).0
  operate m (restarts now) = init_registry m.file now

  unfoldable pub operate_all : Registry → List Operation → Registry
  unfolding operate
  operate_all m [] = m
  operate_all m (o ∷ os) = operate_all (operate m o) os
