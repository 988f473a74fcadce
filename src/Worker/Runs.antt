-- ===== src/Worker/Runs.antt =====
-- BBgrid_Server/workers/state.go: the state of the workers over any sequence of calls, of which
-- none overlaps another.
use bbgrid.Prelude.{ℕ, refl, Bool, List, [], ◌∷◌, Text, ℤ, text_key, int_key}
use bbgrid.GoMap.{get}
use bbgrid.Types.{ProxyDesiredState, RelayDesiredState, RelaySession}
use bbgrid.Worker.Table.{ProxyState}
use bbgrid.Worker.State.{
  StateWorker, new_state_worker, add_client, remove_client, add_proxy, remove_proxy, register_port,
  unregister_port, store_tunnel_token, remove_tunnel_token_by_key,
}
use bbgrid.Worker.Relays.{create_relay_session, remove_relay_session, import_relays, import_proxies}
use bbgrid.Worker.Laws.{
  IsKept, add_client-IsKept, remove_found-IsKept, add_found-IsKept, drop_found-IsKept,
  each_table-IsKept, create_relay_session-IsKept, remove_relay_session-IsKept, put_relays-keeps,
  put_proxies-keeps,
}

pub data Operation : Type 0 where
  adds_client : Text → ℕ → Text → Text → ℤ → Operation
  removes_client : Text → Operation
  adds_proxy : Text → ProxyState → Operation
  removes_proxy : Text → ℤ → Operation
  registers : Text → ℤ → Operation
  unregisters : ℤ → Operation
  stores_token : Text → Text → Operation
  removes_token : Text → Operation
  creates_relay : RelaySession → Operation
  removes_relay : Text → Operation
  imports_relays : List RelayDesiredState → Operation
  imports_proxies : List ProxyDesiredState → Operation

unfoldable pub operate : StateWorker → Operation → StateWorker
unfolding add_client remove_client add_proxy remove_proxy store_tunnel_token
    remove_tunnel_token_by_key create_relay_session remove_relay_session import_relays
    import_proxies
operate w (adds_client id conn addr host now) = (add_client w id conn addr host now).0
operate w (removes_client id) = (remove_client w id).0
operate w (adds_proxy id p) = (add_proxy w id p).0
operate w (removes_proxy id port) = (remove_proxy w id port).0
operate w (registers id port) = register_port w id port
operate w (unregisters port) = unregister_port w port
operate w (stores_token token key) = store_tunnel_token w token key
operate w (removes_token key) = remove_tunnel_token_by_key w key
operate w (creates_relay r) = (create_relay_session w r).0
operate w (removes_relay id) = (remove_relay_session w id).0
operate w (imports_relays rs) = import_relays w rs
operate w (imports_proxies ds) = import_proxies w ds

unfoldable pub operate_all : StateWorker → List Operation → StateWorker
unfolding operate
operate_all w [] = w
operate_all w (o ∷ os) = operate_all (operate w o) os

operate-IsKept : (w : StateWorker) (o : Operation) → IsKept w → IsKept (operate w o)
unfolding operate
operate-IsKept w (adds_client id conn addr host now) k = add_client-IsKept w id conn addr host now k
operate-IsKept w (removes_client id) k =
    unfold remove_client in remove_found-IsKept w id (get w.clients id) k
operate-IsKept w (adds_proxy id p) k =
    unfold add_proxy in add_found-IsKept w id p (get w.clients id) refl k
operate-IsKept w (removes_proxy id port) k =
    unfold remove_proxy in drop_found-IsKept w id port (get w.clients id) refl k
operate-IsKept w (registers id port) k = record { proxies = k.proxies; relays = k.relays }
operate-IsKept w (unregisters port) k = record { proxies = k.proxies; relays = k.relays }
operate-IsKept w (stores_token token key) k =
    unfold store_tunnel_token in each_table-IsKept w _ (λ t. refl) k
operate-IsKept w (removes_token key) k =
    unfold remove_tunnel_token_by_key in each_table-IsKept w _ (λ t. refl) k
operate-IsKept w (creates_relay r) k = create_relay_session-IsKept w r k
operate-IsKept w (removes_relay id) k = remove_relay_session-IsKept w id k
operate-IsKept w (imports_relays rs) k =
    unfold import_relays in
    record {
      proxies = k.proxies;
      relays = λ id h. put_relays-keeps w.desired_relays rs id (k.relays id h);
    }
operate-IsKept w (imports_proxies ds) k =
    unfold import_proxies in
    record {
      proxies = λ id port h. put_proxies-keeps w.desired_proxies ds _ (k.proxies id port h);
      relays = k.relays;
    }

-- Where every proxy of an online client and every relay session is also in the desired state, under
-- its own key, as with new workers, this still holds after any calls of which none overlaps another.
pub operate_all-IsKept :
    (w : StateWorker) (os : List Operation) → IsKept w → IsKept (operate_all w os)
unfolding operate_all
operate_all-IsKept w [] k = k
operate_all-IsKept w (o ∷ os) k = operate_all-IsKept (operate w o) os (operate-IsKept w o k)

-- New workers hold nothing.
pub new_state_worker-IsKept :
    (public_ip : Text) (storage : Bool) → IsKept (new_state_worker public_ip storage)
unfolding get
new_state_worker-IsKept public_ip storage = record {
  proxies = λ id port h. cc;
  relays = λ id h. cc;
}
