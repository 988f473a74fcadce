-- ===== src/Worker/Tests.antt =====
-- The state of the workers on concrete clients, proxies and tokens.
use bbgrid.Prelude.{◌≡◌, refl, true, none, some, List, [], ◌∷◌, pos, text_key, int_key}
use bbgrid.GoText.{codes}
use bbgrid.GoMap.{get, delete_if}
use bbgrid.Worker.Table.{ProxyState, ClientTable, new_client_table}
use bbgrid.Worker.State.{
  StateWorker, new_state_worker, remove_tunnel_token_by_key, find_table_by_ws_token, each_table,
  find_in,
}
use bbgrid.Worker.Laws.{IsKept}
use bbgrid.Worker.Runs.{
  Operation, adds_client, removes_client, adds_proxy, removes_proxy, stores_token, operate_all,
  operate_all-IsKept, new_state_worker-IsKept,
}

abbrev web : ProxyState
web = record {
  remote_port = pos 80;
  local_port = pos 8080;
  local_ip = [];
  protocol = codes "tcp";
  bind_addr = [];
  listener = none;
}

abbrev operations : List Operation
operations =
    adds_client (codes "a") 1 (codes "1.2.3.4") [] (pos 5)
    ∷ adds_proxy (codes "a") web
    ∷ stores_token (codes "t") (codes "a-80")
    ∷ removes_client (codes "a")
    ∷ adds_client (codes "a") 2 (codes "1.2.3.4") [] (pos 9)
    ∷ removes_proxy (codes "a") (pos 80)
    ∷ []

operate_all-IsKept_example :
    IsKept (operate_all (new_state_worker (codes "5.6.7.8") true) operations)
operate_all-IsKept_example =
    operate_all-IsKept (new_state_worker (codes "5.6.7.8") true) operations
      (new_state_worker-IsKept (codes "5.6.7.8") true)

abbrev table_a : ClientTable
table_a = record (new_client_table (codes "a") 1 (pos 5)) {
  tunnel_tokens = (codes "t", codes "b-22") ∷ (codes "u", codes "a-80") ∷ [];
}

abbrev table_b : ClientTable
table_b = new_client_table (codes "b") 2 (pos 6)

abbrev two_clients : StateWorker
two_clients = record (new_state_worker (codes "5.6.7.8") true) {
  clients = (codes "a", table_a) ∷ (codes "b", table_b) ∷ [];
  port_index = (pos 80, codes "a") ∷ (pos 22, codes "b") ∷ [];
}

abbrev table_after : ClientTable
table_after = record table_a { tunnel_tokens = (codes "u", codes "a-80") ∷ [] }

still_found :
    find_table_by_ws_token (remove_tunnel_token_by_key two_clients (codes "b-22")) (codes "u")
    ≡ some (table_after, codes "a-80")
unfolding find_table_by_ws_token remove_tunnel_token_by_key find_in each_table delete_if get
still_found = refl
