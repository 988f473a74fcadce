-- ===== src/Tunnel/Tests.antt =====
-- The tunnel authentication on concrete bytes.
use bbgrid.Prelude.{◌≡◌, if◌then◌else◌, ltb, length, Text}
use bbgrid.GoText.{codes}
use bbgrid.Tunnel.{ok, error, token_too_long, max_token_len, write_tunnel_auth}
use bbgrid.Tunnel.Laws.{read_back, read_tunnel_auth-write_tunnel_auth}

abbrev token : Text
token = codes "secret"

abbrev request : Text
request = codes "GET / HTTP"

read_tunnel_auth-write_tunnel_auth_example :
    read_back (write_tunnel_auth token) request
    ≡ (if ltb max_token_len (length token) then error token_too_long else ok (token, request))
read_tunnel_auth-write_tunnel_auth_example = read_tunnel_auth-write_tunnel_auth token request
