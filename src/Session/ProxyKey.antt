-- ===== src/Session/ProxyKey.antt =====
-- BBgrid_Server/session/server.go: the keys of a proxy, and how one is taken apart again.
use bbgrid.Prelude.{
  ℕ, ◌++◌, false, ◌||◌, Option, none, some, [], ◌∷◌, Text, ℤ, pos, text_key, nat_key, int_key, ◌==◌,
  if◌then◌else◌, nat_eq, ◌^◌, ◌<◌, ◌≡◌, refl, arith,
}
use bbgrid.GoText.{Free, format_int}
use bbgrid.GoText.Atoi.{atoi, atoi-format_int, format_int-nonempty}
use bbgrid.StateStore.{proxy_key, tunnel_key}

-- `proxyClientKey`
abbrev pub proxy_client_key : Text → ℤ → Text
proxy_client_key id port = tunnel_key id port

-- `strings.Cut` at a colon
unfoldable pub cut_colon : Text → Text × Option Text
cut_colon [] = ([], none)
cut_colon (b ∷ bs) =
    let (head, tail) = cut_colon bs in if nat_eq b b':' then ([], some bs) else (b ∷ head, tail)

abbrev pub with_port : Text → Option ℤ → Option (Text × ℤ)
with_port id none = none
with_port id (some port) = some (id, port)

unfoldable pub parse_cut : Text → Option Text → Option (Text × ℤ)
unfolding atoi
parse_cut id none = none
parse_cut id (some text) = if id == [] || text == [] then none else with_port id (atoi text)

-- `parseProxyResourceKey`
unfoldable pub parse_proxy_resource_key : Text → Option (Text × ℤ)
unfolding cut_colon parse_cut
parse_proxy_resource_key key = let (id, text) = cut_colon key in parse_cut id text

cut_colon-append : (id t : Text) → Free b':' id → cut_colon (id ++ b':' ∷ t) ≡ (id, some t)
unfolding cut_colon
cut_colon-append [] t f = refl
cut_colon-append (b ∷ bs) t (n, f) =
    let other : nat_eq b b':' ≡ false = ground arith in rw (other, cut_colon-append bs t f) refl

-- The key of a proxy leads back to its client and port, if the client has a name without a colon and the
-- port is not negative and below 2^63.
parse_proxy_resource_key-proxy_key :
    (id : Text) (n : ℕ)
    → id == [] ≡ false
    → Free b':' id
    → n < 2 ^ 63
    → parse_proxy_resource_key (proxy_key id (pos n)) ≡ some (id, pos n)
unfolding parse_proxy_resource_key proxy_key parse_cut
parse_proxy_resource_key-proxy_key id n named f small =
    rw
      (
        cut_colon-append id (format_int (pos n)) f,
        named,
        format_int-nonempty n,
        atoi-format_int n small,
      )
      refl
