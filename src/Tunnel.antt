-- ===== src/Tunnel.antt =====
-- common/proto/tunnel.go: how a tunnel connection authenticates itself. A reader is the bytes that are
-- still to come before the connection ends.
pub mod Laws
mod Tests
use bbgrid.Prelude.{
  ℕ, ◌+◌, ◌*◌, ◌/◌, ◌%◌, ◌^◌, Bool, true, false, ◌&&◌, List, [], ◌∷◌, ◌++◌, Text, if◌then◌else◌,
  ltb, nat_eq, length, take, drop, Option, none, some,
}
use bbgrid.Mux.Frame.{put_u16, u16}

-- the bytes of "TUNL"
abbrev pub tunnel_magic : Text
tunnel_magic = 84 ∷ 85 ∷ 78 ∷ 76 ∷ []

abbrev pub max_token_len : ℕ
max_token_len = 256

pub data TunnelError : Type 0 where
  token_too_long read_header invalid_magic length_too_large read_token : TunnelError

pub data Auth (A : Type 0) : Type 0 where
  ok : A → Auth A
  error : TunnelError → Auth A

-- `WriteTunnelAuth`, up to the write of the buffer that it returns.
unfoldable pub write_tunnel_auth : Text → Auth Text
write_tunnel_auth token =
    if ltb max_token_len (length token)
    then error token_too_long
    else ok (tunnel_magic ++ (put_u16 (length token % 2 ^ 16) ++ token))

abbrev pub is_magic : ℕ → ℕ → ℕ → ℕ → Bool
is_magic a b c d = nat_eq a 84 && (nat_eq b 85 && (nat_eq c 78 && nat_eq d 76))

-- The token, out of the bytes after the header, and what is left of them.
unfoldable pub read_token_of : ℕ → Text → Auth (Text × Text)
read_token_of len bytes =
    if ltb max_token_len len
    then error length_too_large
    else if ltb (length bytes) len
    then error read_token
    else ok (take len bytes, drop len bytes)

unfoldable pub read_tunnel_auth : Text → Auth (Text × Text)
unfolding read_token_of
read_tunnel_auth (a ∷ b ∷ c ∷ d ∷ hi ∷ lo ∷ bytes) =
    if is_magic a b c d then read_token_of (u16 hi lo) bytes else error invalid_magic
read_tunnel_auth _ = error read_header

-- `IsTunnelConn` on what `Peek` finds in the buffer, which stays there.
unfoldable pub is_tunnel_conn : Text → Bool
is_tunnel_conn (a ∷ b ∷ c ∷ d ∷ bytes) = is_magic a b c d
is_tunnel_conn _ = false
