-- ===== src/Tunnel/Laws.antt =====
-- common/proto/tunnel.go: what one side writes, the other reads, and nothing else is taken for it.
use bbgrid.Prelude.{
  ◌/◌, ◌%◌, ◌^◌, ◌≤◌, ◌≡◌, refl, false, [], ◌∷◌, ◌++◌, Text, if◌then◌else◌, ltb, length, arith,
  length-append, take-append, drop-append, Bool-cases, inl, inr,
}
use bbgrid.Mux.Frame.{u16}
use bbgrid.Tunnel.{
  Auth, ok, error, token_too_long, invalid_magic, read_header, max_token_len, write_tunnel_auth,
  read_token_of, read_tunnel_auth, is_tunnel_conn,
}

-- What a reader makes of the buffer that was written, if one was.
abbrev pub read_back : Auth Text → Text → Auth (Text × Text)
read_back (ok buf) rest = read_tunnel_auth (buf ++ rest)
read_back (error e) rest = error e

read_token_of-append :
    (token rest : Text)
    → length token ≤ max_token_len
    → read_token_of (length token) (token ++ rest) ≡ ok (token, rest)
unfolding read_token_of
read_token_of-append token rest h =
    ground (arith, length-append token rest, take-append token rest, drop-append token rest)

-- A token of at most 256 bytes is read back as it was written, and the bytes after it are left over; a
-- longer one is refused by the writer.
pub read_tunnel_auth-write_tunnel_auth :
    (token rest : Text)
    → read_back (write_tunnel_auth token) rest
      ≡ (if ltb max_token_len (length token) then error token_too_long else ok (token, rest))
unfolding write_tunnel_auth read_tunnel_auth
read_tunnel_auth-write_tunnel_auth token rest =
    elim (Bool-cases (ltb max_token_len (length token))) [
      | inl p ↦ rw p refl
      | inr p ↦
          let fits : length token ≤ max_token_len = ground arith in
          let len : u16 (length token % 2 ^ 16 / 256 % 256) (length token % 2 ^ 16 % 256)
              ≡ length token =
            omega arith in
          rw (p, len) (read_token_of-append token rest fits)
    ]

-- A connection whose first bytes are not taken for those of a tunnel is never authenticated: the
-- reader stops at the header, whichever bytes follow.
pub read_tunnel_auth-public :
    (bytes : Text)
    → is_tunnel_conn bytes ≡ false
    → read_tunnel_auth bytes
      ≡ (if ltb (length bytes) 6 then error read_header else error invalid_magic)
unfolding is_tunnel_conn read_tunnel_auth
read_tunnel_auth-public (a ∷ b ∷ c ∷ d ∷ hi ∷ lo ∷ bytes) h =
    let long : ltb (length (a ∷ b ∷ c ∷ d ∷ hi ∷ lo ∷ bytes)) 6 ≡ false = ground arith in
    rw (h, long) refl
read_tunnel_auth-public [] h = refl
read_tunnel_auth-public (a ∷ []) h = refl
read_tunnel_auth-public (a ∷ b ∷ []) h = refl
read_tunnel_auth-public (a ∷ b ∷ c ∷ []) h = refl
read_tunnel_auth-public (a ∷ b ∷ c ∷ d ∷ []) h = refl
read_tunnel_auth-public (a ∷ b ∷ c ∷ d ∷ e ∷ []) h = refl
