-- ===== src/StateStore/Keys.antt =====
-- The keys of BBgrid_Server/runtime/statestore.go: `proxyKey`, `TunnelKey`, `parseClientIDFromKey`.
use bbgrid.Prelude.{
  ℕ, zero, suc, ◌+◌, ◌≤◌, ◌<◌, ◌≡◌, ◌≢◌, refl, ap, ◌∙◌, ◌⊎◌, inl, inr, ◌&&◌, [], ◌∷◌, ◌++◌, Text, ℤ,
  pos, arith, ◌==◌, text_key, int_key, text_eq_iff, int_eq_iff, length, get_or, take, length-append,
  get_or-append, take-append, All,
}
use bbgrid.GoText.{
  Free, format_int, decimal-Free, decimal, format_int-Free, format_int_injective, split_unique,
}
use bbgrid.StateStore.{proxy_key, tunnel_key, parse_loop, parse_client_id_from_key}

-- Two proxies share a key exactly when they share the client and the port.
pub proxy_key_injective : (c d : Text) (p q : ℤ) → proxy_key c p ≡ proxy_key d q → (c ≡ d) × (p ≡ q)
unfolding proxy_key
proxy_key_injective c d p q h =
    let e =
      split_unique b':' c d (format_int p) (format_int q) (format_int-Free p) (format_int-Free q)
        h in
    (e.0, format_int_injective p q e.1)

pub proxy_key_eq : (c d : Text) (p q : ℤ) → (proxy_key c p == proxy_key d q) ≡ (c == d && p == q)
proxy_key_eq c d p q = ground (
  arith,
  text_eq_iff (proxy_key c p) (proxy_key d q),
  text_eq_iff c d,
  int_eq_iff p q,
  proxy_key_injective c d p q,
)

abbrev IsSeparator : ℕ → Type 0
IsSeparator c = (c ≡ b'-') ⊎ (c ≡ b':')

abbrev NotSeparator : ℕ → Type 0
NotSeparator c = (c ≢ b'-') × (c ≢ b':')

get_or-NotSeparator :
    (s : Text) (i : ℕ) → All NotSeparator s → i < length s → NotSeparator (get_or s i 0)
get_or-NotSeparator [] i h l = absurd (omega arith)
get_or-NotSeparator (x ∷ s) zero h l = h.0
get_or-NotSeparator (x ∷ s) (suc i) h l = get_or-NotSeparator s i h.1 (omega arith)

parse_loop-stop :
    (key : Text) (i : ℕ) → IsSeparator (get_or key i 0) → parse_loop (suc i) key ≡ take i key
unfolding parse_loop
parse_loop-stop key i e = ground arith

parse_loop-next :
    (key : Text) (i : ℕ) → NotSeparator (get_or key i 0) → parse_loop (suc i) key ≡ parse_loop i key
unfolding parse_loop
parse_loop-next key i e = ground arith

-- Where no separator stands among the last `j` bytes, the loop goes on to the one before them.
parse_loop-skip :
    (id : Text) (c : ℕ) (s : Text) (j : ℕ)
    → All NotSeparator s
    → IsSeparator c
    → j ≤ length s
    → parse_loop (suc (length id + j)) (id ++ c ∷ s) ≡ id
parse_loop-skip id c s zero h e l =
    parse_loop-stop (id ++ c ∷ s) (length id + 0) (rw (get_or-append id (c ∷ s) 0 0) e)
    ∙ ap (λ (n : ℕ). take n (id ++ c ∷ s)) (omega arith)
    ∙ take-append id (c ∷ s)
parse_loop-skip id c s (suc j) h e l =
    parse_loop-next (id ++ c ∷ s) (length id + suc j)
      (rw (get_or-append id (c ∷ s) (suc j) 0) (get_or-NotSeparator s j h (omega arith)))
    ∙ ap (λ (n : ℕ). parse_loop n (id ++ c ∷ s)) (omega arith)
    ∙ parse_loop-skip id c s j h e (omega arith)

parse_client_id_from_key-split :
    (id : Text) (c : ℕ) (s : Text)
    → All NotSeparator s
    → IsSeparator c
    → parse_client_id_from_key (id ++ c ∷ s) ≡ id
unfolding parse_client_id_from_key
parse_client_id_from_key-split id c s h e =
    let size : length (id ++ c ∷ s) ≡ suc (length id + length s) =
      omega (arith, length-append id (c ∷ s)) in
    ap (λ (n : ℕ). parse_loop n (id ++ c ∷ s)) size
    ∙ parse_loop-skip id c s (length s) h e (omega arith)

both_Free : (s : Text) → Free b'-' s → Free b':' s → All NotSeparator s
both_Free [] f g = tt
both_Free (x ∷ s) f g = ((f.0, g.0), both_Free s f.1 g.1)

decimal-NotSeparator : (n : ℕ) → All NotSeparator (decimal n)
decimal-NotSeparator n =
    both_Free (decimal n) (decimal-Free b'-' n (inl (omega arith)))
      (decimal-Free b':' n (inr (omega arith)))

-- The client is read back from its tunnel keys and its proxy keys, whatever bytes its name holds,
-- for every port that is not negative.
parse_client_id_from_key-keys :
    (id : Text) (port : ℕ)
    → (parse_client_id_from_key (tunnel_key id (pos port)) ≡ id)
      × (parse_client_id_from_key (proxy_key id (pos port)) ≡ id)
unfolding tunnel_key proxy_key format_int
parse_client_id_from_key-keys id port = (
  parse_client_id_from_key-split id b'-' (decimal port) (decimal-NotSeparator port) (inl refl),
  parse_client_id_from_key-split id b':' (decimal port) (decimal-NotSeparator port) (inr refl),
)
