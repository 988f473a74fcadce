-- ===== src/Session/Pending/Channels.antt =====
-- BBgrid_Server/session/server.go: what the channels hold after one of them was changed.
use bbgrid.Prelude.{
  ℕ, ◌<◌, ◌≡◌, refl, Bool, true, false, Option, some, List, nat_key, text_key, ◌==◌, if◌then◌else◌,
  All, arith, nat_eq_iff, ==_refl,
}
use bbgrid.GoMap.{GoMap, get, put, get-put}
use bbgrid.Session.Pending.{Tunnel, held}

pub content-put :
    (chans : GoMap ℕ (List (Option Tunnel))) (c d : ℕ) (vs : List (Option Tunnel))
    → held (get (put chans c vs) d) ≡ (if c == d then vs else held (get chans d))
content-put chans c d vs = rw (get-put chans c d vs) (either (c == d))
  where
    either :
        (b : Bool)
        → held (if b then some vs else get chans d) ≡ (if b then vs else held (get chans d))
    either true = refl
    either false = refl

pub content-put_other :
    (chans : GoMap ℕ (List (Option Tunnel))) (c d : ℕ) (vs : List (Option Tunnel))
    → c == d ≡ false
    → held (get (put chans c vs) d) ≡ held (get chans d)
content-put_other chans c d vs h = rw (content-put chans c d vs, h) refl

pub content-put_same :
    (chans : GoMap ℕ (List (Option Tunnel))) (c : ℕ) (vs : List (Option Tunnel))
    → held (get (put chans c vs) c) ≡ vs
content-put_same chans c vs = rw (content-put chans c c vs, ==_refl c) refl

-- What holds of the content of a channel after a change of one.
pub content-All :
    (chans : GoMap ℕ (List (Option Tunnel))) (c d : ℕ) (vs : List (Option Tunnel))
    (P : Option Tunnel → Type 0)
    → (c ≡ d → All P vs)
    → (c == d ≡ false → All P (held (get chans d)))
    → All P (held (get (put chans c vs) d))
content-All chans c d vs P same other =
    rw (content-put chans c d vs) (either (c == d) (nat_eq_iff c d).0 other)
  where
    either :
        (b : Bool)
        → (b ≡ true → c ≡ d)
        → (b ≡ false → All P (held (get chans d)))
        → All P (if b then vs else held (get chans d))
    either true at before = same (at refl)
    either false at before = before refl

pub differ : (c d : ℕ) → c < d → d == c ≡ false
differ c d h = ground arith

pub same_differ : (c d : ℕ) → c ≡ d → c == d ≡ false → ⊥
same_differ c d e n = ground arith
