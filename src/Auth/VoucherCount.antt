-- ===== src/Auth/VoucherCount.antt =====
-- BBgrid_Server/auth/auth.go: what a map of vouchers says of the uses of one of them.
use bbgrid.Prelude.{
  ℕ, ◌≤◌, ◌≡◌, refl, sym, subst, ◌∙◌, Bool, true, false, Option, some, Text, pos, text_key, ◌==◌,
  arith, if◌then◌else◌, ==_refl,
}
use mathlib.Core.Option.{some-injective}
use bbgrid.GoMap.{GoMap, get, put, delete, get-put, get-delete}
use bbgrid.Auth.Disk.{WriteOutcome, written, not_opened, cut_off, not_closed, write_file, loaded}
use bbgrid.Auth.Vouchers.{Voucher, VoucherBook, save_vouchers}

module _ (c : Text) (n : ℕ) where
  -- The voucher allows `n` uses, and counts at least `k` of them.
  abbrev pub Counted : ℕ → Voucher → Type 0
  Counted k v = (v.max_uses ≡ pos n) × (u : ℕ) × (v.used_count ≡ pos u) × (k ≤ u) × (u ≤ n)

  abbrev pub AtCode : GoMap Text Voucher → ℕ → Type 0
  AtCode m k = (v : Voucher) → get m c ≡ some v → Counted k v

  pub record Tracks (b : VoucherBook) (k : ℕ) : Type 0 where
    pub memory : AtCode b.vouchers k
    pub file : AtCode (loaded b.file) k
    pub within : k ≤ n

  put_either :
      (m : GoMap Text Voucher) (k : ℕ) (code : Text) (v w : Voucher) (b : Bool)
      → AtCode m k
      → (b ≡ true → Counted k v)
      → (if b then some v else get m c) ≡ some w
      → Counted k w
  put_either m k code v w true h p e = subst (Counted k) (some-injective v w e) (p refl)
  put_either m k code v w false h p e = h w e

  pub put-AtCode :
      (m : GoMap Text Voucher) (k : ℕ) (code : Text) (v : Voucher)
      → AtCode m k
      → (code == c ≡ true → Counted k v)
      → AtCode (put m code v) k
  put-AtCode m k code v h p w e =
      put_either m k code v w (code == c) h p (sym (get-put m code c v) ∙ e)

  pub delete-AtCode :
      (m : GoMap Text Voucher) (k : ℕ) (code : Text) → AtCode m k → AtCode (delete m code) k
  delete-AtCode m k code h w e = ground (arith, get-delete m code c, h w)

  pub write_file-AtCode :
      (old : Option (GoMap Text Voucher)) (new : GoMap Text Voucher) (k : ℕ) (o : WriteOutcome)
      → AtCode (loaded old) k
      → AtCode new k
      → AtCode (loaded (write_file old new o)) k
  unfolding write_file get
  write_file-AtCode old new k written h m = m
  write_file-AtCode old new k not_opened h m = h
  write_file-AtCode old new k cut_off h m = λ v found. cc
  write_file-AtCode old new k not_closed h m = m

  pub save_vouchers-Tracks :
      (b : VoucherBook) (m : GoMap Text Voucher) (k : ℕ) (o : WriteOutcome)
      → Tracks b k
      → AtCode m k
      → Tracks (save_vouchers (record b { vouchers = m }) o) k
  unfolding save_vouchers
  save_vouchers-Tracks b m k o t h = record {
    memory = h;
    file = write_file-AtCode b.file m k o t.file h;
    within = t.within;
  }

  pub put_same-AtCode :
      (m : GoMap Text Voucher) (k : ℕ) (v : Voucher) → Counted k v → AtCode (put m c v) k
  put_same-AtCode m k v h w e =
      subst (Counted k) (some-injective v w (sym (rw (get-put m c c v, ==_refl c) refl) ∙ e)) h
