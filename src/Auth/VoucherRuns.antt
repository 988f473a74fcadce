-- ===== src/Auth/VoucherRuns.antt =====
-- BBgrid_Server/auth/auth.go: the vouchers over any sequence of calls and reloads.
use bbgrid.Prelude.{
  ℕ, ◌+◌, ◌≡◌, refl, Bool, false, List, [], ◌∷◌, ◌++◌, Text, ℤ, text_key, ◌==◌, arith,
  if◌then◌else◌,
}
use bbgrid.GoText.{codes}
use bbgrid.Auth.Disk.{WriteOutcome}
use bbgrid.Auth.Vouchers.{
  VoucherBook, VoucherReply, ok, failed, load_vouchers, create_voucher, use_voucher, delete_voucher,
}

pub data VoucherOperation : Type 0 where
  creates : Text → ℤ → ℤ → Text → Text → ℤ → WriteOutcome → VoucherOperation
  uses : Text → ℤ → WriteOutcome → VoucherOperation
  deletes : Text → WriteOutcome → VoucherOperation
  reloads : VoucherOperation

unfoldable pub operate : VoucherBook → VoucherOperation → VoucherBook
unfolding create_voucher use_voucher delete_voucher
operate b (creates random max expires name role now o) =
    (create_voucher b random max expires name role now o).0
operate b (uses code now o) = (use_voucher b code now o).0
operate b (deletes code o) = (delete_voucher b code o).0
operate b reloads = load_vouchers b.file

abbrev pub accepts : VoucherReply → ℕ
accepts (ok v) = 1
accepts (failed e) = 0

abbrev pub tally : ℕ → VoucherReply → ℕ
tally k (ok v) = k + 1
tally k (failed e) = k

pub tally-accepts : (k : ℕ) (r : VoucherReply) → tally k r ≡ k + accepts r
tally-accepts k (ok v) = refl
tally-accepts k (failed e) = omega arith

-- How often a call accepts the code.
unfoldable pub accepted : Text → VoucherBook → VoucherOperation → ℕ
unfolding use_voucher
accepted c b (uses code now o) = if code == c then accepts (use_voucher b code now o).1 else 0
accepted c b _ = 0

unfoldable pub accepted_in : Text → VoucherBook → List VoucherOperation → ℕ
unfolding accepted operate
accepted_in c b [] = 0
accepted_in c b (op ∷ ops) = accepted c b op + accepted_in c (operate b op) ops

abbrev pub recreates : Text → VoucherOperation → Bool
recreates c (creates random max expires name role now o) = codes "vch_" ++ random == c
recreates c _ = false
