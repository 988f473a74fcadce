-- ===== src/Auth/Vouchers.antt =====
-- BBgrid_Server/auth/auth.go: the vouchers. The random code of a new one, the clock and the outcome of
-- the write are arguments.
use bbgrid.Prelude.{
  Bool, true, false, ◌&&◌, Option, none, some, List, ◌++◌, Text, ℤ, pos, ◌+ℤ◌, ◌-ℤ◌, ltb_ℤ,
  text_key, if◌then◌else◌, not,
}
use bbgrid.GoText.{codes}
use bbgrid.GoMap.{GoMap, get, put, delete, values}
use bbgrid.Auth.Disk.{WriteOutcome, write_file, writes, loaded}

pub record Voucher : Type 0 where
  pub code : Text
  -- 0 for no limit
  pub max_uses : ℤ
  pub used_count : ℤ
  -- 0 for no limit
  pub expires_at : ℤ
  pub namespace : Text
  pub role : Text
  pub created_at : ℤ

pub record VoucherBook : Type 0 where
  pub vouchers : GoMap Text Voucher
  -- what vouchers.json decodes to
  pub file : Option (GoMap Text Voucher)

pub data VoucherError : Type 0 where
  no_voucher expired used_up save_failed : VoucherError

pub data VoucherReply : Type 0 where
  ok : Voucher → VoucherReply
  failed : VoucherError → VoucherReply

-- `loadVouchers`
abbrev pub load_vouchers : Option (GoMap Text Voucher) → VoucherBook
load_vouchers file = record { vouchers = loaded file; file = file }

-- `saveVouchers`
unfoldable pub save_vouchers : VoucherBook → WriteOutcome → VoucherBook
save_vouchers b o = record b { file = write_file b.file b.vouchers o }

-- `CreateVoucher`: a failed save takes the voucher out again.
unfoldable pub create_voucher :
    VoucherBook → Text → ℤ → ℤ → Text → Text → ℤ → WriteOutcome → VoucherBook × VoucherReply
unfolding save_vouchers
create_voucher b random max_uses expires_at namespace role now o =
    let code = codes "vch_" ++ random in
    let v : Voucher = record {
      code = code;
      max_uses = max_uses;
      used_count = pos 0;
      expires_at = expires_at;
      namespace = namespace;
      role = role;
      created_at = now;
    } in
    let saved = save_vouchers (record b { vouchers = put b.vouchers code v }) o in
    if writes o
    then (saved, ok v)
    else (record saved { vouchers = delete saved.vouchers code }, failed save_failed)

abbrev pub is_expired : Voucher → ℤ → Bool
is_expired v now = ltb_ℤ (pos 0) v.expires_at && ltb_ℤ v.expires_at now

abbrev pub is_used_up : Voucher → Bool
is_used_up v = ltb_ℤ (pos 0) v.max_uses && not (ltb_ℤ v.used_count v.max_uses)

unfoldable pub consume_voucher :
    VoucherBook → Text → WriteOutcome → Voucher → VoucherBook × VoucherReply
unfolding save_vouchers
consume_voucher b code o v =
    let used = record v { used_count = v.used_count +ℤ pos 1 } in
    let saved = save_vouchers (record b { vouchers = put b.vouchers code used }) o in
    if writes o then (saved, ok used) else (
      record saved {
        vouchers = put saved.vouchers code (record used { used_count = used.used_count -ℤ pos 1 });
      },
      failed save_failed,
    )

unfoldable pub use_found :
    VoucherBook → Text → ℤ → WriteOutcome → Option Voucher → VoucherBook × VoucherReply
unfolding consume_voucher
use_found b code now o none = (b, failed no_voucher)
use_found b code now o (some v) =
    if is_expired v now
    then (b, failed expired)
    else if is_used_up v
    then (b, failed used_up)
    else consume_voucher b code o v

-- `UseVoucher`
unfoldable pub use_voucher : VoucherBook → Text → ℤ → WriteOutcome → VoucherBook × VoucherReply
unfolding use_found
use_voucher b code now o = use_found b code now o (get b.vouchers code)

-- `ListVouchers`
abbrev pub list_vouchers : VoucherBook → List Voucher
list_vouchers b = values b.vouchers

unfoldable pub drop_voucher :
    VoucherBook → Text → WriteOutcome → Option Voucher → VoucherBook × Bool
unfolding save_vouchers
drop_voucher b code o none = (b, false)
drop_voucher b code o (some v) =
    (save_vouchers (record b { vouchers = delete b.vouchers code }) o, true)

-- `DeleteVoucher`
unfoldable pub delete_voucher : VoucherBook → Text → WriteOutcome → VoucherBook × Bool
unfolding drop_voucher
delete_voucher b code o = drop_voucher b code o (get b.vouchers code)
