-- ===== src/Auth/Tests.antt =====
-- The Manager on concrete clients, vouchers and writes.
use bbgrid.Prelude.{
  ℕ, ◌+◌, ◌≤◌, ◌≡◌, refl, Option, none, some, List, [], ◌∷◌, ◌++◌, Text, pos, text_key, ◌+ℤ◌, arith,
}
use bbgrid.GoText.{codes}
use bbgrid.GoMap.{get, put}
use bbgrid.Auth.Disk.{written, not_opened, writes}
use bbgrid.Auth.Registry.{Registry, init_registry}
use bbgrid.Auth.Queries.{get_clients_by_namespace}
use bbgrid.Auth.Runs.{
  Operation, applies, updates_key, approves, deletes, moves, restarts, operate, operate_all,
}
use bbgrid.Auth.Certified.{IsCertified, operate_all-IsCertified, init_registry-IsCertified}
use bbgrid.Auth.Membership.{IsListed, operate_all-IsListed}
use bbgrid.Auth.Restart.{IsSaved, operate_all-restart}
use bbgrid.Auth.Vouchers.{
  Voucher, VoucherBook, VoucherReply, load_vouchers, create_voucher, use_voucher,
}
use bbgrid.Auth.VoucherRuns.{VoucherOperation, uses, reloads, accepted_in}
use bbgrid.Auth.VoucherLaws.{accepted_in-bounded, create_voucher-fresh}
use bbgrid.Auth.Enrol.{Manager, Attempt, register_voucher}
use bbgrid.Auth.EnrolLaws.{Accepts, register_voucher-Accepts}

-- A signature that shows what it signed.
abbrev signature : ℕ → Text → Text → Option Text
signature draw key id = some (draw ∷ key ++ id)

abbrev start : Registry
start = init_registry none (pos 0)

abbrev calls : List Operation
calls =
    applies (codes "a") (codes "k") (pos 1) written
    ∷ approves (codes "a") (codes "permanent") (codes "node") 7 (pos 2) written
    ∷ applies (codes "b") (codes "l") (pos 3) written
    ∷ approves (codes "b") (codes "mediated") (codes "node") 8 (pos 4) written
    ∷ moves (codes "a") (codes "mediated") (codes "relay") written
    ∷ deletes (codes "b") written
    ∷ updates_key (codes "a") (codes "m") written
    ∷ []

operate_all-IsCertified_example : IsCertified signature (operate_all signature start calls)
operate_all-IsCertified_example =
    operate_all-IsCertified signature start calls (init_registry-IsCertified signature (pos 0))

start-IsListed : IsListed start
unfolding get init_registry
start-IsListed id r found a = cc

operate_all-IsListed_example : IsListed (operate_all signature start calls)
operate_all-IsListed_example =
    operate_all-IsListed signature start calls
      (refl, (refl, (refl, (refl, (refl, (refl, (refl, tt))))))) start-IsListed

start-IsSaved : IsSaved start
unfolding init_registry
start-IsSaved = refl

operate_all-restart_example :
    let after = operate signature (operate_all signature start calls) (restarts (pos 9)) in
    (after.clients ≡ (operate_all signature start calls).clients)
    × ((name : Text) → get_clients_by_namespace after name ≡ [])
operate_all-restart_example =
    operate_all-restart signature start calls (pos 9)
      (refl, (refl, (refl, (refl, (refl, (refl, (refl, tt))))))) start-IsSaved

abbrev vch : Text
vch = codes "vch_" ++ codes "01"

-- A voucher for two uses.
abbrev book : VoucherBook
book =
    (create_voucher (load_vouchers none) (codes "01") (pos 2) (pos 0) (codes "mediated") [] (pos 1)
      written).0

abbrev voucher_calls : List VoucherOperation
voucher_calls =
    uses vch (pos 5) written
    ∷ uses vch (pos 6) not_opened
    ∷ uses vch (pos 7) written
    ∷ reloads
    ∷ uses vch (pos 8) written
    ∷ []

accepted_in-bounded_example : 0 + accepted_in vch book voucher_calls ≤ 2
accepted_in-bounded_example =
    accepted_in-bounded vch 2 book voucher_calls 0 (omega arith)
      (refl, (refl, (refl, (refl, (refl, tt)))))
      (create_voucher-fresh (load_vouchers none) (codes "01") 2 (pos 0) (codes "mediated") []
        (pos 1))

abbrev attempt : Attempt
attempt = record {
  now = pos 5;
  voucher_write = written;
  before_add = λ m. m;
  add_write = written;
  before_update = λ m. m;
  update_write = written;
  before_approve = λ m. m;
  draw = 7;
  approve_write = written;
  before_reset = λ m. m;
  reset_write = written;
  before_second = λ m. m;
  second_draw = 8;
  second_write = written;
}

abbrev manager : Manager
manager = record { registry = start; book = book }

register_voucher-Accepts_example :
    Accepts signature
      (codes "a")
      (codes "k")
      (use_voucher book vch (pos 5) written)
      (register_voucher signature manager (codes "a") (codes "k") vch attempt)
register_voucher-Accepts_example =
    register_voucher-Accepts signature manager (codes "a") (codes "k") vch attempt (λ m. refl)

abbrev voucher : Voucher
voucher = record {
  code = vch;
  max_uses = pos 2;
  used_count = pos 1;
  expires_at = pos 0;
  namespace = codes "mediated";
  role = [];
  created_at = pos 1;
}

voucher_accepted : (use_voucher book vch (pos 5) written).1 ≡ VoucherReply.ok voucher
unfolding use_voucher create_voucher get put ◌+ℤ◌ writes
voucher_accepted = refl
