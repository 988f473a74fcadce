-- ===== src/Auth/Enrol.antt =====
-- BBgrid_Server/http/server.go: handleRegisterVoucher, a registration that a voucher approves at once, with
-- the calls of the Manager that it makes in turn. The request has been decoded, and no error of the
-- libraries has "already" in its text.
use bbgrid.Prelude.{ℕ, Bool, true, false, ◌||◌, Option, [], ◌∷◌, Text, ℤ, if◌then◌else◌}
use bbgrid.GoText.{codes}
use bbgrid.Auth.Disk.{WriteOutcome}
use bbgrid.Auth.Registry.{
  AuthError, already_exists, already, Registry, Reply, ok, failed, add_application,
  update_public_key, reset_client_status,
}
use bbgrid.Auth.Approval.{approve}
use bbgrid.Auth.Vouchers.{VoucherBook, VoucherReply, use_voucher}

pub record Manager : Type 0 where
  pub registry : Registry
  pub book : VoucherBook

-- The clock, and what each call of the Manager that the handler may make is given. Each call takes the
-- lock of the Manager for itself, so other requests change the registry between two calls: `before_add`
-- and the others like it are what they have done to it when the call comes. The book of the Manager is
-- as the handler leaves it: the handler uses it once.
pub record Attempt : Type 0 where
  pub now : ℤ
  pub voucher_write : WriteOutcome
  pub before_add : Registry → Registry
  pub add_write : WriteOutcome
  pub before_update : Registry → Registry
  pub update_write : WriteOutcome
  pub before_approve : Registry → Registry
  pub draw : ℕ
  pub approve_write : WriteOutcome
  pub before_reset : Registry → Registry
  pub reset_write : WriteOutcome
  pub before_second : Registry → Registry
  pub second_draw : ℕ
  pub second_write : WriteOutcome

-- The response: 400, 500, or the certificate with the namespace and the role.
pub data Answer : Type 0 where
  bad_request server_error : Answer
  enrolled : Text → Text → Text → Answer

abbrev pub is_empty : Text → Bool
is_empty [] = true
is_empty (b ∷ bs) = false

abbrev pub or_default : Text → Text → Text
or_default s d = if is_empty s then d else s

-- `strings.Contains(err.Error(), "already")`
abbrev pub says_already : AuthError → Bool
says_already already_exists = true
says_already (already s) = true
says_already _ = false

abbrev pub last_answer : Text → Text → Registry × Reply Text → Registry × Answer
last_answer name role (m, ok certificate) = (m, enrolled certificate name role)
last_answer name role (m, failed e) = (m, server_error)

module _ (sign : ℕ → Text → Text → Option Text) where
  -- What follows the first approval: one that says "already" is tried again after a reset.
  abbrev pub first_answer : Text → Text → Text → Attempt → Registry × Reply Text → Registry × Answer
  first_answer id name role a (m, ok certificate) = (m, enrolled certificate name role)
  first_answer id name role a (m, failed e) =
      if says_already e
      then last_answer name role (
          approve sign (a.before_second (reset_client_status (a.before_reset m) id a.reset_write))
            id name role a.second_draw a.now a.second_write)
      else (m, server_error)

  unfoldable pub approve_new : Registry → Text → Text → Text → Attempt → Registry × Answer
  approve_new m id name role a =
      first_answer id name role a
        (approve sign (a.before_approve m) id name role a.draw a.now a.approve_write)

  unfoldable pub after_update :
      Text → Text → Text → Attempt → Registry × Reply Unit → Registry × Answer
  unfolding approve_new
  after_update id name role a (m, ok u) = approve_new m id name role a
  after_update id name role a (m, failed e) = (m, bad_request)

  unfoldable pub after_add :
      Text → Text → Text → Text → Attempt → Registry × Reply Unit → Registry × Answer
  unfolding approve_new after_update
  after_add id key name role a (m, ok u) = approve_new m id name role a
  after_add id key name role a (m, failed already_exists) =
      after_update id name role a (update_public_key (a.before_update m) id key a.update_write)
  after_add id key name role a (m, failed e) = (m, bad_request)

  unfoldable pub after_voucher :
      Registry → Text → Text → Attempt → VoucherBook × VoucherReply → Manager × Answer
  unfolding after_add
  after_voucher m id key a (book, VoucherReply.failed e) =
      (record { registry = m; book = book }, bad_request)
  after_voucher m id key a (book, VoucherReply.ok v) =
      let (m', answer) =
        after_add id key (or_default v.namespace (codes "permanent"))
          (or_default v.role (codes "node")) a
          (add_application (a.before_add m) id key a.now a.add_write) in
      (record { registry = m'; book = book }, answer)

  -- `handleRegisterVoucher`
  unfoldable pub register_voucher : Manager → Text → Text → Text → Attempt → Manager × Answer
  unfolding after_voucher
  register_voucher m id key code a =
      if is_empty id || is_empty key || is_empty code
      then (m, bad_request)
      else after_voucher m.registry id key a (use_voucher m.book code a.now a.voucher_write)
