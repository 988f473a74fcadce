-- ===== src/Auth.antt =====
-- BBgrid_Server/auth/auth.go: the Manager. Its fields stand in two records, the registry of clients with
-- the namespaces and the vouchers, each with the file that it is saved to. Certificates, tokens and
-- their keys are libraries'.
pub mod Disk
pub mod Registry
pub mod Approval
pub mod Queries
pub mod Runs
pub mod Certified
pub mod Membership
pub mod Restart
pub mod Vouchers
pub mod VoucherRuns
pub mod VoucherCount
pub mod VoucherLaws
pub mod Enrol
pub mod EnrolLaws
mod Tests
