-- ===== src/Controller/Validity.antt =====
-- When `validate` accepts a resource, and what it answers.
use nfs_provisioner_operator.Base.{
  ℕ, ◌+◌, ◌≤◌, String, Bool, none, some, ◌≡◌, ◌↔◌, arith, if◌then◌else◌, is_set,
}
use nfs_provisioner_operator.Api.{NfsProvisioner}
use nfs_provisioner_operator.Controller.Validate.{validate, pvc_conflict, host_path_conflict}

abbrev one_if : Bool → ℕ
one_if b = if b then 1 else 0

-- How many of the three ways to provide storage are chosen.
abbrev pub choices : NfsProvisioner → ℕ
choices m =
    one_if (is_set m.spec.pvc)
    + one_if (is_set m.spec.sc_for_nfs_pvc)
    + one_if (is_set m.spec.host_path_dir)

-- A resource is accepted exactly if it sets at most one of the claim, the claim's storage class and
-- the host path.
pub validate-eq-none_iff : (m : NfsProvisioner) → (validate m ≡ none) ↔ (choices m ≤ 1)
unfolding validate
validate-eq-none_iff m = ground arith

-- The message for a resource that is refused is that on the claim if a claim is set and that on the
-- host path otherwise. So the third message is never given.
pub validate-message :
    (m : NfsProvisioner) (message : String)
    → validate m ≡ some message
    → message ≡ (if is_set m.spec.pvc then pvc_conflict else host_path_conflict)
unfolding validate
validate-message m message h = ground arith
