-- ===== src/Update/Roles/Checks.antt =====
-- When the single checks of `RepositoryVerifier` pass.
use siorb.Shared.{ℕ, ◌≤◌, ◌<◌, Bool, true, String, ◌≡◌, ◌↔◌, ◌⊎◌, length, arith, eq_iff}
use siorb.Core.Errors.{ok}
use siorb.Update.Metadata.{Bytes, Primitives}
use siorb.Update.Roles.{check_role_type, ensure_not_expired, reject_rollback, verify_description}

pub check_role_type_iff :
    (observed expected : String)
    → (check_role_type observed expected ≡ ok tt) ↔ (observed ≡ expected)
unfolding check_role_type
check_role_type_iff observed expected = ground (arith, eq_iff observed expected)

pub ensure_not_expired_iff :
    (expires now : ℕ) (offline : Bool)
    → (ensure_not_expired expires now offline ≡ ok tt) ↔ ((offline ≡ true) ⊎ (now < expires))
unfolding ensure_not_expired
ensure_not_expired_iff expires now offline = ground arith

pub reject_rollback_iff :
    (observed trusted : ℕ) → (reject_rollback observed trusted ≡ ok tt) ↔ (trusted ≤ observed)
unfolding reject_rollback
reject_rollback_iff observed trusted = ground arith

pub verify_description_iff :
    (p : Primitives) (bytes : Bytes) (size : ℕ) (sha256 : String)
    → (verify_description p bytes size sha256 ≡ ok tt)
      ↔ ((length bytes ≡ size) × (p.sha256_hex bytes ≡ sha256))
unfolding verify_description
verify_description_iff p bytes size sha256 = ground (arith, eq_iff (p.sha256_hex bytes) sha256)
