-- ===== src/Update/Roles.antt =====
-- `verify_role`, `verify_ed25519` and the other checks that `RepositoryVerifier` is made of.
pub mod Threshold
pub mod Checks
use siorb.Shared.{
  ℕ, ◌+◌, Bool, true, false, not, ◌&&◌, ◌||◌, String, ◌==◌, Option, none, some, List, [], ◌∷◌, Map,
  get, contains_key, insert, contains, length, ltb, leb, eqb, if◌then◌else◌,
}
use siorb.Core.Errors.{Result, ok, err, ◌>>=◌, ◌>>◌, reject_if, ok_or}
use siorb.Update.Metadata.{
  Bytes, MetadataSignature, Signed, PublicKey, RoleDefinition, RootMetadata, Primitives,
  update_error,
}

-- `role_type`
unfoldable pub check_role_type : String → String → Result (Unit {0})
check_role_type observed expected =
    reject_if (not (observed == expected)) (update_error "update.role.type")

unfoldable pub ensure_not_expired : ℕ → ℕ → Bool → Result (Unit {0})
ensure_not_expired expires now offline_exception =
    reject_if (leb expires now && not offline_exception) (update_error "update.metadata.expired")

unfoldable pub reject_rollback : ℕ → ℕ → Result (Unit {0})
reject_rollback observed trusted =
    reject_if (ltb observed trusted) (update_error "update.rollback.detected")

-- The test that `verify_role` and `validate_root_shape` make of a role.
abbrev pub threshold_invalid : RoleDefinition → Bool
threshold_invalid definition =
    eqb definition.threshold 0 || ltb (length definition.key_ids) definition.threshold

abbrev has_keys : Map PublicKey → List String → Result (Unit {0})
has_keys keys [] = ok tt
has_keys keys (key_id ∷ rest) =
    reject_if (not (contains_key keys key_id)) (update_error "update.key.missing")
    >> has_keys keys rest

-- The body of the loop over the four role names.
unfoldable pub check_role_shape : RootMetadata → String → Result (Unit {0})
check_role_shape root role = do
  definition ← ok_or (get root.roles role) (update_error "update.role.missing")
  reject_if (threshold_invalid definition) (update_error "update.threshold.invalid")
  has_keys root.keys definition.key_ids

unfoldable pub validate_root_shape : RootMetadata → Result (Unit {0})
validate_root_shape root = do
  check_role_type root.role_type "root"
  reject_if (not (root.spec_version == "1.0")) (update_error "update.spec.unsupported")
  check_role_shape root "root"
  check_role_shape root "targets"
  check_role_shape root "snapshot"
  check_role_shape root "timestamp"

module _ (p : Primitives) where
  unfoldable pub verify_ed25519 : PublicKey → MetadataSignature → Bytes → Bool
  verify_ed25519 key signature bytes = elim (p.base64_decode key.public) [
    | none ↦ false
    | some public ↦ if not (eqb (length public) 32) then false else elim (p.verifying_key public) [
      | none ↦ false
      | some verifying_key ↦ elim (p.base64_decode signature.signature) [
        | none ↦ false
        | some raw ↦ elim (p.ed25519_signature raw) [
          | none ↦ false
          | some parsed ↦ p.verifies verifying_key bytes parsed
        ]
      ]
    ]
  ]

  -- The body of the loop over the signatures: the keys that have signed so far.
  unfoldable pub admit :
      RoleDefinition → RootMetadata → Bytes → Map Bool → MetadataSignature → Map Bool
  admit definition root bytes valid signature =
      if not (contains definition.key_ids signature.key_id) || contains_key valid signature.key_id
      then valid
      else elim (get root.keys signature.key_id) [
        | none ↦ valid
        | some key ↦
            if not (key.scheme == "ed25519")
            then valid
            else if verify_ed25519 key signature bytes
            then insert signature.key_id true valid
            else valid
      ]

  unfoldable pub collect :
      RoleDefinition → RootMetadata → Bytes → Map Bool → List MetadataSignature → Map Bool
  collect definition root bytes valid [] = valid
  collect definition root bytes valid (signature ∷ rest) =
      collect definition root bytes (admit definition root bytes valid signature) rest

  unfoldable pub verify_role :
      {T : Type 0} → (T → Option Bytes) → Signed T → String → RootMetadata → Result (Unit {0})
  verify_role encode metadata role root = do
    definition ← ok_or (get root.roles role) (update_error "update.role.missing")
    reject_if (threshold_invalid definition) (update_error "update.threshold.invalid")
    bytes ← ok_or (encode metadata.signed) (update_error "update.canonicalize")
    let valid = collect definition root bytes [] metadata.signatures
    reject_if (ltb (length valid) definition.threshold) (update_error "update.threshold.not_met")

  unfoldable pub verify_description : Bytes → ℕ → String → Result (Unit {0})
  verify_description bytes size sha256 =
      reject_if (not (eqb (length bytes) size)) (update_error "update.length.mismatch")
      >> reject_if (not (p.sha256_hex bytes == sha256)) (update_error "update.hash.mismatch")
