-- ===== src/Update/Verifier.antt =====
-- `RepositoryVerifier`: a trusted root, the versions seen before, and the clock. `rotate_root` takes
-- the next root, `verify` the other three files.
pub mod Accept
use siorb.Shared.{
  ℕ, ◌+◌, ◌%◌, Bool, true, false, not, ◌||◌, String, ◌==◌, Option, none, some, List, [], ◌∷◌, Map,
  get, keys, any, text_empty, starts_with_char, chars_any, split_on, eqb, if◌then◌else◌,
}
use siorb.Core.Errors.{Result, ok, err, ◌>>=◌, ◌>>◌, reject_if, ok_or}
use siorb.Update.Metadata.{
  Bytes, Signed, MetadataDescription, RootMetadata, TimestampMetadata, SnapshotMetadata,
  TargetsMetadata, RollbackState, VerifiedRepository, Primitives, update_error,
}
use siorb.Update.Roles.{
  check_role_type, ensure_not_expired, reject_rollback, validate_root_shape, verify_role,
  verify_description,
}

pub record RepositoryVerifier : Type 0 where
  pub trusted_root : Signed RootMetadata
  pub state : RollbackState
  pub now_unix : ℕ
  pub allow_expired_offline : Bool

-- `u64` addition wraps in a release build.
abbrev pub next_version : RootMetadata → ℕ
next_version root = (root.version + 1) % 18446744073709551616

-- `Path` on Unix: absolute if it begins with `/`; the components are the pieces between slashes.
unfoldable pub validate_target_name : String → Result (Unit {0})
unfolding split_on
validate_target_name name =
    reject_if
      (text_empty name
        || starts_with_char (λ c. eqb c b'-') name
        || chars_any (λ c. eqb c 92) name
        || starts_with_char (λ c. eqb c b'/') name
        || any (λ component. component == "..") (split_on b'/' name))
      (update_error "update.target.path")

unfoldable pub validate_names : List String → Result (Unit {0})
validate_names [] = ok tt
validate_names (name ∷ rest) = validate_target_name name >> validate_names rest

module _ (p : Primitives) where
  unfoldable pub new_verifier : Signed RootMetadata → RollbackState → ℕ → Result RepositoryVerifier
  new_verifier trusted_root state now = do
    validate_root_shape trusted_root.signed
    verify_role p p.encode_root trusted_root "root" trusted_root.signed
    ok (record {
      trusted_root = trusted_root;
      state = state;
      now_unix = now;
      allow_expired_offline = false;
    })

  -- On an error the verifier is left as it was: the code assigns only after the last check.
  unfoldable pub rotate_root : RepositoryVerifier → Bytes → Result RepositoryVerifier
  rotate_root v next_bytes = do
    next ← ok_or (p.decode_root next_bytes) (update_error "update.metadata.invalid")
    reject_if (not (eqb next.signed.version (next_version v.trusted_root.signed)))
        (update_error "update.root.version")
    verify_role p p.encode_root next "root" v.trusted_root.signed
    validate_root_shape next.signed
    verify_role p p.encode_root next "root" next.signed
    ensure_not_expired next.signed.expires_unix v.now_unix false
    let state = v.state
    ok (record v { trusted_root = next; state = record state { root = next.signed.version } })

  -- The three stages of `verify`, in its order.
  unfoldable pub verify_timestamp : RepositoryVerifier → Bytes → Result (Signed TimestampMetadata)
  verify_timestamp v bytes = do
    timestamp ← ok_or (p.decode_timestamp bytes) (update_error "update.metadata.invalid")
    check_role_type timestamp.signed.role_type "timestamp"
    verify_role p p.encode_timestamp timestamp "timestamp" v.trusted_root.signed
    ensure_not_expired timestamp.signed.expires_unix v.now_unix v.allow_expired_offline
    reject_rollback timestamp.signed.version v.state.timestamp
    ok timestamp

  unfoldable pub verify_snapshot :
      RepositoryVerifier → MetadataDescription → Bytes → Result (Signed SnapshotMetadata)
  verify_snapshot v description bytes = do
    verify_description p bytes description.length description.sha256
    snapshot ← ok_or (p.decode_snapshot bytes) (update_error "update.metadata.invalid")
    check_role_type snapshot.signed.role_type "snapshot"
    verify_role p p.encode_snapshot snapshot "snapshot" v.trusted_root.signed
    ensure_not_expired snapshot.signed.expires_unix v.now_unix v.allow_expired_offline
    reject_if (not (eqb snapshot.signed.version description.version))
        (update_error "update.snapshot.mix_match")
    reject_rollback snapshot.signed.version v.state.snapshot
    ok snapshot

  unfoldable pub verify_targets :
      RepositoryVerifier → MetadataDescription → Bytes → Result (Signed TargetsMetadata)
  verify_targets v description bytes = do
    verify_description p bytes description.length description.sha256
    targets ← ok_or (p.decode_targets bytes) (update_error "update.metadata.invalid")
    check_role_type targets.signed.role_type "targets"
    verify_role p p.encode_targets targets "targets" v.trusted_root.signed
    ensure_not_expired targets.signed.expires_unix v.now_unix v.allow_expired_offline
    reject_if (not (eqb targets.signed.version description.version))
        (update_error "update.targets.mix_match")
    reject_rollback targets.signed.version v.state.targets
    validate_names (keys targets.signed.targets)
    ok targets

  unfoldable pub verify : RepositoryVerifier → Bytes → Bytes → Bytes → Result VerifiedRepository
  verify v timestamp_bytes snapshot_bytes targets_bytes = do
    ensure_not_expired v.trusted_root.signed.expires_unix v.now_unix false
    reject_rollback v.trusted_root.signed.version v.state.root
    timestamp ← verify_timestamp v timestamp_bytes
    snapshot ← verify_snapshot v timestamp.signed.snapshot snapshot_bytes
    description ←
        ok_or (get snapshot.signed.meta "targets.json")
          (update_error "update.snapshot.targets_missing")
    targets ← verify_targets v description targets_bytes
    ok (record {
      root = v.trusted_root;
      timestamp = timestamp;
      snapshot = snapshot;
      targets = targets;
      state = record {
        root = v.trusted_root.signed.version;
        timestamp = timestamp.signed.version;
        snapshot = snapshot.signed.version;
        targets = targets.signed.version;
      };
    })
