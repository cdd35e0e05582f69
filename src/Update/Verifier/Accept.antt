-- ===== src/Update/Verifier/Accept.antt =====
-- What a repository that `verify` accepts satisfies, and that nothing else is asked.
use siorb.Shared.{
  ℕ, ◌≤◌, ◌<◌, true, false, ◌≡◌, ◌↔◌, ◌⊎◌, Option-cases, some, inl, inr, get, keys, length, arith,
}
use siorb.Core.Errors.{ok}
use siorb.Update.Metadata.{
  Bytes, Signed, TimestampMetadata, SnapshotMetadata, TargetsMetadata, MetadataDescription,
  VerifiedRepository, Primitives,
}
use siorb.Update.Roles.{verify_role}
use siorb.Update.Roles.Checks.{
  check_role_type_iff, ensure_not_expired_iff, reject_rollback_iff, verify_description_iff,
}
use siorb.Update.Verifier.{
  RepositoryVerifier, validate_names, verify_timestamp, verify_snapshot, verify_targets, verify,
}

module _ (p : Primitives) (v : RepositoryVerifier) where
  -- A file is current, unless the offline exception is on.
  abbrev pub IsFresh : ℕ → Type 0
  IsFresh expires = (v.allow_expired_offline ≡ true) ⊎ (v.now_unix < expires)

  -- The timestamp is signed by its role, current, and no older than the one seen before.
  pub record IsTimestamp (bytes : Bytes) (t : Signed TimestampMetadata) : Type 0 where
    pub read : p.decode_timestamp bytes ≡ some t
    pub typed : t.signed.role_type ≡ "timestamp"
    pub signed : verify_role p p.encode_timestamp t "timestamp" v.trusted_root.signed ≡ ok tt
    pub fresh : IsFresh t.signed.expires_unix
    pub version : v.state.timestamp ≤ t.signed.version

  -- The snapshot is the file that the timestamp describes.
  pub record IsSnapshot (d : MetadataDescription) (bytes : Bytes) (s : Signed SnapshotMetadata)
      : Type 0 where
    pub size : length bytes ≡ d.length
    pub hash : p.sha256_hex bytes ≡ d.sha256
    pub read : p.decode_snapshot bytes ≡ some s
    pub typed : s.signed.role_type ≡ "snapshot"
    pub signed : verify_role p p.encode_snapshot s "snapshot" v.trusted_root.signed ≡ ok tt
    pub fresh : IsFresh s.signed.expires_unix
    pub named : s.signed.version ≡ d.version
    pub version : v.state.snapshot ≤ s.signed.version

  -- The targets are the file that the snapshot describes.
  pub record IsTargets (d : MetadataDescription) (bytes : Bytes) (g : Signed TargetsMetadata)
      : Type 0 where
    pub size : length bytes ≡ d.length
    pub hash : p.sha256_hex bytes ≡ d.sha256
    pub read : p.decode_targets bytes ≡ some g
    pub typed : g.signed.role_type ≡ "targets"
    pub signed : verify_role p p.encode_targets g "targets" v.trusted_root.signed ≡ ok tt
    pub fresh : IsFresh g.signed.expires_unix
    pub named : g.signed.version ≡ d.version
    pub version : v.state.targets ≤ g.signed.version
    pub names : validate_names (keys g.signed.targets) ≡ ok tt

  timestamp_iff :
      (bytes : Bytes) (t : Signed TimestampMetadata)
      → (verify_timestamp p v bytes ≡ ok t) ↔ IsTimestamp bytes t
  unfolding verify_timestamp
  timestamp_iff bytes t = ground (
    arith,
    check_role_type_iff t.signed.role_type "timestamp",
    ensure_not_expired_iff t.signed.expires_unix v.now_unix v.allow_expired_offline,
    reject_rollback_iff t.signed.version v.state.timestamp,
  )

  snapshot_iff :
      (d : MetadataDescription) (bytes : Bytes) (s : Signed SnapshotMetadata)
      → (verify_snapshot p v d bytes ≡ ok s) ↔ IsSnapshot d bytes s
  unfolding verify_snapshot
  snapshot_iff d bytes s = ground (
    arith,
    check_role_type_iff s.signed.role_type "snapshot",
    ensure_not_expired_iff s.signed.expires_unix v.now_unix v.allow_expired_offline,
    verify_description_iff p bytes d.length d.sha256,
    reject_rollback_iff s.signed.version v.state.snapshot,
  )

  targets_iff :
      (d : MetadataDescription) (bytes : Bytes) (g : Signed TargetsMetadata)
      → (verify_targets p v d bytes ≡ ok g) ↔ IsTargets d bytes g
  unfolding verify_targets
  targets_iff d bytes g = ground (
    arith,
    check_role_type_iff g.signed.role_type "targets",
    ensure_not_expired_iff g.signed.expires_unix v.now_unix v.allow_expired_offline,
    verify_description_iff p bytes d.length d.sha256,
    reject_rollback_iff g.signed.version v.state.targets,
  )

  pub record IsVerified (timestamp_bytes snapshot_bytes targets_bytes : Bytes)
      (r : VerifiedRepository) (description : MetadataDescription) : Type 0 where
    pub root_kept : r.root ≡ v.trusted_root
    pub root_fresh : v.now_unix < v.trusted_root.signed.expires_unix
    pub root_version : v.state.root ≤ v.trusted_root.signed.version
    pub timestamp : IsTimestamp timestamp_bytes r.timestamp
    pub snapshot : IsSnapshot r.timestamp.signed.snapshot snapshot_bytes r.snapshot
    pub described : get r.snapshot.signed.meta "targets.json" ≡ some description
    pub targets : IsTargets description targets_bytes r.targets
    -- The versions to remember are those of the accepted files.
    pub state_root : r.state.root ≡ v.trusted_root.signed.version
    pub state_timestamp : r.state.timestamp ≡ r.timestamp.signed.version
    pub state_snapshot : r.state.snapshot ≡ r.snapshot.signed.version
    pub state_targets : r.state.targets ≡ r.targets.signed.version

module _ (p : Primitives) (v : RepositoryVerifier)
    (timestamp_bytes snapshot_bytes targets_bytes : Bytes) (r : VerifiedRepository) where
  IsVerified→ok :
      (description : MetadataDescription)
      → IsVerified p v timestamp_bytes snapshot_bytes targets_bytes r description
      → verify p v timestamp_bytes snapshot_bytes targets_bytes ≡ ok r
  unfolding verify
  IsVerified→ok description q =
      let t = (timestamp_iff p v timestamp_bytes r.timestamp).1 q.timestamp in
      let s =
        (snapshot_iff p v r.timestamp.signed.snapshot snapshot_bytes r.snapshot).1 q.snapshot in
      let g = (targets_iff p v description targets_bytes r.targets).1 q.targets in
      ground (
        arith,
        t,
        s,
        g,
        ensure_not_expired_iff v.trusted_root.signed.expires_unix v.now_unix false,
        reject_rollback_iff v.trusted_root.signed.version v.state.root,
      )

  ok→IsVerified :
      verify p v timestamp_bytes snapshot_bytes targets_bytes ≡ ok r
      → (description : MetadataDescription) × IsVerified p v timestamp_bytes snapshot_bytes
          targets_bytes r description
  unfolding verify
  ok→IsVerified h = elim (Option-cases (get r.snapshot.signed.meta "targets.json")) [
    | inl missing ↦ absurd (ground (arith, missing, h))
    | inr (description, found) ↦ (
      description,
      record {
        root_kept = ground (arith, h);
        root_fresh =
            ground (
              arith,
              h,
              ensure_not_expired_iff v.trusted_root.signed.expires_unix v.now_unix false,
            );
        root_version =
            ground (arith, h, reject_rollback_iff v.trusted_root.signed.version v.state.root);
        timestamp = (timestamp_iff p v timestamp_bytes r.timestamp).0 (ground (arith, h));
        snapshot =
            (snapshot_iff p v r.timestamp.signed.snapshot snapshot_bytes r.snapshot).0
              (ground (arith, h));
        described = found;
        targets =
            (targets_iff p v description targets_bytes r.targets).0 (ground (arith, h, found));
        state_root = ground (arith, h);
        state_timestamp = ground (arith, h);
        state_snapshot = ground (arith, h);
        state_targets = ground (arith, h);
      },
    )
  ]

  -- `verify` returns the repository `r` exactly if the root is the trusted one, current and no
  -- older than the version remembered; the timestamp, snapshot and targets decode to those of `r`,
  -- have their types, are signed by their roles under the root, are current (or the offline
  -- exception holds) and are no older than the versions remembered; the snapshot has the length,
  -- hash and version that the timestamp states, and the targets those that the snapshot states
  -- for `targets.json`; every target name passes `validate_target_name`; and the versions to
  -- remember are those of the accepted files.
  pub verify_iff : (verify p v timestamp_bytes snapshot_bytes targets_bytes ≡ ok r) ↔ (
      (description : MetadataDescription) × IsVerified p v timestamp_bytes snapshot_bytes
        targets_bytes r description)
  verify_iff = (ok→IsVerified, λ q. IsVerified→ok q.0 q.1)
