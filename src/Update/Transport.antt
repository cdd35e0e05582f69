-- ===== src/Update/Transport.antt =====
-- `StaticTransport` and `verify_from_transport`: fetch the roots one by one, then the three files.
pub mod Chain
pub mod RootRollback
use siorb.Shared.{
  ℕ, zero, suc, ◌+◌, Bool, true, false, ◌&&◌, String, ◌<>◌, ◌==◌, Option, none, some, get, decimal,
  if◌then◌else◌,
}
use siorb.Core.Errors.{Result, ok, err, ◌>>=◌, ◌>>◌, reject_if, ok_or}
use siorb.Update.Metadata.{
  Bytes, Signed, RootMetadata, TimestampMetadata, SnapshotMetadata, MetadataDescription,
  RollbackState, VerifiedRepository, Primitives, update_error,
}
use siorb.Update.Verifier.{RepositoryVerifier, next_version, new_verifier, rotate_root, verify}

abbrev pub max_root_rotations : ℕ
max_root_rotations = 64

-- The trait's required method: a path and the most bytes to read.
abbrev pub FetchOptional : Type 0
FetchOptional = String → ℕ → Result (Option Bytes)

abbrev pub root_name : RootMetadata → String
root_name root = decimal (next_version root) <> ".root.json"

abbrev is_some : Option Bytes → Bool
is_some none = false
is_some (some b) = true

-- The file names that `verify_from_transport` asks for under a root.
abbrev pub snapshot_name : RootMetadata → TimestampMetadata → String
snapshot_name root timestamp =
    if root.consistent_snapshot
    then decimal timestamp.snapshot.version <> ".snapshot.json"
    else "snapshot.json"

abbrev version_or_zero : Option MetadataDescription → ℕ
version_or_zero none = 0
version_or_zero (some description) = description.version

abbrev pub targets_name : RootMetadata → SnapshotMetadata → String
targets_name root snapshot =
    if root.consistent_snapshot
    then decimal (version_or_zero (get snapshot.meta "targets.json")) <> ".targets.json"
    else "targets.json"

module _ (p : Primitives) (fetch_optional : FetchOptional) where
  unfoldable pub fetch : String → ℕ → Result Bytes
  fetch path maximum_bytes = do
    found ← fetch_optional path maximum_bytes
    ok_or found (update_error "update.transport.not_found")

  -- The loop with the rounds that are left. The flag is `reached_rotation_limit`.
  unfoldable pub rotate_all : ℕ → RepositoryVerifier → Result (RepositoryVerifier × Bool)
  rotate_all zero v = ok (v, true)
  rotate_all (suc rounds) v = do
    found ← fetch_optional (root_name v.trusted_root.signed) 1048576
    elim found [
      | none ↦ ok (v, false)
      | some next_root ↦ rotate_root p v next_root >>= rotate_all rounds
    ]

  unfoldable pub check_limit : RepositoryVerifier → Bool → Result (Unit {0})
  check_limit v false = ok tt
  check_limit v true = do
    found ← fetch_optional (root_name v.trusted_root.signed) 1048576
    reject_if (is_some found) (update_error "update.root.rotation_limit")

  -- The three files under the final root.
  unfoldable pub fetch_and_verify : RepositoryVerifier → Result VerifiedRepository
  unfolding fetch
  fetch_and_verify v = do
    timestamp ← fetch "timestamp.json" 1048576
    timestamp_value ← ok_or (p.decode_timestamp timestamp) (update_error "update.metadata.invalid")
    snapshot ← fetch (snapshot_name v.trusted_root.signed timestamp_value.signed) 4194304
    snapshot_value ← ok_or (p.decode_snapshot snapshot) (update_error "update.metadata.invalid")
    targets ← fetch (targets_name v.trusted_root.signed snapshot_value.signed) 33554432
    verify p v timestamp snapshot targets

  unfoldable pub verify_from_transport :
      Signed RootMetadata → RollbackState → ℕ → Result VerifiedRepository
  verify_from_transport trusted_root state now_unix = do
    verifier ← new_verifier p trusted_root state now_unix
    (rotated, limit) ← rotate_all max_root_rotations verifier
    check_limit rotated limit
    fetch_and_verify rotated
