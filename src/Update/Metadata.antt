-- ===== src/Update/Metadata.antt =====
-- The signed metadata of crates/siorb-update/src/lib.rs, and the third-party code it goes through.
use siorb.Shared.{ℕ, Bool, String, Option, List, Map}
use siorb.Core.Errors.{SiorbError, with_reason, ErrorKind}

abbrev pub Bytes : Type 0
Bytes = List ℕ

pub record MetadataSignature : Type 0 where
  pub key_id : String
  pub signature : String

pub record Signed (T : Type 0) : Type 0 where
  pub signed : T
  pub signatures : List MetadataSignature

pub record PublicKey : Type 0 where
  pub scheme : String
  pub public : String

pub record RoleDefinition : Type 0 where
  pub key_ids : List String
  pub threshold : ℕ

pub record RootMetadata : Type 0 where
  pub role_type : String
  pub spec_version : String
  pub version : ℕ
  pub expires_unix : ℕ
  pub consistent_snapshot : Bool
  pub keys : Map PublicKey
  pub roles : Map RoleDefinition

pub record MetadataDescription : Type 0 where
  pub version : ℕ
  pub length : ℕ
  pub sha256 : String

pub record TargetDescription : Type 0 where
  pub length : ℕ
  pub sha256 : String
  pub custom : Map String

pub record TargetsMetadata : Type 0 where
  pub role_type : String
  pub spec_version : String
  pub version : ℕ
  pub expires_unix : ℕ
  pub targets : Map TargetDescription

pub record SnapshotMetadata : Type 0 where
  pub role_type : String
  pub spec_version : String
  pub version : ℕ
  pub expires_unix : ℕ
  pub meta : Map MetadataDescription

pub record TimestampMetadata : Type 0 where
  pub role_type : String
  pub spec_version : String
  pub version : ℕ
  pub expires_unix : ℕ
  pub snapshot : MetadataDescription

pub record RollbackState : Type 0 where
  pub root : ℕ
  pub timestamp : ℕ
  pub snapshot : ℕ
  pub targets : ℕ

pub record VerifiedRepository : Type 0 where
  pub root : Signed RootMetadata
  pub timestamp : Signed TimestampMetadata
  pub snapshot : Signed SnapshotMetadata
  pub targets : Signed TargetsMetadata
  pub state : RollbackState

-- What the crate calls and does not define: serde_json, base64, ed25519-dalek and sha2.
pub record Primitives : Type 1 where
  -- `serde_json::from_slice` at each kind of metadata, and `serde_json::to_vec`.
  pub decode_root : Bytes → Option (Signed RootMetadata)
  pub decode_timestamp : Bytes → Option (Signed TimestampMetadata)
  pub decode_snapshot : Bytes → Option (Signed SnapshotMetadata)
  pub decode_targets : Bytes → Option (Signed TargetsMetadata)
  pub encode_root : RootMetadata → Option Bytes
  pub encode_timestamp : TimestampMetadata → Option Bytes
  pub encode_snapshot : SnapshotMetadata → Option Bytes
  pub encode_targets : TargetsMetadata → Option Bytes
  -- `BASE64.decode`, `VerifyingKey::from_bytes`, `Signature::from_slice` and `Verifier::verify`.
  pub Key : Type 0
  pub Signature : Type 0
  pub base64_decode : String → Option Bytes
  pub verifying_key : Bytes → Option Key
  pub ed25519_signature : Bytes → Option Signature
  pub verifies : Key → Bytes → Signature → Bool
  -- `hex::encode(Sha256::digest(bytes))`.
  pub sha256_hex : Bytes → String

abbrev pub update_error : String → SiorbError
update_error reason = with_reason ErrorKind.catalog_failure reason
