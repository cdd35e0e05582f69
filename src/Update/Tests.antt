-- ===== src/Update/Tests.antt =====
-- A small repository and what the verifier does with it.
use siorb.Shared.{
  ℕ, ◌≤◌, true, false, ◌≡◌, refl, ◌↔◌, String, ◌==◌, none, some, [], ◌∷◌, replicate, decimal, eqb,
  if◌then◌else◌, get, contains_key, insert,
}
use siorb.Core.Errors.{ok, err}
use siorb.Update.Metadata.{
  MetadataSignature, Signed, PublicKey, RoleDefinition, RootMetadata, TimestampMetadata,
  SnapshotMetadata, TargetsMetadata, MetadataDescription, RollbackState, VerifiedRepository,
  Primitives, update_error,
}
use siorb.Update.Roles.{
  check_role_type, ensure_not_expired, reject_rollback, check_role_shape, validate_root_shape,
  verify_ed25519, admit, collect, verify_role, verify_description,
}
use siorb.Update.Roles.Threshold.{HasQuorum, verify_role_iff}
use siorb.Update.Verifier.{
  RepositoryVerifier, validate_target_name, validate_names, new_verifier, rotate_root,
  verify_timestamp, verify_snapshot, verify_targets, verify,
}
use siorb.Update.Verifier.Accept.{IsVerified, verify_iff}
use siorb.Update.Transport.{
  FetchOptional, fetch, rotate_all, check_limit, fetch_and_verify, verify_from_transport, root_name,
}
use siorb.Update.Transport.Chain.{
  IsRotated, rotate_root_iff, IsTrusted, verify_from_transport-IsTrusted,
}
use siorb.Update.Transport.RootRollback.{
  with_root, verify_from_transport-forgets_root, verify_from_transport-keeps_root,
}

abbrev signature : String → MetadataSignature
signature key_id = record { key_id = key_id; signature = "s" }

abbrev key : PublicKey
key = record { scheme = "ed25519"; public = "k" }

abbrev two_of_two : RoleDefinition
two_of_two = record { key_ids = "a" ∷ "b" ∷ []; threshold = 2 }

abbrev one_of_one : RoleDefinition
one_of_one = record { key_ids = "a" ∷ []; threshold = 1 }

-- Both keys are needed for a new root, and the first one for the other roles.
abbrev root : ℕ → Signed RootMetadata
root version = record {
  signed = record {
    role_type = "root";
    spec_version = "1.0";
    version = version;
    expires_unix = 100;
    consistent_snapshot = true;
    keys = ("a", key) ∷ ("b", key) ∷ [];
    roles =
        ("root", two_of_two)
        ∷ ("snapshot", one_of_one)
        ∷ ("targets", one_of_one)
        ∷ ("timestamp", one_of_one)
        ∷ [];
  };
  signatures = signature "a" ∷ signature "b" ∷ [];
}

abbrev file : ℕ → MetadataDescription
file version = record { version = version; length = 1; sha256 = "h" }

abbrev timestamp : Signed TimestampMetadata
timestamp = record {
  signed = record {
    role_type = "timestamp";
    spec_version = "1.0";
    version = 7;
    expires_unix = 50;
    snapshot = file 5;
  };
  signatures = signature "a" ∷ [];
}

abbrev snapshot : Signed SnapshotMetadata
snapshot = record {
  signed = record {
    role_type = "snapshot";
    spec_version = "1.0";
    version = 5;
    expires_unix = 60;
    meta = ("targets.json", file 4) ∷ [];
  };
  signatures = signature "a" ∷ [];
}

abbrev targets : Signed TargetsMetadata
targets = record {
  signed = record {
    role_type = "targets";
    spec_version = "1.0";
    version = 4;
    expires_unix = 70;
    targets = ("catalog.json", record { length = 1; sha256 = "h"; custom = [] }) ∷ [];
  };
  signatures = signature "a" ∷ [];
}

-- A root's bytes are its version. Every signature has the right form and verifies.
abbrev toy : Primitives
toy = record {
  decode_root = λ bytes. elim bytes [ [] ↦ none | version ∷ rest ↦ some (root version) ];
  decode_timestamp = λ _. some timestamp;
  decode_snapshot = λ _. some snapshot;
  decode_targets = λ _. some targets;
  encode_root = λ r. some (r.version ∷ []);
  encode_timestamp = λ _. some [];
  encode_snapshot = λ _. some [];
  encode_targets = λ _. some [];
  Key = ℕ;
  Signature = ℕ;
  base64_decode = λ _. some (replicate 32 0);
  verifying_key = λ _. some 0;
  ed25519_signature = λ _. some 0;
  verifies = λ _ _ _. true;
  sha256_hex = λ _. "h";
}

abbrev state : RollbackState
state = record { root = 1; timestamp = 6; snapshot = 5; targets = 4 }

abbrev verifier : RepositoryVerifier
verifier = record {
  trusted_root = root 1;
  state = state;
  now_unix = 10;
  allow_expired_offline = false;
}

-- The transport serves the roots up to a version, and every other file as one byte.
abbrev serve : ℕ → FetchOptional
serve last path size =
    if path == "2.root.json"
    then ok (if eqb last 1 then none else some (2 ∷ []))
    else if path == "3.root.json"
    then ok (if eqb last 3 then some (3 ∷ []) else none)
    else if path == "4.root.json"
    then ok none
    else ok (some (0 ∷ []))

program : Unit {0}
unfolding check_role_type ensure_not_expired reject_rollback check_role_shape validate_root_shape
    verify_ed25519 admit collect verify_role verify_description validate_target_name validate_names
    new_verifier rotate_root verify_timestamp verify_snapshot verify_targets verify fetch rotate_all
    check_limit fetch_and_verify verify_from_transport get contains_key insert decimal
program = tt

-- A key that signs twice is one signer.
signed_twice :
    verify_role toy toy.encode_root
      (record (root 2) { signatures = signature "a" ∷ signature "a" ∷ [] })
      "root"
      (root 1).signed
    ≡ err (update_error "update.threshold.not_met")
unfolding program
signed_twice = refl

verify_role_iff_example :
    (verify_role toy toy.encode_root (root 2) "root" (root 1).signed ≡ ok tt)
    ↔ HasQuorum toy toy.encode_root (root 2) "root" (root 1).signed
verify_role_iff_example = verify_role_iff toy toy.encode_root (root 2) "root" (root 1).signed

rotate_root_iff_example :
    (rotate_root toy verifier (2 ∷ [])
      ≡ ok (record verifier { trusted_root = root 2; state = with_root state 2 }))
    ↔ IsRotated toy verifier
        (2 ∷ [])
        (record verifier { trusted_root = root 2; state = with_root state 2 })
rotate_root_iff_example =
    rotate_root_iff toy verifier (2 ∷ [])
      (record verifier { trusted_root = root 2; state = with_root state 2 })

-- A root that skips a version is refused.
rotate_root_skips : rotate_root toy verifier (3 ∷ []) ≡ err (update_error "update.root.version")
unfolding program
rotate_root_skips = refl

abbrev accepted : ℕ → VerifiedRepository
accepted version = record {
  root = root version;
  timestamp = timestamp;
  snapshot = snapshot;
  targets = targets;
  state = record { root = version; timestamp = 7; snapshot = 5; targets = 4 };
}

verify_accepts : verify toy verifier (0 ∷ []) (0 ∷ []) (0 ∷ []) ≡ ok (accepted 1)
unfolding program
verify_accepts = refl

-- A timestamp older than the one remembered is refused.
verify_rolls_back :
    verify toy
      (record verifier { state = record state { timestamp = 8 } })
      (0 ∷ [])
      (0 ∷ [])
      (0 ∷ [])
    ≡ err (update_error "update.rollback.detected")
unfolding program
verify_rolls_back = refl

verify_iff_example : (verify toy verifier (0 ∷ []) (0 ∷ []) (0 ∷ []) ≡ ok (accepted 1)) ↔ (
    (description : MetadataDescription) × IsVerified toy verifier
      (0 ∷ [])
      (0 ∷ [])
      (0 ∷ [])
      (accepted 1)
      description)
verify_iff_example = verify_iff toy verifier (0 ∷ []) (0 ∷ []) (0 ∷ []) (accepted 1)

transport_accepts : verify_from_transport toy (serve 3) (root 1) state 10 ≡ ok (accepted 3)
unfolding program
transport_accepts = refl

verify_from_transport-IsTrusted_example : IsTrusted toy (serve 3) (root 1) state 10 (accepted 3)
verify_from_transport-IsTrusted_example =
    verify_from_transport-IsTrusted toy (serve 3) (root 1) state 10 (accepted 3) transport_accepts

serve-next : serve 2 (root_name (root 1).signed) 1048576 ≡ ok (some (2 ∷ []))
unfolding decimal
serve-next = refl

-- Root 9 was remembered, and a transport that stops at root 2 is accepted all the same.
verify_from_transport-forgets_root_example :
    verify_from_transport toy (serve 2) (root 1) (with_root state 9) 10
    ≡ verify_from_transport toy (serve 2) (root 1) state 10
verify_from_transport-forgets_root_example =
    verify_from_transport-forgets_root toy (serve 2) (root 1) state 9 10 (2 ∷ []) serve-next

root_rolled_back :
    verify_from_transport toy (serve 2) (root 1) (with_root state 9) 10 ≡ ok (accepted 2)
unfolding program
root_rolled_back = refl

serve-none : serve 1 (root_name (root 1).signed) 1048576 ≡ ok none
unfolding decimal
serve-none = refl

transport_stays : verify_from_transport toy (serve 1) (root 1) state 10 ≡ ok (accepted 1)
unfolding program
transport_stays = refl

verify_from_transport-keeps_root_example : ((accepted 1).root ≡ root 1) × (1 ≤ 1)
verify_from_transport-keeps_root_example =
    verify_from_transport-keeps_root toy (serve 1) (root 1) state 10 (accepted 1) serve-none
      transport_stays
