-- ===== src/Update/Roles/Threshold.antt =====
-- When `verify_role` accepts: the quorum of distinct authorised signers.
use siorb.Shared.{
  ◌≤◌, Bool, true, false, ◌&&◌, ◌||◌, String, ◌==◌, ◌≡◌, sym, ◌∙◌, ◌↔◌, inl, inr, Option,
  Option-cases, none, some, List, [], ◌∷◌, Map, get, contains_key, keys, contains, any, length,
  arith, eq_iff, Distinct, contains_key-insert, contains-keys, length-keys, insert-Distinct,
  Distinct-length-le,
}
use siorb.Core.Errors.{ok}
use siorb.Update.Metadata.{
  Bytes, MetadataSignature, Signed, RoleDefinition, RootMetadata, Primitives,
}
use siorb.Update.Roles.{verify_ed25519, admit, collect, verify_role}

module _ (p : Primitives) (definition : RoleDefinition) (root : RootMetadata) (bytes : Bytes) where
  -- The signature's key is listed by the role and known to the root, and the signature verifies.
  abbrev pub is_authorized : MetadataSignature → Bool
  is_authorized s = contains definition.key_ids s.key_id && elim (get root.keys s.key_id) [
    | none ↦ false
    | some key ↦ key.scheme == "ed25519" && verify_ed25519 p key s bytes
  ]

  -- The key has made an authorised signature.
  abbrev pub vouches : List MetadataSignature → String → Bool
  vouches signatures k = any (λ s. s.key_id == k && is_authorized s) signatures

  contains_key-admit :
      (valid : Map Bool) (s : MetadataSignature) (k : String)
      → contains_key (admit p definition root bytes valid s) k
        ≡ (contains_key valid k || (s.key_id == k && is_authorized s))
  unfolding admit
  contains_key-admit valid s k =
      ground (arith, contains_key-insert s.key_id k true valid, eq_iff s.key_id k)

  contains_key-collect :
      (valid : Map Bool) (signatures : List MetadataSignature) (k : String)
      → contains_key (collect p definition root bytes valid signatures) k
        ≡ (contains_key valid k || vouches signatures k)
  unfolding collect
  contains_key-collect valid [] k = ground arith
  contains_key-collect valid (s ∷ rest) k = ground (
    arith,
    contains_key-admit valid s k,
    contains_key-collect (admit p definition root bytes valid s) rest k,
  )

  admit-Distinct :
      (valid : Map Bool) (s : MetadataSignature)
      → Distinct (keys valid)
      → Distinct (keys (admit p definition root bytes valid s))
  unfolding admit
  admit-Distinct valid s d = ground (arith, insert-Distinct s.key_id true valid)

  collect-Distinct :
      (valid : Map Bool) (signatures : List MetadataSignature)
      → Distinct (keys valid)
      → Distinct (keys (collect p definition root bytes valid signatures))
  unfolding collect
  collect-Distinct valid [] d = d
  collect-Distinct valid (s ∷ rest) d =
      collect-Distinct (admit p definition root bytes valid s) rest (admit-Distinct valid s d)

  signers : List MetadataSignature → List String
  signers signatures = keys (collect p definition root bytes [] signatures)

  contains-signers :
      (signatures : List MetadataSignature) (k : String)
      → contains (signers signatures) k ≡ vouches signatures k
  unfolding signers contains_key
  contains-signers signatures k = ground (
    arith,
    contains-keys (collect p definition root bytes [] signatures) k,
    contains_key-collect [] signatures k,
  )

module _ (p : Primitives) {T : Type 0} (encode : T → Option Bytes) (metadata : Signed T)
    (role : String) (root : RootMetadata) where
  -- At least `threshold` different keys of the role have signed the canonical bytes.
  pub record HasQuorum : Type 0 where
    pub definition : RoleDefinition
    pub bytes : Bytes
    pub found : get root.roles role ≡ some definition
    pub encoded : encode metadata.signed ≡ some bytes
    pub positive : 1 ≤ definition.threshold
    pub fits : definition.threshold ≤ length definition.key_ids
    pub by : List String
    pub distinct : Distinct by
    pub each :
        (k : String)
        → contains by k ≡ true
        → vouches p definition root bytes metadata.signatures k ≡ true
    pub enough : definition.threshold ≤ length by

  HasQuorum→ok : HasQuorum → verify_role p encode metadata role root ≡ ok tt
  unfolding verify_role signers
  HasQuorum→ok q =
      let valid = signers p q.definition root q.bytes metadata.signatures in
      let most =
        Distinct-length-le q.by valid q.distinct (λ k m.
          contains-signers p q.definition root q.bytes metadata.signatures k ∙ q.each k m) in
      ground (
        arith,
        q.found,
        q.encoded,
        q.positive,
        q.fits,
        q.enough,
        most,
        length-keys (collect p q.definition root q.bytes [] metadata.signatures),
      )

  ok→HasQuorum : verify_role p encode metadata role root ≡ ok tt → HasQuorum
  unfolding verify_role signers
  ok→HasQuorum h = elim (Option-cases (get root.roles role)) [
    | inl e ↦ absurd (ground (arith, e, h))
    | inr (definition, e) ↦ elim (Option-cases (encode metadata.signed)) [
      | inl f ↦ absurd (ground (arith, e, f, h))
      | inr (bytes, f) ↦ record {
        definition = definition;
        bytes = bytes;
        found = e;
        encoded = f;
        positive = ground (arith, e, h);
        fits = ground (arith, e, h);
        by = signers p definition root bytes metadata.signatures;
        distinct = collect-Distinct p definition root bytes [] metadata.signatures tt;
        each = λ k m. sym (contains-signers p definition root bytes metadata.signatures k) ∙ m;
        enough =
            ground (
              arith,
              e,
              f,
              h,
              length-keys (collect p definition root bytes [] metadata.signatures),
            );
      }
    ]
  ]

  -- `verify_role` accepts metadata exactly if the trusted root defines the role with a threshold
  -- between 1 and its number of key ids, and pairwise different keys, as many as the threshold
  -- asks, each listed by the role, known to the root as an ed25519 key and with a signature that
  -- verifies over the canonical bytes, have signed. A key counts once, however often it signs.
  pub verify_role_iff : (verify_role p encode metadata role root ≡ ok tt) ↔ HasQuorum
  verify_role_iff = (ok→HasQuorum, HasQuorum→ok)
