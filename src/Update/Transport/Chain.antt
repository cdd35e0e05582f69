-- ===== src/Update/Transport/Chain.antt =====
-- The roots that `verify_from_transport` goes through, each authorised by the one before it.
use mathlib.Core.Path.{subst₃}
use siorb.Shared.{
  ℕ, zero, suc, ◌≤◌, ◌<◌, Bool, false, ◌≡◌, refl, sym, ◌∙◌, ◌↔◌, Option, none, some, subst, arith,
}
use siorb.Core.Errors.{Result, ok, ◌>>=◌, >>=-eq-ok, ok_or}
use siorb.Update.Metadata.{
  Bytes, Signed, RootMetadata, RollbackState, MetadataDescription, VerifiedRepository, Primitives,
  update_error,
}
use siorb.Update.Roles.{validate_root_shape, verify_role}
use siorb.Update.Roles.Checks.{ensure_not_expired_iff}
use siorb.Update.Verifier.{RepositoryVerifier, next_version, new_verifier, rotate_root, verify}
use siorb.Update.Verifier.Accept.{IsVerified, verify_iff}
use siorb.Update.Transport.{
  FetchOptional, root_name, snapshot_name, targets_name, fetch, max_root_rotations, rotate_all,
  check_limit, fetch_and_verify, verify_from_transport,
}

module _ (p : Primitives) where
  -- `b` may follow the root `a` at time `now`.
  pub record Succeeds (now : ℕ) (a b : Signed RootMetadata) : Type 0 where
    pub numbered : b.signed.version ≡ next_version a.signed
    pub by_old : verify_role p p.encode_root b "root" a.signed ≡ ok tt
    pub shaped : validate_root_shape b.signed ≡ ok tt
    pub by_new : verify_role p p.encode_root b "root" b.signed ≡ ok tt
    pub current : now < b.signed.expires_unix

  -- `n` rotations lead from the root `a` to the last one.
  pub data RootChain (now : ℕ) : ℕ → Signed RootMetadata → Signed RootMetadata → Type 0 where
    start : (a : Signed RootMetadata) → RootChain now zero a a
    link :
        {n : ℕ} {a b c : Signed RootMetadata}
        → Succeeds now a b
        → RootChain now n b c
        → RootChain now (suc n) a c

  pub record IsRotated (v : RepositoryVerifier) (bytes : Bytes) (w : RepositoryVerifier)
      : Type 0 where
    pub read : p.decode_root bytes ≡ some w.trusted_root
    pub succeeds : Succeeds v.now_unix v.trusted_root w.trusted_root
    pub now_kept : w.now_unix ≡ v.now_unix
    pub offline_kept : w.allow_expired_offline ≡ v.allow_expired_offline
    pub root_version : w.state.root ≡ w.trusted_root.signed.version
    pub timestamp_kept : w.state.timestamp ≡ v.state.timestamp
    pub snapshot_kept : w.state.snapshot ≡ v.state.snapshot
    pub targets_kept : w.state.targets ≡ v.state.targets

  module _ (v : RepositoryVerifier) (bytes : Bytes) (w : RepositoryVerifier) where
    -- `rotate_root` accepts exactly a root that decodes, is numbered one higher, is signed by the
    -- role `root` of the old root and by its own, has the shape of a root and has not expired. It
    -- then trusts that root, remembers its version and changes nothing else of the verifier.
    pub rotate_root_iff : (rotate_root p v bytes ≡ ok w) ↔ IsRotated v bytes w
    unfolding rotate_root
    rotate_root_iff =
        ground (arith, ensure_not_expired_iff w.trusted_root.signed.expires_unix v.now_unix false)

module _ (p : Primitives) (fetch_optional : FetchOptional) where
  -- The rest of the rotations keep the clock and the three other versions.
  record IsChained (rounds : ℕ) (v w : RepositoryVerifier) : Type 0 where
    count : ℕ
    bound : count ≤ rounds
    chain : RootChain p v.now_unix count v.trusted_root w.trusted_root
    now_kept : w.now_unix ≡ v.now_unix
    offline_kept : w.allow_expired_offline ≡ v.allow_expired_offline
    timestamp_kept : w.state.timestamp ≡ v.state.timestamp
    snapshot_kept : w.state.snapshot ≡ v.state.snapshot
    targets_kept : w.state.targets ≡ v.state.targets

  IsChained-start : (rounds : ℕ) (v : RepositoryVerifier) → IsChained rounds v v
  IsChained-start rounds v = record {
    count = 0;
    bound = omega arith;
    chain = start v.trusted_root;
    now_kept = refl;
    offline_kept = refl;
    timestamp_kept = refl;
    snapshot_kept = refl;
    targets_kept = refl;
  }

  IsChained-link :
      (rounds : ℕ) (v u w : RepositoryVerifier) (bytes : Bytes)
      → IsRotated p v bytes u
      → IsChained rounds u w
      → IsChained (suc rounds) v w
  IsChained-link rounds v u w bytes r c = record {
    count = suc c.count;
    bound = omega (arith, c.bound);
    chain =
        link r.succeeds
          (subst (λ now. RootChain p now c.count u.trusted_root w.trusted_root) r.now_kept c.chain);
    now_kept = c.now_kept ∙ r.now_kept;
    offline_kept = c.offline_kept ∙ r.offline_kept;
    timestamp_kept = c.timestamp_kept ∙ r.timestamp_kept;
    snapshot_kept = c.snapshot_kept ∙ r.snapshot_kept;
    targets_kept = c.targets_kept ∙ r.targets_kept;
  }

  abbrev continue_with : ℕ → RepositoryVerifier → Option Bytes → Result (RepositoryVerifier × Bool)
  continue_with rounds v found = elim found [
    | none ↦ ok (v, false)
    | some next_root ↦ rotate_root p v next_root >>= rotate_all p fetch_optional rounds
  ]

  continue_with-IsChained :
      (rounds : ℕ) (v w : RepositoryVerifier) (limit : Bool) (found : Option Bytes)
      → ((u : RepositoryVerifier)
          → rotate_all p fetch_optional rounds u ≡ ok (w, limit)
          → IsChained rounds u w)
      → continue_with rounds v found ≡ ok (w, limit)
      → IsChained (suc rounds) v w
  continue_with-IsChained rounds v w limit none ih h =
      let same : v ≡ w = ground (arith, h) in
      subst (IsChained (suc rounds) v) same (IsChained-start (suc rounds) v)
  continue_with-IsChained rounds v w limit (some bytes) ih h =
      let (u, rotated, rest) =
        >>=-eq-ok (rotate_root p v bytes) (rotate_all p fetch_optional rounds) h in
      IsChained-link rounds v u w bytes ((rotate_root_iff p v bytes u).0 rotated) (ih u rest)

  rotate_all-IsChained :
      (rounds : ℕ) (v w : RepositoryVerifier) (limit : Bool)
      → rotate_all p fetch_optional rounds v ≡ ok (w, limit)
      → IsChained rounds v w
  unfolding rotate_all
  rotate_all-IsChained zero v w limit h =
      let same : v ≡ w = ground (arith, h) in subst (IsChained zero v) same (IsChained-start zero v)
  rotate_all-IsChained (suc rounds) v w limit h =
      let (found, _, rest) =
        >>=-eq-ok (fetch_optional (root_name v.trusted_root.signed) 1048576)
          (continue_with rounds v) h in
      continue_with-IsChained rounds v w limit found (λ u. rotate_all-IsChained rounds u w limit)
        rest

  -- The files that were fetched are the ones that were verified.
  pub fetch_and_verify-eq-ok :
      (v : RepositoryVerifier) (r : VerifiedRepository)
      → fetch_and_verify p fetch_optional v ≡ ok r
      → (t s g : Bytes) × (verify p v t s g ≡ ok r)
  unfolding fetch_and_verify
  fetch_and_verify-eq-ok v r h =
      let root = v.trusted_root.signed in
      let invalid = update_error "update.metadata.invalid" in
      let (t, _, h1) = >>=-eq-ok (fetch p fetch_optional "timestamp.json" 1048576) _ h in
      let (tv, _, h2) = >>=-eq-ok (ok_or (p.decode_timestamp t) invalid) _ h1 in
      let (s, _, h3) =
        >>=-eq-ok (fetch p fetch_optional (snapshot_name root tv.signed) 4194304) _ h2 in
      let (sv, _, h4) = >>=-eq-ok (ok_or (p.decode_snapshot s) invalid) _ h3 in
      let (g, _, h5) =
        >>=-eq-ok (fetch p fetch_optional (targets_name root sv.signed) 33554432) _ h4 in
      (t, s, g, h5)

  pub new_verifier-eq-ok :
      (trusted_root : Signed RootMetadata) (state : RollbackState) (now : ℕ)
      (v : RepositoryVerifier)
      → new_verifier p trusted_root state now ≡ ok v
      → (v.trusted_root ≡ trusted_root)
        × (v.state ≡ state)
        × (v.now_unix ≡ now)
        × (v.allow_expired_offline ≡ false)
  unfolding new_verifier
  new_verifier-eq-ok trusted_root state now v h = ground (arith, h)

  -- What `verify_from_transport` has established of the repository that it returns.
  pub record IsTrusted (trusted_root : Signed RootMetadata) (state : RollbackState) (now : ℕ)
      (r : VerifiedRepository) : Type 0 where
    pub rotations : ℕ
    pub bounded : rotations ≤ max_root_rotations
    pub chain : RootChain p now rotations trusted_root r.root
    pub root_fresh : now < r.root.signed.expires_unix
    pub timestamp_fresh : now < r.timestamp.signed.expires_unix
    pub snapshot_fresh : now < r.snapshot.signed.expires_unix
    pub targets_fresh : now < r.targets.signed.expires_unix
    pub timestamp_signed :
        verify_role p p.encode_timestamp r.timestamp "timestamp" r.root.signed ≡ ok tt
    pub snapshot_signed :
        verify_role p p.encode_snapshot r.snapshot "snapshot" r.root.signed ≡ ok tt
    pub targets_signed : verify_role p p.encode_targets r.targets "targets" r.root.signed ≡ ok tt
    pub timestamp_version : state.timestamp ≤ r.state.timestamp
    pub snapshot_version : state.snapshot ≤ r.state.snapshot
    pub targets_version : state.targets ≤ r.state.targets
    pub root_version : r.state.root ≡ r.root.signed.version

  IsTrusted-intro :
      (trusted_root : Signed RootMetadata) (state : RollbackState) (now : ℕ)
      (r : VerifiedRepository) (v w : RepositoryVerifier) (t s g : Bytes) (d : MetadataDescription)
      → (v.trusted_root ≡ trusted_root)
        × (v.state ≡ state)
        × (v.now_unix ≡ now)
        × (v.allow_expired_offline ≡ false)
      → IsChained max_root_rotations v w
      → IsVerified p w t s g r d
      → IsTrusted trusted_root state now r
  IsTrusted-intro trusted_root state now r v w t s g d (same_root, same_state, same_now, online) c
        q =
      record {
        rotations = c.count;
        bounded = c.bound;
        chain =
            subst₃ (λ a b n. RootChain p n c.count a b) same_root (sym q.root_kept) same_now
              c.chain;
        root_fresh = ground (arith, q.root_fresh, q.root_kept, c.now_kept, same_now);
        timestamp_fresh =
            ground (arith, q.timestamp.fresh, c.now_kept, c.offline_kept, same_now, online);
        snapshot_fresh =
            ground (arith, q.snapshot.fresh, c.now_kept, c.offline_kept, same_now, online);
        targets_fresh =
            ground (arith, q.targets.fresh, c.now_kept, c.offline_kept, same_now, online);
        timestamp_signed = rw q.root_kept q.timestamp.signed;
        snapshot_signed = rw q.root_kept q.snapshot.signed;
        targets_signed = rw q.root_kept q.targets.signed;
        timestamp_version =
            ground (arith, q.timestamp.version, q.state_timestamp, c.timestamp_kept, same_state);
        snapshot_version =
            ground (arith, q.snapshot.version, q.state_snapshot, c.snapshot_kept, same_state);
        targets_version =
            ground (arith, q.targets.version, q.state_targets, c.targets_kept, same_state);
        root_version = ground (arith, q.state_root, q.root_kept);
      }

  -- A repository that `verify_from_transport` returns has a root that at most 64 rotations, each
  -- authorised by the root before, lead to from the trusted root; that root is current; the
  -- timestamp, snapshot and targets are current and signed by their roles under it; of these three
  -- no version is below the one remembered; and the root version to remember is the root's.
  pub verify_from_transport-IsTrusted :
      (trusted_root : Signed RootMetadata) (state : RollbackState) (now : ℕ)
      (r : VerifiedRepository)
      → verify_from_transport p fetch_optional trusted_root state now ≡ ok r
      → IsTrusted trusted_root state now r
  unfolding verify_from_transport
  verify_from_transport-IsTrusted trusted_root state now r h =
      let (v, made, h1) = >>=-eq-ok (new_verifier p trusted_root state now) _ h in
      let ((w, limit), rotated, h2) =
        >>=-eq-ok (rotate_all p fetch_optional max_root_rotations v) _ h1 in
      let (_, _, h3) = >>=-eq-ok (check_limit p fetch_optional w limit) _ h2 in
      let (t, s, g, verified) = fetch_and_verify-eq-ok w r h3 in
      let (d, q) = (verify_iff p w t s g r).0 verified in
      IsTrusted-intro trusted_root state now r v w t s g d
        (new_verifier-eq-ok trusted_root state now v made)
        (rotate_all-IsChained max_root_rotations v w limit rotated) q
