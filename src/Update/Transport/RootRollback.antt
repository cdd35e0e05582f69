-- ===== src/Update/Transport/RootRollback.antt =====
-- What a root rotation does to the root version that is remembered.
use siorb.Shared.{ℕ, suc, ◌≤◌, false, ◌≡◌, refl, none, some, arith}
use siorb.Core.Errors.{ok, >>=-eq-ok}
use siorb.Update.Metadata.{
  Bytes, Signed, RootMetadata, RollbackState, VerifiedRepository, Primitives,
}
use siorb.Update.Verifier.{RepositoryVerifier, new_verifier, rotate_root}
use siorb.Update.Verifier.Accept.{verify_iff}
use siorb.Update.Transport.Chain.{new_verifier-eq-ok, fetch_and_verify-eq-ok}
use siorb.Update.Transport.{
  FetchOptional, root_name, max_root_rotations, rotate_all, check_limit, verify_from_transport,
}

-- The same versions but for the root's.
abbrev pub with_root : RollbackState → ℕ → RollbackState
with_root state root = record state { root = root }

module _ (p : Primitives) where
  rotate_root-forgets :
      (v : RepositoryVerifier) (root : ℕ) (bytes : Bytes)
      → rotate_root p (record v { state = with_root v.state root }) bytes ≡ rotate_root p v bytes
  unfolding rotate_root
  rotate_root-forgets v root bytes = refl

module _ (p : Primitives) (fetch_optional : FetchOptional) where
  rotate_all-forgets :
      (rounds : ℕ) (v : RepositoryVerifier) (root : ℕ) (bytes : Bytes)
      → fetch_optional (root_name v.trusted_root.signed) 1048576 ≡ ok (some bytes)
      → rotate_all p fetch_optional (suc rounds) (record v { state = with_root v.state root })
        ≡ rotate_all p fetch_optional (suc rounds) v
  unfolding rotate_all
  rotate_all-forgets rounds v root bytes h = rw h (rw (rotate_root-forgets p v root bytes))

  -- If the transport has a root that follows the trusted root, the outcome of
  -- `verify_from_transport` is the same whatever root version was remembered: the rotation
  -- overwrites that version before anything is compared with it.
  pub verify_from_transport-forgets_root :
      (trusted_root : Signed RootMetadata) (state : RollbackState) (root now : ℕ) (bytes : Bytes)
      → fetch_optional (root_name trusted_root.signed) 1048576 ≡ ok (some bytes)
      → verify_from_transport p fetch_optional trusted_root (with_root state root) now
        ≡ verify_from_transport p fetch_optional trusted_root state now
  unfolding verify_from_transport new_verifier
  verify_from_transport-forgets_root trusted_root state root now bytes h = ground (
    arith,
    rotate_all-forgets 63
        (record {
          trusted_root = trusted_root;
          state = state;
          now_unix = now;
          allow_expired_offline = false;
        })
        root bytes h,
  )

  rotate_all-none :
      (rounds : ℕ) (v : RepositoryVerifier)
      → fetch_optional (root_name v.trusted_root.signed) 1048576 ≡ ok none
      → rotate_all p fetch_optional (suc rounds) v ≡ ok (v, false)
  unfolding rotate_all
  rotate_all-none rounds v h = rw h

  -- If the transport has no root that follows the trusted root, a repository that
  -- `verify_from_transport` returns has the trusted root, and the root version to remember is not
  -- below the one remembered.
  pub verify_from_transport-keeps_root :
      (trusted_root : Signed RootMetadata) (state : RollbackState) (now : ℕ)
      (r : VerifiedRepository)
      → fetch_optional (root_name trusted_root.signed) 1048576 ≡ ok none
      → verify_from_transport p fetch_optional trusted_root state now ≡ ok r
      → (r.root ≡ trusted_root) × (state.root ≤ r.state.root)
  unfolding verify_from_transport
  verify_from_transport-keeps_root trusted_root state now r h e =
      let (v, made, e1) = >>=-eq-ok (new_verifier p trusted_root state now) _ e in
      let (same_root, same_state, _, _) =
        new_verifier-eq-ok p fetch_optional trusted_root state now v made in
      let ((w, limit), rotated, e2) =
        >>=-eq-ok (rotate_all p fetch_optional max_root_rotations v) _ e1 in
      let (_, _, e3) = >>=-eq-ok (check_limit p fetch_optional w limit) _ e2 in
      let (t, s, g, verified) = fetch_and_verify-eq-ok p fetch_optional w r e3 in
      let (d, q) = (verify_iff p w t s g r).0 verified in
      let here : fetch_optional (root_name v.trusted_root.signed) 1048576 ≡ ok none =
        rw same_root h in
      ground (
        arith,
        q.root_kept,
        q.state_root,
        q.root_version,
        same_root,
        same_state,
        rotated,
        rotate_all-none 63 v here,
      )
