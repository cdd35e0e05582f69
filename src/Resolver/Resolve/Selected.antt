-- ===== src/Resolver/Resolve/Selected.antt =====
-- What a successful `resolve_with_context` guarantees of the source that it selects.
use siorb.Shared.{
  true, ◌≡◌, refl, sym, ap, subst, ◌∙◌, not, Option, none, some, String, all, Any, Any-elim, arith,
}
use siorb.Core.Errors.{ok}
use siorb.Core.Platform.{Operation, InstalledPackage}
use siorb.Catalog.{PackageManifest, PackageSource}
use siorb.Catalog.Sources.{CatalogServices}
use siorb.Catalog.Lookup.{lookup}
use siorb.Policy.Checks.{Services}
use siorb.Resolver.Constraint.{Requirements}
use siorb.Resolver.Host.{ResolveOptions}
use siorb.Resolver.Candidate.{ResolutionContext, CandidateEvaluation}
use siorb.Resolver.Select.{select}
use siorb.Resolver.Select.Best.{IsGreatest, select-IsGreatest, select-none, is_none}
use siorb.Resolver.Resolve.{
  Resolution, Resolver, installed_package, effective_version, changes_version, resolution_for,
  resolve_with_context,
}
use siorb.Resolver.Resolve.Criteria.{KeepsState}
use siorb.Resolver.Resolve.Permitted.{
  IsFound, IsPermitted, resolve_with_context-resolution_for, resolution_for-IsPermitted,
}

pinned_version :
    (operation : Operation) (asked : Option String) (state : Option InstalledPackage)
    (installed : InstalledPackage) (pin : String)
    → changes_version operation ≡ true
    → state ≡ some installed
    → installed.pinned ≡ some pin
    → KeepsState state operation (effective_version operation asked state)
    → effective_version operation asked state ≡ some pin
unfolding effective_version
pinned_version operation asked none installed pin c e p k = cc
pinned_version operation none (some other) installed pin c e p k = rw c (ground (arith, e, p))
pinned_version operation (some version) (some other) installed pin c e p k =
    let same : other.pinned ≡ some pin = ground (arith, e, p) in ap some (k.1 pin version same refl)

module _ (services : Services) (requirements : Requirements services.semver)
    (catalog_services : CatalogServices) (resolver : Resolver) (request : String)
    (operation : Operation) (options : ResolveOptions) (context : ResolutionContext)
    (r : Resolution)
    (resolved : resolve_with_context services requirements catalog_services resolver request
        operation options context
      ≡ ok r) where
  -- A resolution that succeeds is one of the package that the lookup found for the request. A
  -- source that it selects is listed by that package; it fits the host and what was asked of
  -- source, backend, channel, scope and architecture; its backend is there, or it is an artifact
  -- and the host is online; the policy allows the operation on it; a held package is neither
  -- removed nor upgraded; and a version that is requested of a pinned package is the pin.
  pub resolve_with_context-IsPermitted :
      (s : PackageSource)
      → r.selected ≡ some s
      → (manifest : PackageManifest) × IsFound
          (lookup catalog_services resolver.catalog request)
          manifest
        × (r.canonical_id ≡ manifest.id)
        × (r.installed ≡ installed_package resolver.installed manifest.id)
        × Any
            (λ (listed : PackageSource).
              (listed ≡ s)
              × IsPermitted services resolver.platform resolver.policy manifest operation
                  (record options { version = r.requested_version })
                  context
                  r.installed
                  listed)
            manifest.sources
  unfolding resolution_for
  resolve_with_context-IsPermitted s selected =
      let (manifest, found, (warnings, same)) =
        resolve_with_context-resolution_for services requirements catalog_services resolver request
          operation options context r resolved in
      let build =
        resolution_for services resolver request manifest warnings operation options context in
      (
        manifest,
        found,
        ap (λ (x : Resolution). x.canonical_id) same,
        ap (λ (x : Resolution). x.installed) same,
        subst
            (λ (x : Resolution).
              Any
                (λ (listed : PackageSource).
                  (listed ≡ s)
                  × IsPermitted services resolver.platform resolver.policy manifest operation
                      (record options { version = x.requested_version }) context x.installed listed)
                manifest.sources)
            (sym same)
            (resolution_for-IsPermitted services resolver request manifest warnings operation
              options context s (subst (λ (x : Resolution). x.selected ≡ some s) same selected)),
      )

  -- A resolution selects nothing exactly if none of its evaluations is accepted. What it selects
  -- is the source of an accepted evaluation that no accepted one ranks above.
  pub resolve_with_context-IsGreatest :
      (is_none r.selected ≡ all (λ (e : CandidateEvaluation). not e.accepted) r.evaluations)
      × ((s : PackageSource)
          → r.selected ≡ some s
          → (best : CandidateEvaluation) × (best.source ≡ s) × IsGreatest best r.evaluations)
  unfolding resolution_for
  resolve_with_context-IsGreatest =
      let (manifest, found, (warnings, same)) =
        resolve_with_context-resolution_for services requirements catalog_services resolver request
          operation options context r resolved in
      let chosen : r.selected ≡ select r.evaluations =
        subst (λ (x : Resolution). x.selected ≡ select x.evaluations) (sym same) refl in
      (
        ap is_none chosen ∙ select-none r.evaluations,
        λ s selected. select-IsGreatest r.evaluations s (sym chosen ∙ selected),
      )

  -- An install, an upgrade or a repair of a pinned package selects a source only for the version
  -- that is pinned, whether another one was asked for or none.
  pub resolve_with_context-pinned :
      (s : PackageSource) (installed : InstalledPackage) (pin : String)
      → changes_version operation ≡ true
      → r.installed ≡ some installed
      → installed.pinned ≡ some pin
      → r.selected ≡ some s
      → r.requested_version ≡ some pin
  unfolding resolution_for
  resolve_with_context-pinned s installed pin changes present pinned selected =
      let (manifest, found, (warnings, same)) =
        resolve_with_context-resolution_for services requirements catalog_services resolver request
          operation options context r resolved in
      let (permitted_of, found', id, state, permitted) =
        resolve_with_context-IsPermitted s selected in
      let version : r.requested_version ≡ effective_version operation options.version r.installed =
        subst
          (λ (x : Resolution).
            x.requested_version ≡ effective_version operation options.version x.installed)
          (sym same) refl in
      let keeps : KeepsState r.installed operation r.requested_version =
        Any-elim _ _ (λ listed permit. (permit.1).keeps_state) permitted_of.sources permitted in
      version
      ∙ pinned_version operation options.version r.installed installed pin changes present pinned
          (subst (KeepsState r.installed operation) version keeps)
