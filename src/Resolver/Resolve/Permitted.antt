-- ===== src/Resolver/Resolve/Permitted.antt =====
-- What a candidate that is accepted satisfies, and that a selection is one of them.
use siorb.Shared.{
  true, ◌≡◌, refl, sym, ap, subst, ◌∙◌, ◌⊎◌, inl, inr, Option, some, String, List, ◌++◌, map, Any,
  Any-map, Any-mono, is_empty, is_empty-append, arith,
}
use siorb.Core.Errors.{Result, ok, >>=-eq-ok}
use siorb.Core.Platform.{Operation, InstalledPackage, PlatformContext}
use siorb.Catalog.{PackageManifest, PackageSource}
use siorb.Catalog.Sources.{CatalogServices}
use siorb.Catalog.Lookup.{Lookup, exact, deprecated_alias, ambiguous, missing, lookup}
use siorb.Policy.Layers.{LayeredPolicy}
use siorb.Policy.Checks.{Services}
use siorb.Policy.Evaluate.{evaluate_with_context}
use siorb.Resolver.Constraint.{Requirements}
use siorb.Resolver.Host.{ResolveOptions, host_rejections, backend_rejections}
use siorb.Resolver.Candidate.{
  ResolutionContext, CandidateEvaluation, candidate_policy_context, policy_rejections,
  state_rejections, evaluate,
}
use siorb.Resolver.Select.{sort_evaluations}
use siorb.Resolver.Select.Best.{select-IsGreatest, Any-sort_evaluations}
use siorb.Resolver.Resolve.{
  Resolution, Resolver, found_package, installed_package, effective_version, check_version,
  evaluations_of, resolution_for, resolve_package, resolve_with_context,
}
use siorb.Resolver.Resolve.Criteria.{
  Fits, host_rejections-Fits, IsReachable, backend_rejections-IsReachable, KeepsState,
  state_rejections-KeepsState, policy_rejections-allowed,
}

module _ (services : Services) (platform : PlatformContext) (policy : LayeredPolicy)
    (manifest : PackageManifest) (operation : Operation) (options : ResolveOptions)
    (context : ResolutionContext) (installed : Option InstalledPackage) where
  -- A source of the package that host, request, policy and state admit.
  pub record IsPermitted (s : PackageSource) : Type 0 where
    pub fits : Fits platform options s
    pub reachable : IsReachable platform s
    pub allowed :
        (evaluate_with_context services policy manifest s operation
          (candidate_policy_context s options context installed)).allowed
        ≡ true
    pub keeps_state : KeepsState installed operation options.version

  decided :
      (s : PackageSource)
      → let decision =
          evaluate_with_context services policy manifest s operation
            (candidate_policy_context s options context installed) in
        decision.allowed ≡ is_empty decision.reasons
  unfolding evaluate_with_context
  decided s = refl

  evaluate-IsPermitted :
      (s : PackageSource)
      → (evaluate services platform policy manifest s operation options context installed).accepted
        ≡ true
      → IsPermitted s
  unfolding evaluate
  evaluate-IsPermitted s h =
      let decision =
        evaluate_with_context services policy manifest s operation
          (candidate_policy_context s options context installed) in
      let host = host_rejections platform s options in
      let reach = backend_rejections platform s in
      let state = state_rejections installed operation options.version in
      let parts : (is_empty host ≡ true)
          × (is_empty reach ≡ true)
          × (is_empty (policy_rejections decision) ≡ true)
          × (is_empty state ≡ true) =
        ground (
          arith,
          h,
          is_empty-append host (reach ++ policy_rejections decision ++ state),
          is_empty-append reach (policy_rejections decision ++ state),
          is_empty-append (policy_rejections decision) state,
        ) in
      record {
        fits = host_rejections-Fits platform options s parts.0;
        reachable = backend_rejections-IsReachable platform s parts.1;
        allowed = policy_rejections-allowed decision (decided s) parts.2;
        keeps_state = state_rejections-KeepsState installed operation options.version parts.3;
      }

-- What the lookup found, as itself or by a deprecated alias.
abbrev pub IsFound : Result Lookup → PackageManifest → Type 0
IsFound found manifest = (found ≡ ok (exact manifest)) ⊎ (found ≡ ok (deprecated_alias manifest))

found_package-IsFound :
    (request : String) (found : Lookup) (manifest : PackageManifest) (warnings : List String)
    → found_package request found ≡ ok (manifest, warnings)
    → IsFound (ok found) manifest
unfolding found_package
found_package-IsFound request (exact other) manifest warnings h = inl (ground (arith, h))
found_package-IsFound request (deprecated_alias other) manifest warnings h = inr (ground (arith, h))
found_package-IsFound request (ambiguous others) manifest warnings h = cc
found_package-IsFound request missing manifest warnings h = cc

-- The resolution is that of a package which the lookup found.
pub resolve_with_context-resolution_for :
    (services : Services) (requirements : Requirements services.semver)
    (catalog_services : CatalogServices) (resolver : Resolver) (request : String)
    (operation : Operation) (options : ResolveOptions) (context : ResolutionContext)
    (r : Resolution)
    → resolve_with_context services requirements catalog_services resolver request operation options
        context
      ≡ ok r
    → (manifest : PackageManifest) × IsFound
        (lookup catalog_services resolver.catalog request)
        manifest
      × ((warnings : List String) × (r
            ≡ resolution_for services resolver request manifest warnings operation options context))
unfolding resolve_with_context resolve_package
resolve_with_context-resolution_for services requirements catalog_services resolver request
      operation options context r h =
    let (checked, e1, h1) = >>=-eq-ok (check_version services requirements options.version) _ h in
    let (found, e2, h2) = >>=-eq-ok (lookup catalog_services resolver.catalog request) _ h1 in
    let (pair, e3, h3) = >>=-eq-ok (found_package request found) _ h2 in
    let (allowed, e4, h4) =
      >>=-eq-ok
        (check_version services requirements (
          effective_version operation options.version
            (installed_package resolver.installed (pair.0).id)))
        _ h3 in
    (
      pair.0,
      subst (λ l. IsFound l pair.0) (sym e2) (found_package-IsFound request found pair.0 pair.1 e3),
      (pair.1, cc),
    )

module _ (services : Services) (resolver : Resolver) (request : String) (manifest : PackageManifest)
    (warnings : List String) (operation : Operation) (options : ResolveOptions)
    (context : ResolutionContext) where
  -- The resolution at hand, and whether it permits a source.
  abbrev here : Resolution
  here = resolution_for services resolver request manifest warnings operation options context

  abbrev Permits : Resolution → PackageSource → Type 0
  Permits r s =
      IsPermitted services resolver.platform resolver.policy manifest operation
        (record options { version = r.requested_version }) context r.installed s

  abbrev evaluate_one :
      Option InstalledPackage → ResolveOptions → PackageSource → CandidateEvaluation
  evaluate_one installed asked source =
      evaluate services resolver.platform resolver.policy manifest source operation asked context
        installed

  pub resolution_for-IsPermitted :
      (s : PackageSource)
      → here.selected ≡ some s
      → Any (λ (listed : PackageSource). (listed ≡ s) × Permits here listed) manifest.sources
  unfolding resolution_for evaluations_of evaluate
  resolution_for-IsPermitted s k =
      let installed = installed_package resolver.installed manifest.id in
      let asked : ResolveOptions = record options {
        version = effective_version operation options.version installed;
      } in
      let judge : PackageSource → CandidateEvaluation = evaluate_one installed asked in
      let (best, same, (stands, over)) =
        select-IsGreatest (sort_evaluations (map judge manifest.sources)) s k in
      let IsChosen : CandidateEvaluation → Type 0 = λ e. (e ≡ best) × (e.accepted ≡ true) in
      Any-mono _ _
        (λ q (e, fine). (
          ap (λ (x : CandidateEvaluation). x.source) e ∙ same,
          evaluate-IsPermitted services resolver.platform resolver.policy manifest operation asked
              context installed q fine,
        ))
        manifest.sources
        (Any-map judge IsChosen manifest.sources
          (Any-sort_evaluations IsChosen (map judge manifest.sources) stands))
