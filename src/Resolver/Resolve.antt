-- ===== src/Resolver/Resolve.antt =====
-- `Resolution` and `Resolver::resolve_with_context`.
pub mod Criteria
pub mod Permitted
pub mod Selected
use siorb.Shared.{
  Bool, ◌||◌, Option, none, some, String, ◌<>◌, ◌==◌, List, [], ◌∷◌, ◌++◌, map, find, if◌then◌else◌,
}
use siorb.Core.Errors.{Result, ok, err, ErrorKind, with_reason, ok_or, ◌>>=◌, ◌>>◌}
use siorb.Core.Platform.{Operation, InstalledPackage, PlatformContext, operation_eq}
use siorb.Catalog.{PackageManifest, PackageSource}
use siorb.Catalog.Sources.{CatalogServices}
use siorb.Catalog.Document.{Catalog}
use siorb.Catalog.Lookup.{Lookup, exact, deprecated_alias, ambiguous, missing, lookup}
use siorb.Policy.Layers.{LayeredPolicy}
use siorb.Policy.Checks.{Services}
use siorb.Resolver.Constraint.{Requirements, parse_constraint}
use siorb.Resolver.Host.{ResolveOptions}
use siorb.Resolver.Candidate.{ResolutionContext, CandidateEvaluation, evaluate}
use siorb.Resolver.Select.{sort_evaluations, select}

pub record Resolution : Type 0 where
  pub request : String
  pub canonical_id : String
  pub package_name : String
  pub selected : Option PackageSource
  pub evaluations : List CandidateEvaluation
  pub installed : Option InstalledPackage
  pub requested_version : Option String
  pub warnings : List String

-- `Resolution::require_selected`
unfoldable pub require_selected : Resolution → Result PackageSource
require_selected resolution =
    ok_or resolution.selected (with_reason ErrorKind.unresolved_package "resolution.no_candidate")

-- `Resolver`
pub record Resolver : Type 0 where
  pub catalog : Catalog
  pub platform : PlatformContext
  pub policy : LayeredPolicy
  pub installed : List InstalledPackage

-- The package that a lookup stands for, with the warnings of the lookup.
unfoldable pub found_package : String → Lookup → Result (PackageManifest × List String)
found_package request (exact manifest) = ok (manifest, [])
found_package request (deprecated_alias manifest) =
    ok (manifest, ("`" <> request <> "` is deprecated; use `" <> manifest.id <> "` instead") ∷ [])
found_package request (ambiguous manifests) =
    err (with_reason ErrorKind.ambiguous_package "resolution.package.ambiguous")
found_package request missing =
    err (with_reason ErrorKind.unresolved_package "resolution.package.missing")

unfoldable pub installed_package : List InstalledPackage → String → Option InstalledPackage
installed_package installed id =
    find (λ (value : InstalledPackage). value.logical_id == id) installed

abbrev pub changes_version : Operation → Bool
changes_version operation =
    operation_eq operation Operation.install
    || operation_eq operation Operation.upgrade
    || operation_eq operation Operation.repair

abbrev pub pin_of : Option InstalledPackage → Option String
pin_of none = none
pin_of (some installed) = installed.pinned

-- The version asked for; without one, the pin of the installed package.
unfoldable pub effective_version :
    Operation → Option String → Option InstalledPackage → Option String
effective_version operation (some version) installed = some version
effective_version operation none installed =
    if changes_version operation then pin_of installed else none

abbrev deprecation_warning : PackageManifest → List String
deprecation_warning manifest =
    if manifest.deprecated then ("package `" <> manifest.id <> "` is deprecated") ∷ [] else []

module _ (services : Services) where
  -- The evaluations of a package's sources, in the order of their ids.
  unfoldable pub evaluations_of :
      Resolver
      → PackageManifest
      → Operation
      → ResolveOptions
      → ResolutionContext
      → Option InstalledPackage
      → List CandidateEvaluation
  evaluations_of resolver manifest operation options context installed = sort_evaluations (
      map
        (λ source.
          evaluate services resolver.platform resolver.policy manifest source operation options
            context installed)
        manifest.sources)

  -- The resolution of a request for a package, once its version is known to be well formed.
  unfoldable pub resolution_for :
      Resolver
      → String
      → PackageManifest
      → List String
      → Operation
      → ResolveOptions
      → ResolutionContext
      → Resolution
  resolution_for resolver request manifest warnings operation options context =
      let installed = installed_package resolver.installed manifest.id in
      let version = effective_version operation options.version installed in
      let evaluations =
        evaluations_of resolver manifest operation (record options { version = version }) context
          installed in
      record {
        request = request;
        canonical_id = manifest.id;
        package_name = manifest.name;
        selected = select evaluations;
        evaluations = evaluations;
        installed = installed;
        requested_version = version;
        warnings = warnings ++ deprecation_warning manifest;
      }

module _ (services : Services) (requirements : Requirements services.semver) where
  -- `if let Some(version) = .. { VersionConstraint::parse(version)?; }`
  unfoldable pub check_version : Option String → Result (Unit {0})
  check_version none = ok tt
  check_version (some version) = do constraint ← parse_constraint requirements version; ok tt

  -- The rest of `resolve_with_context`, for the package that was looked up.
  unfoldable pub resolve_package :
      Resolver
      → String
      → PackageManifest
      → List String
      → Operation
      → ResolveOptions
      → ResolutionContext
      → Result Resolution
  resolve_package resolver request manifest warnings operation options context = do
    check_version (
        effective_version operation options.version
          (installed_package resolver.installed manifest.id))
    ok (resolution_for services resolver request manifest warnings operation options context)

  unfoldable pub resolve_with_context :
      CatalogServices
      → Resolver
      → String
      → Operation
      → ResolveOptions
      → ResolutionContext
      → Result Resolution
  resolve_with_context catalog_services resolver request operation options context = do
    check_version options.version
    found ← lookup catalog_services resolver.catalog request
    (manifest, warnings) ← found_package request found
    resolve_package resolver request manifest warnings operation options context
