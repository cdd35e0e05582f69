-- ===== src/Resolver/Tests.antt =====
-- A catalog with one package, and what the resolver selects of it.
use siorb.Shared.{
  ℕ, Ordering, true, false, not, ◌≡◌, refl, none, some, [], ◌∷◌, all, Any, ascii_lowercase, get,
  insert, contains_key,
}
use siorb.Core.Errors.{ok}
use siorb.Core.Platform.{
  Operation, OsFamily, Architecture, Scope, PlatformContext, BackendInfo, InstalledPackage,
  normalize, backend,
}
use siorb.Catalog.{PackageManifest, PackageSource, tool_backend}
use siorb.Catalog.Identifiers.{normalize_identifier}
use siorb.Catalog.Sources.{CatalogServices}
use siorb.Catalog.Document.{
  Catalog, CatalogDocument, from_document, validate_document, validate_packages, register_package,
  register_aliases, register_identity, validate_sources, index_packages, index_aliases,
}
use siorb.Catalog.Sources.{validate_source}
use siorb.Catalog.Lookup.{lookup}
use siorb.Policy.Layers.{LayeredPolicy, default_policy}
use siorb.Policy.Versions.{Semver}
use siorb.Policy.Checks.{
  Services, check_membership, check_categories, check_artifact, enforce_provenance,
  enforce_trusted_publishers, enforce_network_domains, static_reasons, context_reasons,
  layer_reasons,
}
use siorb.Policy.Dates.{enforce_freshness}
use siorb.Policy.Preference.{parse_scope}
use siorb.Policy.Evaluate.{evaluate_with_context, all_reasons, sort_reasons, dedup_reasons}
use siorb.Resolver.Constraint.{
  Requirements, parse_constraint, exact_constraint, normalize_version, requirement_of,
  exact_requirement,
}
use siorb.Resolver.Host.{
  ResolveOptions, platform_matches, architecture_differs, scope_differs, host_rejections,
  backend_rejections,
}
use siorb.Resolver.Candidate.{
  ResolutionContext, CandidateEvaluation, candidate_policy_context, policy_rejections,
  state_rejections, evaluate,
}
use siorb.Resolver.Select.{select, sort_evaluations}
use siorb.Resolver.Select.Best.{IsGreatest, is_none}
use siorb.Resolver.Resolve.{
  Resolution, Resolver, installed_package, effective_version, check_version, evaluations_of,
  found_package, resolution_for, resolve_package, resolve_with_context,
}
use siorb.Resolver.Resolve.Permitted.{IsFound, IsPermitted}
use siorb.Resolver.Resolve.Selected.{
  resolve_with_context-IsPermitted, resolve_with_context-IsGreatest, resolve_with_context-pinned,
}

-- Versions without any text to compare.
abbrev semver : Semver
semver = record { Version = ℕ; parse = λ text. none; compare_version = λ a b. Ordering.eq }

abbrev services : Services
services = record { semver = semver; host_of = λ url. none; unix_timestamp = 1784000000 }

abbrev source : PackageSource
source = record {
  id = "firefox-apt";
  platform = "debian";
  distributions = [];
  backend = "apt";
  package_id = "firefox";
  trust = "native";
  scope = "system";
  channel = "stable";
  architectures = "x86_64" ∷ [];
  priority = 10;
  requires_privilege = true;
  provenance = "backend-repository";
  evidence = "https://packages.debian.org";
  reviewed_at = "2026-07-13";
  verification = none;
}

abbrev manifest : PackageManifest
manifest = record {
  schema_version = "1";
  id = "firefox";
  name = "Firefox";
  description = "Browser";
  aliases = [];
  deprecated_aliases = [];
  search_terms = [];
  homepage = "https://mozilla.org";
  upstream = "";
  license = "MPL-2.0";
  risk = "standard";
  categories = "browser" ∷ [];
  capabilities = [];
  channels = "stable" ∷ [];
  conflicts = [];
  replacements = [];
  dependencies = [];
  optional_relationships = [];
  version_normalization = "";
  verification = "";
  evidence = [];
  reviewed_at = "";
  maintainers = [];
  deprecated = false;
  sources = source ∷ [];
}

abbrev requirements : Requirements semver
requirements = record {
  VersionReq = ℕ;
  parse_req = λ text. none;
  matches_req = λ req version. false;
  same_version = λ a b. false;
}

abbrev catalog_services : CatalogServices
catalog_services = record {
  nfkc = λ text. text;
  parse_url = λ text. none;
  addresses = record { parse_ip = λ text. none; show_ip = λ address. "" };
}

abbrev document : CatalogDocument
document = record {
  schema_version = "1.0";
  catalog_version = 1;
  generated_at = "";
  expires_unix = none;
  packages = manifest ∷ [];
}

abbrev catalog : Catalog
catalog = record {
  document = document;
  exact = ("firefox", 0) ∷ [];
  deprecated = [];
  identity = record {
    id = "siorb-main";
    version = 1;
    verified = true;
    expires_unix = none;
    source = "bundled";
  };
}

abbrev apt : BackendInfo
apt = record {
  id = "apt";
  executable = "/usr/bin/apt-get";
  version = none;
  available = true;
  capabilities = [];
}

abbrev platform : PlatformContext
platform = record {
  os = OsFamily.linux;
  os_version = some "6.1";
  distribution = some "debian";
  distribution_version = some "12";
  distribution_like = [];
  architecture = Architecture.x86_64;
  translated = false;
  libc = some "glibc";
  backends = apt ∷ [];
  interactive = true;
  elevation_available = true;
  supported_scopes = Scope.system ∷ [];
  offline = false;
  restrictions = [];
}

abbrev policy : LayeredPolicy
policy = record {
  layers = record default_policy { schema_version = "1.0"; id = "site" } ∷ [];
  id = "site";
  layer_names = "site" ∷ [];
}

abbrev pinned_firefox : InstalledPackage
pinned_firefox = record {
  logical_id = "firefox";
  native_id = "firefox";
  backend = "apt";
  version = some "128";
  scope = Scope.system;
  receipt = true;
  held = false;
  pinned = some "128:esr";
}

abbrev resolver : Resolver
resolver = record {
  catalog = catalog;
  platform = platform;
  policy = policy;
  installed = pinned_firefox ∷ [];
}

abbrev options : ResolveOptions
options = record {
  via = some "apt";
  source = none;
  scope = Scope.auto;
  channel = "stable";
  version = none;
  architecture = none;
}

abbrev context : ResolutionContext
context = record { dry_run = false; now_unix = none; network_urls = [] }

abbrev resolution : Resolution
resolution =
    resolution_for services resolver "Firefox" manifest [] Operation.install options context

loaded : from_document catalog_services document "bundled" true ≡ ok catalog
unfolding from_document validate_document validate_packages register_package register_aliases
    register_identity validate_sources validate_source index_packages index_aliases
    normalize_identifier get ascii_lowercase contains_key insert
loaded = refl

resolved :
    resolve_with_context services requirements catalog_services resolver "Firefox" Operation.install
      options context
    ≡ ok resolution
unfolding resolve_with_context resolve_package check_version lookup found_package parse_constraint
    normalize_identifier get ascii_lowercase effective_version installed_package requirement_of
    exact_constraint exact_requirement normalize_version
resolved = refl

selected : resolution.selected ≡ some source
unfolding resolution_for evaluations_of evaluate select sort_evaluations host_rejections
    platform_matches architecture_differs normalize ascii_lowercase scope_differs backend_rejections
    backend tool_backend policy_rejections evaluate_with_context layer_reasons check_membership
    check_categories check_artifact enforce_trusted_publishers enforce_provenance context_reasons
    enforce_network_domains static_reasons enforce_freshness all_reasons dedup_reasons sort_reasons
    parse_scope state_rejections effective_version installed_package candidate_policy_context
selected = refl

resolve_with_context-IsPermitted_example :
    (found : PackageManifest) × IsFound (lookup catalog_services catalog "Firefox") found
    × (resolution.canonical_id ≡ found.id)
    × (resolution.installed ≡ installed_package resolver.installed found.id)
    × Any
        (λ (listed : PackageSource).
          (listed ≡ source)
          × IsPermitted services platform policy found Operation.install
              (record options { version = resolution.requested_version })
              context
              resolution.installed
              listed)
        found.sources
resolve_with_context-IsPermitted_example =
    resolve_with_context-IsPermitted services requirements catalog_services resolver "Firefox"
      Operation.install options context resolution resolved source selected

resolve_with_context-IsGreatest_example :
    (is_none resolution.selected
      ≡ all (λ (e : CandidateEvaluation). not e.accepted) resolution.evaluations)
    × ((s : PackageSource)
        → resolution.selected ≡ some s
        → (best : CandidateEvaluation) × (best.source ≡ s) × IsGreatest best resolution.evaluations)
resolve_with_context-IsGreatest_example =
    resolve_with_context-IsGreatest services requirements catalog_services resolver "Firefox"
      Operation.install options context resolution resolved

installed : resolution.installed ≡ some pinned_firefox
unfolding resolution_for installed_package
installed = refl

resolve_with_context-pinned_example : resolution.requested_version ≡ some "128:esr"
resolve_with_context-pinned_example =
    resolve_with_context-pinned services requirements catalog_services resolver "Firefox"
      Operation.install options context resolution resolved source pinned_firefox "128:esr" refl
      installed refl selected
