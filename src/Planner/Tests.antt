-- ===== src/Planner/Tests.antt =====
-- A plan for a package of apt and for an artifact.
use siorb.Shared.{
  ℕ, Ordering, true, false, ◌≡◌, ◌≢◌, refl, ◌↔◌, Option, none, some, String, List, [], ◌∷◌,
  starts_with_char, eqb, ascii_lowercase, is_empty, if◌then◌else◌, decimal,
}
use siorb.Core.Errors.{ok}
use siorb.Core.Platform.{
  Operation, OsFamily, Architecture, Scope, PlatformContext, BackendInfo, backend,
}
use siorb.Catalog.{PackageSource, ArtifactVerification, ArtifactKind, ArtifactFormat, tool_backend}
use siorb.Policy.Layers.{LayeredPolicy, default_policy}
use siorb.Policy.Versions.{Semver}
use siorb.Resolver.Constraint.{
  Requirements, parse_constraint, is_safe_exact_version, exact_constraint, exact_requirement,
  normalize_version, requirement_of,
}
use siorb.Resolver.Resolve.{Resolution, require_selected}
use siorb.Backends.{CommandSpec, backend_id, from_catalog}
use siorb.Backends.Arguments.{
  arguments_with_version, version_argument, arguments_for, install_arguments, query_arguments,
  validate_version_argument, unsafe_version,
}
use siorb.Backends.Command.{
  validate_package_id, unsafe_package_id, validate_command, command_for, build_command,
}
use siorb.Planner.{ExecutionPlan}
use siorb.Planner.Steps.{
  step_id, backend_step, observe_step, native_steps, observed_steps, requested_constraint,
}
use siorb.Planner.Artifacts.{artifact_steps, download_step, verify_step, apply_step}
use siorb.Planner.Build.{
  PlanServices, PlanOptions, Planner, Collected, planned_package, no_change, native_package_steps,
  package_steps, collect, plan_of, build, guard_of,
}
use siorb.Planner.Build.Verified.{
  EachVerified, AppliesVerified, build-EachVerified, build-AppliesVerified,
}
use siorb.Planner.Revalidate.{revalidate}
use siorb.Planner.Revalidate.Fresh.{AllPresent, build-revalidate}

abbrev semver : Semver
semver = record { Version = ℕ; parse = λ text. none; compare_version = λ a b. Ordering.eq }

abbrev requirements : Requirements semver
requirements = record {
  VersionReq = ℕ;
  parse_req = λ text. none;
  matches_req = λ req version. false;
  same_version = λ a b. false;
}

abbrev apt : BackendInfo
apt = record {
  id = "apt";
  executable = "/usr/bin/apt-get";
  version = none;
  available = true;
  capabilities = [];
}

abbrev platform : PlatformContext
platform = record {
  os = OsFamily.linux;
  os_version = some "6.1";
  distribution = some "debian";
  distribution_version = some "12";
  distribution_like = [];
  architecture = Architecture.x86_64;
  translated = false;
  libc = some "glibc";
  backends = apt ∷ [];
  interactive = true;
  elevation_available = true;
  supported_scopes = Scope.system ∷ [];
  offline = false;
  restrictions = [];
}

abbrev policy : LayeredPolicy
policy = record {
  layers = record default_policy { schema_version = "1.0"; id = "site" } ∷ [];
  id = "site";
  layer_names = "site" ∷ [];
}

abbrev pub services : PlanServices
services = record {
  semver = semver;
  requirements = requirements;
  is_absolute = starts_with_char (eqb b'/');
  is_file = starts_with_char (eqb b'/');
  unix_timestamp = 1784000000;
  platform_fingerprint = λ p. if p.offline then "offline" else "online";
  catalog_fingerprint = λ document. decimal document.catalog_version;
  policy_fingerprint = λ p. p.id;
  installed_fingerprint = λ installed. if is_empty installed then "empty" else "installed";
  plan_id = λ material. "plan";
}

abbrev pub planner : Planner
planner = record {
  platform = platform;
  catalog = record {
    document = record {
      schema_version = "1.0";
      catalog_version = 1;
      generated_at = "";
      expires_unix = none;
      packages = [];
    };
    exact = [];
    deprecated = [];
    identity = record {
      id = "siorb-main";
      version = 1;
      verified = true;
      expires_unix = none;
      source = "bundled";
    };
  };
  policy = policy;
  installed = [];
}

abbrev pub options : PlanOptions
options = record {
  non_interactive = true;
  accept_agreements = true;
  target_architecture = Architecture.x86_64;
}

abbrev pub firefox : PackageSource
firefox = record {
  id = "firefox-apt";
  platform = "debian";
  distributions = [];
  backend = "apt";
  package_id = "firefox";
  trust = "native";
  scope = "system";
  channel = "stable";
  architectures = "x86_64" ∷ [];
  priority = 10;
  requires_privilege = true;
  provenance = "backend-repository";
  evidence = "https://packages.debian.org";
  reviewed_at = "2026-07-13";
  verification = none;
}

abbrev verification : ArtifactVerification
verification = record {
  sha256 = "9f86d081884c7d659a2feaa0c55ad015a3bf4f1b2b0b822cd15d6c15b0f00a08";
  signer = none;
  content_type = some "application/zip";
  max_bytes = some 1048576;
  kind = ArtifactKind.portable_archive;
  format = ArtifactFormat.zip;
  archive_format = some "zip";
  payload_path = some "bin/tool";
  strip_components = 1;
  install_arguments = [];
  allowed_redirect_hosts = [];
}

abbrev tool : PackageSource
tool = record firefox {
  id = "tool-artifact";
  backend = "artifact";
  package_id = "https://example.com/tool.zip";
  scope = "user";
  verification = some verification;
}

abbrev pub resolved : String → PackageSource → Option String → Resolution
resolved name source version = record {
  request = name;
  canonical_id = name;
  package_name = name;
  selected = some source;
  evaluations = [];
  installed = none;
  requested_version = version;
  warnings = [];
}

abbrev resolutions : List Resolution
resolutions = resolved "firefox" firefox (some "=128.0") ∷ resolved "tool" tool none ∷ []

abbrev pub command : CommandSpec
command =
    command_for apt firefox Operation.install ("install" ∷ "--yes" ∷ "--" ∷ "firefox=128.0" ∷ [])

abbrev pub query : CommandSpec
query = command_for apt firefox Operation.verify ("--just-print" ∷ "install" ∷ "firefox" ∷ [])

abbrev collected : Collected
collected = record {
  packages =
      planned_package (resolved "firefox" firefox (some "=128.0")) firefox options
      ∷ planned_package (resolved "tool" tool none) tool options
      ∷ [];
  steps =
      backend_step "step-0001" (resolved "firefox" firefox (some "=128.0")) firefox
        Operation.install command
      ∷ observe_step "step-0001" (resolved "firefox" firefox (some "=128.0")) Operation.install
          query
      ∷ download_step 1 (resolved "tool" tool none) tool Operation.install
      ∷ verify_step 1 (resolved "tool" tool none) tool Operation.install
      ∷ apply_step 1 (resolved "tool" tool none) tool Operation.install
      ∷ [];
  warnings = [];
}

abbrev plan : ExecutionPlan
plan = plan_of services planner Operation.install resolutions collected

built : build services planner Operation.install resolutions options ≡ ok plan
unfolding build collect require_selected package_steps no_change native_package_steps from_catalog
    backend ascii_lowercase tool_backend native_steps requested_constraint parse_constraint
    requirement_of exact_constraint exact_requirement normalize_version build_command
    validate_package_id arguments_for arguments_with_version install_arguments query_arguments
    unsafe_version validate_version_argument version_argument unsafe_package_id backend_id
    validate_command observed_steps step_id backend_step artifact_steps decimal
    is_safe_exact_version
built = refl

build-EachVerified_example : EachVerified plan.steps
build-EachVerified_example =
    build-EachVerified services planner Operation.install resolutions options plan built refl

install_ne_remove : Operation.install ≢ Operation.remove
install_ne_remove h = cc

build-AppliesVerified_example : AppliesVerified none plan.steps
build-AppliesVerified_example =
    build-AppliesVerified services planner Operation.install resolutions options plan built
      install_ne_remove

abbrev offline : Planner
offline = record planner { platform = record platform { offline = true } }

present : AllPresent services plan.steps
unfolding plan_of backend_step observe_step download_step verify_step apply_step
present = (refl, (refl, (tt, (tt, (tt, tt)))))

build-revalidate_example :
    (revalidate services plan offline ≡ ok tt)
    ↔ (guard_of services offline ≡ guard_of services planner)
build-revalidate_example =
    build-revalidate services planner Operation.install resolutions options plan built offline
      present
