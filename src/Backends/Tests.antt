-- ===== src/Backends/Tests.antt =====
-- Commands for apt and apk, with and without a version.
use siorb.Shared.{
  ℕ, Bool, true, false, ◌≡◌, refl, none, some, Ordering, String, List, [], ◌∷◌, all,
  starts_with_char, eqb,
}
use siorb.Core.Errors.{ok}
use siorb.Core.Platform.{Operation, BackendInfo}
use siorb.Catalog.{PackageSource}
use siorb.Policy.Versions.{Semver}
use siorb.Resolver.Constraint.{Requirements, VersionConstraint}
use siorb.Backends.{CommandSpec, PlanOptions, BackendKind, backend_id}
use siorb.Backends.Arguments.{
  arguments_with_version, version_argument, arguments_for, install_arguments, upgrade_arguments,
  validate_version_argument, unsafe_version,
}
use siorb.Backends.Arguments.Options.{is_safe}
use siorb.Backends.Arguments.Version.{
  Names, HasArgument, drops_version, arguments_with_version-Names,
}
use siorb.Backends.Command.{
  validate_package_id, unsafe_package_id, validate_command, only_asks, command_for, build_command,
}
use siorb.Backends.Command.Checked.{build_command_safe}

abbrev semver : Semver
semver = record { Version = ℕ; parse = λ text. none; compare_version = λ a b. Ordering.eq }

abbrev requirements : Requirements semver
requirements = record {
  VersionReq = ℕ;
  parse_req = λ text. none;
  matches_req = λ req version. false;
  same_version = λ a b. false;
}

abbrev exactly : String → VersionConstraint requirements
exactly version = record { raw = version; requirement = none; exact = some version }

abbrev is_absolute : String → Bool
is_absolute path = starts_with_char (eqb b'/') path

abbrev apt : BackendInfo
apt = record {
  id = "apt";
  executable = "/usr/bin/apt-get";
  version = none;
  available = true;
  capabilities = [];
}

abbrev source : PackageSource
source = record {
  id = "ripgrep-apt";
  platform = "debian";
  distributions = [];
  backend = "apt";
  package_id = "ripgrep";
  trust = "native";
  scope = "system";
  channel = "stable";
  architectures = [];
  priority = 10;
  requires_privilege = true;
  provenance = "backend-repository";
  evidence = "";
  reviewed_at = "";
  verification = none;
}

abbrev options : PlanOptions
options = record { non_interactive = true; accept_agreements = false }

abbrev command : CommandSpec
command =
    command_for apt source Operation.install ("install" ∷ "--yes" ∷ "--" ∷ "ripgrep=14.1" ∷ [])

built :
    build_command is_absolute requirements BackendKind.apt Operation.install apt source options
      (some (exactly "14.1"))
    ≡ ok command
unfolding build_command validate_package_id unsafe_package_id backend_id arguments_with_version
    version_argument validate_version_argument unsafe_version arguments_for install_arguments
    validate_command
built = refl

build_command_safe_example :
    (command.executable ≡ apt.executable)
    × (apt.available ≡ true)
    × (apt.id ≡ backend_id BackendKind.apt)
    × (all is_safe command.arguments ≡ true)
    × (validate_command is_absolute command ≡ ok tt)
    × (only_asks Operation.install ≡ true
        → (command.network ≡ false) × (command.requires_privilege ≡ false))
build_command_safe_example =
    build_command_safe is_absolute requirements BackendKind.apt Operation.install apt source options
      (some (exactly "14.1")) command built

apk_arguments : List String
apk_arguments = "upgrade" ∷ "--" ∷ "ripgrep" ∷ []

-- The version is not among the arguments of an upgrade by apk.
apk_upgrade :
    arguments_with_version requirements BackendKind.apk Operation.upgrade "ripgrep" options
      (some (exactly "14.1-r0"))
    ≡ ok apk_arguments
unfolding arguments_with_version version_argument validate_version_argument unsafe_version
    arguments_for upgrade_arguments apk_arguments
apk_upgrade = refl

arguments_with_version-Names_example :
    (v : String) × (some "14.1-r0" ≡ some v)
    × (drops_version BackendKind.apk Operation.upgrade ≡ false → Names "ripgrep" v apk_arguments)
    × (drops_version BackendKind.apk Operation.upgrade ≡ true
        → HasArgument "ripgrep" apk_arguments
          × (arguments_with_version requirements BackendKind.apk Operation.upgrade "ripgrep" options
                none
              ≡ ok apk_arguments))
arguments_with_version-Names_example =
    arguments_with_version-Names requirements BackendKind.apk Operation.upgrade "ripgrep" options
      (exactly "14.1-r0") apk_arguments apk_upgrade
