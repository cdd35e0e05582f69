-- ===== src/Backends/Arguments.antt =====
-- crates/siorb-backends/src/lib.rs: the arguments that each package manager is given.
pub mod Options
pub mod Version
use siorb.Shared.{
  Bool, true, false, ◌||◌, not, Option, none, some, String, ◌<>◌, List, [], ◌∷◌, ◌++◌, len,
  is_ascii, is_ascii_alphanumeric, one_of, text_empty, starts_with_char, chars_any, eqb, ltb,
  if◌then◌else◌,
}
use siorb.Core.Errors.{Result, ok, err, ok_or, ◌>>=◌, ◌>>◌, reject_if}
use siorb.Core.Platform.{Operation}
use siorb.Policy.Versions.{Semver}
use siorb.Resolver.Constraint.{Requirements, VersionConstraint}
use siorb.Backends.{BackendKind, PlanOptions, adapter_error}

-- `if let Some(version) = version { args.extend([option, version]) }`
abbrev pub with_version : String → Option String → List String
with_version option none = []
with_version option (some version) = option ∷ version ∷ []

-- `if options.accept_agreements { args.extend(..) }`
abbrev pub agreements : PlanOptions → List String
agreements options =
    if options.accept_agreements
    then "--accept-package-agreements" ∷ "--accept-source-agreements" ∷ []
    else []

-- `version.map_or_else(|| package.clone(), |value| format!("{package}={value}"))`
abbrev pub select_version : String → Option String → String
select_version name none = name
select_version name (some version) = name <> "=" <> version

unfoldable pub install_arguments : BackendKind → String → PlanOptions → Option String → List String
install_arguments BackendKind.winget name options version =
    "install" ∷ "--id" ∷ name ∷ "--exact" ∷ "--silent" ∷ []
    ++ with_version "--version" version
    ++ agreements options
install_arguments BackendKind.scoop name options version = "install" ∷ name ∷ []
install_arguments BackendKind.chocolatey name options version =
    "install" ∷ "--yes" ∷ "--no-progress" ∷ name ∷ [] ++ with_version "--version" version
install_arguments BackendKind.brew_formula name options version = "install" ∷ name ∷ []
install_arguments BackendKind.brew_cask name options version = "install" ∷ "--cask" ∷ name ∷ []
install_arguments BackendKind.mac_ports name options version = "install" ∷ name ∷ []
install_arguments BackendKind.apt name options version =
    "install" ∷ "--yes" ∷ "--" ∷ (select_version name version) ∷ []
install_arguments BackendKind.dnf name options version = "install" ∷ "-y" ∷ "--" ∷ name ∷ []
install_arguments BackendKind.yum name options version = "install" ∷ "-y" ∷ "--" ∷ name ∷ []
install_arguments BackendKind.pacman name options version =
    "-S" ∷ "--noconfirm" ∷ "--needed" ∷ "--" ∷ name ∷ []
install_arguments BackendKind.flatpak name options version =
    "install" ∷ "--noninteractive" ∷ "--or-update" ∷ "flathub" ∷ name ∷ []
install_arguments BackendKind.snap name options version = "install" ∷ name ∷ []
install_arguments BackendKind.zypper name options version =
    "--non-interactive" ∷ "install" ∷ "--" ∷ name ∷ []
install_arguments BackendKind.apk name options version =
    "add" ∷ "--" ∷ (select_version name version) ∷ []

unfoldable pub remove_arguments : BackendKind → String → List String
remove_arguments BackendKind.winget name = "uninstall" ∷ "--id" ∷ name ∷ "--exact" ∷ "--silent" ∷ []
remove_arguments BackendKind.scoop name = "uninstall" ∷ name ∷ []
remove_arguments BackendKind.chocolatey name = "uninstall" ∷ "--yes" ∷ "--no-progress" ∷ name ∷ []
remove_arguments BackendKind.brew_formula name = "uninstall" ∷ name ∷ []
remove_arguments BackendKind.brew_cask name = "uninstall" ∷ "--cask" ∷ name ∷ []
remove_arguments BackendKind.mac_ports name = "uninstall" ∷ name ∷ []
remove_arguments BackendKind.apt name = "remove" ∷ "--yes" ∷ "--" ∷ name ∷ []
remove_arguments BackendKind.dnf name = "remove" ∷ "-y" ∷ "--" ∷ name ∷ []
remove_arguments BackendKind.yum name = "remove" ∷ "-y" ∷ "--" ∷ name ∷ []
remove_arguments BackendKind.pacman name = "-R" ∷ "--noconfirm" ∷ "--" ∷ name ∷ []
remove_arguments BackendKind.flatpak name = "uninstall" ∷ "--noninteractive" ∷ name ∷ []
remove_arguments BackendKind.snap name = "remove" ∷ name ∷ []
remove_arguments BackendKind.zypper name = "--non-interactive" ∷ "remove" ∷ "--" ∷ name ∷ []
remove_arguments BackendKind.apk name = "del" ∷ "--" ∷ name ∷ []

unfoldable pub upgrade_arguments : BackendKind → String → PlanOptions → Option String → List String
upgrade_arguments BackendKind.winget name options version =
    "upgrade" ∷ "--id" ∷ name ∷ "--exact" ∷ "--silent" ∷ []
    ++ with_version "--version" version
    ++ agreements options
upgrade_arguments BackendKind.scoop name options version = "update" ∷ name ∷ []
upgrade_arguments BackendKind.chocolatey name options version =
    "upgrade" ∷ "--yes" ∷ "--no-progress" ∷ name ∷ [] ++ with_version "--version" version
upgrade_arguments BackendKind.brew_formula name options version = "upgrade" ∷ name ∷ []
upgrade_arguments BackendKind.brew_cask name options version = "upgrade" ∷ "--cask" ∷ name ∷ []
upgrade_arguments BackendKind.mac_ports name options version = "upgrade" ∷ name ∷ []
upgrade_arguments BackendKind.apt name options version =
    "install" ∷ "--only-upgrade" ∷ "--yes" ∷ "--" ∷ (select_version name version) ∷ []
upgrade_arguments BackendKind.dnf name options version = "upgrade" ∷ "-y" ∷ "--" ∷ name ∷ []
upgrade_arguments BackendKind.yum name options version = "update" ∷ "-y" ∷ "--" ∷ name ∷ []
upgrade_arguments BackendKind.pacman name options version =
    "-S" ∷ "--noconfirm" ∷ "--needed" ∷ "--" ∷ name ∷ []
upgrade_arguments BackendKind.flatpak name options version =
    "update" ∷ "--noninteractive" ∷ name ∷ []
upgrade_arguments BackendKind.snap name options version = "refresh" ∷ name ∷ []
upgrade_arguments BackendKind.zypper name options version =
    "--non-interactive" ∷ "update" ∷ "--" ∷ name ∷ []
upgrade_arguments BackendKind.apk name options version = "upgrade" ∷ "--" ∷ name ∷ []

-- Flatpak has no repair of one package.
unfoldable pub repair_arguments : BackendKind → String → Option String → Result (List String)
repair_arguments BackendKind.winget name version =
    ok ("repair" ∷ "--id" ∷ name ∷ "--exact" ∷ "--silent" ∷ [] ++ with_version "--version" version)
repair_arguments BackendKind.scoop name version = ok ("reset" ∷ name ∷ [])
repair_arguments BackendKind.chocolatey name version = ok (
    "upgrade" ∷ "--force" ∷ "--yes" ∷ "--no-progress" ∷ name ∷ []
    ++ with_version "--version" version)
repair_arguments BackendKind.brew_formula name version = ok ("reinstall" ∷ name ∷ [])
repair_arguments BackendKind.brew_cask name version = ok ("reinstall" ∷ "--cask" ∷ name ∷ [])
repair_arguments BackendKind.mac_ports name version = ok ("-f" ∷ "install" ∷ name ∷ [])
repair_arguments BackendKind.apt name version =
    ok ("install" ∷ "--reinstall" ∷ "--yes" ∷ "--" ∷ (select_version name version) ∷ [])
repair_arguments BackendKind.dnf name version = ok ("reinstall" ∷ "-y" ∷ "--" ∷ name ∷ [])
repair_arguments BackendKind.yum name version = ok ("reinstall" ∷ "-y" ∷ "--" ∷ name ∷ [])
repair_arguments BackendKind.pacman name version = ok ("-S" ∷ "--noconfirm" ∷ "--" ∷ name ∷ [])
repair_arguments BackendKind.snap name version = ok ("refresh" ∷ name ∷ [])
repair_arguments BackendKind.zypper name version =
    ok ("--non-interactive" ∷ "install" ∷ "--force" ∷ "--" ∷ name ∷ [])
repair_arguments BackendKind.apk name version = ok ("fix" ∷ "--" ∷ name ∷ [])
repair_arguments BackendKind.flatpak name version = err (adapter_error "backend.repair.unsupported")

unfoldable pub query_arguments : BackendKind → String → List String
query_arguments BackendKind.winget name = "list" ∷ "--id" ∷ name ∷ "--exact" ∷ []
query_arguments BackendKind.scoop name = "info" ∷ name ∷ []
query_arguments BackendKind.flatpak name = "info" ∷ name ∷ []
query_arguments BackendKind.chocolatey name = "list" ∷ "--local-only" ∷ "--exact" ∷ name ∷ []
query_arguments BackendKind.brew_formula name = "list" ∷ "--versions" ∷ name ∷ []
query_arguments BackendKind.brew_cask name = "list" ∷ "--versions" ∷ name ∷ []
query_arguments BackendKind.mac_ports name = "installed" ∷ name ∷ []
query_arguments BackendKind.apt name = "--just-print" ∷ "install" ∷ name ∷ []
query_arguments BackendKind.dnf name = "list" ∷ "--installed" ∷ name ∷ []
query_arguments BackendKind.yum name = "list" ∷ "installed" ∷ name ∷ []
query_arguments BackendKind.pacman name = "-Q" ∷ name ∷ []
query_arguments BackendKind.snap name = "list" ∷ name ∷ []
query_arguments BackendKind.zypper name =
    "search" ∷ "--installed-only" ∷ "--match-exact" ∷ name ∷ []
query_arguments BackendKind.apk name = "info" ∷ "--installed" ∷ name ∷ []

-- The match on backend and operation.
unfoldable pub arguments_for :
    BackendKind → Operation → String → PlanOptions → Option String → Result (List String)
arguments_for kind Operation.install name options version =
    ok (install_arguments kind name options version)
arguments_for kind Operation.remove name options version = ok (remove_arguments kind name)
arguments_for kind Operation.upgrade name options version =
    ok (upgrade_arguments kind name options version)
arguments_for kind Operation.repair name options version = repair_arguments kind name version
arguments_for kind Operation.verify name options version = ok (query_arguments kind name)
arguments_for kind Operation.adopt name options version = ok (query_arguments kind name)
arguments_for kind Operation.reconcile name options version =
    err (adapter_error "backend.operation.planner_only")

unfoldable pub unsafe_version : String → Bool
unsafe_version value =
    text_empty value
    || ltb 128 (len value)
    || not (is_ascii value)
    || starts_with_char (eqb b'-') value
    || chars_any (λ c. not (is_ascii_alphanumeric c || one_of ".+~:_-" c)) value

unfoldable pub validate_version_argument : String → Result (Unit {0})
validate_version_argument value =
    reject_if (unsafe_version value) (adapter_error "backend.version.unsafe")

-- The operations that may choose a version, and the backends that can.
abbrev pub chooses_version : Operation → Bool
chooses_version Operation.install = true
chooses_version Operation.upgrade = true
chooses_version Operation.repair = true
chooses_version _ = false

abbrev pub supports_exact : BackendKind → Bool
supports_exact BackendKind.winget = true
supports_exact BackendKind.chocolatey = true
supports_exact BackendKind.apt = true
supports_exact BackendKind.apk = true
supports_exact _ = false

module _ {semver : Semver} (requirements : Requirements semver) where
  -- The version that the constraint asks for, if the backend can be asked for it.
  unfoldable pub version_argument :
      BackendKind → Operation → Option (VersionConstraint requirements) → Result (Option String)
  version_argument kind operation none = ok none
  version_argument kind operation (some constraint) = do
    reject_if (not (chooses_version operation))
        (adapter_error "backend.version.operation_unsupported")
    exact ← ok_or constraint.exact (adapter_error "backend.version.range_unsupported")
    reject_if (not (supports_exact kind)) (adapter_error "backend.version.unsupported")
    validate_version_argument exact
    ok (some exact)

  unfoldable pub arguments_with_version :
      BackendKind
      → Operation
      → String
      → PlanOptions
      → Option (VersionConstraint requirements)
      → Result (List String)
  arguments_with_version kind operation name options constraint = do
    version ← version_argument kind operation constraint
    arguments_for kind operation name options version
