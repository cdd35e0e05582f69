-- ===== src/Backends.antt =====
-- crates/siorb-backends/src/lib.rs: commands for the host's package managers.
pub mod Arguments
pub mod Command
pub mod Query
mod Tests
use siorb.Shared.{ℕ, Bool, String, List, ◌==◌, if◌then◌else◌}
use siorb.Core.Errors.{Result, ok, err, ErrorKind, SiorbError, with_reason}

pub record CommandSpec : Type 0 where
  pub executable : String
  pub arguments : List String
  pub redacted_arguments : List String
  pub timeout_seconds : ℕ
  pub max_output_bytes : ℕ
  pub requires_privilege : Bool
  pub network : Bool
  pub environment : List (String × String)

pub record PlanOptions : Type 0 where
  pub non_interactive : Bool
  pub accept_agreements : Bool

pub data BackendKind : Type 0 where
  winget scoop chocolatey brew_formula brew_cask mac_ports apt dnf yum pacman : BackendKind
  flatpak snap zypper apk : BackendKind

-- `adapter_error`
abbrev pub adapter_error : String → SiorbError
adapter_error reason = with_reason ErrorKind.backend_failure reason

-- `BackendKind::from_catalog`
unfoldable pub from_catalog : String → Result BackendKind
from_catalog value =
    if value == "winget"
    then ok BackendKind.winget
    else if value == "scoop"
    then ok BackendKind.scoop
    else if value == "chocolatey"
    then ok BackendKind.chocolatey
    else if value == "homebrew-formula"
    then ok BackendKind.brew_formula
    else if value == "homebrew-cask"
    then ok BackendKind.brew_cask
    else if value == "macports"
    then ok BackendKind.mac_ports
    else if value == "apt"
    then ok BackendKind.apt
    else if value == "dnf"
    then ok BackendKind.dnf
    else if value == "yum"
    then ok BackendKind.yum
    else if value == "pacman"
    then ok BackendKind.pacman
    else if value == "flatpak"
    then ok BackendKind.flatpak
    else if value == "snap"
    then ok BackendKind.snap
    else if value == "zypper"
    then ok BackendKind.zypper
    else if value == "apk"
    then ok BackendKind.apk
    else if value == "artifact"
    then err (adapter_error "backend.artifact.separate_adapter")
    else err (adapter_error "backend.unknown")

-- `BackendKind::id`
unfoldable pub backend_id : BackendKind → String
backend_id BackendKind.winget = "winget"
backend_id BackendKind.scoop = "scoop"
backend_id BackendKind.chocolatey = "chocolatey"
backend_id BackendKind.brew_formula = "brew"
backend_id BackendKind.brew_cask = "brew"
backend_id BackendKind.mac_ports = "macports"
backend_id BackendKind.apt = "apt"
backend_id BackendKind.dnf = "dnf"
backend_id BackendKind.yum = "yum"
backend_id BackendKind.pacman = "pacman"
backend_id BackendKind.flatpak = "flatpak"
backend_id BackendKind.snap = "snap"
backend_id BackendKind.zypper = "zypper"
backend_id BackendKind.apk = "apk"
