-- ===== src/Resolver/Host.antt =====
-- What request and host say against a source: the first rejections of `Resolver::evaluate`.
use siorb.Shared.{
  Bool, true, false, ◌&&◌, ◌||◌, not, Option, none, some, String, ◌==◌, List, [], ◌∷◌, ◌++◌, any,
  is_empty, contains, if◌then◌else◌,
}
use siorb.Core.Platform.{
  Scope, Architecture, OsFamily, PlatformContext, os_eq, scope_eq, architecture_eq, normalize,
  backend,
}
use siorb.Catalog.{PackageSource, tool_backend}
use siorb.Policy.Preference.{parse_scope}

pub record ResolveOptions : Type 0 where
  pub via : Option String
  pub source : Option String
  pub scope : Scope
  pub channel : String
  pub version : Option String
  pub architecture : Option Architecture

pub record Rejection : Type 0 where
  pub code : String
  pub message : String

-- `if test { reject(..) }`
abbrev pub rejection_if : Bool → String → String → List Rejection
rejection_if true code message = record { code = code; message = message } ∷ []
rejection_if false code message = []

abbrev in_family : PlatformContext → List String → Bool
in_family platform family =
    elim platform.distribution [ none ↦ false | some id ↦ contains family id ]
    || any (contains family) platform.distribution_like

unfoldable pub linux_family : PlatformContext → List String → Bool
linux_family platform family = os_eq platform.os OsFamily.linux && in_family platform family

unfoldable pub os_matches : PlatformContext → String → Bool
unfolding linux_family
os_matches platform selector =
    if selector == "windows"
    then os_eq platform.os OsFamily.windows
    else if selector == "macos"
    then os_eq platform.os OsFamily.macos
    else if selector == "linux"
    then os_eq platform.os OsFamily.linux
    else if selector == "debian"
    then linux_family platform ("debian" ∷ "ubuntu" ∷ "linuxmint" ∷ "pop" ∷ [])
    else if selector == "fedora"
    then linux_family platform ("fedora" ∷ "rhel" ∷ "centos" ∷ "rocky" ∷ "almalinux" ∷ [])
    else if selector == "arch"
    then linux_family platform ("arch" ∷ "manjaro" ∷ "endeavouros" ∷ [])
    else if selector == "opensuse"
    then linux_family platform ("opensuse" ∷ "suse" ∷ "sles" ∷ [])
    else if selector == "alpine"
    then linux_family platform ("alpine" ∷ [])
    else false

unfoldable pub platform_matches : PlatformContext → String → List String → Bool
unfolding os_matches
platform_matches platform selector distributions =
    os_matches platform selector && (is_empty distributions || in_family platform distributions)

abbrev pub architecture_or : Architecture → Option Architecture → Architecture
architecture_or detected none = detected
architecture_or detected (some chosen) = chosen

-- The source lists architectures, and not this one.
unfoldable pub architecture_differs : PackageSource → Architecture → Bool
architecture_differs source architecture =
    not (is_empty source.architectures)
    && not (any (λ value. architecture_eq (normalize value) architecture) source.architectures)

unfoldable pub scope_differs : PackageSource → Scope → Bool
scope_differs source scope = not (scope_eq scope Scope.auto) && elim (parse_scope source.scope) [
  | none ↦ false
  | some own ↦ not (scope_eq own Scope.auto) && not (scope_eq own scope)
]

abbrev pub is_backend : PackageSource → String → Bool
is_backend source requested = requested == source.backend || requested == tool_backend source

abbrev is_none {ℓ} : {A : Type ℓ} → Option A → Bool
is_none none = true
is_none (some a) = false

abbrev pub other_source : PackageSource → Option String → Bool
other_source source none = false
other_source source (some requested) = not (requested == source.id)

abbrev pub other_backend : PackageSource → Option String → Bool
other_backend source none = false
other_backend source (some requested) = not (is_backend source requested)

-- The rejections that request and host give rise to.
unfoldable pub host_rejections : PlatformContext → PackageSource → ResolveOptions → List Rejection
host_rejections platform source options =
    rejection_if (not (platform_matches platform source.platform source.distributions))
      "candidate.platform.mismatch" "source does not support this host platform"
    ++ rejection_if
        (architecture_differs source (architecture_or platform.architecture options.architecture))
        "candidate.architecture.mismatch" "source does not support the selected architecture"
    ++ rejection_if (not (source.channel == options.channel)) "candidate.channel.mismatch"
        "source does not provide the selected channel"
    ++ rejection_if (scope_differs source options.scope) "candidate.scope.mismatch"
        "source does not support the selected scope"
    ++ rejection_if (other_source source options.source) "candidate.source.not_requested"
        "another exact source was requested"
    ++ rejection_if (other_backend source options.via) "candidate.backend.not_requested"
        "another backend was explicitly requested"

unfoldable pub backend_rejections : PlatformContext → PackageSource → List Rejection
backend_rejections platform source =
    if source.backend == "artifact"
    then rejection_if platform.offline "candidate.artifact.offline"
        "artifact is unavailable in offline mode unless cached"
    else rejection_if (is_none (backend platform (tool_backend source))) "candidate.backend.absent"
        "required backend executable was not detected"
