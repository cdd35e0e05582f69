-- ===== src/Core/Platform.antt =====
-- crates/siorb-core/src/lib.rs: what the other crates know of the host, and of installed packages.
use siorb.Shared.{
  ℕ, Bool, true, false, ◌&&◌, ◌||◌, Option, none, some, String, ◌==◌, List, any, find, eqb,
  if◌then◌else◌, ascii_lowercase,
}

pub data OsFamily : Type 0 where
  windows macos linux unknown : OsFamily

pub data Architecture : Type 0 where
  x86_64 arm64 x86 arm unknown : Architecture

pub data Scope : Type 0 where
  user system auto : Scope

pub data Operation : Type 0 where
  install remove upgrade repair adopt reconcile verify : Operation

pub data PlatformSupport : Type 0 where
  supported unsupported undetermined : PlatformSupport

pub record BackendInfo : Type 0 where
  pub id : String
  pub executable : String
  pub version : Option String
  pub available : Bool
  pub capabilities : List String

pub record PlatformContext : Type 0 where
  pub os : OsFamily
  pub os_version : Option String
  pub distribution : Option String
  pub distribution_version : Option String
  pub distribution_like : List String
  pub architecture : Architecture
  pub translated : Bool
  pub libc : Option String
  pub backends : List BackendInfo
  pub interactive : Bool
  pub elevation_available : Bool
  pub supported_scopes : List Scope
  pub offline : Bool
  pub restrictions : List String

pub record InstalledPackage : Type 0 where
  pub logical_id : String
  pub native_id : String
  pub backend : String
  pub version : Option String
  pub scope : Scope
  pub receipt : Bool
  pub held : Bool
  pub pinned : Option String

-- The derived `==` of the enums that the program compares.
abbrev pub os_eq : OsFamily → OsFamily → Bool
os_eq OsFamily.windows OsFamily.windows = true
os_eq OsFamily.macos OsFamily.macos = true
os_eq OsFamily.linux OsFamily.linux = true
os_eq OsFamily.unknown OsFamily.unknown = true
os_eq _ _ = false

abbrev architecture_index : Architecture → ℕ
architecture_index Architecture.x86_64 = 0
architecture_index Architecture.arm64 = 1
architecture_index Architecture.x86 = 2
architecture_index Architecture.arm = 3
architecture_index Architecture.unknown = 4

abbrev pub architecture_eq : Architecture → Architecture → Bool
architecture_eq a b = eqb (architecture_index a) (architecture_index b)

abbrev pub scope_eq : Scope → Scope → Bool
scope_eq Scope.user Scope.user = true
scope_eq Scope.system Scope.system = true
scope_eq Scope.auto Scope.auto = true
scope_eq _ _ = false

abbrev operation_index : Operation → ℕ
operation_index Operation.install = 0
operation_index Operation.remove = 1
operation_index Operation.upgrade = 2
operation_index Operation.repair = 3
operation_index Operation.adopt = 4
operation_index Operation.reconcile = 5
operation_index Operation.verify = 6

abbrev pub operation_eq : Operation → Operation → Bool
operation_eq a b = eqb (operation_index a) (operation_index b)

-- `Architecture::normalize`
unfoldable pub normalize : String → Architecture
normalize value =
    let lower = ascii_lowercase value in
    if lower == "x86_64" || lower == "amd64" || lower == "x64"
    then Architecture.x86_64
    else if lower == "aarch64" || lower == "arm64"
    then Architecture.arm64
    else if lower == "x86" || lower == "i386" || lower == "i686"
    then Architecture.x86
    else if lower == "arm" || lower == "armv7" || lower == "armv7l"
    then Architecture.arm
    else Architecture.unknown

-- `PlatformContext::backend`
unfoldable pub backend : PlatformContext → String → Option BackendInfo
backend platform id =
    find (λ (b : BackendInfo). ascii_lowercase b.id == ascii_lowercase id && b.available)
      platform.backends

abbrev os_unknown : OsFamily → Bool
os_unknown OsFamily.unknown = true
os_unknown _ = false

abbrev is_32_bit : Architecture → Bool
is_32_bit Architecture.x86 = true
is_32_bit Architecture.arm = true
is_32_bit _ = false

abbrev is_none {ℓ} : {A : Type ℓ} → Option A → Bool
is_none none = true
is_none (some a) = false

abbrev excludes : String → Bool
excludes reason =
    reason == "unsupported_platform"
    || reason == "unsupported_architecture"
    || reason == "unsupported_distribution"
    || reason == "unsupported_os_version"

abbrev doubts : String → Bool
doubts reason =
    reason == "architecture_unverified"
    || reason == "os_version_unverified"
    || reason == "distribution_version_unverified"

-- `PlatformContext::support`
unfoldable pub support : PlatformContext → PlatformSupport
support platform =
    if os_unknown platform.os
      || is_32_bit platform.architecture
      || any excludes platform.restrictions
    then PlatformSupport.unsupported
    else if is_none platform.os_version
        || architecture_eq platform.architecture Architecture.unknown
        || any doubts platform.restrictions
    then PlatformSupport.undetermined
    else PlatformSupport.supported
