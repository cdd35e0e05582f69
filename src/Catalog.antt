-- ===== src/Catalog.antt =====
-- crates/siorb-catalog/src/lib.rs: the records of the catalog that policy and resolution read.
pub mod Formats
pub mod Identifiers
pub mod Sources
pub mod Document
pub mod Lookup
mod Tests
use siorb.Shared.{ℕ, Bool, true, false, Option, String, ◌==◌, ◌||◌, List, if◌then◌else◌}

pub data ArtifactKind : Type 0 where
  portable_archive portable_executable native_installer : ArtifactKind

pub data ArtifactFormat : Type 0 where
  zip tar tar_gz msi msix exe pkg dmg deb rpm app_image : ArtifactFormat

-- `ArtifactFormat::requires_package_signer`
unfoldable pub requires_package_signer : ArtifactFormat → Bool
requires_package_signer ArtifactFormat.msi = true
requires_package_signer ArtifactFormat.msix = true
requires_package_signer ArtifactFormat.exe = true
requires_package_signer ArtifactFormat.pkg = true
requires_package_signer ArtifactFormat.dmg = true
requires_package_signer _ = false

pub record ArtifactVerification : Type 0 where
  pub sha256 : String
  pub signer : Option String
  pub content_type : Option String
  pub max_bytes : Option ℕ
  pub kind : ArtifactKind
  pub format : ArtifactFormat
  pub archive_format : Option String
  pub payload_path : Option String
  pub strip_components : ℕ
  pub install_arguments : List String
  pub allowed_redirect_hosts : List String

-- The priority, an `i32`, is its two's complement below 2 ^ 32.
pub record PackageSource : Type 0 where
  pub id : String
  pub platform : String
  pub distributions : List String
  pub backend : String
  pub package_id : String
  pub trust : String
  pub scope : String
  pub channel : String
  pub architectures : List String
  pub priority : ℕ
  pub requires_privilege : Bool
  pub provenance : String
  pub evidence : String
  pub reviewed_at : String
  pub verification : Option ArtifactVerification

pub record PackageManifest : Type 0 where
  pub schema_version : String
  pub id : String
  pub name : String
  pub description : String
  pub aliases : List String
  pub deprecated_aliases : List String
  pub search_terms : List String
  pub homepage : String
  pub upstream : String
  pub license : String
  pub risk : String
  pub categories : List String
  pub capabilities : List String
  pub channels : List String
  pub conflicts : List String
  pub replacements : List String
  pub dependencies : List String
  pub optional_relationships : List String
  pub version_normalization : String
  pub verification : String
  pub evidence : List String
  pub reviewed_at : String
  pub maintainers : List String
  pub deprecated : Bool
  pub sources : List PackageSource

-- `PackageSource::tool_backend`
unfoldable pub tool_backend : PackageSource → String
tool_backend source =
    if source.backend == "homebrew-formula" || source.backend == "homebrew-cask"
    then "brew"
    else source.backend
