-- ===== src/Catalog/Sources.antt =====
-- crates/siorb-catalog/src/lib.rs: `validate_source` with its checks of an artifact's recipe.
-- URLs are parsed by the crate `url`: the record `CatalogServices`.
use siorb.Shared.{
  ℕ, ◌*◌, Bool, true, false, ◌&&◌, ◌||◌, not, Option, none, some, String, len, ◌==◌, List, [], ◌∷◌,
  length, any, all, is_empty, contains, chars_any, chars_all, is_control, is_ascii_hexdigit,
  is_ascii_alphanumeric, one_of, text_empty, trim, starts_with_char, ends_with_text,
  ascii_lowercase, split_on, eqb, ltb, leb, if◌then◌else◌,
}
use siorb.Core.Errors.{
  Result, ok, ErrorKind, SiorbError, with_reason, ok_or, ◌>>=◌, ◌>>◌, reject_if,
}
use siorb.Core.Hosts.{Addresses, validate_public_network_host, host_accepted}
use siorb.Catalog.{
  PackageSource, ArtifactVerification, ArtifactKind, ArtifactFormat, requires_package_signer,
}
use siorb.Catalog.Formats.{
  kind, archive_name, supports_platform, accepts_content_type, kind_eq, is_dmg, is_exe,
  is_app_image,
}

pub record Url : Type 0 where
  pub scheme : String
  pub host_str : Option String
  pub username : String
  pub password : Option String
  pub fragment : Option String

pub record CatalogServices : Type 0 where
  pub nfkc : String → String
  pub parse_url : String → Option Url
  pub addresses : Addresses

-- `catalog_error`
unfoldable pub catalog_error : String → SiorbError
catalog_error reason = with_reason ErrorKind.catalog_failure reason

abbrev platforms : List String
platforms =
    "windows" ∷ "macos" ∷ "linux" ∷ "debian" ∷ "fedora" ∷ "arch" ∷ "opensuse" ∷ "alpine" ∷ []

abbrev backends : List String
backends =
    "winget" ∷ "scoop" ∷ "chocolatey" ∷ "homebrew-formula" ∷ "homebrew-cask" ∷ "macports" ∷ "apt"
    ∷ "dnf" ∷ "yum" ∷ "pacman" ∷ "zypper" ∷ "apk" ∷ "flatpak" ∷ "snap" ∷ "artifact" ∷ []

abbrev is_some {ℓ} : {A : Type ℓ} → Option A → Bool
is_some none = false
is_some (some a) = true

abbrev text_or_empty : Option String → String
text_or_empty none = ""
text_or_empty (some value) = value

abbrev safe_component : String → Bool
safe_component component =
    not (text_empty component)
    && not (component == "." || component == "..")
    && chars_all (λ c. is_ascii_alphanumeric c || one_of "+-._ " c) component

unfoldable pub is_safe_payload_path : String → Bool
is_safe_payload_path value =
    not (text_empty value)
    && leb (len value) 512
    && not (starts_with_char (one_of "/\\") value)
    && not (chars_any (one_of "\\") value)
    && all safe_component (split_on b'/' value)

abbrev silent_argument : String → Bool
silent_argument argument =
    argument == "/S"
    || argument == "/silent"
    || argument == "/verysilent"
    || argument == "/quiet"
    || argument == "/norestart"
    || argument == "--silent"
    || argument == "--quiet"

-- Each argument is known, and none stands twice up to ASCII case.
abbrev arguments_fresh : ArtifactFormat → List String → List String → Bool
arguments_fresh format seen [] = true
arguments_fresh format seen (argument ∷ arguments) =
    (is_exe format && silent_argument argument)
    && not (contains seen (ascii_lowercase argument))
    && arguments_fresh format (ascii_lowercase argument ∷ seen) arguments

unfoldable pub installer_arguments_allowed : ArtifactFormat → List String → Bool
installer_arguments_allowed format arguments =
    if ltb 4 (length arguments) then false else arguments_fresh format [] arguments

abbrev same_name : Option String → Option String → Bool
same_name none none = true
same_name (some a) (some b) = a == b
same_name _ _ = false

abbrev unsafe_archive : ArtifactVerification → Bool
unsafe_archive verification =
    not (is_empty verification.install_arguments)
    || ltb 16 verification.strip_components
    || is_some verification.payload_path

abbrev unsafe_executable : ArtifactVerification → Bool
unsafe_executable verification =
    not (is_app_image verification.format)
    || is_some verification.archive_format
    || is_some verification.payload_path
    || not (eqb verification.strip_components 0)
    || not (is_empty verification.install_arguments)

abbrev unsafe_package_in_image : Option String → Bool
unsafe_package_in_image none = true
unsafe_package_in_image (some path) =
    not (is_safe_payload_path path) || not (ends_with_text ".pkg" (ascii_lowercase path))

abbrev unsafe_installer : ArtifactVerification → Bool
unsafe_installer verification =
    (requires_package_signer verification.format && text_empty (text_or_empty verification.signer))
    || is_some verification.archive_format
    || not (eqb verification.strip_components 0)
    || (is_dmg verification.format && unsafe_package_in_image verification.payload_path)
    || (not (is_dmg verification.format) && is_some verification.payload_path)
    || not (installer_arguments_allowed verification.format verification.install_arguments)

-- The match on the kind of an artifact.
unfoldable pub validate_recipe : ArtifactVerification → ArtifactKind → Result (Unit {0})
validate_recipe verification ArtifactKind.portable_archive = do
  reject_if (not (same_name verification.archive_format (archive_name verification.format)))
      (catalog_error "catalog.artifact.archive_format")
  reject_if (unsafe_archive verification) (catalog_error "catalog.artifact.archive_recipe")
validate_recipe verification ArtifactKind.portable_executable =
    reject_if (unsafe_executable verification)
      (catalog_error "catalog.artifact.portable_executable_recipe")
validate_recipe verification ArtifactKind.native_installer =
    reject_if (unsafe_installer verification) (catalog_error "catalog.artifact.installer_recipe")

abbrev size_unbounded : Option ℕ → Bool
size_unbounded none = true
size_unbounded (some size) = eqb size 0 || ltb (16 * 1024 * 1024 * 1024) size

abbrev unsafe_content_type : Option String → Bool
unsafe_content_type none = true
unsafe_content_type (some value) = not (chars_any (eqb b'/') value) || chars_any is_control value

-- What an artifact's verification material must say, but for the redirect hosts.
unfoldable pub validate_verification : PackageSource → ArtifactVerification → Result (Unit {0})
unfolding validate_recipe
validate_verification source verification = do
  reject_if
      (not (eqb (len verification.sha256) 64)
        || not (chars_all is_ascii_hexdigit verification.sha256))
      (catalog_error "catalog.artifact.digest")
  reject_if (size_unbounded verification.max_bytes || unsafe_content_type verification.content_type)
      (catalog_error "catalog.artifact.bounds")
  reject_if (not (kind_eq verification.kind (kind verification.format)))
      (catalog_error "catalog.artifact.kind_format")
  reject_if (not (supports_platform verification.format source.platform))
      (catalog_error "catalog.artifact.platform_format")
  reject_if
      (not (accepts_content_type verification.format (text_or_empty verification.content_type)))
      (catalog_error "catalog.artifact.content_type")
  validate_recipe verification verification.kind

module _ (services : CatalogServices) where
  abbrev pub public_name : Option String → Bool
  public_name none = false
  public_name (some host) = host_accepted (validate_public_network_host services.addresses host)

  abbrev unsafe_url : Url → Bool
  unsafe_url url =
      not (url.scheme == "https")
      || not (public_name url.host_str)
      || not (text_empty url.username)
      || is_some url.password
      || is_some url.fragment

  -- The block for the backend `artifact`.
  unfoldable pub validate_artifact : PackageSource → Result (Unit {0})
  unfolding validate_verification
  validate_artifact source = do
    url ← ok_or (services.parse_url source.package_id) (catalog_error "catalog.artifact.url")
    reject_if (unsafe_url url) (catalog_error "catalog.artifact.url")
    verification ← ok_or source.verification (catalog_error "catalog.artifact.unverified")
    validate_verification source verification
    reject_if
        (any (λ (host : String). not (public_name (some host))) verification.allowed_redirect_hosts)
        (catalog_error "catalog.artifact.redirect_host")

  unfoldable pub validate_source : PackageSource → Result (Unit {0})
  unfolding validate_artifact
  validate_source source = do
    reject_if
        (text_empty source.id
          || text_empty source.package_id
          || starts_with_char (eqb b'-') source.package_id)
        (catalog_error "catalog.source.identifier")
    reject_if (chars_any is_control source.package_id)
        (catalog_error "catalog.source.control_character")
    reject_if (not (contains platforms source.platform) || not (contains backends source.backend))
        (catalog_error "catalog.source.unsupported")
    reject_if
        (not (contains ("native" ∷ "sandboxed" ∷ "verified-upstream" ∷ []) source.trust)
          || not (contains ("user" ∷ "system" ∷ "auto" ∷ []) source.scope)
          || not (contains ("stable" ∷ "beta" ∷ "nightly" ∷ []) source.channel))
        (catalog_error "catalog.source.enum")
    if source.backend == "artifact" then validate_artifact source else ok tt
    reject_if (text_empty (trim source.evidence) || text_empty (trim source.reviewed_at))
        (catalog_error "catalog.source.evidence")
