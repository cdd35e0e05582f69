-- ===== src/Catalog/Formats.antt =====
-- crates/siorb-catalog/src/lib.rs: the tables of `ArtifactFormat`.
use siorb.Shared.{Bool, true, false, ◌||◌, Option, none, some, String, ◌==◌, ℕ, eqb}
use siorb.Catalog.{ArtifactKind, ArtifactFormat}

-- `ArtifactFormat::kind`
unfoldable pub kind : ArtifactFormat → ArtifactKind
kind ArtifactFormat.zip = ArtifactKind.portable_archive
kind ArtifactFormat.tar = ArtifactKind.portable_archive
kind ArtifactFormat.tar_gz = ArtifactKind.portable_archive
kind ArtifactFormat.app_image = ArtifactKind.portable_executable
kind _ = ArtifactKind.native_installer

-- `ArtifactFormat::archive_name`
unfoldable pub archive_name : ArtifactFormat → Option String
archive_name ArtifactFormat.zip = some "zip"
archive_name ArtifactFormat.tar = some "tar"
archive_name ArtifactFormat.tar_gz = some "tar.gz"
archive_name _ = none

abbrev on_tar_platform : String → Bool
on_tar_platform platform =
    platform == "macos"
    || platform == "linux"
    || platform == "debian"
    || platform == "fedora"
    || platform == "arch"
    || platform == "opensuse"
    || platform == "alpine"

abbrev on_app_image_platform : String → Bool
on_app_image_platform platform =
    platform == "linux"
    || platform == "debian"
    || platform == "fedora"
    || platform == "arch"
    || platform == "opensuse"

-- `ArtifactFormat::supports_platform`
unfoldable pub supports_platform : ArtifactFormat → String → Bool
supports_platform ArtifactFormat.zip platform = platform == "windows" || platform == "macos"
supports_platform ArtifactFormat.tar platform = on_tar_platform platform
supports_platform ArtifactFormat.tar_gz platform = on_tar_platform platform
supports_platform ArtifactFormat.msi platform = platform == "windows"
supports_platform ArtifactFormat.msix platform = platform == "windows"
supports_platform ArtifactFormat.exe platform = platform == "windows"
supports_platform ArtifactFormat.pkg platform = platform == "macos"
supports_platform ArtifactFormat.dmg platform = platform == "macos"
supports_platform ArtifactFormat.deb platform = platform == "debian"
supports_platform ArtifactFormat.rpm platform = platform == "fedora" || platform == "opensuse"
supports_platform ArtifactFormat.app_image platform = on_app_image_platform platform

abbrev own_content_type : ArtifactFormat → String → Bool
own_content_type ArtifactFormat.zip content_type = content_type == "application/zip"
own_content_type ArtifactFormat.tar content_type = content_type == "application/x-tar"
own_content_type ArtifactFormat.tar_gz content_type =
    content_type == "application/gzip" || content_type == "application/x-gzip"
own_content_type ArtifactFormat.msi content_type =
    content_type == "application/x-msi" || content_type == "application/x-msdownload-msi"
own_content_type ArtifactFormat.msix content_type =
    content_type == "application/msix" || content_type == "application/vnd.ms-appx"
own_content_type ArtifactFormat.exe content_type =
    content_type == "application/vnd.microsoft.portable-executable"
    || content_type == "application/x-msdownload"
own_content_type ArtifactFormat.pkg content_type =
    content_type == "application/vnd.apple.installer+xml"
    || content_type == "application/x-newton-compatible-pkg"
own_content_type ArtifactFormat.dmg content_type = content_type == "application/x-apple-diskimage"
own_content_type ArtifactFormat.deb content_type =
    content_type == "application/vnd.debian.binary-package"
own_content_type ArtifactFormat.rpm content_type =
    content_type == "application/x-rpm" || content_type == "application/x-redhat-package-manager"
own_content_type ArtifactFormat.app_image content_type = content_type == "application/vnd.appimage"

-- `ArtifactFormat::accepts_content_type`
unfoldable pub accepts_content_type : ArtifactFormat → String → Bool
accepts_content_type format content_type =
    content_type == "application/octet-stream" || own_content_type format content_type

-- The derived `==` of the two enums.
abbrev kind_index : ArtifactKind → ℕ
kind_index ArtifactKind.portable_archive = 0
kind_index ArtifactKind.portable_executable = 1
kind_index ArtifactKind.native_installer = 2

abbrev pub kind_eq : ArtifactKind → ArtifactKind → Bool
kind_eq a b = eqb (kind_index a) (kind_index b)

abbrev pub is_dmg : ArtifactFormat → Bool
is_dmg ArtifactFormat.dmg = true
is_dmg _ = false

abbrev pub is_exe : ArtifactFormat → Bool
is_exe ArtifactFormat.exe = true
is_exe _ = false

abbrev pub is_app_image : ArtifactFormat → Bool
is_app_image ArtifactFormat.app_image = true
is_app_image _ = false
