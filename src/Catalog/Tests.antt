-- ===== src/Catalog/Tests.antt =====
-- A document with two packages, and the lookups of its catalog.
use siorb.Shared.{
  true, false, ◌≡◌, refl, none, String, inl, inr, List, [], ◌∷◌, ascii_lowercase, split_on, get,
  insert, contains_key,
}
use siorb.Core.Errors.{ok, err}
use siorb.Core.Hosts.{
  Addresses, PublicHostError, public_host, rejected, validate_public_network_host,
}
use siorb.Catalog.{PackageManifest, PackageSource}
use siorb.Catalog.Identifiers.{normalize_identifier}
use siorb.Catalog.Sources.{CatalogServices, catalog_error, validate_source}
use siorb.Catalog.Document.{
  Catalog, CatalogDocument, register_identity, register_aliases, register_package, validate_sources,
  validate_packages, validate_document, index_aliases, index_packages, from_document,
}
use siorb.Catalog.Document.Owners.{Spells}
use siorb.Catalog.Lookup.Identities.{Finds, from_document-Finds}

abbrev addresses : Addresses
addresses = record { parse_ip = λ text. none; show_ip = λ address. "" }

abbrev services : CatalogServices
services = record { nfkc = λ text. text; parse_url = λ text. none; addresses = addresses }

abbrev source_of : String → PackageSource
source_of id = record {
  id = id;
  platform = "debian";
  distributions = [];
  backend = "apt";
  package_id = id;
  trust = "native";
  scope = "system";
  channel = "stable";
  architectures = [];
  priority = 10;
  requires_privilege = true;
  provenance = "backend-repository";
  evidence = "https://packages.debian.org";
  reviewed_at = "2026-07-13";
  verification = none;
}

abbrev package_of : String → List String → List String → String → PackageManifest
package_of id aliases deprecated source = record {
  schema_version = "1.0";
  id = id;
  name = id;
  description = "A program";
  aliases = aliases;
  deprecated_aliases = deprecated;
  search_terms = [];
  homepage = "https://example.org";
  upstream = "";
  license = "MIT";
  risk = "standard";
  categories = [];
  capabilities = [];
  channels = [];
  conflicts = [];
  replacements = [];
  dependencies = [];
  optional_relationships = [];
  version_normalization = "";
  verification = "";
  evidence = [];
  reviewed_at = "";
  maintainers = [];
  deprecated = false;
  sources = source_of source ∷ [];
}

abbrev document_of : List PackageManifest → CatalogDocument
document_of packages = record {
  schema_version = "1.0";
  catalog_version = 7;
  generated_at = "";
  expires_unix = none;
  packages = packages;
}

abbrev document : CatalogDocument
document = document_of (
    package_of "ripgrep" ("rg" ∷ []) [] "ripgrep-apt"
    ∷ package_of "vim" [] ("Vi" ∷ []) "vim-apt"
    ∷ [])

abbrev catalog : Catalog
catalog = record {
  document = document;
  exact = ("rg", 0) ∷ ("ripgrep", 0) ∷ ("vim", 1) ∷ [];
  deprecated = ("vi", 1) ∷ [];
  identity = record {
    id = "siorb-main";
    version = 7;
    verified = true;
    expires_unix = none;
    source = "bundled";
  };
}

built : from_document services document "bundled" true ≡ ok catalog
unfolding from_document validate_document validate_packages register_package register_aliases
    register_identity validate_sources validate_source index_packages index_aliases
    normalize_identifier get insert contains_key ascii_lowercase
built = refl

spelled : Spells services "vi" "Vi"
unfolding normalize_identifier ascii_lowercase
spelled = refl

from_document-Finds_example :
    Finds services catalog "Vi" "vi" spelled (package_of "vim" [] ("Vi" ∷ []) "vim-apt")
from_document-Finds_example =
    from_document-Finds services document "bundled" true catalog
      (package_of "vim" [] ("Vi" ∷ []) "vim-apt") "Vi" "vi" built (refl, (refl, tt))
      (inr (inl refl)) spelled (inr (inl spelled))

-- An alias of one package cannot be the id of another.
collision :
    validate_document services
      (document_of (package_of "ripgrep" ("vim" ∷ []) [] "a" ∷ package_of "vim" [] [] "b" ∷ []))
    ≡ err (catalog_error "catalog.alias.collision")
unfolding validate_document validate_packages register_package register_aliases register_identity
    validate_sources validate_source normalize_identifier get insert contains_key ascii_lowercase
collision = refl

-- Two packages with one id pass if their sources differ.
same_id :
    validate_document services
      (document_of (package_of "vim" [] [] "a" ∷ package_of "vim" [] [] "b" ∷ []))
    ≡ ok tt
unfolding validate_document validate_packages register_package register_aliases register_identity
    validate_sources validate_source normalize_identifier get insert contains_key ascii_lowercase
same_id = refl

local_host :
    validate_public_network_host addresses "printer.local" ≡ rejected PublicHostError.local_name
unfolding validate_public_network_host split_on ascii_lowercase
local_host = refl

upper_case_host : validate_public_network_host addresses "Example.ORG." ≡ public_host "example.org"
unfolding validate_public_network_host split_on ascii_lowercase
upper_case_host = refl
