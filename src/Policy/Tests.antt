-- ===== src/Policy/Tests.antt =====
-- Two layers and what the policy decides about a package.
use siorb.Shared.{
  split_on, ℕ, suc, ◌≤◌, Ordering, reverse_ordering, true, false, ◌≡◌, refl, ◌==◌, none, some, List,
  [], ◌∷◌, any, all, is_empty, if◌then◌else◌, arith,
}
use siorb.Core.Errors.{ok, err}
use siorb.Core.Platform.{Operation}
use siorb.Catalog.{PackageManifest, PackageSource}
use siorb.Policy.Layers.{
  PolicyFile, LayeredPolicy, PolicyReason, default_policy, secure_defaults, policy_error, validate,
  valid_exact_domain, provenance_level, new_policy, enforce_self_update,
  enforce_self_update_with_context, evaluate_self_update_with_context,
}
use siorb.Policy.Layers.SelfUpdate.{lets_update, first_objection, enforce_self_update-deny_wins}
use siorb.Policy.Dates.{date_days, civil_day, parse_iso_date_days, enforce_freshness}
use siorb.Policy.Dates.Calendar.{next_date, days_of, date_days-next}
use siorb.Policy.Versions.{Semver, enforce_no_downgrade, compare_native_versions}
use siorb.Policy.Versions.Native.{compare_native_versions-total}
use siorb.Policy.Checks.{
  PolicyEvaluationContext, Services, no_digest, check_membership, check_categories, check_artifact,
  enforce_provenance, enforce_trusted_publishers, enforce_network_domains, static_reasons,
  context_reasons, layer_reasons,
}
use siorb.Policy.Evaluate.{evaluate_with_context, all_reasons, sort_reasons, dedup_reasons}
use siorb.Policy.Evaluate.Decide.{
  objections, reports, IsStrict, evaluate_with_context-deny_wins, evaluate_with_context-reasons,
}
use siorb.Policy.Load.{PolicyPlaces, load, load_all, policy_paths, load_policy}
use siorb.Policy.Load.Secure.{load_policy-secure}
use siorb.Policy.Evaluate.Guarantees.{level_of, evaluate_with_context-denied}

dates : parse_iso_date_days "2026-07-13" ≡ some 20647
unfolding parse_iso_date_days split_on date_days civil_day
dates = refl

no_date : parse_iso_date_days "2026-02-29" ≡ none
unfolding parse_iso_date_days split_on date_days
no_date = refl

-- A date of the far future has the number of a day of today: the product of its era and the days
-- of an era leaves the range of an `i64`, and wraps.
far_future : parse_iso_date_days "50505469855535135-09-04" ≡ some 20647
unfolding parse_iso_date_days split_on date_days civil_day
far_future = refl

versions : compare_native_versions "1.10~rc1" "1.010" ≡ some Ordering.lt
unfolding compare_native_versions
versions = refl

-- Versions without any text to compare.
abbrev semver : Semver
semver = record { Version = ℕ; parse = λ text. none; compare_version = λ a b. Ordering.eq }

abbrev services : Services
services = record { semver = semver; host_of = λ url. none; unix_timestamp = 1784000000 }

abbrev manifest : PackageManifest
manifest = record {
  schema_version = "1";
  id = "firefox";
  name = "Firefox";
  description = "Browser";
  aliases = [];
  deprecated_aliases = [];
  search_terms = [];
  homepage = "https://mozilla.org";
  upstream = "";
  license = "MPL-2.0";
  risk = "standard";
  categories = "browser" ∷ [];
  capabilities = [];
  channels = "stable" ∷ [];
  conflicts = [];
  replacements = [];
  dependencies = [];
  optional_relationships = [];
  version_normalization = "";
  verification = "";
  evidence = [];
  reviewed_at = "";
  maintainers = [];
  deprecated = false;
  sources = [];
}

abbrev source : PackageSource
source = record {
  id = "firefox-apt";
  platform = "debian";
  distributions = [];
  backend = "apt";
  package_id = "firefox";
  trust = "native";
  scope = "system";
  channel = "stable";
  architectures = "x86_64" ∷ [];
  priority = 10;
  requires_privilege = true;
  provenance = "backend-repository";
  evidence = "";
  reviewed_at = "2026-07-13";
  verification = none;
}

abbrev context : PolicyEvaluationContext
context = record {
  dry_run = false;
  now_unix = some 1784000000;
  installed_version = none;
  target_version = none;
  network_urls = [];
}

abbrev no_browsers : PolicyFile
no_browsers = record default_policy {
  schema_version = "1.0";
  id = "school";
  deny_categories = "browser" ∷ [];
  require_dry_run = true;
}

abbrev layered : List PolicyFile → LayeredPolicy
layered layers = record { layers = layers; id = "school"; layer_names = [] }

abbrev two_layers : LayeredPolicy
two_layers = layered (secure_defaults ∷ no_browsers ∷ [])

date_days-next_example :
    (date_days 1970 1 1 ≡ some 0)
    × ((n : ℕ) × (date_days 2028 2 29 ≡ some n) × (days_of (next_date 2028 2 29) ≡ some (suc n)))
date_days-next_example =
    date_days-next 2028 2 29
      (omega arith, omega arith, omega arith, omega arith, omega arith, omega arith) (omega arith)

compare_native_versions-total_example :
    (o : Ordering) × (compare_native_versions "1.2" "1.10" ≡ some o)
    × (compare_native_versions "1.10" "1.2" ≡ some (reverse_ordering o))
compare_native_versions-total_example = compare_native_versions-total "1.2" "1.10"

enforce_self_update-deny_wins_example : enforce_self_update_with_context false two_layers ≡ (
    if all (lets_update false) two_layers.layers
    then ok tt
    else err (policy_error (first_objection false two_layers.layers)))
enforce_self_update-deny_wins_example = enforce_self_update-deny_wins false two_layers

evaluate_with_context-deny_wins_example :
    (evaluate_with_context services two_layers manifest source Operation.install context).allowed
    ≡ all
        (λ (layer : PolicyFile).
          is_empty (objections services manifest source Operation.install context layer))
        two_layers.layers
evaluate_with_context-deny_wins_example =
    evaluate_with_context-deny_wins services manifest source Operation.install context two_layers

evaluate_with_context-reasons_example :
    let decision =
      evaluate_with_context services two_layers manifest source Operation.install context in
    IsStrict decision.reasons
    × ((r : PolicyReason)
        → reports r decision.reasons
          ≡ any
              (λ (layer : PolicyFile).
                reports r (objections services manifest source Operation.install context layer))
              two_layers.layers)
evaluate_with_context-reasons_example =
    evaluate_with_context-reasons services manifest source Operation.install context two_layers

evaluate_with_context-denied_example :
    (evaluate_with_context services two_layers manifest source Operation.install context).allowed
    ≡ false
unfolding secure_defaults
evaluate_with_context-denied_example =
    evaluate_with_context-denied services two_layers manifest source Operation.install context refl

-- A machine's file that takes the built-in layer's name and restricts nothing.
abbrev machine_file : PolicyFile
machine_file = record default_policy { schema_version = "1.0"; id = "builtin-secure-defaults" }

abbrev places : PolicyPlaces
places = record {
  read_policy = λ path. ok machine_file;
  is_file = λ path. true;
  machine = some "/etc/siorb/policy.toml";
  organization = none;
  user = none;
}

abbrev loaded_policy : LayeredPolicy
loaded_policy = record {
  layers = secure_defaults ∷ machine_file ∷ [];
  id = "builtin-secure-defaults";
  layer_names = "builtin-secure-defaults" ∷ "builtin-secure-defaults" ∷ [];
}

loaded : load_policy places none ≡ ok loaded_policy
unfolding load_policy load_all policy_paths load new_policy validate secure_defaults
    valid_exact_domain provenance_level
loaded = refl

loaded_allowed :
    (evaluate_with_context services loaded_policy manifest source Operation.install context).allowed
    ≡ true
unfolding evaluate_with_context layer_reasons secure_defaults check_membership check_categories
    check_artifact enforce_provenance enforce_trusted_publishers enforce_network_domains
    enforce_freshness parse_iso_date_days provenance_level date_days split_on civil_day
    context_reasons dedup_reasons sort_reasons all_reasons static_reasons enforce_no_downgrade
loaded_allowed = refl

load_policy-secure_example :
    ((source.channel == "stable") ≡ true)
    × (3 ≤ level_of source)
    × ((source.backend == "artifact") ≡ true → no_digest source.verification ≡ false)
load_policy-secure_example =
    load_policy-secure places none services loaded_policy manifest source Operation.install context
      loaded loaded_allowed

-- A layer that requires a dry run hides the code of a later one that disables self-update.
dry_run_first :
    enforce_self_update
      (layered (no_browsers ∷ record default_policy { allow_self_update = some false } ∷ []))
    ≡ err (policy_error "policy.dry_run.required")
unfolding enforce_self_update enforce_self_update_with_context evaluate_self_update_with_context
dry_run_first = refl
