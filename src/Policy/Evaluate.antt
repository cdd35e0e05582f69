-- ===== src/Policy/Evaluate.antt =====
-- `LayeredPolicy::evaluate_with_context`.
pub mod Decide
pub mod Guarantees
use siorb.Shared.{
  ℕ, Bool, true, false, ◌&&◌, ◌||◌, not, Option, none, some, String, ◌==◌, List, [], ◌∷◌, ◌++◌,
  is_empty, codes, Ordering, then_with, compare_codes, if◌then◌else◌,
}
use siorb.Core.Platform.{Operation}
use siorb.Catalog.{PackageManifest, PackageSource}
use siorb.Policy.Layers.{
  PolicyFile, LayeredPolicy, PolicyReason, PolicyDecision, confirmation_required_by,
  dry_run_required_by,
}
use siorb.Policy.Checks.{PolicyEvaluationContext, Services, layer_reasons}

-- The order of the sort: by layer, code and message.
abbrev pub compare_reasons : PolicyReason → PolicyReason → Ordering
compare_reasons left right =
    then_with
      (then_with (compare_codes (codes left.layer) (codes right.layer))
        (compare_codes (codes left.code) (codes right.code)))
      (compare_codes (codes left.message) (codes right.message))

abbrev pub reason_after : PolicyReason → PolicyReason → Bool
reason_after left right = elim (compare_reasons left right) [ Ordering.gt ↦ true | _ ↦ false ]

abbrev pub insert_reason : PolicyReason → List PolicyReason → List PolicyReason
insert_reason r [] = r ∷ []
insert_reason r (s ∷ reasons) =
    let rest = insert_reason r reasons in if reason_after r s then s ∷ rest else r ∷ s ∷ reasons

-- `sort_by`, which is stable.
unfoldable pub sort_reasons : List PolicyReason → List PolicyReason
sort_reasons [] = []
sort_reasons (r ∷ reasons) = insert_reason r (sort_reasons reasons)

-- The derived `==`.
abbrev pub reason_eq : PolicyReason → PolicyReason → Bool
reason_eq a b = a.code == b.code && a.message == b.message && a.layer == b.layer

-- `Vec::dedup`: of neighbours that are equal the first stays.
abbrev pub dedup_after : PolicyReason → List PolicyReason → List PolicyReason
dedup_after r [] = []
dedup_after r (s ∷ reasons) =
    let dropped = dedup_after r reasons in
    let kept = s ∷ dedup_after s reasons in if reason_eq r s then dropped else kept

unfoldable pub dedup_reasons : List PolicyReason → List PolicyReason
dedup_reasons [] = []
dedup_reasons (r ∷ reasons) = r ∷ dedup_after r reasons

module _ (services : Services) where
  -- What the loop over the layers pushes.
  unfoldable pub all_reasons :
      List PolicyFile
      → PackageManifest
      → PackageSource
      → Operation
      → PolicyEvaluationContext
      → List PolicyReason
  all_reasons [] manifest source operation context = []
  all_reasons (layer ∷ layers) manifest source operation context =
      layer_reasons services layer manifest source operation context
      ++ all_reasons layers manifest source operation context

  unfoldable pub evaluate_with_context :
      LayeredPolicy
      → PackageManifest
      → PackageSource
      → Operation
      → PolicyEvaluationContext
      → PolicyDecision
  unfolding all_reasons sort_reasons dedup_reasons
  evaluate_with_context policy manifest source operation context =
      let pushed = all_reasons policy.layers manifest source operation context in
      let reasons = dedup_reasons (sort_reasons pushed) in
      record {
        allowed = is_empty reasons;
        reasons = reasons;
        confirmation_required = confirmation_required_by policy.layers;
        dry_run_required = dry_run_required_by policy.layers;
      }
