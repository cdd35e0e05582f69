-- ===== src/Resolver/Select.antt =====
-- The choice among the evaluations: `sort_by` the id, and `max_by` rank among the accepted ones.
pub mod Order
pub mod Best
use siorb.Shared.{
  Ordering, then_with, compare_codes, codes, Bool, true, false, Option, none, some, List, [], ◌∷◌,
  keep, if◌then◌else◌,
}
use siorb.Catalog.{PackageSource}
use siorb.Resolver.Candidate.{Rank, CandidateEvaluation, compare_ranks}

abbrev pub compare_ids : PackageSource → PackageSource → Ordering
compare_ids left right = compare_codes (codes left.id) (codes right.id)

abbrev pub is_gt : Ordering → Bool
is_gt Ordering.gt = true
is_gt _ = false

abbrev pub insert_evaluation :
    CandidateEvaluation → List CandidateEvaluation → List CandidateEvaluation
insert_evaluation e [] = e ∷ []
insert_evaluation e (other ∷ evaluations) =
    let rest = insert_evaluation e evaluations in
    if is_gt (compare_ids e.source other.source) then other ∷ rest else e ∷ other ∷ evaluations

-- `sort_by`, which is stable.
unfoldable pub sort_evaluations : List CandidateEvaluation → List CandidateEvaluation
sort_evaluations [] = []
sort_evaluations (e ∷ evaluations) = insert_evaluation e (sort_evaluations evaluations)

-- The derived order of `Option<Rank>`.
abbrev pub compare_option_ranks : Option Rank → Option Rank → Ordering
compare_option_ranks none none = Ordering.eq
compare_option_ranks none (some b) = Ordering.lt
compare_option_ranks (some a) none = Ordering.gt
compare_option_ranks (some a) (some b) = compare_ranks a b

-- The comparison that `max_by` is given.
unfoldable pub compare_evaluations : CandidateEvaluation → CandidateEvaluation → Ordering
compare_evaluations left right =
    then_with (compare_option_ranks left.rank right.rank) (compare_ids right.source left.source)

-- `max_by` keeps the later one of two that compare as equal.
abbrev pub best_of : CandidateEvaluation → List CandidateEvaluation → CandidateEvaluation
best_of best [] = best
best_of best (e ∷ evaluations) =
    best_of (if is_gt (compare_evaluations best e) then best else e) evaluations

abbrev pub max_evaluation : List CandidateEvaluation → Option CandidateEvaluation
max_evaluation [] = none
max_evaluation (e ∷ evaluations) = some (best_of e evaluations)

unfoldable pub select : List CandidateEvaluation → Option PackageSource
unfolding compare_evaluations
select evaluations =
    elim (max_evaluation (keep (λ (e : CandidateEvaluation). e.accepted) evaluations)) [
      | none ↦ none
      | some best ↦ some best.source
    ]
