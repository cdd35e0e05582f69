-- ===== src/Resolver/Select/Best.antt =====
-- `max_by` finds a greatest accepted evaluation: ranks are compared by a total preorder.
use siorb.Shared.{
  Bool, true, false, ◌≡◌, refl, sym, ◌∙◌, ◌⊎◌, inl, inr, not, Option, none, some, List, [], ◌∷◌,
  keep, all, All, Any, Any-keep, All-keep, is_empty, is_empty-keep, subst, Bool-cases, arith,
  if◌then◌else◌,
}
use siorb.Catalog.{PackageSource}
use siorb.Resolver.Candidate.{CandidateEvaluation}
use siorb.Resolver.Select.{
  compare_ids, is_gt, compare_evaluations, best_of, max_evaluation, select, insert_evaluation,
  sort_evaluations,
}
use siorb.Resolver.Select.Order.{IsBelow, IsBelow-trans, is_gt-IsBelow, IsBelow-refl}

-- `r` is one of the evaluations `b` and `es`, and none of them ranks above it.
abbrev IsBest : CandidateEvaluation → CandidateEvaluation → List CandidateEvaluation → Type 0
IsBest r b es =
    ((b ≡ r) ⊎ Any (λ (e : CandidateEvaluation). e ≡ r) es) × IsBelow r b × All (IsBelow r) es

IsBest-kept :
    (r b e : CandidateEvaluation) (es : List CandidateEvaluation)
    → is_gt (compare_evaluations b e) ≡ true
    → IsBest r b es
    → IsBest r b (e ∷ es)
IsBest-kept r b e es above (inl same, over_b, over_all) =
    (inl same, over_b, (IsBelow-trans r b e (is_gt-IsBelow b e above) over_b, over_all))
IsBest-kept r b e es above (inr stands, over_b, over_all) =
    (inr (inr stands), over_b, (IsBelow-trans r b e (is_gt-IsBelow b e above) over_b, over_all))

IsBest-replaced :
    (r b e : CandidateEvaluation) (es : List CandidateEvaluation)
    → is_gt (compare_evaluations b e) ≡ false
    → IsBest r e es
    → IsBest r b (e ∷ es)
IsBest-replaced r b e es below (stands, over_e, over_all) =
    (inr stands, IsBelow-trans r e b below over_e, (over_e, over_all))

best_of-IsBest :
    (b : CandidateEvaluation) (es : List CandidateEvaluation) → IsBest (best_of b es) b es
best_of-IsBest b [] = (inl refl, IsBelow-refl b, tt)
best_of-IsBest b (e ∷ es) = elim (Bool-cases (is_gt (compare_evaluations b e))) [
  | inl above ↦
      subst (λ t. IsBest (best_of (if t then b else e) es) b (e ∷ es)) (sym above)
        (IsBest-kept (best_of b es) b e es above (best_of-IsBest b es))
  | inr below ↦
      subst (λ t. IsBest (best_of (if t then b else e) es) b (e ∷ es)) (sym below)
        (IsBest-replaced (best_of e es) b e es below (best_of-IsBest e es))
]

max-IsBest :
    (es : List CandidateEvaluation) (r : CandidateEvaluation)
    → max_evaluation es ≡ some r
    → Any (λ (e : CandidateEvaluation). e ≡ r) es × All (IsBelow r) es
max-IsBest [] r h = cc
max-IsBest (b ∷ es) r h =
    let same : best_of b es ≡ r = ground (arith, h) in
    let (stands, over_b, over_all) = subst (λ c. IsBest c b es) same (best_of-IsBest b es) in
    (stands, (over_b, over_all))

-- `best` is one of the evaluations and accepted, and no accepted one ranks above it.
abbrev pub IsGreatest : CandidateEvaluation → List CandidateEvaluation → Type 0
IsGreatest best es =
    Any (λ (e : CandidateEvaluation). (e ≡ best) × (e.accepted ≡ true)) es
    × All (λ (e : CandidateEvaluation). e.accepted ≡ true → IsBelow best e) es

pub select-IsGreatest :
    (es : List CandidateEvaluation) (s : PackageSource)
    → select es ≡ some s
    → (best : CandidateEvaluation) × (best.source ≡ s) × IsGreatest best es
unfolding select
select-IsGreatest es s h =
    go (max_evaluation (keep (λ (e : CandidateEvaluation). e.accepted) es)) refl h
  where
    go :
        (found : Option CandidateEvaluation)
        → max_evaluation (keep (λ (e : CandidateEvaluation). e.accepted) es) ≡ found
        → elim found as (λ f. Option PackageSource) [ none ↦ none | some best ↦ some best.source ]
          ≡ some s
        → (best : CandidateEvaluation) × (best.source ≡ s) × IsGreatest best es
    go none e k = cc
    go (some best) e k =
        let (stands, over) =
          max-IsBest (keep (λ (x : CandidateEvaluation). x.accepted) es) best e in
        (
          best,
          cc,
          (
            Any-keep (λ (x : CandidateEvaluation). x.accepted)
                (λ (x : CandidateEvaluation). x ≡ best) es stands,
            All-keep (λ (x : CandidateEvaluation). x.accepted) (IsBelow best) es over,
          ),
        )

abbrev pub is_none {ℓ} : {A : Type ℓ} → Option A → Bool
is_none none = true
is_none (some a) = false

is_none-select :
    (kept : List CandidateEvaluation)
    → is_none {A = PackageSource}
        (elim (max_evaluation kept) [ none ↦ none | some best ↦ some best.source ])
      ≡ is_empty kept
is_none-select [] = refl
is_none-select (e ∷ es) = refl

-- Nothing is selected exactly if no evaluation is accepted.
pub select-none :
    (es : List CandidateEvaluation)
    → is_none (select es) ≡ all (λ (e : CandidateEvaluation). not e.accepted) es
unfolding select
select-none es =
    is_none-select (keep (λ (e : CandidateEvaluation). e.accepted) es)
    ∙ is_empty-keep (λ (e : CandidateEvaluation). e.accepted) es

Any-insert_evaluation :
    (P : CandidateEvaluation → Type 0) (e : CandidateEvaluation) (es : List CandidateEvaluation)
    → Any P (insert_evaluation e es)
    → P e ⊎ Any P es
Any-insert_evaluation P e [] h = h
Any-insert_evaluation P e (other ∷ es) h =
    elim (Bool-cases (is_gt (compare_ids e.source other.source))) [
      | inl after ↦ swapped (Any-insert_evaluation P e es) (rw after at h)
      | inr before ↦ rw before at h
    ]
  where
    swapped :
        (Any P (insert_evaluation e es) → P e ⊎ Any P es)
        → P other ⊎ Any P (insert_evaluation e es)
        → P e ⊎ (P other ⊎ Any P es)
    swapped rest (inl here) = inr (inl here)
    swapped rest (inr there) = elim (rest there) [ inl new ↦ inl new | inr old ↦ inr (inr old) ]

pub Any-sort_evaluations :
    (P : CandidateEvaluation → Type 0) (es : List CandidateEvaluation)
    → Any P (sort_evaluations es)
    → Any P es
unfolding sort_evaluations
Any-sort_evaluations P [] h = h
Any-sort_evaluations P (e ∷ es) h = elim (Any-insert_evaluation P e (sort_evaluations es) h) [
  | inl here ↦ inl here
  | inr there ↦ inr (Any-sort_evaluations P es there)
]
