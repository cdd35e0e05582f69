-- ===== src/Policy/Evaluate/Decide.antt =====
-- What the sorted and deduplicated reasons say: deny wins in every layer.
use siorb.Shared.{
  Bool, true, false, ◌&&◌, ◌||◌, ◌≡◌, refl, ap, ◌∙◌, List, [], ◌∷◌, any, all, is_empty,
  is_empty-append, codes, reverse_ordering, compare_codes-reverse, any-append, arith, eq_iff,
  Bool-cases, inl, inr,
}
use siorb.Core.Platform.{Operation}
use siorb.Catalog.{PackageManifest, PackageSource}
use siorb.Policy.Layers.{PolicyFile, LayeredPolicy, PolicyReason}
use siorb.Policy.Checks.{PolicyEvaluationContext, Services, layer_reasons}
use siorb.Policy.Evaluate.{
  compare_reasons, reason_after, insert_reason, sort_reasons, reason_eq, dedup_after, dedup_reasons,
  all_reasons, evaluate_with_context,
}

-- The reasons name `r`.
abbrev pub reports : PolicyReason → List PolicyReason → Bool
reports r reasons = any (λ (s : PolicyReason). reason_eq s r) reasons

-- Each reason stands in order before the next, and is another one.
abbrev pub IsStrict : List PolicyReason → Type 0
IsStrict [] = Unit
IsStrict (r ∷ []) = Unit
IsStrict (r ∷ s ∷ reasons) =
    (reason_after r s ≡ false) × (reason_eq r s ≡ false) × IsStrict (s ∷ reasons)

abbrev IsSorted : List PolicyReason → Type 0
IsSorted [] = Unit
IsSorted (r ∷ []) = Unit
IsSorted (r ∷ s ∷ reasons) = (reason_after r s ≡ false) × IsSorted (s ∷ reasons)

compare_reasons-reverse :
    (r s : PolicyReason) → compare_reasons s r ≡ reverse_ordering (compare_reasons r s)
compare_reasons-reverse r s = ground (
  arith,
  compare_codes-reverse (codes r.layer) (codes s.layer),
  compare_codes-reverse (codes r.code) (codes s.code),
  compare_codes-reverse (codes r.message) (codes s.message),
)

reason_after-asym : (r s : PolicyReason) → reason_after r s ≡ true → reason_after s r ≡ false
reason_after-asym r s h = ground (arith, h, compare_reasons-reverse r s)

insert_reason-IsSorted :
    (r : PolicyReason) (l : List PolicyReason) → IsSorted l → IsSorted (insert_reason r l)
insert_reason-IsSorted r [] h = tt
insert_reason-IsSorted r (s ∷ []) h = elim (Bool-cases (reason_after r s)) [
  | inl after ↦ ground (arith, after, reason_after-asym r s)
  | inr before ↦ ground (arith, before)
]
insert_reason-IsSorted r (s ∷ t ∷ l) (st, h) =
    ground (arith, insert_reason-IsSorted r (t ∷ l) h, reason_after-asym r s)

sort_reasons-IsSorted : (l : List PolicyReason) → IsSorted (sort_reasons l)
unfolding sort_reasons
sort_reasons-IsSorted [] = tt
sort_reasons-IsSorted (r ∷ l) = insert_reason-IsSorted r (sort_reasons l) (sort_reasons-IsSorted l)

reason_eq→same : (r s : PolicyReason) → reason_eq r s ≡ true → r ≡ s
reason_eq→same r s h =
    ground (arith, h, eq_iff r.code s.code, eq_iff r.message s.message, eq_iff r.layer s.layer)

dedup_after-IsStrict :
    (r : PolicyReason) (l : List PolicyReason) → IsSorted (r ∷ l) → IsStrict (r ∷ dedup_after r l)
dedup_after-IsStrict r [] h = tt
dedup_after-IsStrict r (s ∷ []) (rs, h) = ground (arith, rs, h)
dedup_after-IsStrict r (s ∷ t ∷ l) (rs, h) = elim (Bool-cases (reason_eq r s)) [
  | inl same ↦
      let e : r ≡ s = reason_eq→same r s same in
      ground (arith, same, dedup_after-IsStrict r (t ∷ l) (ground (arith, e, h)))
  | inr other ↦ ground (arith, other, rs, dedup_after-IsStrict s (t ∷ l) h)
]

reports-insert_reason :
    (q r : PolicyReason) (l : List PolicyReason)
    → reports q (insert_reason r l) ≡ (reason_eq r q || reports q l)
reports-insert_reason q r [] = ground arith
reports-insert_reason q r (s ∷ l) = ground (arith, reports-insert_reason q r l)

reports-sort_reasons :
    (q : PolicyReason) (l : List PolicyReason) → reports q (sort_reasons l) ≡ reports q l
unfolding sort_reasons
reports-sort_reasons q [] = refl
reports-sort_reasons q (r ∷ l) =
    ground (arith, reports-insert_reason q r (sort_reasons l), reports-sort_reasons q l)

reports-dedup_after :
    (q r : PolicyReason) (l : List PolicyReason)
    → (reason_eq r q || reports q (dedup_after r l)) ≡ (reason_eq r q || reports q l)
reports-dedup_after q r [] = refl
reports-dedup_after q r (s ∷ l) = elim (Bool-cases (reason_eq r s)) [
  | inl same ↦ ground (arith, same, reason_eq→same r s same, reports-dedup_after q r l)
  | inr other ↦ ground (arith, other, reports-dedup_after q s l)
]

reports-dedup_reasons :
    (q : PolicyReason) (l : List PolicyReason) → reports q (dedup_reasons l) ≡ reports q l
unfolding dedup_reasons
reports-dedup_reasons q [] = refl
reports-dedup_reasons q (r ∷ l) = reports-dedup_after q r l

dedup_reasons-IsStrict : (l : List PolicyReason) → IsSorted l → IsStrict (dedup_reasons l)
unfolding dedup_reasons
dedup_reasons-IsStrict [] h = tt
dedup_reasons-IsStrict (r ∷ l) h = dedup_after-IsStrict r l h

is_empty-reasons : (l : List PolicyReason) → is_empty (dedup_reasons (sort_reasons l)) ≡ is_empty l
unfolding dedup_reasons sort_reasons
is_empty-reasons [] = refl
is_empty-reasons (r ∷ l) =
    elim (sort_reasons l) as (λ k. is_empty (dedup_reasons (insert_reason r k)) ≡ false) [
      | [] ↦ refl
      | s ∷ k ↦ ground arith
    ]

module _ (services : Services) (manifest : PackageManifest) (source : PackageSource)
    (operation : Operation) (context : PolicyEvaluationContext) where
  -- What one layer says against the operation.
  abbrev pub objections : PolicyFile → List PolicyReason
  objections layer = layer_reasons services layer manifest source operation context

  is_empty-all_reasons :
      (layers : List PolicyFile)
      → is_empty (all_reasons services layers manifest source operation context)
        ≡ all (λ (layer : PolicyFile). is_empty (objections layer)) layers
  unfolding all_reasons
  is_empty-all_reasons [] = refl
  is_empty-all_reasons (layer ∷ layers) =
      is_empty-append (objections layer)
        (all_reasons services layers manifest source operation context)
      ∙ ap (λ b. is_empty (objections layer) && b) (is_empty-all_reasons layers)

  reports-all_reasons :
      (q : PolicyReason) (layers : List PolicyFile)
      → reports q (all_reasons services layers manifest source operation context)
        ≡ any (λ (layer : PolicyFile). reports q (objections layer)) layers
  unfolding all_reasons
  reports-all_reasons q [] = refl
  reports-all_reasons q (layer ∷ layers) =
      any-append (λ (s : PolicyReason). reason_eq s q) (objections layer)
        (all_reasons services layers manifest source operation context)
      ∙ ap (λ b. reports q (objections layer) || b) (reports-all_reasons q layers)

  -- A layered policy allows an operation exactly if each layer on its own has no objection to it:
  -- no layer can take back what another denies, and the order of the layers does not matter.
  pub evaluate_with_context-deny_wins :
      (policy : LayeredPolicy)
      → (evaluate_with_context services policy manifest source operation context).allowed
        ≡ all (λ (layer : PolicyFile). is_empty (objections layer)) policy.layers
  unfolding evaluate_with_context
  evaluate_with_context-deny_wins policy =
      is_empty-reasons (all_reasons services policy.layers manifest source operation context)
      ∙ is_empty-all_reasons policy.layers

  -- The reasons of a decision are in order, no two neighbours are equal, and they are exactly the
  -- objections of the layers.
  pub evaluate_with_context-reasons :
      (policy : LayeredPolicy)
      → let decision = evaluate_with_context services policy manifest source operation context in
        IsStrict decision.reasons
        × ((r : PolicyReason)
            → reports r decision.reasons
              ≡ any (λ (layer : PolicyFile). reports r (objections layer)) policy.layers)
  unfolding evaluate_with_context
  evaluate_with_context-reasons policy =
      let pushed = all_reasons services policy.layers manifest source operation context in
      (
        dedup_reasons-IsStrict (sort_reasons pushed) (sort_reasons-IsSorted pushed),
        λ r.
            reports-dedup_reasons r (sort_reasons pushed)
            ∙ reports-sort_reasons r pushed
            ∙ reports-all_reasons r policy.layers,
      )
