-- ===== src/Resolver/Select/Order.antt =====
-- The order of evaluations: their ranks, and among equal ranks the ids reversed.
use siorb.Shared.{
  ℕ, compare, Ordering, then_with, reverse_ordering, compare_reverse, then_with-reverse,
  compare_codes-reverse, Composes, Composes-flip, Composes-lt_right, Composes-gt_right,
  compare-Composes, then_with-Composes, compare_codes-Composes, codes, true, false, ◌≡◌, refl, inl,
  inr, Option, none, some, Bool-cases,
}
use siorb.Catalog.{PackageSource}
use siorb.Resolver.Candidate.{Rank, CandidateEvaluation, compare_ranks, signed_place}
use siorb.Resolver.Select.{compare_ids, is_gt, compare_option_ranks, compare_evaluations}

compare-flipped : (a b c : ℕ) → Composes (compare b a) (compare c b) (compare c a)
compare-flipped a b c =
    Composes-flip (compare c b) (compare b a) (compare c a) (compare-Composes c b a)

compare_ids-Composes :
    (a b c : PackageSource) → Composes (compare_ids b a) (compare_ids c b) (compare_ids c a)
compare_ids-Composes a b c =
    Composes-flip (compare_ids c b) (compare_ids b a) (compare_ids c a)
      (compare_codes-Composes (codes c.id) (codes b.id) (codes a.id))

module _ (a b c : Rank) where
  by_trust :
      Composes
        (then_with
          (compare a.trust b.trust)
          (compare (signed_place b.catalog_priority) (signed_place a.catalog_priority)))
        (then_with
          (compare b.trust c.trust)
          (compare (signed_place c.catalog_priority) (signed_place b.catalog_priority)))
        (then_with
          (compare a.trust c.trust)
          (compare (signed_place c.catalog_priority) (signed_place a.catalog_priority)))
  by_trust = then_with-Composes _ _ _ _ _ _ (compare-Composes a.trust b.trust c.trust) (
      compare-flipped (signed_place a.catalog_priority) (signed_place b.catalog_priority)
        (signed_place c.catalog_priority))

  compare_ranks-Composes : Composes (compare_ranks a b) (compare_ranks b c) (compare_ranks a c)
  unfolding compare_ranks
  compare_ranks-Composes =
      then_with-Composes _ _ _ _ _ _
        (compare-Composes a.explicit_source b.explicit_source c.explicit_source)
        (then_with-Composes _ _ _ _ _ _
          (compare-Composes a.explicit_backend b.explicit_backend c.explicit_backend)
          (then_with-Composes _ _ _ _ _ _
            (compare-flipped a.policy_preference b.policy_preference c.policy_preference) by_trust))

compare_ranks-reverse : (a b : Rank) → compare_ranks b a ≡ reverse_ordering (compare_ranks a b)
unfolding compare_ranks
compare_ranks-reverse a b = simp (
  then_with-reverse,
  compare_reverse a.explicit_source b.explicit_source,
  compare_reverse a.explicit_backend b.explicit_backend,
  compare_reverse b.policy_preference a.policy_preference,
  compare_reverse a.trust b.trust,
  compare_reverse (signed_place b.catalog_priority) (signed_place a.catalog_priority),
)

compare_option_ranks-Composes :
    (a b c : Option Rank)
    → Composes (compare_option_ranks a b) (compare_option_ranks b c) (compare_option_ranks a c)
compare_option_ranks-Composes none none c = refl
compare_option_ranks-Composes none (some b) none = tt
compare_option_ranks-Composes none (some b) (some c) =
    Composes-flip (compare_ranks b c) Ordering.lt Ordering.lt
      (Composes-lt_right (compare_ranks b c))
compare_option_ranks-Composes (some a) none none = refl
compare_option_ranks-Composes (some a) none (some c) = tt
compare_option_ranks-Composes (some a) (some b) none = Composes-gt_right (compare_ranks a b)
compare_option_ranks-Composes (some a) (some b) (some c) = compare_ranks-Composes a b c

compare_option_ranks-reverse :
    (a b : Option Rank) → compare_option_ranks b a ≡ reverse_ordering (compare_option_ranks a b)
compare_option_ranks-reverse none none = refl
compare_option_ranks-reverse none (some b) = refl
compare_option_ranks-reverse (some a) none = refl
compare_option_ranks-reverse (some a) (some b) = compare_ranks-reverse a b

compare_evaluations-Composes :
    (a b c : CandidateEvaluation)
    → Composes (compare_evaluations a b) (compare_evaluations b c) (compare_evaluations a c)
unfolding compare_evaluations
compare_evaluations-Composes a b c =
    then_with-Composes _ _ _ _ _ _ (compare_option_ranks-Composes a.rank b.rank c.rank)
      (compare_ids-Composes a.source b.source c.source)

compare_evaluations-reverse :
    (a b : CandidateEvaluation)
    → compare_evaluations b a ≡ reverse_ordering (compare_evaluations a b)
unfolding compare_evaluations
compare_evaluations-reverse a b = simp (
  then_with-reverse,
  compare_option_ranks-reverse a.rank b.rank,
  compare_codes-reverse (codes b.source.id) (codes a.source.id),
)

-- `e` does not rank above `best`.
abbrev pub IsBelow : CandidateEvaluation → CandidateEvaluation → Type 0
IsBelow best e = is_gt (compare_evaluations e best) ≡ false

not_gt : (o p q : Ordering) → Composes o p q → is_gt o ≡ false → is_gt p ≡ false → is_gt q ≡ false
not_gt Ordering.eq p q h a b = rw h b
not_gt Ordering.lt Ordering.eq q h a b = rw h
not_gt Ordering.lt Ordering.lt q h a b = rw h
not_gt Ordering.lt Ordering.gt q h a b = cc
not_gt Ordering.gt p q h a b = cc

gt_reversed : (o : Ordering) → is_gt o ≡ true → is_gt (reverse_ordering o) ≡ false
gt_reversed Ordering.eq h = refl
gt_reversed Ordering.lt h = cc
gt_reversed Ordering.gt h = refl

pub IsBelow-trans : (best b e : CandidateEvaluation) → IsBelow b e → IsBelow best b → IsBelow best e
IsBelow-trans best b e h k = not_gt _ _ _ (compare_evaluations-Composes e b best) h k

pub is_gt-IsBelow :
    (best e : CandidateEvaluation) → is_gt (compare_evaluations best e) ≡ true → IsBelow best e
is_gt-IsBelow best e h = rw (compare_evaluations-reverse best e) (gt_reversed _ h)

pub IsBelow-refl : (e : CandidateEvaluation) → IsBelow e e
IsBelow-refl e = elim (Bool-cases (is_gt (compare_evaluations e e))) [
  | inl above ↦ is_gt-IsBelow e e above
  | inr fine ↦ fine
]
