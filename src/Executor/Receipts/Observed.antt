-- ===== src/Executor/Receipts/Observed.antt =====
-- Which receipts `commit_receipts` writes.
use siorb.Shared.{
  Bool, true, false, ◌≡◌, refl, sym, subst, ◌==◌, eq_iff, Option, none, some, String, List, [], ◌∷◌,
  Map, get, insert, remove, Any, arith, Bool-cases, inl, inr, ◌⊎◌, if◌then◌else◌, get-insert,
  get-remove,
}
use siorb.Core.Errors.{Result, ok, err, SiorbError, >>=-eq-ok}
use siorb.Core.Platform.{Operation, operation_eq}
use siorb.Policy.Versions.{Semver}
use siorb.Resolver.Constraint.{Requirements}
use siorb.Backends.Query.{BackendQueryResult}
use siorb.State.Store.{
  StateStore, Receipt, receipt_name, validate_component, write_receipt, remove_receipt,
}
use siorb.Planner.{PlannedPackage, ExecutionPlan}
use siorb.Executor.{package_requires_receipt_commit}
use siorb.Executor.Receipts.{
  ReceiptServices, check_removal, check_observation, receipt_of, commit_removal, commit_written,
  commit_package, commit_packages, commit_receipts,
}
use siorb.Executor.Receipts.Queried.{IsObserved, check_observed-parts}

module _ {semver : Semver} (requirements : Requirements semver) where
  module _ (services : ReceiptServices) (plan : ExecutionPlan) (transaction_id : String)
      (observations : Map BackendQueryResult) where
    -- The receipt is of the package, and written on the word of its package manager, or of an
    -- artifact.
    abbrev pub IsWritten : String → Receipt → PlannedPackage → Type 0
    IsWritten file receipt planned =
        (file ≡ receipt_name planned.logical_id)
        × (receipt.native_id ≡ planned.native_id)
        × ((planned.backend ≡ "artifact")
            ⊎ ((observed : BackendQueryResult) × (get observations planned.logical_id
                  ≡ some observed)
                × IsObserved requirements planned observed receipt))

    check_observation-IsWritten :
        (planned : PlannedPackage) (observation : Option BackendQueryResult) (reason : String)
        → get observations planned.logical_id ≡ observation
        → check_observation requirements planned observation ≡ ok reason
        → IsWritten
            (receipt_name planned.logical_id)
            (receipt_of requirements services plan transaction_id planned observation reason)
            planned
    unfolding check_observation receipt_of
    check_observation-IsWritten planned none reason e h =
        (refl, refl, inl ((eq_iff planned.backend "artifact").0 (ground (arith, h))))
    check_observation-IsWritten planned (some observed) reason e h =
        let (same, installed, matched) =
          check_observed-parts requirements planned observed reason h in
        (refl, refl, inr (observed, e, (same, installed, refl, matched)))

    abbrev Kept : StateStore → StateStore → PlannedPackage → Type 0
    Kept before after planned =
        (file : String) (receipt : Receipt)
        → get after.receipt_files file ≡ some receipt
        → (get before.receipt_files file ≡ some receipt) ⊎ IsWritten file receipt planned

    commit_removal-Kept :
        (planned : PlannedPackage) (observation : Option BackendQueryResult)
        (before after : StateStore)
        → commit_removal requirements services plan transaction_id planned observation before
          ≡ ok after
        → Kept before after planned
    unfolding commit_removal remove_receipt
    commit_removal-Kept planned observation before after h file receipt stands =
        let (d, e1, h1) = >>=-eq-ok (check_removal planned observation) _ h in
        let (d', e2, h2) = >>=-eq-ok (validate_component planned.logical_id) _ h1 in
        let name = receipt_name planned.logical_id in
        let same : remove name before.receipt_files ≡ after.receipt_files = ground (arith, h2) in
        inl (ground (arith, stands, same, get-remove name file before.receipt_files))

    commit_written-Kept :
        (planned : PlannedPackage) (before after : StateStore)
        → commit_written requirements services plan transaction_id planned
            (get observations planned.logical_id)
            before
          ≡ ok after
        → Kept before after planned
    unfolding commit_written write_receipt receipt_of
    commit_written-Kept planned before after h file receipt stands =
        let observation = get observations planned.logical_id in
        let (reason, e1, h1) = >>=-eq-ok (check_observation requirements planned observation) _ h in
        let written =
          receipt_of requirements services plan transaction_id planned observation reason in
        let (d, e2, h2) = >>=-eq-ok (validate_component written.logical_id) _ h1 in
        let name = receipt_name planned.logical_id in
        let same : insert name written before.receipt_files ≡ after.receipt_files =
          ground (arith, h2) in
        let law = get-insert name file written before.receipt_files in
        elim (Bool-cases (name == file)) [
          | inl hit ↦
              let found : some written ≡ some receipt = ground (arith, stands, same, law, hit) in
              let here : written ≡ receipt = cc in
              let at : name ≡ file = (eq_iff name file).0 hit in
              inr (
                subst (λ (r : Receipt). IsWritten file r planned) here
                  (subst (λ (f : String). IsWritten f written planned) at
                    (check_observation-IsWritten planned observation reason refl e1)))
          | inr miss ↦ inl (ground (arith, stands, same, law, miss))
        ]

    abbrev pub commit : PlannedPackage → StateStore → Result StateStore
    commit planned store =
        commit_package requirements services plan transaction_id planned
          (get observations planned.logical_id) store

    abbrev pub commit_all : List PlannedPackage → Bool → StateStore → StateStore × Result Bool
    commit_all = commit_packages requirements services plan transaction_id observations

    commit_package-Kept :
        (planned : PlannedPackage) (before after : StateStore)
        → commit planned before ≡ ok after
        → Kept before after planned
    unfolding commit_package
    commit_package-Kept planned before after h =
        let observation = get observations planned.logical_id in
        let branch : Bool → Type 0 = λ b.
          (if b
            then commit_removal requirements services plan transaction_id planned observation before
            else commit_written requirements services plan transaction_id planned observation
                before)
          ≡ ok after in
        elim (Bool-cases (operation_eq plan.operation Operation.remove)) [
          | inl removes ↦
              commit_removal-Kept planned observation before after (subst branch removes h)
          | inr writes ↦ commit_written-Kept planned before after (subst branch writes h)
        ]

    result_cases :
        (r : Result StateStore)
        → ((committed : StateStore) × (r ≡ ok committed)) ⊎ ((e : SiorbError) × (r ≡ err e))
    result_cases (ok committed) = inl (committed, refl)
    result_cases (err e) = inr (e, refl)

    -- The loop's body goes on with the same store or with one that a commit left, or it stops.
    pub commit_packages-cases :
        (planned : PlannedPackage) (packages : List PlannedPackage) (changed : Bool)
        (store : StateStore)
        → (commit_all (planned ∷ packages) changed store ≡ commit_all packages changed store)
          ⊎ (((committed : StateStore) × (commit planned store ≡ ok committed)
                × (commit_all (planned ∷ packages) changed store
                    ≡ commit_all packages true committed))
              ⊎ ((e : SiorbError) × (commit_all (planned ∷ packages) changed store
                    ≡ (store, err e))))
    unfolding commit_packages
    commit_packages-cases planned packages changed store =
        elim (Bool-cases (package_requires_receipt_commit plan planned.logical_id)) [
          | inr skips ↦ inl (ground (arith, skips))
          | inl commits ↦ elim (result_cases (commit planned store)) [
            | inl (committed, e) ↦ inr (inl (committed, e, ground (arith, commits, e)))
            | inr (stop, e) ↦ inr (inr (stop, ground (arith, commits, e)))
          ]
        ]

    abbrev AllKept : List PlannedPackage → StateStore → StateStore → Type 0
    AllKept packages before after =
        (file : String) (receipt : Receipt)
        → get after.receipt_files file ≡ some receipt
        → (get before.receipt_files file ≡ some receipt) ⊎ Any (IsWritten file receipt) packages

    commit_packages-AllKept :
        (packages : List PlannedPackage) (changed : Bool) (store : StateStore)
        → AllKept packages store (commit_all packages changed store).0
    unfolding commit_packages
    commit_packages-AllKept [] changed store = λ file receipt stands. inl stands
    commit_packages-AllKept (planned ∷ packages) changed store =
        elim (commit_packages-cases planned packages changed store) [
          | inl same ↦
              subst (λ (r : StateStore × Result Bool). AllKept (planned ∷ packages) store r.0)
                (sym same)
                (λ file receipt stands.
                  elim (commit_packages-AllKept packages changed store file receipt stands) [
                    | inl old ↦ inl old
                    | inr written ↦ inr (inr written)
                  ])
          | inr (inl (committed, e, same)) ↦
              subst (λ (r : StateStore × Result Bool). AllKept (planned ∷ packages) store r.0)
                (sym same)
                (λ file receipt stands.
                  elim (commit_packages-AllKept packages true committed file receipt stands) [
                    | inl old ↦
                        elim (commit_package-Kept planned store committed e file receipt old) [
                          | inl older ↦ inl older
                          | inr written ↦ inr (inl written)
                        ]
                    | inr written ↦ inr (inr written)
                  ])
          | inr (inr (stop, same)) ↦
              subst (λ (r : StateStore × Result Bool). AllKept (planned ∷ packages) store r.0)
                (sym same) (λ file receipt stands. inl stands)
        ]

    -- Each receipt in the store that `commit_receipts` leaves, whether it succeeds or fails, stood
    -- there before or is of a planned package, under that package's file name. It then belongs to
    -- an artifact, or there was an observation of the same native package that it is installed,
    -- whose version is known, stands in the receipt and meets the constraint asked for.
    pub commit_receipts-IsWritten :
        (store : StateStore) (file : String) (receipt : Receipt)
        → get
            (commit_receipts requirements services plan transaction_id observations
              store).0.receipt_files
            file
          ≡ some receipt
        → (get store.receipt_files file ≡ some receipt) ⊎ Any (IsWritten file receipt) plan.packages
    unfolding commit_receipts
    commit_receipts-IsWritten store = commit_packages-AllKept plan.packages false store
