-- ===== src/Executor/Receipts/Removed.antt =====
-- Which receipts `commit_receipts` takes away.
use siorb.Shared.{
  Bool, true, false, ◌≡◌, refl, sym, subst, ◌⊎◌, inl, inr, ◌==◌, eq_iff, Option, none, some, String,
  List, [], ◌∷◌, Map, get, insert, remove, Any, arith, Bool-cases, get-insert, get-remove,
  if◌then◌else◌,
}
use siorb.Core.Errors.{Result, ok, >>=-eq-ok}
use siorb.Core.Platform.{Operation, operation_eq}
use siorb.Policy.Versions.{Semver}
use siorb.Resolver.Constraint.{Requirements}
use siorb.Backends.Query.{QueryStatus, BackendQueryResult}
use siorb.State.Store.{
  StateStore, Receipt, receipt_name, validate_component, write_receipt, remove_receipt,
}
use siorb.Planner.{PlannedPackage, ExecutionPlan}
use siorb.Executor.Receipts.{
  ReceiptServices, check_removal, check_observation, receipt_of, commit_removal, commit_written,
  commit_package, commit_packages, commit_receipts,
}
use siorb.Executor.Receipts.Observed.{commit, commit_all, commit_packages-cases}

module _ {semver : Semver} (requirements : Requirements semver) (services : ReceiptServices)
    (plan : ExecutionPlan) (transaction_id : String) (observations : Map BackendQueryResult) where
  -- The plan removes the package, which is an artifact or is gone by the word of its package
  -- manager.
  abbrev pub IsRemoved : String → PlannedPackage → Type 0
  IsRemoved file planned =
      (operation_eq plan.operation Operation.remove ≡ true)
      × (file ≡ receipt_name planned.logical_id)
      × ((planned.backend ≡ "artifact")
          ⊎ ((observed : BackendQueryResult) × (get observations planned.logical_id ≡ some observed)
              × (observed.native_id ≡ planned.native_id)
              × (observed.status ≡ QueryStatus.not_installed)))

  abbrev HasReceipt : StateStore → String → Type 0
  HasReceipt store file = (receipt : Receipt) × (get store.receipt_files file ≡ some receipt)

  check_removal-absent :
      (planned : PlannedPackage) (observation : Option BackendQueryResult)
      → check_removal planned observation ≡ ok tt
      → (planned.backend ≡ "artifact")
        ⊎ ((observed : BackendQueryResult) × (observation ≡ some observed)
            × (observed.native_id ≡ planned.native_id)
            × (observed.status ≡ QueryStatus.not_installed))
  unfolding check_removal
  check_removal-absent planned none h =
      inl ((eq_iff planned.backend "artifact").0 (ground (arith, h)))
  check_removal-absent planned (some observed) h =
      elim (Bool-cases (planned.backend == "artifact")) [
        | inl artifact ↦ inl ((eq_iff planned.backend "artifact").0 artifact)
        | inr native ↦ inr (
          observed,
          refl,
          (eq_iff observed.native_id planned.native_id).0 (ground (arith, h, native)),
          ground (arith, h, native),
        )
      ]

  abbrev Stays : StateStore → StateStore → PlannedPackage → Type 0
  Stays before after planned =
      (file : String) → HasReceipt before file → HasReceipt after file ⊎ IsRemoved file planned

  commit_removal-Stays :
      (planned : PlannedPackage) (before after : StateStore)
      → operation_eq plan.operation Operation.remove ≡ true
      → commit_removal requirements services plan transaction_id planned
          (get observations planned.logical_id)
          before
        ≡ ok after
      → Stays before after planned
  unfolding commit_removal remove_receipt
  commit_removal-Stays planned before after removes h file (receipt, stands) =
      let observation = get observations planned.logical_id in
      let (d, e1, h1) = >>=-eq-ok (check_removal planned observation) _ h in
      let (d', e2, h2) = >>=-eq-ok (validate_component planned.logical_id) _ h1 in
      let name = receipt_name planned.logical_id in
      let same : remove name before.receipt_files ≡ after.receipt_files = ground (arith, h2) in
      let law = get-remove name file before.receipt_files in
      elim (Bool-cases (name == file)) [
        | inl hit ↦
            let at : file ≡ name = sym ((eq_iff name file).0 hit) in
            inr (removes, at, check_removal-absent planned observation e1)
        | inr miss ↦ inl (receipt, ground (arith, stands, same, law, miss))
      ]

  commit_written-Stays :
      (planned : PlannedPackage) (observation : Option BackendQueryResult)
      (before after : StateStore)
      → commit_written requirements services plan transaction_id planned observation before
        ≡ ok after
      → Stays before after planned
  unfolding commit_written write_receipt receipt_of
  commit_written-Stays planned observation before after h file (receipt, stands) =
      let (reason, e1, h1) = >>=-eq-ok (check_observation requirements planned observation) _ h in
      let written =
        receipt_of requirements services plan transaction_id planned observation reason in
      let (d, e2, h2) = >>=-eq-ok (validate_component written.logical_id) _ h1 in
      let name = receipt_name planned.logical_id in
      let same : insert name written before.receipt_files ≡ after.receipt_files =
        ground (arith, h2) in
      let law = get-insert name file written before.receipt_files in
      elim (Bool-cases (name == file)) [
        | inl hit ↦ inl (written, ground (arith, same, law, hit))
        | inr miss ↦ inl (receipt, ground (arith, stands, same, law, miss))
      ]

  commit_package-Stays :
      (planned : PlannedPackage) (before after : StateStore)
      → commit requirements services plan transaction_id observations planned before ≡ ok after
      → Stays before after planned
  unfolding commit_package
  commit_package-Stays planned before after h =
      let observation = get observations planned.logical_id in
      let branch : Bool → Type 0 = λ b.
        (if b
          then commit_removal requirements services plan transaction_id planned observation before
          else commit_written requirements services plan transaction_id planned observation before)
        ≡ ok after in
      elim (Bool-cases (operation_eq plan.operation Operation.remove)) [
        | inl removes ↦ commit_removal-Stays planned before after removes (subst branch removes h)
        | inr writes ↦ commit_written-Stays planned observation before after (subst branch writes h)
      ]

  abbrev AllStay : List PlannedPackage → StateStore → StateStore → Type 0
  AllStay packages before after =
      (file : String)
      → HasReceipt before file
      → HasReceipt after file ⊎ Any (IsRemoved file) packages

  AllStay-later :
      (planned : PlannedPackage) (packages : List PlannedPackage) (before middle after : StateStore)
      → Stays before middle planned
      → AllStay packages middle after
      → AllStay (planned ∷ packages) before after
  AllStay-later planned packages before middle after first rest file has = elim (first file has) [
    | inr removed ↦ inr (inl removed)
    | inl still ↦ elim (rest file still) [
      | inl stands ↦ inl stands
      | inr removed ↦ inr (inr removed)
    ]
  ]

  commit_packages-AllStay :
      (packages : List PlannedPackage) (changed : Bool) (store : StateStore)
      → AllStay packages store
          (commit_all requirements services plan transaction_id observations packages changed
            store).0
  unfolding commit_packages
  commit_packages-AllStay [] changed store = λ file has. inl has
  commit_packages-AllStay (planned ∷ packages) changed store =
      let P : StateStore × Result Bool → Type 0 = λ r. AllStay (planned ∷ packages) store r.0 in
      elim (commit_packages-cases requirements services plan transaction_id observations planned
        packages changed store) [
          | inl same ↦ subst P (sym same) (
              AllStay-later planned packages store store
                (commit_all requirements services plan transaction_id observations packages changed
                  store).0
                (λ file has. inl has) (commit_packages-AllStay packages changed store))
          | inr (inl (committed, e, same)) ↦ subst P (sym same) (
              AllStay-later planned packages store committed
                (commit_all requirements services plan transaction_id observations packages true
                  committed).0
                (commit_package-Stays planned store committed e)
                (commit_packages-AllStay packages true committed))
          | inr (inr (stop, same)) ↦ subst P (sym same) (λ file has. inl has)
        ]

  -- A receipt that `commit_receipts` takes away, whether it succeeds or fails, is the one of a
  -- package that the plan removes, and the package is an artifact or was observed, under the native
  -- name in the plan, as not installed.
  pub commit_receipts-IsRemoved :
      (store : StateStore) (file : String) (receipt : Receipt)
      → get store.receipt_files file ≡ some receipt
      → get
          (commit_receipts requirements services plan transaction_id observations
            store).0.receipt_files
          file
        ≡ none
      → Any (IsRemoved file) plan.packages
  unfolding commit_receipts
  commit_receipts-IsRemoved store file receipt stood gone =
      elim (commit_packages-AllStay plan.packages false store file (receipt, stood)) [
        | inl (other, stands) ↦ absurd (ground (arith, gone, stands))
        | inr removed ↦ removed
      ]
