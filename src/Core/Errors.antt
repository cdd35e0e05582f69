-- ===== src/Core/Errors.antt =====
-- crates/siorb-core/src/lib.rs: error kinds, exit codes and `SiorbError`.
-- Of an error its kind, reason code and `state_changed` are modelled. The texts for people
-- (`message`, `next_action`, `detail`) decide nothing in the program and are left out.
use siorb.Shared.{ℕ, Bool, true, false, Option, none, some, String, ◌≡◌, refl}

pub data ExitCode : Type 0 where
  success invalid_input unresolved_package ambiguous_package policy_rejected : ExitCode
  catalog_failure backend_absent privilege_denied backend_failure : ExitCode
  verification_failure partial_completion internal_error : ExitCode

unfoldable pub as_i32 : ExitCode → ℕ
as_i32 ExitCode.success = 0
as_i32 ExitCode.invalid_input = 2
as_i32 ExitCode.unresolved_package = 10
as_i32 ExitCode.ambiguous_package = 11
as_i32 ExitCode.policy_rejected = 12
as_i32 ExitCode.catalog_failure = 20
as_i32 ExitCode.backend_absent = 30
as_i32 ExitCode.privilege_denied = 31
as_i32 ExitCode.backend_failure = 32
as_i32 ExitCode.verification_failure = 40
as_i32 ExitCode.partial_completion = 50
as_i32 ExitCode.internal_error = 70

pub data ErrorKind : Type 0 where
  invalid_input unresolved_package ambiguous_package policy_rejected : ErrorKind
  catalog_failure backend_absent privilege_denied backend_failure : ErrorKind
  verification_failure partial_completion internal : ErrorKind

unfoldable pub exit_code : ErrorKind → ExitCode
exit_code ErrorKind.invalid_input = ExitCode.invalid_input
exit_code ErrorKind.unresolved_package = ExitCode.unresolved_package
exit_code ErrorKind.ambiguous_package = ExitCode.ambiguous_package
exit_code ErrorKind.policy_rejected = ExitCode.policy_rejected
exit_code ErrorKind.catalog_failure = ExitCode.catalog_failure
exit_code ErrorKind.backend_absent = ExitCode.backend_absent
exit_code ErrorKind.privilege_denied = ExitCode.privilege_denied
exit_code ErrorKind.backend_failure = ExitCode.backend_failure
exit_code ErrorKind.verification_failure = ExitCode.verification_failure
exit_code ErrorKind.partial_completion = ExitCode.partial_completion
exit_code ErrorKind.internal = ExitCode.internal_error

unfoldable pub reason_code : ErrorKind → String
reason_code ErrorKind.invalid_input = "input.invalid"
reason_code ErrorKind.unresolved_package = "resolution.unresolved"
reason_code ErrorKind.ambiguous_package = "resolution.ambiguous"
reason_code ErrorKind.policy_rejected = "policy.rejected"
reason_code ErrorKind.catalog_failure = "catalog.invalid"
reason_code ErrorKind.backend_absent = "backend.absent"
reason_code ErrorKind.privilege_denied = "privilege.denied"
reason_code ErrorKind.backend_failure = "backend.failed"
reason_code ErrorKind.verification_failure = "verification.failed"
reason_code ErrorKind.partial_completion = "execution.partial"
reason_code ErrorKind.internal = "internal.error"

pub record SiorbError : Type 0 where
  pub kind : ErrorKind
  pub reason : String
  pub state_changed : Bool

-- `SiorbError::new`, `with_reason` and `after_change`.
unfoldable pub new_error : ErrorKind → SiorbError
unfolding reason_code
new_error k = record { kind = k; reason = reason_code k; state_changed = false }

abbrev pub with_reason : ErrorKind → String → SiorbError
with_reason k code = record { kind = k; reason = code; state_changed = false }

abbrev pub after_change : SiorbError → SiorbError
after_change e = record e { state_changed = true }

-- `std::result::Result<T, SiorbError>`
pub data Result {ℓ} (T : Type ℓ) : Type ℓ where
  ok : T → Result T
  err : SiorbError → Result T

-- `option.ok_or_else(|| e)`
abbrev pub ok_or {ℓ} : {T : Type ℓ} → Option T → SiorbError → Result T
ok_or none e = err e
ok_or (some found) e = ok found

-- `if test { return Err(e) }`
abbrev pub reject_if : Bool → SiorbError → Result (Unit {0})
reject_if failing e = elim failing [ true ↦ err e | false ↦ ok tt ]

-- `?`: an error ends the function with it.
infixl 5 ◌>>=◌ ◌>>◌
abbrev pub ◌>>=◌ {ℓ κ} :
    {T : Type ℓ} {U : Type κ} (attempt : Result T) (then_do : T → Result U) → Result U
err stop >>= then_do = err stop
ok value >>= then_do = then_do value

abbrev pub ◌>>◌ {ℓ} : {U : Type ℓ} (check : Result (Unit {0})) (rest : Result U) → Result U
check >> rest = check >>= λ done. rest

-- If a function with a `?` succeeds, so does what the `?` stands on.
pub >>=-eq-ok {ℓ κ} :
    {T : Type ℓ} {U : Type κ} (attempt : Result T) (then_do : T → Result U) {result : U}
    (succeeds : (attempt >>= then_do) ≡ ok result)
    → (value : T) × (attempt ≡ ok value) × (then_do value ≡ ok result)
>>=-eq-ok (err stop) then_do succeeds = cc
>>=-eq-ok (ok value) then_do succeeds = (value, refl, succeeds)

-- If a function with a check succeeds, the check passed and the rest succeeds.
pub reject_if-eq-ok {ℓ} :
    {U : Type ℓ} (failing : Bool) (e : SiorbError) (rest : Result U) {result : U}
    → (reject_if failing e >> rest) ≡ ok result
    → (failing ≡ false) × (rest ≡ ok result)
reject_if-eq-ok true e rest succeeds = cc
reject_if-eq-ok false e rest succeeds = (refl, succeeds)

pub ok_or-eq-ok {ℓ} :
    {T : Type ℓ} (found : Option T) (e : SiorbError) {value : T}
    → ok_or found e ≡ ok value
    → found ≡ some value
ok_or-eq-ok none e succeeds = cc
ok_or-eq-ok (some other) e succeeds = cc
