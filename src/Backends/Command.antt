-- ===== src/Backends/Command.antt =====
-- crates/siorb-backends/src/lib.rs: `CommandSpec::validate` and `NativeAdapter::build_command`.
-- Whether a path is absolute is asked of the host (`Path::is_absolute`).
pub mod Checked
use siorb.Shared.{
  ◌*◌, Bool, true, false, ◌&&◌, ◌||◌, not, Option, String, ◌==◌, List, [], ◌∷◌, length, any, len,
  is_control, is_whitespace, one_of, text_empty, starts_with_char, contains_text, chars_any, eqb,
  ltb, within,
}
use siorb.Core.Errors.{Result, ok, ErrorKind, with_reason, ◌>>=◌, ◌>>◌, reject_if}
use siorb.Core.Platform.{Operation, BackendInfo}
use siorb.Catalog.{PackageSource}
use siorb.Policy.Versions.{Semver}
use siorb.Resolver.Constraint.{Requirements, VersionConstraint}
use siorb.Backends.{CommandSpec, PlanOptions, BackendKind, adapter_error, backend_id}
use siorb.Backends.Arguments.{arguments_with_version}

abbrev pub unsafe_argument : String → Bool
unsafe_argument argument =
    ltb 8192 (len argument)
    || chars_any (eqb 0) argument
    || chars_any (λ c. is_control c && not (eqb c 9)) argument

-- `CommandSpec::validate`
unfoldable pub validate_command : (String → Bool) → CommandSpec → Result (Unit {0})
validate_command is_absolute command = do
  reject_if (not (is_absolute command.executable) || chars_any is_control command.executable)
      (adapter_error "backend.executable.unsafe")
  reject_if (ltb 128 (length command.arguments) || any unsafe_argument command.arguments)
      (adapter_error "backend.arguments.unsafe")
  reject_if (not (eqb (length command.redacted_arguments) (length command.arguments)))
      (adapter_error "backend.redaction.invalid")
  reject_if
      (not (within 1 3600 command.timeout_seconds)
        || not (within 1024 (16 * 1024 * 1024) command.max_output_bytes))
      (adapter_error "backend.bounds.invalid")

unfoldable pub unsafe_package_id : String → Bool
unsafe_package_id value =
    text_empty value
    || ltb 512 (len value)
    || starts_with_char (eqb b'-') value
    || contains_text ".." value
    || chars_any (λ c. is_control c || is_whitespace c || one_of "'\"`$;|&<>" c) value

unfoldable pub validate_package_id : String → Result (Unit {0})
validate_package_id value =
    reject_if (unsafe_package_id value) (adapter_error "backend.package_id.unsafe")

-- `Verify | Adopt`: the operations that only ask.
abbrev pub only_asks : Operation → Bool
only_asks Operation.verify = true
only_asks Operation.adopt = true
only_asks _ = false

abbrev needs_agreement : BackendKind → Operation → Bool
needs_agreement BackendKind.winget Operation.install = true
needs_agreement BackendKind.winget Operation.upgrade = true
needs_agreement _ _ = false

abbrev pub command_for : BackendInfo → PackageSource → Operation → List String → CommandSpec
command_for backend source operation arguments = record {
  executable = backend.executable;
  arguments = arguments;
  redacted_arguments = arguments;
  timeout_seconds = 1800;
  max_output_bytes = 1024 * 1024;
  requires_privilege = source.requires_privilege && not (only_asks operation);
  network = not (only_asks operation);
  environment = ("LANG", "C.UTF-8") ∷ ("LC_ALL", "C.UTF-8") ∷ [];
}

module _ (is_absolute : String → Bool) {semver : Semver} (requirements : Requirements semver) where
  -- `NativeAdapter::build_command`; `command` gives it no constraint.
  unfoldable pub build_command :
      BackendKind
      → Operation
      → BackendInfo
      → PackageSource
      → PlanOptions
      → Option (VersionConstraint requirements)
      → Result CommandSpec
  build_command kind operation backend source options constraint = do
    validate_package_id source.package_id
    reject_if (not backend.available) (with_reason ErrorKind.backend_absent "backend.absent")
    reject_if (not (backend.id == backend_id kind)) (adapter_error "backend.identity.mismatch")
    reject_if
        (needs_agreement kind operation && options.non_interactive && not options.accept_agreements)
        (with_reason ErrorKind.invalid_input "backend.agreement.required")
    arguments ←
        arguments_with_version requirements kind operation source.package_id options constraint
    let command = command_for backend source operation arguments
    validate_command is_absolute command
    ok command
