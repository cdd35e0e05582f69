-- ===== src/Backends/Command/Checked.antt =====
-- What every command that `build_command` returns satisfies.
use siorb.Shared.{
  Bool, true, false, ◌≡◌, sym, subst, ap, Option, String, ◌==◌, eq_iff, List, all, not, ◌&&◌,
  text_empty, arith,
}
use siorb.Core.Errors.{ok, ErrorKind, with_reason, >>=-eq-ok, reject_if-eq-ok}
use siorb.Core.Platform.{Operation, BackendInfo}
use siorb.Catalog.{PackageSource}
use siorb.Policy.Versions.{Semver}
use siorb.Resolver.Constraint.{Requirements, VersionConstraint}
use siorb.Backends.{CommandSpec, PlanOptions, BackendKind, adapter_error, backend_id}
use siorb.Backends.Arguments.{version_argument, arguments_with_version}
use siorb.Backends.Arguments.Options.{is_option, is_safe, arguments_for_safe}
use siorb.Backends.Arguments.Version.{version_argument-SafeVersion}
use siorb.Backends.Command.{
  unsafe_package_id, validate_package_id, validate_command, only_asks, needs_agreement, command_for,
  build_command,
}

plain_package :
    (id : String) → unsafe_package_id id ≡ false → (text_empty id ≡ false) × (is_option id ≡ false)
unfolding unsafe_package_id
plain_package id h = ground (arith, h)

asks_quietly :
    (backend : BackendInfo) (source : PackageSource) (operation : Operation)
    (arguments : List String)
    → only_asks operation ≡ true
    → ((command_for backend source operation arguments).network ≡ false)
      × ((command_for backend source operation arguments).requires_privilege ≡ false)
asks_quietly backend source operation arguments h = ground (arith, h)

module _ (is_absolute : String → Bool) {semver : Semver} (requirements : Requirements semver)
    (kind : BackendKind) (operation : Operation) (backend : BackendInfo) (source : PackageSource)
    (options : PlanOptions) (constraint : Option (VersionConstraint requirements))
    (command : CommandSpec)
    (built : build_command is_absolute requirements kind operation backend source options constraint
      ≡ ok command) where
  -- The command is the one for the arguments that backend and operation give.
  build_command-parts :
      (arguments : List String) × (command ≡ command_for backend source operation arguments)
      × (all is_safe arguments ≡ true)
      × (backend.available ≡ true)
      × (backend.id ≡ backend_id kind)
      × (validate_command is_absolute command ≡ ok tt)
  unfolding build_command validate_package_id arguments_with_version
  build_command-parts =
      let (safe_id, h1) =
        reject_if-eq-ok (unsafe_package_id source.package_id)
          (adapter_error "backend.package_id.unsafe") _ built in
      let (available, h2) =
        reject_if-eq-ok (not backend.available)
          (with_reason ErrorKind.backend_absent "backend.absent") _ h1 in
      let (identity, h3) =
        reject_if-eq-ok (not (backend.id == backend_id kind))
          (adapter_error "backend.identity.mismatch") _ h2 in
      let (agreed, h4) =
        reject_if-eq-ok
          (needs_agreement kind operation
            && options.non_interactive
            && not options.accept_agreements)
          (with_reason ErrorKind.invalid_input "backend.agreement.required") _ h3 in
      let (arguments, e5, h5) =
        >>=-eq-ok
          (arguments_with_version requirements kind operation source.package_id options constraint)
          _ h4 in
      let (version, e6, h6) =
        >>=-eq-ok (version_argument requirements kind operation constraint) _ e5 in
      let (valid, e7, h7) =
        >>=-eq-ok (validate_command is_absolute (command_for backend source operation arguments)) _
          h5 in
      let same : command_for backend source operation arguments ≡ command = cc in
      let (named, plain) = plain_package source.package_id safe_id in
      (
        arguments,
        sym same,
        arguments_for_safe source.package_id named plain kind operation options version arguments
            (version_argument-SafeVersion requirements kind operation constraint version e6) h6,
        ground (arith, available),
        (eq_iff backend.id (backend_id kind)).0 (ground (arith, identity)),
        subst (λ (c : CommandSpec). validate_command is_absolute c ≡ ok tt) same e7,
      )

  -- A command that `build_command` returns runs the executable of a backend that is available and
  -- is the one of the source; its package id and version cannot be read as options, since every
  -- argument that begins with a dash is one of those that the program writes; it passes
  -- `CommandSpec::validate`; and for a verification or an adoption it neither uses the network nor
  -- asks for privilege.
  pub build_command_safe :
      (command.executable ≡ backend.executable)
      × (backend.available ≡ true)
      × (backend.id ≡ backend_id kind)
      × (all is_safe command.arguments ≡ true)
      × (validate_command is_absolute command ≡ ok tt)
      × (only_asks operation ≡ true
          → (command.network ≡ false) × (command.requires_privilege ≡ false))
  build_command_safe =
      let (arguments, same, safe, available, identity, valid) = build_command-parts in
      (
        ap (λ (c : CommandSpec). c.executable) same,
        available,
        identity,
        subst (λ (c : CommandSpec). all is_safe c.arguments ≡ true) (sym same) safe,
        valid,
        λ asks.
            subst (λ (c : CommandSpec). (c.network ≡ false) × (c.requires_privilege ≡ false))
              (sym same) (asks_quietly backend source operation arguments asks),
      )
