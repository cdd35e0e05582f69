-- ===== src/Backends/Arguments/Version.antt =====
-- What becomes of an exact version that a constraint asks for.
use siorb.Shared.{
  Bool, true, false, ◌≡◌, refl, sym, ◌∙◌, subst, ◌⊎◌, inl, inr, Option, none, some, String, ◌<>◌,
  List, [], ◌∷◌, Any, not, arith,
}
use siorb.Core.Errors.{ok, ok_or, >>=-eq-ok, reject_if-eq-ok, ok_or-eq-ok}
use siorb.Core.Platform.{Operation}
use siorb.Policy.Versions.{Semver}
use siorb.Resolver.Constraint.{Requirements, VersionConstraint}
use siorb.Backends.{BackendKind, PlanOptions, adapter_error}
use siorb.Backends.Arguments.{
  install_arguments, upgrade_arguments, repair_arguments, arguments_for, unsafe_version,
  validate_version_argument, chooses_version, supports_exact, version_argument,
  arguments_with_version,
}
use siorb.Backends.Arguments.Options.{SafeVersion, is_option}

abbrev Starts : String → List String → Type 0
Starts a [] = ⊥
Starts a (b ∷ rest) = b ≡ a

-- The option stands among the arguments, and its value right behind it.
abbrev pub HasOption : String → String → List String → Type 0
HasOption option value [] = ⊥
HasOption option value (a ∷ rest) = ((a ≡ option) × Starts value rest) ⊎ HasOption option value rest

abbrev pub HasArgument : String → List String → Type 0
HasArgument name arguments = Any (λ (a : String). a ≡ name) arguments

-- The package is asked for in the version: one argument joins the two by `=`, or the package is an
-- argument and the version the value of the option `--version`.
abbrev pub Names : String → String → List String → Type 0
Names name version arguments =
    HasArgument (name <> "=" <> version) arguments
    ⊎ (HasArgument name arguments × HasOption "--version" version arguments)

-- The commands that leave the version out: an upgrade or a repair by apk.
abbrev pub drops_version : BackendKind → Operation → Bool
drops_version BackendKind.apk Operation.upgrade = true
drops_version BackendKind.apk Operation.repair = true
drops_version _ _ = false

module _ (name version : String) (options : PlanOptions) where
  named_of :
      {built arguments : List String}
      → Names name version built
      → ok built ≡ ok arguments
      → Names name version arguments
  named_of {built} {arguments} named h =
      let same : built ≡ arguments = cc in subst (Names name version) same named

  install-Names :
      (kind : BackendKind)
      → supports_exact kind ≡ true
      → Names name version (install_arguments kind name options (some version))
  unfolding install_arguments
  install-Names BackendKind.winget s =
      inr (inr (inr (inl refl)), inr (inr (inr (inr (inr (inl (refl, refl)))))))
  install-Names BackendKind.chocolatey s =
      inr (inr (inr (inr (inl refl))), inr (inr (inr (inr (inl (refl, refl))))))
  install-Names BackendKind.apt s = inl (inr (inr (inr (inl refl))))
  install-Names BackendKind.apk s = inl (inr (inr (inl refl)))
  install-Names _ s = cc

  upgrade-Names :
      (kind : BackendKind)
      → supports_exact kind ≡ true
      → drops_version kind Operation.upgrade ≡ false
      → Names name version (upgrade_arguments kind name options (some version))
  unfolding upgrade_arguments
  upgrade-Names BackendKind.winget s d =
      inr (inr (inr (inl refl)), inr (inr (inr (inr (inr (inl (refl, refl)))))))
  upgrade-Names BackendKind.chocolatey s d =
      inr (inr (inr (inr (inl refl))), inr (inr (inr (inr (inl (refl, refl))))))
  upgrade-Names BackendKind.apt s d = inl (inr (inr (inr (inr (inl refl)))))
  upgrade-Names _ s d = cc

  repair-Names :
      (kind : BackendKind) (arguments : List String)
      → supports_exact kind ≡ true
      → drops_version kind Operation.repair ≡ false
      → repair_arguments kind name (some version) ≡ ok arguments
      → Names name version arguments
  unfolding repair_arguments
  repair-Names BackendKind.winget arguments s d h =
      named_of (inr (inr (inr (inl refl)), inr (inr (inr (inr (inr (inl (refl, refl)))))))) h
  repair-Names BackendKind.chocolatey arguments s d h =
      named_of
        (inr (inr (inr (inr (inr (inl refl)))), inr (inr (inr (inr (inr (inl (refl, refl)))))))) h
  repair-Names BackendKind.apt arguments s d h = named_of (inl (inr (inr (inr (inr (inl refl)))))) h
  repair-Names _ arguments s d h = cc

  arguments_for-Names :
      (kind : BackendKind) (operation : Operation) (arguments : List String)
      → supports_exact kind ≡ true
      → chooses_version operation ≡ true
      → drops_version kind operation ≡ false
      → arguments_for kind operation name options (some version) ≡ ok arguments
      → Names name version arguments
  unfolding arguments_for
  arguments_for-Names kind Operation.install arguments s c d h = named_of (install-Names kind s) h
  arguments_for-Names kind Operation.upgrade arguments s c d h = named_of (upgrade-Names kind s d) h
  arguments_for-Names kind Operation.repair arguments s c d h = repair-Names kind arguments s d h
  arguments_for-Names kind _ arguments s c d h = cc

  -- What apk is given for an upgrade or a repair names the package.
  dropped-HasArgument :
      (kind : BackendKind) (operation : Operation) (arguments : List String)
      → drops_version kind operation ≡ true
      → arguments_for kind operation name options none ≡ ok arguments
      → HasArgument name arguments
  unfolding arguments_for upgrade_arguments repair_arguments
  dropped-HasArgument BackendKind.apk Operation.upgrade arguments d h =
      let same : "upgrade" ∷ "--" ∷ name ∷ [] ≡ arguments = cc in
      subst (HasArgument name) same (inr (inr (inl refl)))
  dropped-HasArgument BackendKind.apk Operation.repair arguments d h =
      let same : "fix" ∷ "--" ∷ name ∷ [] ≡ arguments = cc in
      subst (HasArgument name) same (inr (inr (inl refl)))
  dropped-HasArgument _ _ arguments d h = cc

  -- What apk is given for an upgrade or a repair does not depend on the version.
  arguments_for_drops :
      (kind : BackendKind) (operation : Operation)
      → drops_version kind operation ≡ true
      → arguments_for kind operation name options (some version)
        ≡ arguments_for kind operation name options none
  unfolding arguments_for upgrade_arguments repair_arguments
  arguments_for_drops BackendKind.apk Operation.upgrade d = refl
  arguments_for_drops BackendKind.apk Operation.repair d = refl
  arguments_for_drops _ _ d = cc

module _ {semver : Semver} (requirements : Requirements semver) where
  -- The version that a command is built with: the exact one of the constraint, which backend and
  -- operation can choose.
  abbrev pub Chosen :
      BackendKind → Operation → VersionConstraint requirements → Option String → Type 0
  Chosen kind operation constraint version =
      (v : String) × (constraint.exact ≡ some v)
      × (version ≡ some v)
      × (is_option v ≡ false)
      × (chooses_version operation ≡ true)
      × (supports_exact kind ≡ true)

  pub version_argument-Chosen :
      (kind : BackendKind) (operation : Operation) (constraint : VersionConstraint requirements)
      (version : Option String)
      → version_argument requirements kind operation (some constraint) ≡ ok version
      → Chosen kind operation constraint version
  unfolding version_argument validate_version_argument unsafe_version
  version_argument-Chosen kind operation constraint version h =
      let (chooses, h1) =
        reject_if-eq-ok (not (chooses_version operation))
          (adapter_error "backend.version.operation_unsupported") _ h in
      let (exact, e2, h2) =
        >>=-eq-ok (ok_or constraint.exact (adapter_error "backend.version.range_unsupported")) _
          h1 in
      let (supports, h3) =
        reject_if-eq-ok (not (supports_exact kind)) (adapter_error "backend.version.unsupported") _
          h2 in
      let (fine, h4) =
        reject_if-eq-ok (unsafe_version exact) (adapter_error "backend.version.unsafe") _ h3 in
      (
        exact,
        ok_or-eq-ok constraint.exact (adapter_error "backend.version.range_unsupported") e2,
        cc,
        ground (arith, fine),
        ground (arith, chooses),
        ground (arith, supports),
      )

  pub version_argument-SafeVersion :
      (kind : BackendKind) (operation : Operation)
      (constraint : Option (VersionConstraint requirements)) (version : Option String)
      → version_argument requirements kind operation constraint ≡ ok version
      → SafeVersion version
  unfolding version_argument
  version_argument-SafeVersion kind operation none version h =
      let same : none ≡ version = cc in subst SafeVersion same tt
  version_argument-SafeVersion kind operation (some constraint) version h =
      let (v, exact, same, plain, chooses, supports) =
        version_argument-Chosen kind operation constraint version h in
      subst SafeVersion (sym same) plain

  -- A command for a constraint names the package in the constraint's exact version: joined to the
  -- package by `=`, or as the value of `--version` beside the package. For an upgrade or a repair by
  -- apk it names the package alone, and the arguments are those of the command without a
  -- constraint: the version is dropped.
  pub arguments_with_version-Names :
      (kind : BackendKind) (operation : Operation) (name : String) (options : PlanOptions)
      (constraint : VersionConstraint requirements) (arguments : List String)
      → arguments_with_version requirements kind operation name options (some constraint)
        ≡ ok arguments
      → (v : String) × (constraint.exact ≡ some v)
        × (drops_version kind operation ≡ false → Names name v arguments)
        × (drops_version kind operation ≡ true
            → HasArgument name arguments
              × (arguments_with_version requirements kind operation name options none
                  ≡ ok arguments))
  unfolding arguments_with_version version_argument
  arguments_with_version-Names kind operation name options constraint arguments h =
      let (version, e1, h1) =
        >>=-eq-ok (version_argument requirements kind operation (some constraint)) _ h in
      let (v, exact, same, plain, chooses, supports) =
        version_argument-Chosen kind operation constraint version e1 in
      let built : arguments_for kind operation name options (some v) ≡ ok arguments =
        subst (λ o. arguments_for kind operation name options o ≡ ok arguments) same h1 in
      (
        v,
        exact,
        λ d. arguments_for-Names name v options kind operation arguments supports chooses d built,
        λ d.
            let plain = sym (arguments_for_drops name v options kind operation d) ∙ built in
            (dropped-HasArgument name v options kind operation arguments d plain, plain),
      )
