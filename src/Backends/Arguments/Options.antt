-- ===== src/Backends/Arguments/Options.antt =====
-- Which arguments a package manager reads as options.
use Prim.Native.String.append
use siorb.Shared.{
  Bool, true, false, ◌&&◌, ◌||◌, not, ◌≡◌, refl, subst, Option, none, some, String, ◌<>◌, List, [],
  ◌∷◌, ◌++◌, all, contains, text_empty, starts_with_char, eqb, arith,
}
use siorb.Core.Errors.{ok}
use siorb.Core.Platform.{Operation}
use siorb.Backends.{BackendKind, PlanOptions}
use siorb.Backends.Arguments.{
  with_version, agreements, select_version, install_arguments, remove_arguments, upgrade_arguments,
  repair_arguments, query_arguments, arguments_for,
}

-- The options that the program itself writes.
abbrev pub known_options : List String
known_options =
    "--id" ∷ "--exact" ∷ "--silent" ∷ "--version" ∷ "--accept-package-agreements"
    ∷ "--accept-source-agreements" ∷ "--yes" ∷ "--no-progress" ∷ "--cask" ∷ "--" ∷ "--only-upgrade"
    ∷ "-y" ∷ "-S" ∷ "-R" ∷ "--noconfirm" ∷ "--needed" ∷ "--noninteractive" ∷ "--or-update"
    ∷ "--non-interactive" ∷ "-f" ∷ "--reinstall" ∷ "--force" ∷ "--local-only" ∷ "--versions"
    ∷ "--just-print" ∷ "--installed" ∷ "-Q" ∷ "--installed-only" ∷ "--match-exact" ∷ []

abbrev pub is_option : String → Bool
is_option argument = starts_with_char (eqb b'-') argument

-- An argument that looks like an option is one that the program writes.
abbrev pub is_safe : String → Bool
is_safe argument = not (is_option argument) || contains known_options argument

abbrev pub SafeVersion : Option String → Type 0
SafeVersion none = Unit
SafeVersion (some version) = is_option version ≡ false

is_option-append :
    (name rest : String) → text_empty name ≡ false → is_option (name <> rest) ≡ is_option name
is_option-append String.[] rest h = cc
is_option-append (String.◌∷◌ c name) rest h = rw (append.cons c name rest)

safe_of :
    {built arguments : List String}
    → all is_safe built ≡ true
    → ok built ≡ ok arguments
    → all is_safe arguments ≡ true
safe_of {built} {arguments} safe h =
    let same : built ≡ arguments = cc in subst (λ l. all is_safe l ≡ true) same safe

all-append : (p : String → Bool) (xs ys : List String) → all p (xs ++ ys) ≡ (all p xs && all p ys)
all-append p [] ys = refl
all-append p (x ∷ xs) ys = ground (arith, all-append p xs ys)

module _ (name : String) (named : text_empty name ≡ false) (plain : is_option name ≡ false) where
  selected_safe : (version : Option String) → is_option (select_version name version) ≡ false
  selected_safe none = plain
  selected_safe (some version) = rw (is_option-append name ("=" <> version) named) plain

  all-with_version :
      (version : Option String)
      → SafeVersion version
      → all is_safe (with_version "--version" version) ≡ true
  all-with_version none v = refl
  all-with_version (some version) v = rw v

  remove_safe : (kind : BackendKind) → all is_safe (remove_arguments kind name) ≡ true
  unfolding remove_arguments
  remove_safe BackendKind.winget = rw plain
  remove_safe _ = rw plain

  query_safe : (kind : BackendKind) → all is_safe (query_arguments kind name) ≡ true
  unfolding query_arguments
  query_safe BackendKind.winget = rw plain
  query_safe _ = rw plain

  install_safe :
      (kind : BackendKind) (options : PlanOptions) (version : Option String)
      → SafeVersion version
      → all is_safe (install_arguments kind name options version) ≡ true
  unfolding install_arguments
  install_safe BackendKind.winget options version v = rw plain (
      ground (
        arith,
        all-append is_safe (with_version "--version" version) (agreements options),
        all-with_version version v,
      ))
  install_safe BackendKind.chocolatey options version v = rw plain (all-with_version version v)
  install_safe BackendKind.apt options version v = rw (selected_safe version)
  install_safe BackendKind.apk options version v = rw (selected_safe version)
  install_safe _ options version v = rw plain

  upgrade_safe :
      (kind : BackendKind) (options : PlanOptions) (version : Option String)
      → SafeVersion version
      → all is_safe (upgrade_arguments kind name options version) ≡ true
  unfolding upgrade_arguments
  upgrade_safe BackendKind.winget options version v = rw plain (
      ground (
        arith,
        all-append is_safe (with_version "--version" version) (agreements options),
        all-with_version version v,
      ))
  upgrade_safe BackendKind.chocolatey options version v = rw plain (all-with_version version v)
  upgrade_safe BackendKind.apt options version v = rw (selected_safe version)
  upgrade_safe _ options version v = rw plain

  repair_safe :
      (kind : BackendKind) (version : Option String) (arguments : List String)
      → SafeVersion version
      → repair_arguments kind name version ≡ ok arguments
      → all is_safe arguments ≡ true
  unfolding repair_arguments
  repair_safe BackendKind.winget version arguments v h =
      safe_of (rw plain (all-with_version version v)) h
  repair_safe BackendKind.chocolatey version arguments v h =
      safe_of (rw plain (all-with_version version v)) h
  repair_safe BackendKind.apt version arguments v h = safe_of (rw (selected_safe version)) h
  repair_safe BackendKind.flatpak version arguments v h = cc
  repair_safe _ version arguments v h = safe_of (rw plain) h

  pub arguments_for_safe :
      (kind : BackendKind) (operation : Operation) (options : PlanOptions) (version : Option String)
      (arguments : List String)
      → SafeVersion version
      → arguments_for kind operation name options version ≡ ok arguments
      → all is_safe arguments ≡ true
  unfolding arguments_for
  arguments_for_safe kind Operation.install options version arguments v h =
      safe_of (install_safe kind options version v) h
  arguments_for_safe kind Operation.remove options version arguments v h =
      safe_of (remove_safe kind) h
  arguments_for_safe kind Operation.upgrade options version arguments v h =
      safe_of (upgrade_safe kind options version v) h
  arguments_for_safe kind Operation.repair options version arguments v h =
      repair_safe kind version arguments v h
  arguments_for_safe kind Operation.verify options version arguments v h =
      safe_of (query_safe kind) h
  arguments_for_safe kind Operation.adopt options version arguments v h =
      safe_of (query_safe kind) h
  arguments_for_safe kind Operation.reconcile options version arguments v h = cc
