-- ===== src/Resolver/Resolve/Criteria.antt =====
-- What it means for a candidate that no rejection of a kind stands.
use siorb.Shared.{
  true, false, ◌≡◌, ◌≢◌, refl, ◌⊎◌, inl, inr, Option, none, some, String, ◌==◌, eq_iff, List, [],
  ◌∷◌, any, is_empty, arith, Bool-cases, Option-cases,
}
use siorb.Core.Platform.{
  Operation, Architecture, InstalledPackage, PlatformContext, BackendInfo, architecture_eq,
  normalize, backend,
}
use siorb.Catalog.{PackageSource, tool_backend}
use siorb.Policy.Layers.{PolicyDecision, PolicyReason}
use siorb.Resolver.Host.{
  ResolveOptions, platform_matches, architecture_differs, architecture_or, scope_differs,
  other_source, other_backend, host_rejections, backend_rejections,
}
use siorb.Resolver.Candidate.{reasons_as_rejections, policy_rejections, state_rejections}

-- What request and host ask of a source.
pub record Fits (platform : PlatformContext) (options : ResolveOptions) (s : PackageSource)
    : Type 0 where
  pub on_platform : platform_matches platform s.platform s.distributions ≡ true
  pub architecture :
      (is_empty s.architectures ≡ true)
      ⊎ (any
            (λ (value : String).
              architecture_eq
                (normalize value)
                (architecture_or platform.architecture options.architecture))
            s.architectures
          ≡ true)
  pub channel : s.channel ≡ options.channel
  pub scope : scope_differs s options.scope ≡ false
  pub source_asked : (asked : String) → options.source ≡ some asked → s.id ≡ asked
  pub backend_asked :
      (asked : String) → options.via ≡ some asked → (asked ≡ s.backend) ⊎ (asked ≡ tool_backend s)

module _ (platform : PlatformContext) (options : ResolveOptions) (s : PackageSource) where
  -- No rejection stands if all tests fail.
  host_tests :
      is_empty (host_rejections platform s options) ≡ true
      → (platform_matches platform s.platform s.distributions ≡ true)
        × (architecture_differs s (architecture_or platform.architecture options.architecture)
            ≡ false)
        × ((s.channel == options.channel) ≡ true)
        × (scope_differs s options.scope ≡ false)
        × (other_source s options.source ≡ false)
        × (other_backend s options.via ≡ false)
  unfolding host_rejections
  host_tests h = ground (arith, h)

  lists_architecture :
      (wanted : Architecture)
      → architecture_differs s wanted ≡ false
      → (is_empty s.architectures ≡ true)
        ⊎ (any (λ (value : String). architecture_eq (normalize value) wanted) s.architectures
            ≡ true)
  unfolding architecture_differs
  lists_architecture wanted h = elim (Bool-cases (is_empty s.architectures)) [
    | inl empty ↦ inl empty
    | inr some_ ↦ inr (ground (arith, h, some_))
  ]

  same_source :
      (wanted : Option String) (asked : String)
      → other_source s wanted ≡ false
      → wanted ≡ some asked
      → s.id ≡ asked
  same_source none asked h e = cc
  same_source (some wanted) asked h e = ground (arith, h, e, eq_iff wanted s.id)

  same_backend :
      (wanted : Option String) (asked : String)
      → other_backend s wanted ≡ false
      → wanted ≡ some asked
      → (asked ≡ s.backend) ⊎ (asked ≡ tool_backend s)
  same_backend none asked h e = cc
  same_backend (some wanted) asked h e =
      ground (arith, h, e, eq_iff wanted s.backend, eq_iff wanted (tool_backend s))

  pub host_rejections-Fits :
      is_empty (host_rejections platform s options) ≡ true → Fits platform options s
  host_rejections-Fits h =
      let (on, listed, channel, scope, source, via) = host_tests h in
      record {
        on_platform = on;
        architecture = lists_architecture _ listed;
        channel = (eq_iff s.channel options.channel).0 channel;
        scope = scope;
        source_asked = λ asked e. same_source options.source asked source e;
        backend_asked = λ asked e. same_backend options.via asked via e;
      }

-- The source can be reached: an artifact on a host that is online, another one by its backend.
abbrev pub IsReachable : PlatformContext → PackageSource → Type 0
IsReachable platform s =
    ((s.backend ≡ "artifact") × (platform.offline ≡ false))
    ⊎ ((s.backend ≢ "artifact")
        × ((found : BackendInfo) × (backend platform (tool_backend s) ≡ some found)))

pub backend_rejections-IsReachable :
    (platform : PlatformContext) (s : PackageSource)
    → is_empty (backend_rejections platform s) ≡ true
    → IsReachable platform s
unfolding backend_rejections
backend_rejections-IsReachable platform s h = elim (Bool-cases (s.backend == "artifact")) [
  | inl artifact ↦ inl ((eq_iff s.backend "artifact").0 artifact, ground (arith, h, artifact))
  | inr native ↦ inr (
    ground (arith, native, eq_iff s.backend "artifact"),
    elim (Option-cases (backend platform (tool_backend s))) [
      | inl absent ↦ absurd (ground (arith, h, native, absent))
      | inr found ↦ found
    ],
  )
]

-- What the machine's state allows: a held package is neither removed nor upgraded, and a version
-- that is asked for is the pinned one.
abbrev pub KeepsState : Option InstalledPackage → Operation → Option String → Type 0
KeepsState none operation version = Unit
KeepsState (some installed) operation version =
    (installed.held ≡ true → (operation ≢ Operation.remove) × (operation ≢ Operation.upgrade))
    × ((pin asked : String) → installed.pinned ≡ some pin → version ≡ some asked → asked ≡ pin)

pub state_rejections-KeepsState :
    (installed : Option InstalledPackage) (operation : Operation) (version : Option String)
    → is_empty (state_rejections installed operation version) ≡ true
    → KeepsState installed operation version
unfolding state_rejections
state_rejections-KeepsState none operation version h = tt
state_rejections-KeepsState (some installed) operation version h = (
  λ held. (λ e. ground (arith, h, held, e), λ e. ground (arith, h, held, e)),
  λ pin asked e k. ground (arith, h, e, k, eq_iff pin asked),
)

is_empty-reasons_as_rejections :
    (reasons : List PolicyReason) → is_empty (reasons_as_rejections reasons) ≡ is_empty reasons
is_empty-reasons_as_rejections [] = refl
is_empty-reasons_as_rejections (reason ∷ reasons) = refl

pub policy_rejections-allowed :
    (decision : PolicyDecision)
    → decision.allowed ≡ is_empty decision.reasons
    → is_empty (policy_rejections decision) ≡ true
    → decision.allowed ≡ true
unfolding policy_rejections
policy_rejections-allowed decision same k = elim (Bool-cases decision.allowed) [
  | inl fine ↦ fine
  | inr denied ↦ ground (arith, denied, k, same, is_empty-reasons_as_rejections decision.reasons)
]
