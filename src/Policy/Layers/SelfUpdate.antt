-- ===== src/Policy/Layers/SelfUpdate.antt =====
-- The self-update decision, and what `LayeredPolicy::new` starts from.
use siorb.Shared.{
  Bool, false, ◌&&◌, ◌||◌, not, none, some, String, ◌≡◌, refl, List, [], ◌∷◌, all, is_empty, arith,
  if◌then◌else◌,
}
use siorb.Core.Errors.{ok, err}
use siorb.Policy.Layers.{
  PolicyFile, LayeredPolicy, policy_error, first_code, self_update_reasons,
  enforce_self_update_with_context,
}

-- The layer disables self-update.
abbrev pub disables : PolicyFile → Bool
disables layer = elim layer.allow_self_update [ none ↦ false | some allowed ↦ not allowed ]

-- The layer lets this invocation update.
abbrev pub lets_update : Bool → PolicyFile → Bool
lets_update dry_run layer = not (disables layer) && (dry_run || not layer.require_dry_run)

is_empty-self_update_reasons :
    (dry_run : Bool) (layers : List PolicyFile)
    → is_empty (self_update_reasons dry_run layers) ≡ all (lets_update dry_run) layers
is_empty-self_update_reasons dry_run [] = refl
is_empty-self_update_reasons dry_run (layer ∷ layers) =
    ground (arith, is_empty-self_update_reasons dry_run layers)

-- The code of the first objection, layer by layer.
abbrev pub first_objection : Bool → List PolicyFile → String
first_objection dry_run [] = "policy.self_update.denied"
first_objection dry_run (layer ∷ layers) =
    let later = first_objection dry_run layers in
    if disables layer
    then "policy.self_update.denied"
    else if layer.require_dry_run && not dry_run
    then "policy.dry_run.required"
    else later

first_code-reasons :
    (dry_run : Bool) (layers : List PolicyFile)
    → first_code (self_update_reasons dry_run layers) ≡ first_objection dry_run layers
first_code-reasons dry_run [] = refl
first_code-reasons dry_run (layer ∷ layers) = ground (arith, first_code-reasons dry_run layers)

-- `enforce_self_update_with_context` succeeds exactly if no layer disables self-update and, outside
-- of a dry run, none requires one; otherwise it fails with the code of the first objection in the
-- order of the layers, of a disabled update before a missing dry run in one layer. So outside of a
-- dry run, where a layer requires one and a later layer disables self-update, the code is
-- `policy.dry_run.required` if no layer before objects.
pub enforce_self_update-deny_wins :
    (dry_run : Bool) (policy : LayeredPolicy)
    → enforce_self_update_with_context dry_run policy ≡ (
        if all (lets_update dry_run) policy.layers
        then ok tt
        else err (policy_error (first_objection dry_run policy.layers)))
unfolding enforce_self_update_with_context
enforce_self_update-deny_wins dry_run policy = ground (
  arith,
  is_empty-self_update_reasons dry_run policy.layers,
  first_code-reasons dry_run policy.layers,
)
