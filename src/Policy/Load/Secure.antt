-- ===== src/Policy/Load/Secure.antt =====
-- What the built-in layer guarantees of every policy that the program loads.
use siorb.Shared.{◌≤◌, true, false, Option, String, ◌==◌, ◌≡◌, sym, List, ◌∷◌, arith}
use siorb.Core.Errors.{ok, >>=-eq-ok}
use siorb.Core.Platform.{Operation}
use siorb.Catalog.{PackageManifest, PackageSource}
use siorb.Policy.Layers.{PolicyFile, LayeredPolicy, secure_defaults, new_policy, validate_all}
use siorb.Policy.Checks.{PolicyEvaluationContext, Services, no_digest}
use siorb.Policy.Evaluate.{evaluate_with_context}
use siorb.Policy.Evaluate.Guarantees.{level_of, secure_first}
use siorb.Policy.Load.{PolicyPlaces, load_all, policy_paths, load_policy}

-- The built-in layer that stands in front is not put there again.
new_policy-layers :
    (files : List PolicyFile) (policy : LayeredPolicy)
    → new_policy (secure_defaults ∷ files) ≡ ok policy
    → policy.layers ≡ secure_defaults ∷ files
unfolding new_policy secure_defaults
new_policy-layers files policy h =
    let (u, valid, e) = >>=-eq-ok (validate_all (secure_defaults ∷ files)) _ h in
    sym (ground (arith, e))

-- Whatever the machine's, the organization's, the user's and the explicit policy file say: an
-- operation that a policy from `load_policy` allows is on the stable channel, its source has at
-- least the provenance of a backend repository, and a direct artifact has a digest.
pub load_policy-secure :
    (places : PolicyPlaces) (explicit : Option String) (services : Services)
    (policy : LayeredPolicy) (manifest : PackageManifest) (source : PackageSource)
    (operation : Operation) (context : PolicyEvaluationContext)
    → load_policy places explicit ≡ ok policy
    → (evaluate_with_context services policy manifest source operation context).allowed ≡ true
    → ((source.channel == "stable") ≡ true)
      × (3 ≤ level_of source)
      × ((source.backend == "artifact") ≡ true → no_digest source.verification ≡ false)
unfolding load_policy
load_policy-secure places explicit services policy manifest source operation context loaded
      allowed =
    let (files, e, built) = >>=-eq-ok (load_all places (policy_paths places explicit)) _ loaded in
    secure_first services files policy manifest source operation context
      (new_policy-layers files policy built) allowed
