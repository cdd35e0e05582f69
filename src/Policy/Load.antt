-- ===== src/Policy/Load.antt =====
-- How the program comes by its policy: `PolicyFile::load`, `LayeredPolicy::from_paths`, and
-- `load_policy` of crates/siorb-cli/src/lib.rs.
pub mod Secure
use siorb.Shared.{Bool, Option, none, some, String, List, [], ◌∷◌, ◌++◌, if◌then◌else◌}
use siorb.Core.Errors.{Result, ok, err, ◌>>=◌, ◌>>◌}
use siorb.Policy.Layers.{PolicyFile, LayeredPolicy, secure_defaults, validate, new_policy}

-- The files: reading and decoding one, with the errors `policy.read.failed` and
-- `policy.parse.failed`, and where the environment places the policies.
pub record PolicyPlaces : Type 0 where
  pub read_policy : String → Result PolicyFile
  pub is_file : String → Bool
  pub machine : Option String
  pub organization : Option String
  pub user : Option String

module _ (places : PolicyPlaces) where
  -- `PolicyFile::load`
  unfoldable pub load : String → Result PolicyFile
  load path = do policy ← places.read_policy path; validate policy; ok policy

  unfoldable pub load_all : List String → Result (List PolicyFile)
  load_all [] = ok []
  load_all (path ∷ paths) = do layer ← load path; layers ← load_all paths; ok (layer ∷ layers)

  -- `LayeredPolicy::from_paths`
  unfoldable pub from_paths : List String → Result LayeredPolicy
  from_paths paths = do layers ← load_all paths; new_policy (secure_defaults ∷ layers)

  abbrev existing : Option String → List String
  existing none = []
  existing (some path) = if places.is_file path then path ∷ [] else []

  abbrev given : Option String → List String
  given none = []
  given (some path) = path ∷ []

  -- The paths in the order in which `load_policy` loads them.
  unfoldable pub policy_paths : Option String → List String
  policy_paths explicit =
      existing places.machine ++ given places.organization ++ existing places.user ++ given explicit

  -- `load_policy`
  unfoldable pub load_policy : Option String → Result LayeredPolicy
  load_policy explicit = do
    layers ← load_all (policy_paths explicit)
    new_policy (secure_defaults ∷ layers)
