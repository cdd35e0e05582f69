-- ===== src/State/Store/Snapshot.antt =====
-- What pins and holds change of the installed packages that a resolution sees.
use siorb.Shared.{
  Bool, true, false, Option, none, some, String, ◌==◌, ◌≡◌, refl, List, [], ◌∷◌, map, Map, get,
  contains_key, arith, eq_iff, ◌⊎◌, inl, inr, insert, remove, if◌then◌else◌, get-insert, get-remove,
  contains_key-insert, contains_key-get,
}
use siorb.Core.Errors.{ok}
use siorb.Core.Platform.{InstalledPackage}
use siorb.State.Store.{
  StateStore, Preferences, Receipt, installed_from, receipts, installed_snapshot,
  validate_component, pin, unpin, hold, unhold,
}

-- The snapshot with one package's pin, or hold, set.
abbrev pub repin : String → Option String → InstalledPackage → InstalledPackage
repin name version i = if i.logical_id == name then record i { pinned = version } else i

abbrev pub rehold : String → Bool → InstalledPackage → InstalledPackage
rehold name held i = if i.logical_id == name then record i { held = held } else i

contains_key-remove :
    (k i : String) (m : Map (Unit {0}))
    → contains_key (remove k m) i ≡ (if k == i then false else contains_key m i)
contains_key-remove k i m =
    ground (arith, contains_key-get i (remove k m), contains_key-get i m, get-remove k i m)

map_congr :
    (f g : Receipt → InstalledPackage) (h : InstalledPackage → InstalledPackage) (l : List Receipt)
    → ((r : Receipt) → f r ≡ h (g r))
    → map f l ≡ map h (map g l)
map_congr f g h [] e = refl
map_congr f g h (r ∷ l) e = ground (arith, e r, map_congr f g h l e)

snapshot-pins :
    (name : String) (version : Option String) (pins : Map (Option String)) (store : StateStore)
    → ((i : String)
        → get pins i ≡ (if name == i then some version else get store.preferences.pins i))
      ⊎ ((version ≡ none)
          × ((i : String)
              → get pins i ≡ (if name == i then none else get store.preferences.pins i)))
    → (preferences : Preferences) → preferences ≡ record (store.preferences) { pins = pins }
    → installed_snapshot (record store { preferences = preferences })
      ≡ map (repin name version) (installed_snapshot store)
unfolding installed_snapshot
snapshot-pins name version pins store e preferences same =
    map_congr (installed_from preferences) (installed_from store.preferences) (repin name version)
      (receipts store)
      λ r. elim e [
        | inl some_version ↦ ground (
          arith,
          same,
          some_version r.logical_id,
          eq_iff r.logical_id name,
          eq_iff name r.logical_id,
        )
        | inr (gone, no_version) ↦ ground (
          arith,
          same,
          gone,
          no_version r.logical_id,
          eq_iff r.logical_id name,
          eq_iff name r.logical_id,
        )
      ]

snapshot-holds :
    (name : String) (held : Bool) (holds : Map (Unit {0})) (store : StateStore)
    → ((i : String)
        → contains_key holds i
          ≡ (if name == i then held else contains_key store.preferences.holds i))
    → (preferences : Preferences) → preferences ≡ record (store.preferences) { holds = holds }
    → installed_snapshot (record store { preferences = preferences })
      ≡ map (rehold name held) (installed_snapshot store)
unfolding installed_snapshot
snapshot-holds name held holds store e preferences same =
    map_congr (installed_from preferences) (installed_from store.preferences) (rehold name held)
      (receipts store)
      λ r. ground (arith, same, e r.logical_id, eq_iff r.logical_id name, eq_iff name r.logical_id)

contains_key-insert_if :
    (k i : String) (m : Map (Unit {0}))
    → contains_key (insert k tt m) i ≡ (if k == i then true else contains_key m i)
contains_key-insert_if k i m = ground (arith, contains_key-insert k i tt m)

-- `pin` of a safe name succeeds. In the snapshot afterwards the packages of that name have the
-- pin, and all else is as before. `unpin` takes the pin away in the same way, and tells whether
-- there was an entry for the name.
pub installed_snapshot-pin :
    (name : String) (version : Option String) (store : StateStore)
    → validate_component name ≡ ok tt
    → ((store' : StateStore) × (pin name version store ≡ ok store')
        × (installed_snapshot store' ≡ map (repin name version) (installed_snapshot store)))
      × (installed_snapshot (unpin name store).0 ≡ map (repin name none) (installed_snapshot store))
      × ((unpin name store).1 ≡ contains_key store.preferences.pins name)
unfolding pin unpin
installed_snapshot-pin name version store valid =
    let p = store.preferences in
    (
      (
        record store { preferences = record p { pins = insert name version p.pins } },
        rw valid,
        snapshot-pins name version (insert name version p.pins) store
            (inl (λ i. get-insert name i version p.pins)) _ refl,
      ),
      snapshot-pins name none (remove name p.pins) store (inr (refl, λ i. get-remove name i p.pins))
          _ refl,
      refl,
    )

-- `hold` of a safe name succeeds. In the snapshot afterwards the packages of that name are held,
-- and all else is as before. `unhold` releases them in the same way, and tells whether the name
-- was held.
pub installed_snapshot-hold :
    (name : String) (store : StateStore)
    → validate_component name ≡ ok tt
    → ((store' : StateStore) × (hold name store ≡ ok store')
        × (installed_snapshot store' ≡ map (rehold name true) (installed_snapshot store)))
      × (installed_snapshot (unhold name store).0
          ≡ map (rehold name false) (installed_snapshot store))
      × ((unhold name store).1 ≡ contains_key store.preferences.holds name)
unfolding hold unhold
installed_snapshot-hold name store valid =
    let p = store.preferences in
    (
      (
        record store { preferences = record p { holds = insert name tt p.holds } },
        rw valid,
        snapshot-holds name true (insert name tt p.holds) store
            (λ i. contains_key-insert_if name i p.holds) _ refl,
      ),
      snapshot-holds name false (remove name p.holds) store
          (λ i. contains_key-remove name i p.holds) _ refl,
      refl,
    )
