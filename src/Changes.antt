-- ===== src/Changes.antt =====
-- What a rebuild hands to the rest of the controller (internal/k8s/configuration.go): the changes
-- of resources, how they are made from the changed hosts or listeners, and how they are squashed.
pub mod Squash
pub mod Shape
pub mod Effect
use ingress_nextgen.Common.{
  Eq, List, Option, String, [], if◌then◌else◌, none, some, string_eq, ℕ_eq, ◌+++◌, ◌==◌, ◌∷◌,
}
use ingress_nextgen.Common.Maps.{Map, insert, lookup, remove}
use ingress_nextgen.Resources.{Resource, get_key_with_kind}

pub data Operation : Type 0 where
  delete add_or_update : Operation

pub record ResourceChange : Type 0 where
  pub op : Operation
  pub resource : Resource
  pub error : String

-- A change as it is first made, with no error.
abbrev pub change : Operation → Resource → ResourceChange
change op r = record { op = op; resource = r; error = "" }

abbrev pub change_key : ResourceChange → String
change_key c = get_key_with_kind c.resource

module _ {K : Type 0} ⦃e : Eq K⦄ where
  -- `m[h]`, for a host that the caller found in the map; a host that is not there gives no change.
  abbrev pub changes_at :
      Map K Resource → K → (Resource → List ResourceChange) → List ResourceChange
  changes_at m h f = elim (lookup h m) [ none ↦ [] | some r ↦ f r ]

  -- one change of the operation for each of the hosts
  unfoldable pub changes_for : Operation → Map K Resource → List K → List ResourceChange
  changes_for op m [] = []
  changes_for op m (h ∷ hs) = changes_at m h (λ r. change op r ∷ []) +++ changes_for op m hs

  -- the delete changes of the updated hosts: of each that has gone over to another resource
  unfoldable pub handover_deletes : Map K Resource → Map K Resource → List K → List ResourceChange
  handover_deletes old new [] = []
  handover_deletes old new (h ∷ hs) =
      changes_at old h (λ r.
        changes_at new h
          (λ s. if get_key_with_kind r == get_key_with_kind s then [] else change delete r ∷ []))
      +++ handover_deletes old new hs

  -- The delete changes come first.
  unfoldable pub create_resource_changes :
      List K → List K → List K → Map K Resource → Map K Resource → List ResourceChange
  unfolding changes_for handover_deletes
  create_resource_changes removed updated added old new =
      (changes_for delete old removed +++ handover_deletes old new updated)
      +++ (changes_for add_or_update new updated +++ changes_for add_or_update new added)

unfoldable pub create_resource_changes_for_hosts :
    List String
    → List String
    → List String
    → Map String Resource
    → Map String Resource
    → List ResourceChange
unfolding create_resource_changes
create_resource_changes_for_hosts removed updated added old new =
    create_resource_changes removed updated added old new

-- changesPerResource[key] = append(changesPerResource[key], c)
unfoldable pub add_change :
    ResourceChange → Map String (List ResourceChange) → Map String (List ResourceChange)
add_change c m =
    insert (change_key c)
      (elim (lookup (change_key c) m) [ none ↦ c ∷ [] | some cs ↦ cs +++ c ∷ [] ]) m

-- the first loop
unfoldable pub group_changes :
    Map String (List ResourceChange) → List ResourceChange → Map String (List ResourceChange)
unfolding add_change
group_changes m [] = m
group_changes m (c ∷ cs) = group_changes (add_change c m) cs

-- resChanges[len(resChanges)-1], of `c ∷ cs`
unfoldable pub last_change : ResourceChange → List ResourceChange → ResourceChange
last_change c [] = c
last_change c (d ∷ ds) = last_change d ds

-- A change goes to the end of the deletes or of the updates, as its operation says; in the order
-- of the recursion that is in front of those that follow.
unfoldable pub file_change :
    ResourceChange
    → List ResourceChange × List ResourceChange
    → List ResourceChange × List ResourceChange
file_change c (deletes, updates) = elim c.op [
  | delete ↦ (c ∷ deletes, updates)
  | add_or_update ↦ (deletes, c ∷ updates)
]

-- the second loop: the deletes and the updates, one for each resource
unfoldable pub squash_loop :
    Map String (List ResourceChange)
    → List ResourceChange
    → List ResourceChange × List ResourceChange
unfolding file_change last_change
squash_loop m [] = ([], [])
squash_loop m (c ∷ cs) = elim (lookup (change_key c) m) [
  | none ↦ squash_loop m cs
  | some [] ↦ squash_loop (remove (change_key c) m) cs
  | some (d ∷ ds) ↦ file_change (last_change d ds) (squash_loop (remove (change_key c) m) cs)
]

unfoldable pub squash_resource_changes : List ResourceChange → List ResourceChange
unfolding squash_loop group_changes
squash_resource_changes changes =
    let filed = squash_loop (group_changes [] changes) changes in filed.0 +++ filed.1

-- What becomes of a resource when the changes are carried out in order: the operation of the last
-- change that names it.
abbrev pub final_op : String → List ResourceChange → Option Operation
final_op k [] = none
final_op k (c ∷ cs) = elim (final_op k cs) [
  | some o ↦ some o
  | none ↦ if change_key c == k then some c.op else none
]
