-- ===== src/Minions/Index.antt =====
-- The index minionsByHost: updateMinionIndex and removeMinionFromIndex.
use ingress_nextgen.Common.{
  Bool, Option, String, [], false, if◌then◌else◌, none, some, string_eq, true, ℕ_eq, ◌∷◌,
}
use ingress_nextgen.Common.Maps.{Map, insert, lookup, remove}
use ingress_nextgen.Objects.{Ingress}
use ingress_nextgen.Minions.{is_minion}

abbrev pub MinionIndex : Type 0
MinionIndex = Map String (Map String Bool)

-- `keys[key]` on a map of booleans: false for a missing key
abbrev pub marked : String → Map String Bool → Bool
marked k m = elim (lookup k m) [ none ↦ false | some b ↦ b ]

-- The loop ends at the first host that has the key, and drops the host when nothing is left of it.
unfoldable pub remove_minion_from_index : String → MinionIndex → MinionIndex
remove_minion_from_index key [] = []
remove_minion_from_index key ((host, ks) ∷ index) =
    if marked key ks
    then elim (remove key ks) [ [] ↦ index | k ∷ rest ↦ (host, k ∷ rest) ∷ index ]
    else (host, ks) ∷ remove_minion_from_index key index

-- the host under which an Ingress is indexed: only a minion with a rule is
unfoldable pub index_host : Option Ingress → Option String
index_host none = none
index_host (some ing) =
    if is_minion ing then elim ing.rules [ [] ↦ none | r ∷ _ ↦ some r.host ] else none

unfoldable pub update_minion_index : String → Option Ingress → MinionIndex → MinionIndex
unfolding remove_minion_from_index index_host
update_minion_index key ing index =
    let index' = remove_minion_from_index key index in
    elim (index_host ing) [
      | none ↦ index'
      | some host ↦
          insert host (insert key true (elim (lookup host index') [ none ↦ [] | some ks ↦ ks ]))
            index'
    ]
