-- ===== src/Scenarios/Hosts.antt =====
-- Tables of hosts and changes at concrete inputs.
use ingress_nextgen.Common.{
  ==_refl, Bool-cases, List, Memᴰ, String, [], false, inl, inr, not, refl, string_eq, true, ℕ_eq,
  ◌==◌, ◌↔◌, ◌∷◌, ◌≡◌, ◌≤◌,
}
use ingress_nextgen.Common.Maps.{Map, lookup}
use ingress_nextgen.Resources.{
  Resource, VirtualServerConfiguration, choose_object_meta_winner, get_key_with_kind,
  virtual_server,
}
use ingress_nextgen.Resources.Order.{
  choose_object_meta_winner_total, choose_object_meta_winner_trans,
}
use ingress_nextgen.Changes.{Operation, ResourceChange, change, final_op, squash_resource_changes}
use ingress_nextgen.Changes.Shape.{
  IsDeletesFirst, count_key, squash_resource_changes-IsDeletesFirst, squash_resource_changes_once,
}
use ingress_nextgen.Changes.Squash.{final_op-squash_resource_changes}
use ingress_nextgen.Hosts.Detect.{host_changes}
use ingress_nextgen.Hosts.Holding.{IsActive, IsTable, claims}
use ingress_nextgen.Hosts.Applied.{IsConfigured, host_changes_lem}
use ingress_nextgen.Problems.{
  ConfigurationProblem, detect_changes_in_problems, virtual_server_object,
}
use ingress_nextgen.Problems.Detect.{IsReported, detect_changes_in_problems_lem}
use ingress_nextgen.Changes.Effect.{holds_key}
use ingress_nextgen.Scenarios.{cafe, meta_of, server, tea}
use mathlib.Core.Option.{some-injective}
use mathlib.Core.Path.{subst}
use text.Mathlib.TextEquality.{eq_iff}

abbrev table_of : VirtualServerConfiguration → Map String Resource
table_of vsc = (vsc.virtual_server.host, virtual_server vsc) ∷ []

table_of-IsTable : (vsc : VirtualServerConfiguration) → IsTable (table_of vsc)
unfolding lookup
table_of-IsTable vsc h h' r q = elim (Bool-cases (vsc.virtual_server.host == h)) [
  | inl t ↦
      let e : virtual_server vsc ≡ r = some-injective _ _ (rw t at q) in
      subst (λ s. holds_key (get_key_with_kind s) (table_of vsc) h' ≡ claims s h') e
        (elim (Bool-cases (vsc.virtual_server.host == h')) [
          | inl u ↦ rw (u, holds_key) (rw ==_refl)
          | inr n ↦ rw (n, holds_key)
        ])
  | inr n ↦ cc (rw n at q)
]

abbrev cafe_table : Map String Resource
cafe_table = table_of (server cafe)

abbrev tea_table : Map String Resource
tea_table = table_of (server tea)

host_changes_lem_example :
    IsConfigured "VirtualServer/default/tea" cafe_table
      (final_op "VirtualServer/default/tea" (host_changes cafe_table tea_table))
    ↔ IsActive "VirtualServer/default/tea" tea_table
host_changes_lem_example =
    host_changes_lem cafe_table tea_table "VirtualServer/default/tea"
      (table_of-IsTable (server cafe)) (table_of-IsTable (server tea))

abbrev handover : List ResourceChange
handover =
    change Operation.delete (virtual_server (server cafe))
    ∷ change Operation.add_or_update (virtual_server (server tea))
    ∷ change Operation.add_or_update (virtual_server (server cafe))
    ∷ []

final_op-squash_resource_changes_example :
    final_op "VirtualServer/default/cafe" (squash_resource_changes handover)
    ≡ final_op "VirtualServer/default/cafe" handover
final_op-squash_resource_changes_example =
    final_op-squash_resource_changes "VirtualServer/default/cafe" handover

squash_resource_changes_once_example :
    count_key "VirtualServer/default/cafe" (squash_resource_changes handover) ≤ 1
squash_resource_changes_once_example =
    squash_resource_changes_once "VirtualServer/default/cafe" handover

squash_resource_changes-IsDeletesFirst_example : IsDeletesFirst (squash_resource_changes handover)
squash_resource_changes-IsDeletesFirst_example = squash_resource_changes-IsDeletesFirst handover

uids_differ : false ≡ true → ⊥
uids_differ e = cc e

choose_object_meta_winner_total_example :
    choose_object_meta_winner cafe.meta tea.meta
    ≡ not (choose_object_meta_winner tea.meta cafe.meta)
choose_object_meta_winner_total_example =
    choose_object_meta_winner_total cafe.meta tea.meta (λ e. uids_differ ((eq_iff "1" "2").1 e))

choose_object_meta_winner_trans_example :
    choose_object_meta_winner tea.meta (meta_of "milk" "3" 12) ≡ true
unfolding choose_object_meta_winner
choose_object_meta_winner_trans_example =
    choose_object_meta_winner_trans tea.meta cafe.meta (meta_of "milk" "3" 12) refl refl

abbrev taken : ConfigurationProblem
taken = record {
  object = virtual_server_object cafe;
  is_error = false;
  reason = "Rejected";
  message = "Host is taken by another resource";
}

detect_changes_in_problems_lem_example :
    Memᴰ taken (detect_changes_in_problems (("VirtualServer/default/cafe", taken) ∷ []) [])
    ↔ ((k : String) × IsReported (("VirtualServer/default/cafe", taken) ∷ []) [] taken k)
detect_changes_in_problems_lem_example =
    detect_changes_in_problems_lem (("VirtualServer/default/cafe", taken) ∷ []) [] taken
