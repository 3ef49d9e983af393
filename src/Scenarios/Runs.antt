-- ===== src/Scenarios/Runs.antt =====
-- Calls of the configuration at concrete inputs.
use ingress_nextgen.Common.{
  String, [], false, if◌then◌else◌, none, refl, some, string_eq, true, ℕ_eq, ◌==◌, ◌∷◌, ◌≡◌,
}
use ingress_nextgen.Common.Maps.{insert, lookup, sorted_keys}
use ingress_nextgen.Resources.{get_key_with_kind, get_resource_key, virtual_server}
use ingress_nextgen.Minions.Index.{index_host, remove_minion_from_index, update_minion_index}
use ingress_nextgen.Minions.Consistent.{
  IsConsistent, IsConsistent-IsSingle, in_index, in_index-remove_minion_from_index,
}
use ingress_nextgen.Minions.Updated.{update_minion_index-IsConsistent}
use ingress_nextgen.Configuration.{Configuration, new_configuration}
use ingress_nextgen.Configuration.Operations.{
  add_or_update_ingress, add_or_update_virtual_server, ingress_error, store_ingress,
  virtual_server_error,
}
use ingress_nextgen.Configuration.Steps.{
  Call, IsReachable, after, at_start, put_ingress, put_virtual_server, step,
}
use ingress_nextgen.Configuration.Store.{effect, view}
use ingress_nextgen.Configuration.Refined.{step-effect}
use ingress_nextgen.Configuration.Invariant.{reachable-IsSound}
use ingress_nextgen.Configuration.Sound.{IsSound}
use ingress_nextgen.Scenarios.{accepting, cafe, server, shop_minion}
use ingress_nextgen.Minions.{is_minion}
use ingress_nextgen.Configuration.Operations.Reporting.{startup_problems}
use ingress_nextgen.Hosts.{Building}
use ingress_nextgen.Configuration.Build.{add_virtual_servers, build_hosts_and_resources}
use ingress_nextgen.Configuration.Built.{build_hosts_and_resources-IsBuilding}
use ingress_nextgen.Configuration.Owners.{IsBuilding}
use ingress_nextgen.Configuration.Startup.{reachable-startup}

abbrev tea_key : String
tea_key = "default/shop-tea"

abbrev first_call : Call
first_call = put_ingress shop_minion

-- The configuration that has stored the minion, before the end of the startup.
abbrev with_minion : Configuration
with_minion = record {
  hosts = [];
  listener_hosts = [];
  listener_map = [];
  ingresses = ("default/shop-tea", shop_minion) ∷ [];
  virtual_servers = [];
  virtual_server_routes = [];
  transport_servers = [];
  minions_by_host = ("shop.example.com", ("default/shop-tea", true) ∷ []) ∷ [];
  global_configuration = none;
  host_problems = [];
  listener_problems = [];
  startup_complete = false;
  policy_services = [];
}

step-first_call : step accepting first_call new_configuration ≡ some (with_minion, [], [])
unfolding step new_configuration add_or_update_ingress store_ingress ingress_error
    update_minion_index remove_minion_from_index index_host insert lookup is_minion get_resource_key
    startup_problems
step-first_call = refl

with_minion-IsReachable : IsReachable accepting with_minion
with_minion-IsReachable = after first_call (with_minion, [], []) at_start step-first_call

reachable-IsSound_example : IsSound accepting with_minion
reachable-IsSound_example = reachable-IsSound accepting with_minion with_minion-IsReachable

step-effect_example :
    (view with_minion ≡ effect accepting first_call (view new_configuration))
    × IsConsistent with_minion.minions_by_host with_minion.ingresses
step-effect_example =
    step-effect accepting first_call new_configuration (with_minion, [], [])
      (reachable-IsSound accepting new_configuration at_start) step-first_call

in_index-remove_minion_from_index_example :
    in_index "shop.example.com" tea_key
      (remove_minion_from_index tea_key with_minion.minions_by_host)
    ≡ (if tea_key == tea_key
        then false
        else in_index "shop.example.com" tea_key with_minion.minions_by_host)
unfolding lookup
in_index-remove_minion_from_index_example =
    in_index-remove_minion_from_index "shop.example.com" tea_key tea_key with_minion.minions_by_host
      (refl, tt)
      (IsConsistent-IsSingle tea_key with_minion.minions_by_host with_minion.ingresses
        (reachable-IsSound accepting with_minion with_minion-IsReachable).4)

update_minion_index-IsConsistent_example :
    IsConsistent
      (update_minion_index tea_key (some shop_minion) with_minion.minions_by_host)
      (insert tea_key shop_minion with_minion.ingresses)
update_minion_index-IsConsistent_example =
    update_minion_index-IsConsistent tea_key shop_minion with_minion.minions_by_host
      with_minion.ingresses (reachable-IsSound accepting with_minion with_minion-IsReachable).4

-- The configuration that has stored the VirtualServer.
abbrev pub with_cafe : Configuration
with_cafe = record {
  hosts = [];
  listener_hosts = [];
  listener_map = [];
  ingresses = [];
  virtual_servers = ("default/cafe", cafe) ∷ [];
  virtual_server_routes = [];
  transport_servers = [];
  minions_by_host = [];
  global_configuration = none;
  host_problems = [];
  listener_problems = [];
  startup_complete = false;
  policy_services = [];
}

step-put_virtual_server :
    step accepting (put_virtual_server cafe) new_configuration ≡ some (with_cafe, [], [])
unfolding step new_configuration add_or_update_virtual_server virtual_server_error insert
    get_resource_key startup_problems
step-put_virtual_server = refl

pub with_cafe-IsReachable : IsReachable accepting with_cafe
with_cafe-IsReachable =
    after (put_virtual_server cafe) (with_cafe, [], []) at_start step-put_virtual_server

pub with_cafe-IsSound : IsSound accepting with_cafe
with_cafe-IsSound = reachable-IsSound accepting with_cafe with_cafe-IsReachable

abbrev cafe_table : Building
cafe_table = record {
  holders = (cafe.host, "VirtualServer/default/cafe") ∷ [];
  resources = ("VirtualServer/default/cafe", virtual_server (server cafe)) ∷ [];
}

build_with_cafe : build_hosts_and_resources accepting with_cafe ≡ some cafe_table
unfolding build_hosts_and_resources server sorted_keys add_virtual_servers lookup insert
    get_key_with_kind
build_with_cafe = refl

build_hosts_and_resources-IsBuilding_example : IsBuilding with_cafe cafe_table
build_hosts_and_resources-IsBuilding_example =
    build_hosts_and_resources-IsBuilding accepting with_cafe with_cafe-IsSound cafe_table
      build_with_cafe

reachable-startup_example : with_minion.hosts ≡ []
reachable-startup_example =
    reachable-startup accepting with_minion
      (after first_call (with_minion, [], []) at_start step-first_call) refl
