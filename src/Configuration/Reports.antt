-- ===== src/Configuration/Reports.antt =====
-- What a rebuild notes down beside the table of hosts: the valid hosts of the Ingresses, the
-- problems of objects without a host, and the warnings about listeners.
use ingress_nextgen.Common.{
  Bool, List, Option, String, [], any, bool_eq, false, if◌then◌else◌, none, not, some, string_eq,
  true, ℕ_eq, ◌&&◌, ◌++◌, ◌==◌, ◌>>=◌, ◌∷◌,
}
use ingress_nextgen.Common.Maps.{Map, insert, lookup}
use ingress_nextgen.Objects.{
  GlobalConfiguration, Ingress, IngressRule, Listener, VirtualServerListener, VirtualServerRoute,
}
use ingress_nextgen.Problems.{
  ConfigObject, ConfigurationProblem, ingress_object, transport_server_object,
  virtual_server_object, virtual_server_route_object,
}
use ingress_nextgen.Resources.{
  Resource, VirtualServerConfiguration, add_warning, get_key_with_kind, get_resource_key,
  get_resource_key_with_kind, ingress, ingress_kind, transport_server, virtual_server,
  virtual_server_route_kind,
}
use ingress_nextgen.Minions.Index.{MinionIndex}
use ingress_nextgen.Hosts.{Building, holder_of}
use ingress_nextgen.Listeners.Problem.{rejected}

-- the loop over the rules of one Ingress; a host that nobody holds would be a nil pointer
unfoldable pub set_valid_hosts :
    Building → String → List IngressRule → Map String Bool → Option (Map String Bool)
unfolding holder_of
set_valid_hosts b key [] valid = some valid
set_valid_hosts b key (r ∷ rs) valid = do
  res ← holder_of b r.host
  set_valid_hosts b key rs (insert r.host (get_key_with_kind res == key) valid)

unfoldable pub with_valid_hosts : Building → Resource → Option Resource
unfolding set_valid_hosts
with_valid_hosts b (ingress ic) = do
  valid ← set_valid_hosts b (get_key_with_kind (ingress ic)) ic.ingress.rules ic.valid_hosts
  some (ingress (record ic { valid_hosts = valid }))
with_valid_hosts b r = some r

-- updateActiveHostsForIngresses. The flags do not change who holds a host, so each Ingress is read
-- against the table `b` as it was built.
unfoldable pub with_valid_hosts_all : Building → Map String Resource → Option (Map String Resource)
unfolding with_valid_hosts
with_valid_hosts_all b [] = some []
with_valid_hosts_all b ((k, r) ∷ m) = do
  r' ← with_valid_hosts b r
  m' ← with_valid_hosts_all b m
  some ((k, r') ∷ m')

unfoldable pub update_active_hosts_for_ingresses : Building → Option Building
unfolding with_valid_hosts_all
update_active_hosts_for_ingresses b = do
  rs ← with_valid_hosts_all b b.resources
  some (record b { resources = rs })

abbrev pub Problems : Type 0
Problems = Map String ConfigurationProblem

-- the problem of a VirtualServer or TransportServer whose host has another holder
unfoldable pub host_taken : Building → Resource → String → ConfigObject → Problems → Option Problems
unfolding holder_of
host_taken b r host object problems = do
  res ← holder_of b host
  some (
      if not (get_key_with_kind res == get_key_with_kind r)
      then insert (get_key_with_kind r) (rejected object "Host is taken by another resource")
          problems
      else problems)

unfoldable pub problem_without_active_host : Building → Resource → Problems → Option Problems
unfolding host_taken
problem_without_active_host b (ingress ic) problems = some (
    if any (λ hv. hv.1) ic.valid_hosts
    then problems
    else insert (get_key_with_kind (ingress ic))
        (rejected (ingress_object ic.ingress) "All hosts are taken by other resources") problems)
problem_without_active_host b (virtual_server vsc) problems =
    host_taken b (virtual_server vsc) vsc.virtual_server.host
      (virtual_server_object vsc.virtual_server) problems
problem_without_active_host b (transport_server tsc) problems =
    host_taken b (transport_server tsc) tsc.transport_server.host
      (transport_server_object tsc.transport_server) problems

unfoldable pub add_problems_for_resources_without_active_host :
    Building → Map String Resource → Problems → Option Problems
unfolding problem_without_active_host
add_problems_for_resources_without_active_host b [] problems = some problems
add_problems_for_resources_without_active_host b ((k, r) ∷ m) problems =
    problem_without_active_host b r problems >>= add_problems_for_resources_without_active_host b m

abbrev pub is_master_ingress : Option Resource → Bool
is_master_ingress (some (ingress ic)) = ic.is_master
is_master_ingress _ = false

unfoldable pub orphan_minions : Map String Ingress → Map String Bool → Problems → Problems
orphan_minions ingresses [] problems = problems
orphan_minions ingresses ((key, _) ∷ ks) problems =
    orphan_minions ingresses ks (elim (lookup key ingresses) [
      | none ↦ problems
      | some ing ↦
          insert (get_resource_key_with_kind ingress_kind ing.meta)
            (record {
              object = ingress_object ing;
              is_error = false;
              reason = "NoIngressMasterFound";
              message = "Ingress master is invalid or doesn't exist";
            })
            problems
    ])

unfoldable pub add_problems_for_orphan_minions :
    Building → Map String Ingress → MinionIndex → Problems → Problems
unfolding orphan_minions holder_of
add_problems_for_orphan_minions b ingresses [] problems = problems
add_problems_for_orphan_minions b ingresses ((host, ks) ∷ index) problems =
    add_problems_for_orphan_minions b ingresses index (
      if is_master_ingress (holder_of b host)
      then problems
      else orphan_minions ingresses ks problems)

abbrev pub virtual_server_of : Option Resource → Option VirtualServerConfiguration
virtual_server_of (some (virtual_server vsc)) = some vsc
virtual_server_of _ = none

-- The problem of a route: that nobody has its host but a VirtualServer could, or that the
-- VirtualServer ignores it.
unfoldable pub vsr_problem : Building → VirtualServerRoute → Option ConfigurationProblem
unfolding holder_of
vsr_problem b vsr = elim (virtual_server_of (holder_of b vsr.host)) [
  | none ↦ some (record {
    object = virtual_server_route_object vsr;
    is_error = false;
    reason = "NoVirtualServerFound";
    message = "VirtualServer is invalid or doesn't exist";
  })
  | some vsc ↦
      if any
        (λ (v : VirtualServerRoute).
          vsr.meta.namespace == v.meta.namespace && vsr.meta.name == v.meta.name)
        vsc.virtual_server_routes
      then none
      else some (record {
        object = virtual_server_route_object vsr;
        is_error = false;
        reason = "Ignored";
        message =
            "VirtualServer "
            ++ (get_resource_key vsc.virtual_server.meta ++ " ignores VirtualServerRoute");
      })
]

unfoldable pub add_problems_for_orphan_or_ignored_vsrs :
    Building → Map String VirtualServerRoute → List String → Problems → Problems
unfolding vsr_problem
add_problems_for_orphan_or_ignored_vsrs b routes [] problems = problems
add_problems_for_orphan_or_ignored_vsrs b routes (k ∷ ks) problems =
    add_problems_for_orphan_or_ignored_vsrs b routes ks (elim (lookup k routes) [
      | none ↦ problems
      | some vsr ↦ elim (vsr_problem b vsr) [
        | none ↦ problems
        | some p ↦ insert (get_resource_key_with_kind virtual_server_route_kind vsr.meta) p problems
      ]
    ])

unfoldable pub is_listener_in_correct_block : Map String Listener → String → Bool → Bool
is_listener_in_correct_block listener_map name expected_ssl = elim (lookup name listener_map) [
  | none ↦ true
  | some l ↦ bool_eq l.ssl expected_ssl
]

abbrev pub is_undefined : Map String Listener → String → Bool
is_undefined listener_map name =
    not (name == "") && elim (lookup name listener_map) [ none ↦ true | some _ ↦ false ]

-- the warning about the listeners of a VirtualServer, if there is one: the first test that fails
unfoldable pub listener_problem_text :
    Option GlobalConfiguration → Map String Listener → VirtualServerListener → Option String
unfolding is_listener_in_correct_block
listener_problem_text gc listener_map l = elim gc [
  | none ↦ some "Listeners defined, but no GlobalConfiguration is deployed"
  | some _ ↦
      if not (is_listener_in_correct_block listener_map l.http false)
      then some (
          "Listener "
          ++ (l.http
              ++ " can't be use in `listener.http` context as SSL is enabled for that listener."))
      else if not (is_listener_in_correct_block listener_map l.https true)
      then some (
          "Listener "
          ++ (l.https
              ++ " can't be use in `listener.https` context as SSL is not enabled for that listener."))
      else if is_undefined listener_map l.http
      then some ("Listener " ++ (l.http ++ " is not defined in GlobalConfiguration"))
      else if is_undefined listener_map l.https
      then some ("Listener " ++ (l.https ++ " is not defined in GlobalConfiguration"))
      else none
]

-- c.hosts[host].AddWarning(warning), which reaches the resource under its key
unfoldable pub warn_holder : String → String → Building → Option Building
warn_holder host warning b = do
  k ← lookup host b.holders
  r ← lookup k b.resources
  some (record b { resources = insert k (add_warning r warning) b.resources })

-- one round of the loop: nothing, or a warning to the holder of the host of the VirtualServer
unfoldable pub warn_virtual_server :
    Option GlobalConfiguration → Map String Listener → Resource → Building → Option Building
unfolding warn_holder listener_problem_text
warn_virtual_server gc listener_map (virtual_server vsc) b = elim vsc.virtual_server.listener [
  | none ↦ some b
  | some l ↦ elim (listener_problem_text gc listener_map l) [
    | none ↦ some b
    | some w ↦ warn_holder vsc.virtual_server.host w b
  ]
]
warn_virtual_server gc listener_map r b = some b

-- addWarningsForVirtualServersWithMissConfiguredListeners
unfoldable pub warn_virtual_servers :
    Option GlobalConfiguration
    → Map String Listener
    → Map String Resource
    → Building
    → Option Building
unfolding warn_virtual_server
warn_virtual_servers gc listener_map [] b = some b
warn_virtual_servers gc listener_map ((k, r) ∷ m) b =
    warn_virtual_server gc listener_map r b >>= warn_virtual_servers gc listener_map m
