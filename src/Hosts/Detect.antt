-- ===== src/Hosts/Detect.antt =====
-- detectChangesInHosts and detectChangesInListenerHosts
use ingress_nextgen.Common.{
  Eq, List, String, [], if◌then◌else◌, none, not, some, string_eq, ℕ_eq, ◌+++◌, ◌==◌, ◌||◌, ◌∷◌,
}
use ingress_nextgen.Common.Maps.{Map, lookup, sorted_keys}
use ingress_nextgen.Resources.{Resource, VirtualServerConfiguration, virtual_server}
use ingress_nextgen.Resources.Equality.{is_equal}
use ingress_nextgen.Changes.{
  ResourceChange, create_resource_changes_for_hosts, squash_resource_changes,
}

-- The keys of which the other map has no entry.
unfoldable pub missing_from {ℓ} : {K : Type 0} {V : Type ℓ} ⦃e : Eq K⦄ → Map K V → List K → List K
missing_from m [] = []
missing_from m (k ∷ ks) = elim (lookup k m) [
  | none ↦ k ∷ missing_from m ks
  | some _ ↦ missing_from m ks
]

-- The tests of the ports and addresses of two VirtualServers: each that fails appends the host.
unfoldable pub listener_updates :
    String → VirtualServerConfiguration → VirtualServerConfiguration → List String
listener_updates h new old =
    (if not (new.http_port == old.http_port) || not (new.https_port == old.https_port)
      then h ∷ []
      else [])
    +++ (if not (new.http_ipv4 == old.http_ipv4) then h ∷ [] else [])
    +++ (if not (new.http_ipv6 == old.http_ipv6) then h ∷ [] else [])

abbrev pub both_virtual_servers :
    Resource
    → Resource
    → (VirtualServerConfiguration → VirtualServerConfiguration → List String)
    → List String
both_virtual_servers (virtual_server new) (virtual_server old) f = f new old
both_virtual_servers _ _ f = []

-- one round of the loop over the hosts of both tables
unfoldable pub updated_host : String → Resource → Resource → List String
unfolding listener_updates is_equal
updated_host h old new =
    if not (is_equal old new) then h ∷ [] else both_virtual_servers new old (listener_updates h)

unfoldable pub updated_at : Map String Resource → Map String Resource → String → List String
unfolding updated_host
updated_at old new h = elim (lookup h old) [
  | none ↦ []
  | some r ↦ elim (lookup h new) [ none ↦ [] | some s ↦ updated_host h r s ]
]

unfoldable pub updated_hosts : Map String Resource → Map String Resource → List String → List String
unfolding updated_at
updated_hosts old new [] = []
updated_hosts old new (h ∷ hs) = updated_at old new h +++ updated_hosts old new hs

pub record HostChanges (K : Type 0) : Type 0 where
  pub removed : List K
  pub updated : List K
  pub added : List K

unfoldable pub detect_changes_in_hosts :
    Map String Resource → Map String Resource → HostChanges String
unfolding missing_from updated_hosts sorted_keys
detect_changes_in_hosts old new = record {
  removed = missing_from new (sorted_keys old);
  updated = updated_hosts old new (sorted_keys new);
  added = missing_from old (sorted_keys new);
}

-- The squashed changes from one table of hosts to another.
unfoldable pub host_changes : Map String Resource → Map String Resource → List ResourceChange
unfolding detect_changes_in_hosts create_resource_changes_for_hosts squash_resource_changes
host_changes old new =
    let d = detect_changes_in_hosts old new in
    squash_resource_changes (create_resource_changes_for_hosts d.removed d.updated d.added old new)
