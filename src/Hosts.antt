-- ===== src/Hosts.antt =====
-- Which resource holds which host (internal/k8s/configuration.go): the table of hosts, how its
-- changes are detected, and how a resource claims a host while the table is built.
pub mod Detect
pub mod Holding
pub mod Applied
pub mod Contest
pub mod Owned
pub mod Kinds
pub mod Resolved
use ingress_nextgen.Common.{
  List, Option, String, [], if◌then◌else◌, none, some, string_eq, ℕ_eq, ◌+++◌, ◌++◌, ◌>>=◌, ◌∷◌,
}
use ingress_nextgen.Common.Maps.{Map, insert, lookup}
use ingress_nextgen.Resources.{Resource, add_warning, get_key_with_kind, wins}

-- The maps newHosts and newResources under construction. They share their resources, which are
-- pointers: the resources stand here once, by their keys, and a host has the key of its holder.
pub record Building : Type 0 where
  pub holders : Map String String
  pub resources : Map String Resource

-- newHosts[h]
unfoldable pub holder_of : Building → String → Option Resource
holder_of b h = do k ← lookup h b.holders; lookup k b.resources

abbrev pub host_warning : String → String
host_warning host = "host " ++ (host ++ " is taken by another resource")

-- What becomes of the table when the resource, with its key, meets the holder of a host.
unfoldable pub settle : String → String → Resource → String → Resource → Building → Building
settle host holder_key holder key resource b =
    if wins holder resource
    then record b { resources = insert key (add_warning resource (host_warning host)) b.resources }
    else record {
      holders = insert host key b.holders;
      resources = insert holder_key (add_warning holder (host_warning host)) b.resources;
    }

-- The contest for a host that has a holder, between it and the resource with the key.
unfoldable pub contest : String → String → String → Building → Option Building
unfolding settle
contest host holder_key key b = do
  holder ← lookup holder_key b.resources
  resource ← lookup key b.resources
  some (settle host holder_key holder key resource b)

-- A resource, by its key, claims a host.
unfoldable pub claim_host : String → String → Building → Option Building
unfolding contest
claim_host key host b = elim (lookup host b.holders) [
  | none ↦ some (record b { holders = insert host key b.holders })
  | some holder_key ↦ contest host holder_key key b
]

-- the loop over the hosts of one resource
unfoldable pub claim_hosts : String → List String → Building → Option Building
unfolding claim_host
claim_hosts key [] b = some b
claim_hosts key (h ∷ hs) b = claim_host key h b >>= claim_hosts key hs

-- newResources[resource.GetKeyWithKind()] = resource, and its claims
unfoldable pub add_resource : Resource → List String → Building → Option Building
unfolding claim_hosts
add_resource r hosts b =
    claim_hosts (get_key_with_kind r) hosts
      (record b { resources = insert (get_key_with_kind r) r b.resources })

-- The map newHosts by itself, with the resources as they stand.
unfoldable pub resolve_entry : Building → String × String → Map String Resource
resolve_entry b (h, k) = elim (lookup k b.resources) [ none ↦ [] | some r ↦ (h, r) ∷ [] ]

unfoldable pub resolve_entries : Building → Map String String → Map String Resource
unfolding resolve_entry
resolve_entries b [] = []
resolve_entries b (e ∷ es) = resolve_entry b e +++ resolve_entries b es

unfoldable pub resolve : Building → Map String Resource
unfolding resolve_entries
resolve b = resolve_entries b b.holders
