-- ===== src/Problems.antt =====
-- ConfigurationProblem of internal/k8s/configuration.go, and which problems are reported again.
pub mod Detect
use ingress_nextgen.Common.{
  Bool, List, Option, String, [], bool_eq, if◌then◌else◌, none, not, some, string_eq, ℕ_eq, ◌&&◌,
  ◌+++◌, ◌==◌, ◌∷◌,
}
use ingress_nextgen.Common.Maps.{Map, lookup, sorted_keys}
use ingress_nextgen.Objects.{Ingress, TransportServer, VirtualServer, VirtualServerRoute}

-- runtime.Object: the object that a problem is about
pub data ConfigObject : Type 0 where
  ingress_object : Ingress → ConfigObject
  virtual_server_object : VirtualServer → ConfigObject
  virtual_server_route_object : VirtualServerRoute → ConfigObject
  transport_server_object : TransportServer → ConfigObject

pub record ConfigurationProblem : Type 0 where
  pub object : ConfigObject
  pub is_error : Bool
  pub reason : String
  pub message : String

unfoldable pub compare_configuration_problems : ConfigurationProblem → ConfigurationProblem → Bool
compare_configuration_problems problem1 problem2 =
    bool_eq problem1.is_error problem2.is_error
    && problem1.reason == problem2.reason
    && problem1.message == problem2.message

-- one round of the loop: what it appends for the key
unfoldable pub new_or_updated :
    Option ConfigurationProblem → Option ConfigurationProblem → List ConfigurationProblem
unfolding compare_configuration_problems
new_or_updated none old = []
new_or_updated (some p) none = p ∷ []
new_or_updated (some p) (some old) =
    if not (compare_configuration_problems p old) then p ∷ [] else []

unfoldable pub problems_at :
    Map String ConfigurationProblem
    → Map String ConfigurationProblem
    → List String
    → List ConfigurationProblem
unfolding new_or_updated
problems_at new old [] = []
problems_at new old (k ∷ ks) =
    new_or_updated (lookup k new) (lookup k old) +++ problems_at new old ks

unfoldable pub detect_changes_in_problems :
    Map String ConfigurationProblem → Map String ConfigurationProblem → List ConfigurationProblem
unfolding problems_at
detect_changes_in_problems new old = problems_at new old (sorted_keys new)
