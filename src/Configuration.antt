-- ===== src/Configuration.antt =====
-- The struct Configuration of internal/k8s/configuration.go: the valid objects that the controller
-- has seen, the tables that are rebuilt from them, and the problems last reported.
pub mod Build
pub mod Reports
pub mod Rebuild
pub mod Operations
pub mod Queries
pub mod Find
pub mod Found
pub mod PolicyServices
pub mod Endpoints
pub mod Frame
pub mod Steps
pub mod Stored
pub mod Sound
pub mod Invariant
pub mod Store
pub mod Refined
pub mod Owners
pub mod Built
pub mod Active
pub mod Tabled
pub mod Stands
pub mod Outcome
pub mod Reached
pub mod Startup
pub mod Listening
use ingress_nextgen.Common.{Bool, Option, String, [], false, none}
use ingress_nextgen.Common.Maps.{Map}
use ingress_nextgen.Objects.{
  GlobalConfiguration, Ingress, Listener, TransportServer, VirtualServer, VirtualServerRoute,
}
use ingress_nextgen.Resources.{Resource, TransportServerConfiguration}
use ingress_nextgen.Problems.{ConfigurationProblem}
use ingress_nextgen.Minions.Index.{MinionIndex}
use ingress_nextgen.Listeners.{ListenerHostKey}

pub record Configuration : Type 0 where
  pub hosts : Map String Resource
  pub listener_hosts : Map ListenerHostKey TransportServerConfiguration
  pub listener_map : Map String Listener
  pub ingresses : Map String Ingress
  pub virtual_servers : Map String VirtualServer
  pub virtual_server_routes : Map String VirtualServerRoute
  pub transport_servers : Map String TransportServer
  pub minions_by_host : MinionIndex
  pub global_configuration : Option GlobalConfiguration
  pub host_problems : Map String ConfigurationProblem
  pub listener_problems : Map String ConfigurationProblem
  pub startup_complete : Bool
  pub policy_services : Map String String

-- NewConfiguration
unfoldable pub new_configuration : Configuration
new_configuration = record {
  hosts = [];
  listener_hosts = [];
  listener_map = [];
  ingresses = [];
  virtual_servers = [];
  virtual_server_routes = [];
  transport_servers = [];
  minions_by_host = [];
  global_configuration = none;
  host_problems = [];
  listener_problems = [];
  startup_complete = false;
  policy_services = [];
}
