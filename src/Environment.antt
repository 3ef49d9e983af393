-- ===== src/Environment.antt =====
-- What the configuration calls and does not implement: the label selectors of Kubernetes, and the
-- validators and flags that NewConfiguration stores (internal/k8s/configuration.go).
use ingress_nextgen.Common.{Bool, List, Option, String}
use ingress_nextgen.Common.Maps.{Map}
use ingress_nextgen.Objects.{
  GlobalConfiguration, Ingress, Listener, TransportServer, VirtualServer, VirtualServerRoute,
}
use ingress_nextgen.Problems.{ConfigObject}

-- labels.Selector: its text, and the labels that it matches. An error carries the texts of the match
-- labels and of the error, as the message `%s is invalid: %v` shows them.
pub record Selector : Type 0 where
  pub text : String
  pub matches : Map String String → Bool

pub data SelectorResult : Type 0 where
  selector : Selector → SelectorResult
  selector_error : String → SelectorResult

-- A validator returns the text of its error, or `none`. ValidateGlobalConfiguration also leaves
-- only the valid listeners in the object.
pub record Environment : Type 0 where
  pub has_correct_ingress_class : ConfigObject → Bool
  pub validate_ingress : Ingress → Option String
  pub validate_virtual_server : VirtualServer → Option String
  pub validate_virtual_server_route : VirtualServerRoute → Option String
  pub validate_virtual_server_route_for_virtual_server :
      VirtualServerRoute → String → List String → Option String
  pub validate_transport_server : TransportServer → Option String
  pub validate_global_configuration : GlobalConfiguration → Option String × List Listener
  pub label_selector_as_selector : Map String String → SelectorResult
  pub is_directive_autoadjust_enabled : Bool
  pub is_tls_passthrough_enabled : Bool
  pub is_cert_manager_enabled : Bool
