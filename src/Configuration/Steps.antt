-- ===== src/Configuration/Steps.antt =====
-- The calls of the configuration's methods as the steps of one machine, and the runs of it: what the
-- controller's workers do between its creation and any later moment.
use ingress_nextgen.Common.{Option, String, some, ◌>>=◌, ◌≡◌}
use ingress_nextgen.Objects.{
  GlobalConfiguration, Ingress, TransportServer, VirtualServer, VirtualServerRoute,
}
use ingress_nextgen.Environment.{Environment}
use ingress_nextgen.Configuration.{Configuration, new_configuration}
use ingress_nextgen.Configuration.Rebuild.{Outcome}
use ingress_nextgen.Configuration.Operations.{
  add_or_update_global_configuration, add_or_update_ingress, add_or_update_transport_server,
  add_or_update_virtual_server, add_or_update_virtual_server_route, complete_startup,
  delete_global_configuration, delete_ingress, delete_policy_service_ref, delete_transport_server,
  delete_virtual_server, delete_virtual_server_route, unchanged, update_policy_service_ref,
}

pub data Call : Type 0 where
  put_ingress : Ingress → Call
  drop_ingress_at : String → Call
  put_virtual_server : VirtualServer → Call
  drop_virtual_server_at : String → Call
  put_virtual_server_route : VirtualServerRoute → Call
  drop_virtual_server_route_at : String → Call
  put_global_configuration : GlobalConfiguration → Call
  drop_global_configuration : Call
  put_transport_server : TransportServer → Call
  drop_transport_server_at : String → Call
  startup_done : Call
  put_policy_service : String → String → String → Call
  drop_policy_service : String → String → Call

module _ (env : Environment) where
  -- one call, which holds the lock
  unfoldable pub step : Call → Configuration → Option Outcome
  unfolding add_or_update_ingress delete_ingress add_or_update_virtual_server delete_virtual_server
      add_or_update_virtual_server_route delete_virtual_server_route
      add_or_update_global_configuration delete_global_configuration add_or_update_transport_server
      delete_transport_server complete_startup update_policy_service_ref delete_policy_service_ref
  step (put_ingress ing) c = add_or_update_ingress env ing c
  step (drop_ingress_at key) c = delete_ingress env key c
  step (put_virtual_server vs) c = add_or_update_virtual_server env vs c
  step (drop_virtual_server_at key) c = delete_virtual_server env key c
  step (put_virtual_server_route vsr) c = add_or_update_virtual_server_route env vsr c
  step (drop_virtual_server_route_at key) c = delete_virtual_server_route env key c
  step (put_global_configuration gc) c = do
    o ← add_or_update_global_configuration env gc c
    some o.0
  step drop_global_configuration c = delete_global_configuration env c
  step (put_transport_server ts) c = add_or_update_transport_server env ts c
  step (drop_transport_server_at key) c = delete_transport_server env key c
  step startup_done c = complete_startup env c
  step (put_policy_service namespace name auth_service) c =
      unchanged (update_policy_service_ref namespace name auth_service c)
  step (drop_policy_service namespace name) c =
      unchanged (delete_policy_service_ref namespace name c)

  -- The configurations that calls lead to from the new one.
  pub data IsReachable : Configuration → Type 0 where
    at_start : IsReachable new_configuration
    after :
        {c : Configuration} (call : Call) (o : Outcome)
        → IsReachable c
        → step call c ≡ some o
        → IsReachable o.0
