-- ===== src/Scenarios.antt =====
-- The theorems at concrete inputs, and the objects that these share.
mod Hosts
mod Runs
mod Rebuilds
mod Contests
mod Configs
mod Sizes
mod Found
mod Listeners
use ingress_nextgen.Common.{
  String, [], false, if◌then◌else◌, none, some, string_eq, true, ℕ, ℕ_eq, ◌==◌, ◌∷◌,
}
use ingress_nextgen.Objects.{Ingress, ObjectMeta, VirtualServer}
use ingress_nextgen.Resources.{VirtualServerConfiguration, new_virtual_server_configuration}
use ingress_nextgen.Environment.{Environment, selector}

abbrev pub meta_of : String → String → ℕ → ObjectMeta
meta_of name uid time = record {
  namespace = "default";
  name = name;
  uid = uid;
  creation_timestamp = time;
  generation = 1;
  labels = [];
  annotations = [];
}

abbrev pub cafe : VirtualServer
cafe = record {
  meta = meta_of "cafe" "1" 10;
  host = "cafe.example.com";
  listener = none;
  tls_secret = none;
  policies = [];
  dos = "";
  upstreams = [];
  routes = [];
}

abbrev pub tea : VirtualServer
tea = record {
  meta = meta_of "tea" "2" 5;
  host = "cafe.example.com";
  listener = none;
  tls_secret = none;
  policies = [];
  dos = "";
  upstreams = [];
  routes = [];
}

abbrev pub server : VirtualServer → VirtualServerConfiguration
unfolding new_virtual_server_configuration
server vs = new_virtual_server_configuration vs [] [] []

-- A minion of the host of the master `shop`.
abbrev pub shop_minion : Ingress
shop_minion = record {
  meta = record (meta_of "shop-tea" "4" 12) {
    annotations = ("nginx.org/mergeable-ingress-type", "minion") ∷ [];
  };
  default_backend = none;
  tls = [];
  rules =
      (record {
        host = "shop.example.com";
        http = some ((record { path = "/tea"; service = "tea"; port = 80 }) ∷ []);
      })
      ∷ [];
}

-- Validators that accept everything but a VirtualServer without a host.
abbrev pub accepting : Environment
accepting = record {
  has_correct_ingress_class = λ object. true;
  validate_ingress = λ ing. none;
  validate_virtual_server = λ vs. if vs.host == "" then some "spec.host: required" else none;
  validate_virtual_server_route = λ vsr. none;
  validate_virtual_server_route_for_virtual_server = λ vsr host paths. none;
  validate_transport_server = λ ts. none;
  validate_global_configuration = λ gc. (none, gc.listeners);
  label_selector_as_selector =
      λ match_labels. selector (record { text = "app=tea"; matches = λ ls. true });
  is_directive_autoadjust_enabled = true;
  is_tls_passthrough_enabled = false;
  is_cert_manager_enabled = false;
}
