-- ===== src/Objects.antt =====
-- The API objects, with the fields that the controller's configuration reads: the metadata and the
-- Ingress of Kubernetes as internal/k8s uses them, and the types of
-- pkg/apis/configuration/v1/types.go. A Go map of annotations or labels is a `Map`.
use ingress_nextgen.Buffers.{ProxyFields}
use ingress_nextgen.Common.{Bool, List, Option, String, ℕ}
use ingress_nextgen.Common.Maps.{Map}

-- metav1.ObjectMeta. The timestamp is a count of seconds.
pub record ObjectMeta : Type 0 where
  pub namespace : String
  pub name : String
  pub uid : String
  pub creation_timestamp : ℕ
  pub generation : ℕ
  pub labels : Map String String
  pub annotations : Map String String

-- networking.HTTPIngressPath: the path, and the service and port number of its backend
pub record IngressPath : Type 0 where
  pub path : String
  pub service : String
  pub port : ℕ

-- networking.IngressRule: `http` is a pointer, nil for a rule without paths
pub record IngressRule : Type 0 where
  pub host : String
  pub http : Option (List IngressPath)

-- `default_backend` is the service of the default backend, nil without one; `tls` has the names of
-- the secrets.
pub record Ingress : Type 0 where
  pub meta : ObjectMeta
  pub default_backend : Option String
  pub tls : List String
  pub rules : List IngressRule

pub record Listener : Type 0 where
  pub name : String
  pub protocol : String
  pub port : ℕ
  pub ipv4 : String
  pub ipv6 : String
  pub ssl : Bool

pub record GlobalConfiguration : Type 0 where
  pub meta : ObjectMeta
  pub listeners : List Listener

pub record VirtualServerListener : Type 0 where
  pub http : String
  pub https : String

-- A reference to a policy; an empty namespace is that of the object.
pub record PolicyReference : Type 0 where
  pub name : String
  pub namespace : String

pub record Upstream : Type 0 where
  pub name : String
  pub service : String
  pub port : ℕ
  pub backup : String
  pub use_cluster_ip : Bool
  pub proxy : ProxyFields

-- A route of a VirtualServer or a subroute of a VirtualServerRoute. `route_selector` holds the
-- match labels of the label selector.
pub record Route : Type 0 where
  pub path : String
  pub route : String
  pub route_selector : Option (Map String String)
  pub pass : String
  pub policies : List PolicyReference
  pub dos : String

pub record VirtualServer : Type 0 where
  pub meta : ObjectMeta
  pub host : String
  pub listener : Option VirtualServerListener
  pub tls_secret : Option String
  pub policies : List PolicyReference
  pub dos : String
  pub upstreams : List Upstream
  pub routes : List Route

pub record VirtualServerRoute : Type 0 where
  pub meta : ObjectMeta
  pub host : String
  pub upstreams : List Upstream
  pub subroutes : List Route

pub record TransportServerUpstream : Type 0 where
  pub service : String
  pub backup : String

pub record TransportServer : Type 0 where
  pub meta : ObjectMeta
  pub listener_name : String
  pub listener_protocol : String
  pub host : String
  pub tls_secret : Option String
  pub upstreams : List TransportServerUpstream
