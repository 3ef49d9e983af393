-- ===== src/Lib.antt =====
-- The ingress controller's configuration: a model of internal/k8s/configuration.go, with what it uses
-- of internal/k8s/utils.go, internal/nsutils/utils.go and pkg/apis/configuration/v1/types.go; with the
-- reference checkers (internal/k8s/reference_checkers.go), the sizes of the proxy buffers
-- (internal/validation/data_types.go) and the tokenizer of NGINX configurations
-- (internal/nginxconf/tokenizer.go).
--
-- The controller watches Kubernetes objects and hands each to the `Configuration`, which stores the
-- valid ones, decides which resource holds which host or listener, and returns the changes to carry
-- out on the NGINX configuration together with the problems to report. The parts:
--
--   Objects: the API objects with the fields that the configuration reads.
--   Resources: the configuration resources with their keys, the order in which they win (Order), and
--     IsEqual (Equality, Same).
--   Changes: createResourceChangesForHosts, createResourceChangesForListeners and
--     squashResourceChanges; Squash, Shape and Effect prove what they do.
--   Problems: ConfigurationProblem and detectChangesInProblems.
--   Hosts: the contest for hosts in buildHostsAndResources (Contest, Owned, Kinds, Resolved), and
--     detectChangesInHosts (Detect); Holding and Applied prove what the changes of two tables do.
--   Minions: buildMinionConfigs and the index minionsByHost (Index, Consistent, Updated).
--   Environment: the validators, the label selectors and the flags, which are parameters.
--   Routes: the VirtualServerRoutes of a VirtualServer: buildVirtualServerRoutes and what it calls
--     (Paths, Regex, Clean; Unique proves what is left of the routes).
--   Listeners: buildListenerHostsAndTSConfigurations and detectChangesInListenerHosts.
--   References: the reference checkers and the references as texts (Policies, Parsed).
--   Buffers: proxy buffer sizes and BalanceProxyValues, which the methods that store a VirtualServer or
--     a VirtualServerRoute apply to its upstreams (Sizes; Printed, Rules and Upstreams prove what a
--     balancing gives).
--   Tokenizer: Tokenize as a machine over bytes, and Shape (Shape); Nested, Printed and Items relate the
--     statements to the text; Blurred, Alike, Injection and Entries prove what Shape tells.
--   Configuration: the struct, buildHostsAndResources (Build), the problems and warnings of a rebuild
--     (Reports), rebuildHosts and rebuildListenerHosts (Rebuild), the methods (Operations), the
--     queries (Queries), the searches for references (Find; Found, Endpoints and PolicyServices prove
--     what they find), and the machine of all calls (Steps) with its frame (Frame), its stored
--     objects (Stored), the soundness of these (Sound), its invariant (Invariant) and the abstract
--     store that it refines (Store, Refined); Owners, Built, Active, Tabled,
--     Stands, Outcome and Reached prove what a rebuild makes of it; Startup is about the time before
--     the startup is complete; Listening puts the validation of a GlobalConfiguration into the machine.
--   Validation: ValidateGlobalConfiguration
--     (pkg/apis/configuration/validation/globalconfiguration.go), with the addresses, ports and
--     protocols that are taken (Ports); Compatible says which listeners can stand together, Rounds what
--     one round of the loop does, Kept what the loop keeps, Index what the index of a listener changes,
--     and Again what a second validation does.
--   Scenarios: the theorems at concrete inputs.
--
-- A Go map is an association list with one entry for a key, a nil map the empty one; where Go
-- leaves the order of iteration open, the model takes the order of the list. Resources are pointers
-- that the tables share: while a table is built they stand once, under their keys, and the table
-- has the key of the holder. `none` is a crash by a nil pointer or an index out of range. Each
-- method holds the lock for its whole body, so it is one step. Every loop runs over a list, so
-- there is no fuel.
--
-- Not modelled: the validators of objects other than a GlobalConfiguration and of routes for a
-- VirtualServer, the checks of DNS labels, port numbers and addresses that the validation of a
-- listener calls, and the label selectors of Kubernetes are parameters of which nothing is assumed;
-- the generation of the NGINX configuration, the work queue and all input and output are left out.
-- Texts that the code walks byte by byte are lists of bytes; TrimSpace, ToLower and Fields are
-- those of ASCII text. A uint64 is a number with its wrap-around written out, and twenty digits are
-- enough to print one. Fields of objects that the configuration does not read are left out of the
-- records.
pub mod Common
pub mod Objects
pub mod References
pub mod Resources
pub mod Buffers
pub mod Changes
pub mod Problems
pub mod Hosts
pub mod Minions
pub mod Environment
pub mod Routes
pub mod Listeners
pub mod Configuration
pub mod Scenarios
pub mod Tokenizer
pub mod Validation
