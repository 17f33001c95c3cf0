-- ===== src/Lib.antt =====
-- A model of the Rancher MCP server: the middleware that admits a request, the gate that
-- confirms changes, the handlers that make them, the client that reaches a cluster, and the
-- parts that page, resolve and dispatch.
--
-- How the parts interact. A request passes the OAuth middleware, which puts the token into the
-- context (Oauth). A tool call is dispatched by an enum value to a handler (Dispatch); planChange
-- and executeChange have one table each, which merges those of the toolsets (Merged). A handler
-- of planChange reads from the cluster and issues a token for one operation; the handler of
-- executeChange resolves the same operation, has the gate check the token and ask the user
-- (Confirm), and only then sends the change (Changes). A cluster is found by ID or display name
-- through two caches and reached over the Rancher server (Client), kinds are resolved to resource
-- types through a cache (Discovery), lists are paged (Pagination), the
-- usage of a namespace is summed over its pods (Usage), and watchdogs ping a session whose
-- elicitations are open (KeepaliveGate).
--
-- Files and code:
--   Oauth              internal/middleware/{oauth,context}.go
--   Merged             pkg/toolsets/dispatch/params.go, the converters of the merged_cases.go files and
--                      of pkg/toolsets/core/merged_change_cases.go, jsonPatchList of patch_resource.go;
--                      Merged.Cases has their tables and pkg/toolsets/merged/tools.go
--   Confirm            pkg/confirm/confirm.go: Gate, IssueToken, RequireToken; Confirm.Approval has
--                      Confirm and Check, the other children prove
--   Changes            the type of runs that list the changes sent; children:
--     Resources        pkg/toolsets/core/{delete,create,patch}_resource{,_plan}.go
--     Exec             pkg/toolsets/core/exec_pod{,_plan}.go, execGated
--     Projects         pkg/toolsets/core/projects/{create_project,move_namespace}{,_plan}.go, common.go
--     NodePool         pkg/toolsets/provisioning/scale_node_pool{,_plan}.go, the handlers
--     Releases         the releases, versions and CNIs of pkg/toolsets/provisioning/provisioning_utils.go
--     Clusters         the objects of pkg/toolsets/provisioning/create_{custom,imported,k3k}_cluster.go;
--                      Clusters.Create has the handlers and their plans
--   ScaleNodePool      the patch of pkg/toolsets/provisioning/scale_node_pool.go
--   CappedBuffer       cappedBuffer of pkg/toolsets/core/exec_pod.go
--   Client             pkg/client/client.go: the lookup of a cluster and the REST configuration;
--                      Client.Requests has the requests for objects, Client.Setup has NewClient
--   Usage              the sample of a namespace of
--                      pkg/toolsets/core/projects/get_project_resource_usage.go; Usage.Projects has
--                      the projects and getResourceUsage, Usage.Sums proves
--   Discovery          pkg/client/resolve.go
--   Dispatch           pkg/toolsets/dispatch/{case,validate}.go
--   Pagination         pkg/utils/pagination.go
--   KeepaliveGate      pkg/keepalivegate/keepalivegate.go
--   Prelude            shared tests, lists, texts, results, integers, dictionaries
-- Functions keep their names, in snake case; a plan handler has the suffix _plan.
--
-- State is passed explicitly: the gate and the caches are arguments and results. A reading of
-- the clock, random bytes and an answer of the cluster or of the user is an argument; within one
-- handler `Services` holds them, and the two readings that the gate makes are `now` and `now'`.
-- Within one lookup the cluster answers as the fixed functions of `Kube` do. Sizes are integers
-- that wrap at 32 or 64 bits where Go's do; a panic is `none` or an error of its own. The only
-- fuel is that of a client that reads pages: one call more than there are resources is shown to
-- be enough. The mutex of the gate makes one step of what it guards, and KeepaliveGate interleaves
-- its calls by a step relation.
--
-- Not modelled: crypto, JWT, JSON, YAML, base64, sorting, HTTP, the Kubernetes and MCP libraries
-- (they are parameters, with their documented laws as named hypotheses), texts of errors and
-- logs, the command line and HTTP serving (cmd), the input schemas of the tools, the tables of
-- rancherQuery and diagnose, and the read-only tools other than paging and
-- the resource usage.
pub mod Prelude
pub mod Confirm
pub mod CappedBuffer
pub mod ScaleNodePool
pub mod KeepaliveGate
pub mod Pagination
pub mod Changes
pub mod Discovery
pub mod Dispatch
pub mod Client
pub mod Oauth
pub mod Merged
pub mod Usage
