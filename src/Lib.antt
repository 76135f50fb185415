-- ===== src/Lib.antt =====
-- Models and proofs for spillway, the aggregated API server that serves groups of the
-- Kubernetes API from kcp workspaces.
--
-- A request enters the server (pkg/apiserver), which asks its router for the workspace of the
-- request's group and sends it there through that workspace's transport. A write passes the
-- check of owner references, the admission gate and, if it is asked for, the mirror of
-- namespaces before the proxy sends it on. Each workspace has a cache (pkg/kcp) of the groups
-- and resources that it serves, filled by discovery and limited by the workspace's group
-- matcher. The manager starts, keeps and stops the workspaces as the configuration changes, and
-- the registrar keeps the cluster's APIServices in step with what the router shows. The
-- credential source replaces a workspace's transport when its kubeconfig changes, the document
-- cache keeps what was built for a generation of the router, and the admission matcher says
-- whether anything in the cluster acts on a write.
--
-- Prelude: tests, lists, texts, maps and sets. A Go string is its bytes, a map an association
-- list, and the sets of k8s.io/apimachinery are the interface Sets, with the laws that the
-- library documents; ListSets has an implementation. No order of a set's list is stated, where
-- the library sorts it.
--
-- Kcp.Groups: pkg/kcp/groups.go. parse_group_matcher is ParseGroupMatcher, matches is Matches,
-- and Spec has what an entry of the configuration covers.
--
-- Kcp.Api, Kcp.Metrics: the types of the Kubernetes API that are read, and the writes of
-- pkg/kcp/metrics.go as values.
--
-- Kcp.Discovery: pkg/kcp/discovery.go. ResourceCache is the struct, refresh_snapshot is
-- refresh, refresh is Refresh, run is Run over the wakeups of its select.
--
-- Apiserver.Breaker, Apiserver.Transport, Apiserver.Request: pkg/apiserver/backend.go. allow_in
-- and allow are allow, record_outcome is record, retry_loop is the loop of
-- roundTripWithRetries, round_trip is RoundTrip. What kcp answers, the clock and the ends of
-- the context are arguments.
--
-- Apiserver.Router: pkg/apiserver/router.go. take_groups, take_resources, merge and rebuild are
-- the loops of current, current_at its two branches, and current the whole. Coherence has the
-- steps of a server.
--
-- Apiserver.Manager: pkg/apiserver/workspacemanager.go. launch, start, reconcile and run are
-- the functions of these names; apply_entry and remove_all are the bodies of reconcile's loops.
--
-- Apiserver.Leader, Apiserver.ClusterApis, Apiserver.Registrar: pkg/apiserver/leader.go,
-- clusterapis.go and apiservices.go. foreign is clusterAPIs.foreign, wanted_of, visit_all and
-- create_all are the loops of the registrar's reconcile, and a Round is what one reconcile
-- finds outside.
--
-- Apiserver.Handler: pkg/apiserver/discovery.go. serve_path is serve, and the functions it
-- calls have their names in the source; publish answers the calls of the two discovery
-- managers, and Listed replays them on the document /apis.
--
-- Apiserver.Proxy, Apiserver.Paths: pkg/apiserver/proxy.go. serve_http is ServeHTTP up to the
-- request that is sent, in the phases of its comments: write_phase for writes of objects,
-- patch_phase for patches, mirror_phase, and send. Paths has Clean and Join of the standard
-- package path, by the steps its documentation gives.
--
-- Apiserver.Gate, Apiserver.Conversion: pkg/apiserver/admission.go and conversion.go. run,
-- run_patch and old_object have their names in the source; the admission chain, the workspace
-- and the operations on unstructured objects are the records Chain, Backend and Unstructured.
--
-- Apiserver.Mirror, Apiserver.Client, Apiserver.Backend: pkg/apiserver/namespaces.go and
-- backendclient.go. Backend is what admission and the mirror ask of a workspace, and
-- backend_client the client that answers it.
--
-- Server: pkg/cmd/server/workspaces.go and options.go. load_workspaces is loadWorkspaces,
-- validate_options Validate, workspaces_of workspaces.
--
-- Kcp.Watch: pkg/kcp/watch.go. The channel is whether a signal is pending. Refreshed joins the
-- signals with the loop Run of the cache, by the wakeups that there are.
--
-- Apiserver.Credentials, Apiserver.Documents, Apiserver.AdmissionMatch, Apiserver.OwnerRefs:
-- pkg/apiserver/credentials.go, openapicache.go, admissionmatch.go and ownerrefs.go.
-- matches_write is the matcher's matches.
--
-- Counts, times and lengths are natural numbers, options that are validated are integers; the
-- generation and the revision are uint64 and are written modulo 2^64. Times and durations are
-- nanoseconds. No function needs fuel: every loop runs over a list or down from a count. Code
-- of other modules (the discovery client, listers, the API server's answers,
-- schema.ParseGroupVersion, equality.Semantic.DeepEqual, the formats of fmt) is an argument.
-- The atomics and mutexes are not modelled: an operation is one step. The text of errors and
-- logs is not modelled, nor the goroutines, whose loops are functions over the events that they
-- wait for.
--
-- Not modelled: the OpenAPI documents (pkg/apiserver/openapi.go), whose rewriting works on the
-- library's types; the assembly of the server (apiserver.go, scheme.go) and the construction of
-- clients, transports and informers (pkg/kcp/client.go, the constructors of proxy.go and
-- pkg/kcp/watch.go), which are calls of libraries; the flags, the authorizer and the start of
-- the command (pkg/cmd/server/authorization.go, cmd/spillway); the handlers that write an
-- answer to the connection.
pub mod Prelude
pub mod Kcp
pub mod Apiserver
pub mod Server
