-- ===== src/Lib.antt =====
-- k8s-opencode: OpenCode workspaces on Kubernetes. The operator (operator/) watches
-- OpenCodeWorkspace resources and keeps, for each, a namespace with the workspace's network
-- policy, secrets, configuration, volumes, pods, service and ingress, and an entry in the email
-- map; the router (images/router/main.go) asks a sign-in service who sends a request, reads the
-- email map, and forwards the request to the user's workspace. The email map that the operator
-- writes is in the format that the router reads.
--
-- Router.Host is extractUserFromHost, Router.Access the handler that main registers, with
-- authHandler, getEmail and the configuration, Router.Watch loadEmailMap and watchEmailMap. There
-- a state has the file, the watcher's events, the timer, the callbacks on their way and the map in
-- memory; a run is a list of choices, each of which lets the surroundings, the event loop, a timer
-- or a callback go one step, so that every interleaving is a run. Router.Host.{Longest, Labels},
-- Router.Access.Grants and Router.Watch.{Fresh, Source, Rest, Progress, Overlap} have theirs.
--
-- Delivery puts the two together: the operator's email map as the file of a router; in
-- Delivery.Histories after any sequence of additions and removals, which Operator.EmailMap.History
-- follows.
--
-- Operator.Api has the types of operator/api/v1alpha1/opencodeworkspace_types.go, Operator.Object
-- the Kubernetes objects by the fields that the operator uses. Operator.Client is what the
-- operator calls and does not implement: the API client, controllerutil, retry, crypto/rand and
-- quantities, as a record of functions over a state type; Operator.Contract states what is relied
-- on of it, for workspaces and for other objects, and Operator.Memory is one such client, a
-- cluster in memory. Common.Json does the same for encoding/json, and Common.Json.Marked is one
-- such codec.
--
-- A function of operator/internal/controller/ is a function from a world to a result and a world
-- (Operator.Exec), so that what was written before an error stays written. Operator.Reconcile is
-- opencodeworkspace_controller.go; Operator.EmailMap is reconcile_emailmap.go; of
-- Operator.Resources, Names and Owned are reconcile_namespace.go, Network
-- reconcile_networkpolicy.go, Claims reconcile_pvc.go, Tailscale reconcile_tailscale.go, Workload
-- reconcile_workload.go, Kubedock reconcile_kubedock.go, Secrets and Password
-- reconcile_secrets.go, Config reconcile_configmap.go. A function that CreateOrUpdate runs on an
-- object is a definition of its own (`set_...`, `label_...`, `isolate`, `expose`). The workspace
-- that the Go code changes in place is passed on: a status update answers the new one.
--
-- Operator.Main is operator/cmd/main.go with SetupWithManager, over controller-runtime as a record
-- of functions; Operator.Permissions has the rbac markers of opencodeworkspace_controller.go, and
-- Operator.Selector what a label selector means.
--
-- Operator.DeepCopy is operator/api/v1alpha1/zz_generated.deepcopy.go: Types has the API's types
-- with a slice, a map or a pointer either as a reference or as what is behind it, Cells what a
-- reference refers to, Plain, Specs, Servers and Workspaces the generated functions; a value stands
-- for another by what it reaches in memory. The functions of the libraries' types are parameters.
--
-- Proofs stand in modules of their own: Operator.EmailMap.{Entries, Attempt, Retried, Removal} for
-- the email map, Operator.Isolation for what a reconciliation leaves alone and what a deletion asks,
-- Operator.Isolation.Policy for what the network policy admits, Operator.Isolation.Order for what
-- it comes before, Operator.Supplies for what the pods find, Operator.Steady for what a second
-- reconciliation of an object does, Operator.Reconcile.{Ends, Live, Success, Failure, Release,
-- Phases} for how reconciliations end, Operator.DeepCopy.{Heap, Slices, Structs, Deep,
-- Independent, Objects} for the copies, Operator.Main.Start for the start of the process, and one
-- module below each resource. Router.Tests, Operator.Tests and Delivery.Tests apply the theorems
-- to concrete inputs.
--
-- Bounds and fuel: runs of the router's watch are lists of any length; `settle` repeats a
-- reconciliation a given number of times while it answers `Requeue: true`, and three are shown to be
-- enough for an answer without that; only `decimal`, the printing of a number, runs on fuel, one
-- more than the number, and each of its steps divides by ten. Text is a list of characters; a password's bytes are below 256.
--
-- Not modelled: the registration of the API group; the helpers of the end-to-end tests; the parsing
-- of the command line; logging; the panic of a watcher; the charts and manifests, which are no Go
-- code. Of the surroundings: the work queue's retries after an error; the removal of what a deleted
-- namespace holds and of what a deleted workspace owns, which Kubernetes does afterwards; the headers
-- that httputil.ReverseProxy drops or adds when it sends a request on, and headers of several values.
pub mod Common
pub mod Operator
pub mod Router
pub mod Delivery
