-- ===== src/Lib.antt =====
-- The CertSuite operator, modelled and verified.
--
-- The operator runs the CNF certification suite in a Kubernetes cluster. A user creates a
-- CertsuiteRun resource; the admission webhook checks it; the run reconciler starts a pod with two
-- containers for it, the suite and a sidecar, and watches the suite's container to its end; the sidecar
-- waits for the suite's claim file, makes a report of it, and writes that into the status of the
-- resource. A second reconciler installs a plugin of the OpenShift console for the resource
-- CertsuiteConsolePlugin, of which a second webhook admits one.
--
-- The files and the code that each is about. A definition has the name of the function, in
-- snake case; a loop or a branch with a name of its own is a definition beside it.
--   Api/Run, Api/Report         api/v1alpha1/certsuiterun_types.go
--   Api/ConsolePlugin           api/v1alpha1/certsuiteconsoleplugin_types.go
--   Webhook                     api/v1alpha1/certsuiterun_webhook.go and certsuiteconsoleplugin_webhook.go
--     Accepted, Configured      the runs that are admitted, and what their pods give the suite
--     Limit, Overlap            the number of CertsuiteConsolePlugin resources
--   Definitions                 internal/controller/definitions/definitions.go
--   Job                         internal/controller/cnf-cert-job/cnfcertjob.go: `New` and its options
--   Controller                  internal/controller/certsuiterun_controller.go
--     Cluster, State            the client, and the package variables
--     RunPod                    the options of the pod, and what the pod has of them
--     Status, EndOfRun          the status updates, and the end of a run
--     Reconcile                 `Reconcile`
--     Frame, Quiet, Registry    what one request does to the registry and to the pods
--     Names, Reached            pod names over any sequence of requests
--     Updates, Keeps, Writes    the status updates over any sequence of requests
--     Tried                     the attempts of one status update
--     Returns                   what a request returns that starts a run
--     Ledger                    the registry and the pods as a ledger of numbered runs
--     Life                      the life of a run in a cluster that stores what it is sent
--     Events, Queue             the event filter, and the requests that come back
--   ConsolePlugin               internal/controller/certsuiteconsoleplugin_controller.go
--   Operator                    cmd/main.go: `init` and `main`
--     Options, Servers          the flags, and the servers and the cache they configure
--     Calls, Order, Ready       the calls that set the process up
--   Sidecar                     certsuite-sidecar/app/main.go: `handleClaimFile`
--     Process, Complete         its `main`, which builds the client
--   Claim                       certsuite-sidecar/app/claim/claim.go
--   Report                      certsuite-sidecar/app/cnf-cert-suite-report/cnfcertsuitereport.go
--   Pod                         the fields of k8s.io/api/core/v1 that the operator uses
--   Go, Action, Duration        Go's errors, panics, methods over a state, and time.ParseDuration
--   Prelude                     lists, maps, integers, decimal numbers
-- Each Examples module runs the code of its parent on concrete values.
--
-- A Go call that returns an error has the type Result, which is a value, an error or a panic. A method of
-- a reconciler is a function from its state that leaves a state behind in each of the three cases. The
-- API server, the clock, the file system and the environment are fields of the records Cluster,
-- Platform, WebhookClient, SidecarHost, ClientLibrary and Host, over a type of worlds of which nothing is
-- assumed: any call may fail, and the world may change with each. The calls that reach the API server are recorded in the
-- reconcilers' states, in their order, for the theorems to speak about; the code does not read them.
-- Of `retry.RetryOnConflict` it is assumed that it runs its function once or more, again only after a
-- conflict, and returns the last error. A theorem that assumes more of the cluster says so: the life of a
-- run and the queue are about a cluster that fills the interface Store of Controller/Life, in which nothing
-- else happens within one request; Controller/Life/Memory is such a cluster. Of controller-runtime's queue
-- what its documentation says is assumed: a request comes back after an error or a panic, and when the
-- result asks for it.
--
-- Bounds. A Go `int` is a natural number below 2^64 and wraps around; pod names are followed for fewer than
-- 2^63 requests, below which the counter neither wraps nor prints a sign. Durations are integers that wrap
-- at 64 bits, and the difference of two times saturates as Go's does. The sidecar's loop has no bound of its
-- own and runs on fuel: one unit more than the looks at a missing file is enough, and that is proved. The
-- other loops go over lists. Decimal printing has fuel for more digits than the number has. The product in
-- floating point in the parsing of a fraction of a duration is a parameter.
--
-- Not modelled: log lines, but for the dereferences in them, and the logger's own options; the parsing of the
-- flags, which are given; the deep copies that are generated; the tests; and the deployment files and scripts.
-- Of a resource only the fields that the code reads or writes are kept, and a nil slice is an empty one.
pub mod Prelude
pub mod Go
pub mod Action
pub mod Definitions
pub mod Duration
pub mod Pod
pub mod Job
pub mod Api
pub mod Claim
pub mod Report
pub mod Controller
pub mod ConsolePlugin
pub mod Webhook
pub mod Sidecar
pub mod Operator
