-- ===== src/Lib.antt =====
-- The operator of api/v1's `StatefulPod`, a custom resource of Kubernetes: a row of numbered pods, each
-- with a claim for storage, kept at a desired size.
--
-- How it works. A work queue gives `Reconcile` (controllers/statefulpod_controller.go) a name. It looks
-- the name up as a `StatefulPod`, a pod and a claim in turn, and calls `CoreCtrl`, `MonitorPodStatus` or
-- `MonitorPVCStatus` (controllers/statefulpod/stateful_pod.go). `CoreCtrl` compares the entries of the
-- object's status with its size, and creates the next child, deletes the last one, sets the finalizer
-- and replaces lost pods, or takes everything down. The monitors write what has become of a child into
-- its entry. They work through the controllers of pods, claims, volumes and services under
-- controllers/statefulpod/child_resource_controller/, and those through services/.
--
-- The files, from below:
--   Prelude          numbers, `int`, slices, string maps; Text: decimal print and parse of strconv
--   Effect           a handler as a function of the world that returns, panics, or runs out of rounds;
--                    Effect/Total: rules for handlers that return from every world
--   Api              api/v1/statefulpod_types.go, api/v1/groupversion_info.go and the fields of the
--                    Kubernetes types that the code names
--   Memory           the same types as Go lays them out, with pointers and slices into a memory;
--                    Memory/DeepCopy: api/v1/zz_generated.deepcopy.go; Memory/Sharing, Aliasing: what
--                    a copy has of its own, and what it shares with its original; Memory/Monitor:
--                    `MonitorPVCStatus` with its assignments in place
--   Client           the API server, a parameter; Client/Laws: what theorems assume of it.
--                    A server is quiet (Controllers/StatefulPod/Resizing) if it answers a taken update
--                    with the object sent, nobody else writes between a `Get` and the update that
--                    follows, every node reports a condition, and there are two rounds or more
--   Tools            tools/tools.go
--   Services         services/resource.go, services/{pod,pvc,pv,service,statefulpod}; Services/Objects:
--                    the methods that the five services write alike; Services/Interface: `ServiceInf`
--                    Services/StatefulPod/Overlapping: calls of `Update` in any order of their turns,
--                    as controllers/statefulpod_controller.go lets three of them run
--   Controllers/Pod, Pvc, Pv, Service   the child controllers; Controllers/Sweep: the loop that
--                    `DeletePodAll` and `DeletePvcAll` write alike
--   Controllers/Interface   the interfaces of these controllers and of the one below
--   Controllers/Sizing, StatefulPod, Reports   controllers/statefulpod/stateful_pod.go: how many
--                    children count, `CoreCtrl`, and the monitors. An object is well-formed
--                    (StatefulPod/WellFormed) if it has as many pod entries as claim entries, a size
--                    that is not negative, and, with a claim template, a class in it and a first
--                    volume with a claim.
--                    StatefulPod/Shrinking: a pass over an object above its size;
--                    StatefulPod/LostNode: a pod on a lost node; Pod/Creation: the making of a pod;
--                    StatefulPod/TimeOut: a pod that was not up in time;
--                    StatefulPod/Teardown: the end of a deletion; StatefulPod/Scaling: any order of
--                    handlers as steps, and the abstract moves of a size and a number of entries
--   Controllers/Events, Setup, Reconciler      controllers/eventhandler.go,
--                    controllers/eventpredicate.go, controllers/statefulpod_controller.go
--   Manager          main.go and initconfig/init_toml.go, as a sequence of stages
--   Tests            an API server in memory, and each theorem at an input
--
-- State. The world `W` of a handler is whatever is outside the program; the calls of `client.Client` are
-- the fields of `Store`, on which nothing is known but what a theorem assumes. What the code writes
-- into the `StatefulPod` through its pointer is returned beside the result: entries of the status,
-- the default claim name, the annotations that a pod shares with its parent, the claim template.
-- A nil dereference and an index out of range are the outcome `panic`.
--
-- Bounds. `Update` of services/statefulpod/statefulpod.go and the deletion of a timed-out pod's claim
-- loop by `goto` until a call succeeds; they run for `rounds` rounds and are `diverged` then. Two rounds
-- are enough for `Update` when nobody else writes in between, one for the deletion when the server takes
-- it. Time-outs are `int` numbers of seconds, and their product with a second wraps around as an
-- `int64`. Indices are natural numbers where the code counts, and `ℤ` where it reads them.
--
-- Memory. Only the deep copies and `MonitorPVCStatus` are stated over a memory; the handlers work on
-- objects as values, as if nobody else held them. The regions of the memory are apart, one for each type, as Go's types keep them;
-- what corev1 and metav1 keep, and their `DeepCopyInto`, is a parameter.
--
-- Not modelled: the parsing of the command line and of TOML, the builder, the cache and the manager of
-- controller-runtime (their calls are parameters), what the scheme does with the types that are
-- registered, logging, the end-to-end tests, and the deployment manifests. Concurrent runs
-- of `Reconcile` show as what the server may answer, as handlers in any order, each from its start to its
-- end, and, for `Update`, as single calls in any order.
pub mod Prelude
pub mod Effect
pub mod Text
pub mod Api
pub mod Memory
pub mod Client
pub mod Services
pub mod Tools
pub mod Controllers
pub mod Manager
pub mod Tests
