-- ===== src/Controllers.antt =====
-- controllers/: the event handlers, the reconciler, and the controllers of a `StatefulPod` and of its
-- children.
pub mod Status
pub mod Sweep
pub mod Service
pub mod Pod
pub mod Pvc
pub mod Pv
pub mod Sizing
pub mod StatefulPod
pub mod Reports
pub mod Interface
pub mod Events
pub mod Setup
pub mod Reconciler
pub mod Routing
