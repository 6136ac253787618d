-- ===== src/Services.antt =====
-- services/: one service for each kind of object, each over the calls of services/resource.go.
pub mod Objects
pub mod Resource
pub mod Pod
pub mod Pvc
pub mod Pv
pub mod Service
pub mod StatefulPod
pub mod Answers
pub mod Names
pub mod Interface
pub mod Nodes
pub mod Claims
pub mod Labels
pub mod Protection
