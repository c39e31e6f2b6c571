-- ===== src/Provider.antt =====
-- pkg/provider: what the providers hand over, and its translation into Envoy's messages.
pub mod Annotations
pub mod AnnotationNames
pub mod Cluster
pub mod Node
pub mod Listener
pub mod Updater
pub mod Fargate
pub mod File
