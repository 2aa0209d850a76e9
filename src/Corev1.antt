-- ===== src/Corev1.antt =====
-- The resources of core/v1 that the modelled code reads (apis/main/corev1, apis/main/metav1).
-- A nil pointer is `none`; a field that no modelled code reads is left out. A
-- `google.protobuf.Struct` and a Go `map[string]any` stand as their JSON texts.
pub mod Policy
pub mod Session
pub mod Scope
pub mod Resources
