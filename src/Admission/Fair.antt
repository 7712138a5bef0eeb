-- ===== src/Admission/Fair.antt =====
-- The fair queue (fairQueue in internal/service/buildcontroller/admission.go).
mod Groups
mod Rounds
mod Rotate
mod Order
pub use Order.{fair_queue-perm, fair_queue-head, served_order-Ascending, Ascending}
