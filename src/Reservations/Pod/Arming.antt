-- ===== src/Reservations/Pod/Arming.antt =====
-- Arming the receipt of a Pod's creation
-- (internal/service/buildcontroller/pod_receipt.go, armFreshPodAttempt).
use kova.Base.{ℕ, zero, suc, Bool, not, ◌&&◌, none, some, if◌then◌else◌}
use kova.Base.Text.{Text, text_eq, is_empty}
use kova.Base.Dict.{lookup}
use kova.Api.{KovaBuild}
use kova.Effects.{Error, ConfigMap, M, pure, fail, require, ◌>>=◌, ◌>>◌, observe, observed_read}
use kova.Admission.{ActiveReservation, reservation_key}
use kova.Queue.Store.{is_nil}
use kova.Reservations.{ReservationState, valid_reservation_hex, valid_grant_receipt_digest}
use kova.Reservations.Ledger.{
  Reconciler, Backend, max_reservation_attempts, read_reservations, read_reservations_observed,
  cas_reservations, with_entry, ensure_live,
}
use kova.Reservations.Grant.{verify_grant_reads}
use kova.Reservations.Pod.{same_pod_attempt}

-- The spent attempt is not armed, pinned, issued or closed.
unfoldable pub unarmed_attempt : KovaBuild → ActiveReservation → Text → Bool
unarmed_attempt b e nonce =
    text_eq e.build_name b.name
    && text_eq e.pod_attempt_nonce nonce
    && is_empty e.pod_template_digest
    && is_empty e.pod_receipt_uid
    && not e.closing
    && is_nil e.in_flight

-- A read of the ledger, the entry, the build and the grant's receipt in one observation.
unfoldable pub attempt_reads :
    Backend
    → Reconciler
    → KovaBuild
    → (ActiveReservation → Bool)
    → M (ConfigMap × ReservationState × ActiveReservation)
attempt_reads x r b fits = read_reservations_observed x r b.namespace >>= λ v.
    elim (lookup (reservation_key b) v.1.active) [
      | none ↦ fail Error.failed
      | some e ↦ do
        require (fits e) Error.failed
        observed_read (ensure_live b)
        verify_grant_reads x r b e
        pure (v.0, v.1, e)
    ]

unfoldable pub armed_attempt : ActiveReservation → ActiveReservation → Text → Bool
armed_attempt o e digest =
    same_pod_attempt o e
    && text_eq o.pod_template_digest digest
    && is_empty o.pod_receipt_uid
    && not o.closing
    && is_nil o.in_flight

unfoldable pub confirm_attempt :
    Backend → Reconciler → KovaBuild → ActiveReservation → Text → M ActiveReservation
confirm_attempt x r b e digest = read_reservations x r b.namespace >>= λ v.
    elim (lookup (reservation_key b) v.1.active) [
      | none ↦ fail Error.failed
      | some o ↦ if armed_attempt o e digest then pure o else fail Error.failed
    ]

unfoldable pub arm_pod_loop :
    Backend → Reconciler → KovaBuild → Text → Text → ℕ → M ActiveReservation
arm_pod_loop x r b nonce digest zero = fail Error.failed
arm_pod_loop x r b nonce digest (suc left) =
    observe (attempt_reads x r b (λ e. unarmed_attempt b e nonce)) >>= λ (cm, st, e).
    cas_reservations x r cm (with_entry st b (record e { pod_template_digest = digest })) left
      (arm_pod_loop x r b nonce digest left) (λ failure. fail failure)
      (confirm_attempt x r b e digest)

unfoldable pub arm_fresh_pod_attempt :
    Backend → Reconciler → KovaBuild → Text → Text → M ActiveReservation
arm_fresh_pod_attempt x r b nonce digest =
    require (valid_reservation_hex nonce 32 && valid_grant_receipt_digest digest) Error.failed
    >> arm_pod_loop x r b nonce digest max_reservation_attempts
