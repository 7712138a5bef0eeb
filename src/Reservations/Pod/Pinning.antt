-- ===== src/Reservations/Pod/Pinning.antt =====
-- Pinning the receipt of a Pod's creation
-- (internal/service/buildcontroller/pod_receipt.go, pinPodReceipt).
use kova.Base.{ℕ, zero, suc, Bool, not, ◌&&◌, Option, none, some, if◌then◌else◌}
use kova.Base.Text.{text_eq, is_empty}
use kova.Base.Dict.{lookup}
use kova.Api.{KovaBuild}
use kova.Effects.{Error, ok, err, M, pure, fail, attempt, require, ◌>>=◌, ◌>>◌}
use kova.Admission.{ActiveReservation, reservation_key}
use kova.Receipts.{EffectWitness}
use kova.Reservations.{ReservationState, valid_grant_receipt_uid, valid_grant_receipt_digest}
use kova.Reservations.Ledger.{
  Reconciler, Backend, max_reservation_attempts, read_reservations, cas_reservations, with_entry,
}
use kova.Reservations.Grant.Pinning.{or_fail}
use kova.Reservations.Pod.{same_pod_attempt, pod_pinned_as}

unfoldable pub same_pod_arm : ActiveReservation → ActiveReservation → Bool
same_pod_arm e armed =
    same_pod_attempt e armed && text_eq e.pod_template_digest armed.pod_template_digest

abbrev pub pod_pin_of : ActiveReservation → EffectWitness → ActiveReservation
pod_pin_of e w = record e { pod_receipt_uid = w.receipt_uid; pod_receipt_digest = w.data_digest }

unfoldable pub seen_pod_pin :
    KovaBuild → ActiveReservation → EffectWitness → ReservationState → Option ActiveReservation
seen_pod_pin b armed w st = elim (lookup (reservation_key b) st.active) [
  | none ↦ none
  | some o ↦ if same_pod_arm o armed && pod_pinned_as o w then some o else none
]

unfoldable pub recover_pod_pin :
    Backend
    → Reconciler
    → KovaBuild
    → ActiveReservation
    → EffectWitness
    → Error
    → M ActiveReservation
recover_pod_pin x r b armed w failure =
    attempt (read_reservations x r b.namespace) λ seen. elim seen [
      | err e ↦ fail failure
      | ok v ↦ or_fail (seen_pod_pin b armed w v.1) failure
    ]

unfoldable pub pin_pod_loop :
    Backend → Reconciler → KovaBuild → ActiveReservation → EffectWitness → ℕ → M ActiveReservation
pin_pod_loop x r b armed w zero = fail Error.failed
pin_pod_loop x r b armed w (suc left) = read_reservations x r b.namespace >>= λ v.
    elim (lookup (reservation_key b) v.1.active) [
      | none ↦ fail Error.failed
      | some e ↦
          require (same_pod_arm e armed && not e.pod_cleanup_ready) Error.failed
          >> (if is_empty e.pod_receipt_uid
              then cas_reservations x r v.0 (with_entry v.1 b (pod_pin_of e w)) left
                  (pin_pod_loop x r b armed w left) (recover_pod_pin x r b armed w)
                  (read_reservations x r b.namespace >>= λ o.
                    or_fail (seen_pod_pin b armed w o.1) Error.receipt_changed)
              else if pod_pinned_as e w
              then pure e
              else fail Error.receipt_changed)
    ]

unfoldable pub pin_pod_receipt :
    Backend → Reconciler → KovaBuild → ActiveReservation → EffectWitness → M ActiveReservation
pin_pod_receipt x r b armed w =
    require (valid_grant_receipt_uid w.receipt_uid && valid_grant_receipt_digest w.data_digest)
      Error.receipt_changed
    >> pin_pod_loop x r b armed w max_reservation_attempts
