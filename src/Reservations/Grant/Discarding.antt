-- ===== src/Reservations/Grant/Discarding.antt =====
-- Discarding the receipt of a grant
-- (internal/service/buildcontroller/grant_receipt.go, from releaseGenesisGrantReceipt).
use kova.Base.{Bool, true, false, not, ◌&&◌, if◌then◌else◌}
use kova.Base.Text.{Text, is_empty}
use kova.Api.{KovaBuild}
use kova.Effects.{
  Error, ok, err, ConfigMap, M, pure, fail, attempt, from_result, require, ◌>>=◌, ◌>>◌,
  get_config_map, delete_config_map, check_guard, is_not_found,
}
use kova.Admission.{ActiveReservation}
use kova.Receipts.{GrantIntent, new_grant_config_map, qualify_grant}
use kova.Reservations.{ReservationState}
use kova.Reservations.Ledger.{Reconciler, Backend, write_reservations, with_entry}
use kova.Reservations.Grant.{
  check_grant_namespace, grant_intent, observe_grant_receipt, grant_pinned_as,
}
use kova.Reservations.Grant.Pinning.{pin_grant_receipt}

-- The readback after the deletion of a receipt, and the checks after it.
unfoldable pub confirm_gone : Reconciler → Text → ConfigMap → M (Unit {0})
confirm_gone r ns expected = attempt (get_config_map expected.namespace expected.name) λ seen.
    elim seen [
      | ok cm ↦ fail Error.failed
      | err e ↦ if is_not_found e then (check_grant_namespace r ns false >> check_guard) else fail e
    ]

-- The receipt as read: absent, or the pinned one, which is deleted by its UID.
unfoldable pub delete_receipt :
    Reconciler → Text → ConfigMap → Text → (ConfigMap → Bool) → M (Unit {0})
delete_receipt r ns expected uid is_pinned =
    attempt (get_config_map expected.namespace expected.name) λ seen. elim seen [
      | err e ↦ if is_not_found e then confirm_gone r ns expected else fail e
      | ok cm ↦
          require (is_pinned cm) Error.receipt_changed
          >> attempt (delete_config_map expected.namespace expected.name uid) λ deleted.
            elim deleted [
              | ok u ↦ confirm_gone r ns expected
              | err e ↦ if is_not_found e then confirm_gone r ns expected else fail e
            ]
    ]

unfoldable pub is_pinned_grant : Backend → GrantIntent → ActiveReservation → ConfigMap → Bool
is_pinned_grant x g e cm = elim (qualify_grant x.payloads g cm) [
  | err failure ↦ false
  | ok w ↦ grant_pinned_as e w
]

unfoldable pub delete_pinned_grant_receipt :
    Backend → Reconciler → KovaBuild → ActiveReservation → M (Unit {0})
delete_pinned_grant_receipt x r b e = do
  require (e.grant_cleanup_ready && e.closing && not (is_empty e.grant_receipt_uid)) Error.failed
  check_grant_namespace r b.namespace false
  intent ← grant_intent x r b e false
  expected ← from_result (new_grant_config_map x.payloads intent)
  delete_receipt r b.namespace expected e.grant_receipt_uid (is_pinned_grant x intent e)

-- True: nothing of the grant's receipt is left.
unfoldable pub release_grant_receipt :
    Backend → Reconciler → KovaBuild → ConfigMap → ReservationState → ActiveReservation → M Bool
release_grant_receipt x r b cm st e =
    if is_empty e.grant_observed_rv
    then pure true
    else if is_empty e.grant_receipt_uid
    then (observe_grant_receipt x r b e >>= λ w.
        pin_grant_receipt x r b e w >>= λ pinned. pure false)
    else if e.grant_cleanup_ready
    then (delete_pinned_grant_receipt x r b e >> pure true)
    else do
      w ← observe_grant_receipt x r b e
      require (grant_pinned_as e w) Error.receipt_changed
      write_reservations x r cm (with_entry st b (record e { grant_cleanup_ready = true }))
      pure false
