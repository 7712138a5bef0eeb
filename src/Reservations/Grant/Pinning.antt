-- ===== src/Reservations/Grant/Pinning.antt =====
-- Pinning the receipt of a grant, and a fresh grant
-- (internal/service/buildcontroller/grant_receipt.go, pinGrantReceipt and finishFreshGrant).
use kova.Base.{ℕ, zero, suc, Bool, true, false, not, ◌&&◌, Option, none, some, if◌then◌else◌}
use kova.Base.Text.{text_eq, is_empty}
use kova.Base.Dict.{lookup}
use kova.Api.{KovaBuild}
use kova.Effects.{
  Error, ok, err, M, pure, fail, attempt, require, ◌>>=◌, ◌>>◌, observe, observed_read,
}
use kova.Admission.{ActiveReservation, reservation_key}
use kova.Receipts.{GrantIntent, EffectWitness, record_grant_once}
use kova.Reservations.{ReservationState, valid_grant_receipt_uid, valid_grant_receipt_digest}
use kova.Reservations.Ledger.{
  Reconciler, Backend, max_reservation_attempts, read_reservations, cas_reservations, with_entry,
  ensure_live,
}
use kova.Reservations.Grant.{
  check_grant_namespace, grant_intent, same_grant, arm_fresh_grant, grant_pinned_as,
  verify_pinned_grant,
}

unfoldable pub same_arm : ActiveReservation → ActiveReservation → Bool
same_arm e armed = same_grant e armed && text_eq e.grant_observed_rv armed.grant_observed_rv

abbrev pub pin_of : ActiveReservation → EffectWitness → ActiveReservation
pin_of e w = record e { grant_receipt_uid = w.receipt_uid; grant_receipt_digest = w.data_digest }

-- The entry that a read finds with the pin.
unfoldable pub seen_pin :
    KovaBuild → ActiveReservation → EffectWitness → ReservationState → Option ActiveReservation
seen_pin b armed w st = elim (lookup (reservation_key b) st.active) [
  | none ↦ none
  | some o ↦ if same_arm o armed && grant_pinned_as o w then some o else none
]

abbrev pub or_fail : {A : Type 0} → Option A → Error → M A
or_fail none e = fail e
or_fail (some a) e = pure a

-- A pin with no clear answer counts if a read sees it.
unfoldable pub recover_pin :
    Backend
    → Reconciler
    → KovaBuild
    → ActiveReservation
    → EffectWitness
    → Error
    → M ActiveReservation
recover_pin x r b armed w failure =
    attempt (read_reservations x r b.namespace)
      λ seen. elim seen [ err e ↦ fail failure | ok v ↦ or_fail (seen_pin b armed w v.1) failure ]

unfoldable pub pin_grant_loop :
    Backend → Reconciler → KovaBuild → ActiveReservation → EffectWitness → ℕ → M ActiveReservation
pin_grant_loop x r b armed w zero = fail Error.failed
pin_grant_loop x r b armed w (suc left) = read_reservations x r b.namespace >>= λ v.
    elim (lookup (reservation_key b) v.1.active) [
      | none ↦ fail Error.failed
      | some e ↦
          require (same_arm e armed && not e.grant_cleanup_ready) Error.failed
          >> (if is_empty e.grant_receipt_uid
              then cas_reservations x r v.0 (with_entry v.1 b (pin_of e w)) left
                  (pin_grant_loop x r b armed w left) (recover_pin x r b armed w)
                  (read_reservations x r b.namespace >>= λ o.
                    or_fail (seen_pin b armed w o.1) Error.receipt_changed)
              else if grant_pinned_as e w
              then pure e
              else fail Error.receipt_changed)
    ]

unfoldable pub pin_grant_receipt :
    Backend → Reconciler → KovaBuild → ActiveReservation → EffectWitness → M ActiveReservation
pin_grant_receipt x r b armed w =
    require (valid_grant_receipt_uid w.receipt_uid && valid_grant_receipt_digest w.data_digest)
      Error.receipt_changed
    >> pin_grant_loop x r b armed w max_reservation_attempts

-- The reads before the one Create of the receipt.
unfoldable pub grant_intent_reads :
    Backend → Reconciler → KovaBuild → ActiveReservation → M GrantIntent
grant_intent_reads x r b armed =
    observed_read (ensure_live b)
    >> check_grant_namespace r b.namespace true
    >> grant_intent x r b armed true

unfoldable pub finish_fresh_grant :
    Backend → Reconciler → KovaBuild → ActiveReservation → M (Unit {0})
finish_fresh_grant x r b original = do
  armed ← arm_fresh_grant x r b original
  intent ← observe (grant_intent_reads x r b armed)
  w ← record_grant_once x.payloads r.has_receipts intent
  check_grant_namespace r b.namespace false
  pinned ← pin_grant_receipt x r b armed w
  ensure_live b
  verify_pinned_grant x r b pinned
