-- ===== src/Reservations/Pod/Completing.antt =====
-- The Pod that was created, and the end of its attempt
-- (internal/service/buildcontroller/pod_receipt.go, from qualifyGenesisPod).
use kova.Base.{ℕ, zero, suc, Bool, true, false, not, ◌&&◌, [], none, some, if◌then◌else◌}
use kova.Base.Text.{Text, text_eq, is_empty}
use kova.Base.Dict.{lookup}
use kova.Api.{KovaBuild, value_of}
use kova.Api.Pods.{Pod}
use kova.Effects.{
  Error, Result, ok, err, ConfigMap, M, pure, fail, attempt, from_result, require, ◌>>=◌, ◌>>◌,
  read_pod,
}
use kova.Admission.{ActiveReservation, reservation_key}
use kova.Queue.Store.{is_nil}
use kova.Receipts.{PodCreateIntent, new_pod_create_config_map, qualify_pod_create}
use kova.Reservations.{ReservationState}
use kova.Reservations.Ledger.{
  Reconciler, Backend, max_reservation_attempts, read_reservations, read_reservations_observed,
  write_reservations, cas_reservations, with_entry, pod_name, pod_owned_by_build,
}
use kova.Reservations.Grant.{check_grant_namespace}
use kova.Reservations.Grant.Discarding.{delete_receipt}
use kova.Templates.{TemplateCodec, canonical_pod_template_digest, digest_annotation}
use kova.Reservations.Pod.{
  attempt_annotation, same_pod_attempt, runtime_identity, pod_intent, observe_pod_receipt,
  pod_pinned_as, verify_pod_reads, verify_pinned_pod_receipt,
}
use kova.Reservations.Pod.Pinning.{pin_pod_receipt}
use kova.Reservations.Pod.Issuing.{only_text}

unfoldable pub original_pod : KovaBuild → Pod → Bool
original_pod b p =
    not (is_empty p.uid)
    && text_eq p.namespace b.namespace
    && text_eq p.name (pod_name b.name)
    && pod_owned_by_build p b

unfoldable pub receipted_pod : KovaBuild → Pod → ActiveReservation → Bool
receipted_pod b p e =
    text_eq e.build_name b.name
    && not (is_empty e.pod_attempt_nonce)
    && not (is_empty e.pod_receipt_uid)
    && text_eq (value_of attempt_annotation p.annotations) e.pod_attempt_nonce
    && text_eq (value_of digest_annotation p.annotations) e.pod_template_digest

abbrev pub is_digest : Result Text → Text → Bool
is_digest (ok d) want = text_eq d want
is_digest (err e) want = false

unfoldable pub qualify_genesis_pod :
    Backend → TemplateCodec → Reconciler → KovaBuild → Pod → Bool → Bool → M (Unit {0})
qualify_genesis_pod x t r b p allow_closing observed =
    require (original_pod b p && runtime_identity r b p) Error.failed
    >> (if observed
        then read_reservations_observed x r b.namespace
        else read_reservations x r b.namespace)
    >>= λ v. elim (lookup (reservation_key b) v.1.active) [
      | none ↦ fail Error.failed
      | some e ↦
          require (receipted_pod b p e) Error.failed
          >> require (is_digest (canonical_pod_template_digest t p) e.pod_template_digest)
              Error.failed
          >> (if observed
              then verify_pod_reads x r b e allow_closing
              else verify_pinned_pod_receipt x r b e allow_closing)
    ]

unfoldable pub pinned_genesis_pod : Backend → TemplateCodec → Reconciler → KovaBuild → Bool → M Pod
pinned_genesis_pod x t r b allow_closing = read_pod b.namespace (pod_name b.name) >>= λ p.
    qualify_genesis_pod x t r b p allow_closing false >> pure p

-- A completion with no clear answer counts if a read sees no attempt in flight.
unfoldable pub seen_complete : KovaBuild → ActiveReservation → ReservationState → Bool
seen_complete b e st = elim (lookup (reservation_key b) st.active) [
  | none ↦ false
  | some o ↦
      same_pod_attempt o e && text_eq o.pod_receipt_uid e.pod_receipt_uid && is_nil o.in_flight
]

unfoldable pub recover_complete :
    Backend → Reconciler → KovaBuild → ActiveReservation → Error → M (Unit {0})
recover_complete x r b e failure =
    attempt (read_reservations x r b.namespace)
      λ seen. elim seen [ err e' ↦ fail failure | ok v ↦ require (seen_complete b e v.1) failure ]

unfoldable pub complete_genesis_loop : Backend → Reconciler → KovaBuild → Text → ℕ → M (Unit {0})
complete_genesis_loop x r b nonce zero = fail Error.failed
complete_genesis_loop x r b nonce (suc left) = read_reservations x r b.namespace >>= λ v.
    elim (lookup (reservation_key b) v.1.active) [
      | none ↦ fail Error.failed
      | some e ↦
          require
            (text_eq e.build_name b.name
              && text_eq e.pod_attempt_nonce nonce
              && not (is_empty e.pod_receipt_uid))
            Error.failed
          >> (if is_nil e.in_flight then pure tt else do
            require (only_text e.in_flight nonce) Error.failed
            verify_pinned_pod_receipt x r b e true
            cas_reservations x r v.0 (with_entry v.1 b (record e { in_flight = [] })) left
                (complete_genesis_loop x r b nonce left)
                (recover_complete x r b (record e { in_flight = [] })) (pure tt))
    ]

unfoldable pub complete_genesis_pod_create : Backend → Reconciler → KovaBuild → Text → M (Unit {0})
complete_genesis_pod_create x r b nonce = complete_genesis_loop x r b nonce max_reservation_attempts

unfoldable pub is_pinned_pod : Backend → PodCreateIntent → ActiveReservation → ConfigMap → Bool
is_pinned_pod x c e cm = elim (qualify_pod_create x.payloads c cm) [
  | err failure ↦ false
  | ok w ↦ pod_pinned_as e w
]

unfoldable pub delete_pinned_pod_receipt :
    Backend → Reconciler → KovaBuild → ActiveReservation → M (Unit {0})
delete_pinned_pod_receipt x r b e = do
  require (e.pod_cleanup_ready && e.closing && not (is_empty e.pod_receipt_uid)) Error.failed
  check_grant_namespace r b.namespace false
  intent ← pod_intent x r b e false
  expected ← from_result (new_pod_create_config_map x.payloads intent)
  delete_receipt r b.namespace expected e.pod_receipt_uid (is_pinned_pod x intent e)

-- True: nothing of the Pod's receipt is left.
unfoldable pub release_pod_receipt :
    Backend → Reconciler → KovaBuild → ConfigMap → ReservationState → ActiveReservation → M Bool
release_pod_receipt x r b cm st e =
    if is_empty e.pod_template_digest
    then pure true
    else if is_empty e.pod_receipt_uid
    then (observe_pod_receipt x r b e >>= λ w. pin_pod_receipt x r b e w >>= λ pinned. pure false)
    else if e.pod_cleanup_ready
    then (delete_pinned_pod_receipt x r b e >> pure true)
    else do
      verify_pinned_pod_receipt x r b e true
      write_reservations x r cm (with_entry st b (record e { pod_cleanup_ready = true }))
      pure false
