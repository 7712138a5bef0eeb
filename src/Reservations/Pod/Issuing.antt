-- ===== src/Reservations/Pod/Issuing.antt =====
-- Issuing the one creation of a Pod
-- (internal/service/buildcontroller/pod_receipt.go, authorizeFreshPodCreate and
-- finishFreshPodAttempt).
use kova.Base.{ℕ, zero, suc, Bool, true, false, not, ◌&&◌, List, [], ◌∷◌, none, some}
use kova.Base.Text.{Text, text_eq}
use kova.Base.Dict.{lookup, insert}
use kova.Api.{KovaBuild, value_of}
use kova.Api.Pods.{Pod}
use kova.Effects.{
  Error, ok, err, ConfigMap, M, pure, fail, attempt, from_result, require, ◌>>=◌, ◌>>◌, observe,
  observed_read,
}
use kova.Admission.{ActiveReservation, reservation_key}
use kova.Queue.Store.{is_nil}
use kova.Receipts.{PodCreateIntent, record_pod_create_once}
use kova.Reservations.{ReservationState}
use kova.Reservations.Ledger.{
  Reconciler, Backend, max_reservation_attempts, read_reservations, cas_reservations, with_entry,
  ensure_live, pod_name, pod_owned_by_build,
}
use kova.Reservations.Grant.{check_grant_namespace}
use kova.Templates.{TemplateCodec, canonical_pod_template_digest, digest_annotation}
use kova.Reservations.Pod.{attempt_annotation, runtime_identity, pod_intent, verify_pod_reads}
use kova.Reservations.Pod.Arming.{attempt_reads, arm_fresh_pod_attempt}
use kova.Reservations.Pod.Pinning.{same_pod_arm, pin_pod_receipt}

-- The pinned attempt is not issued, closed or cleaned up.
unfoldable pub issuable : ActiveReservation → ActiveReservation → Bool
issuable e pinned =
    same_pod_arm e pinned
    && text_eq e.pod_receipt_uid pinned.pod_receipt_uid
    && text_eq e.pod_receipt_digest pinned.pod_receipt_digest
    && not e.closing
    && not e.pod_cleanup_ready
    && is_nil e.in_flight

abbrev pub only_text : List Text → Text → Bool
only_text [] t = false
only_text (a ∷ []) t = text_eq a t
only_text (a ∷ b ∷ rest) t = false

unfoldable pub issued_as : ActiveReservation → ActiveReservation → Bool
issued_as o issued =
    same_pod_arm o issued
    && not o.closing
    && not o.pod_cleanup_ready
    && text_eq o.pod_receipt_uid issued.pod_receipt_uid
    && text_eq o.pod_receipt_digest issued.pod_receipt_digest
    && only_text o.in_flight issued.pod_attempt_nonce

unfoldable pub fresh_issue_recorded :
    Backend → Reconciler → KovaBuild → ActiveReservation → M (Unit {0})
fresh_issue_recorded x r b issued = read_reservations x r b.namespace >>= λ v.
    elim (lookup (reservation_key b) v.1.active) [
      | none ↦ fail Error.failed
      | some o ↦ require (issued_as o issued) Error.failed
    ]

unfoldable pub authorize_reads :
    Backend
    → Reconciler
    → KovaBuild
    → ActiveReservation
    → M (ConfigMap × ReservationState × ActiveReservation)
authorize_reads x r b pinned =
    attempt_reads x r b (λ e. issuable e pinned) >>= λ v. verify_pod_reads x r b v.2 false >> pure v

unfoldable pub authorize_loop :
    Backend → Reconciler → KovaBuild → ActiveReservation → ℕ → M (Unit {0})
authorize_loop x r b pinned zero = fail Error.failed
authorize_loop x r b pinned (suc left) = observe (authorize_reads x r b pinned) >>= λ (cm, st, e).
    cas_reservations x r cm
      (with_entry st b (record e { in_flight = pinned.pod_attempt_nonce ∷ [] })) left
      (authorize_loop x r b pinned left)
      (λ failure.
        attempt
          (fresh_issue_recorded x r b (record e { in_flight = pinned.pod_attempt_nonce ∷ [] }))
          λ seen. elim seen [ ok u ↦ pure tt | err e' ↦ fail failure ])
      (fresh_issue_recorded x r b (record e { in_flight = pinned.pod_attempt_nonce ∷ [] }))

unfoldable pub authorize_fresh_pod_create :
    Backend → Reconciler → KovaBuild → ActiveReservation → M (Unit {0})
authorize_fresh_pod_create x r b pinned = authorize_loop x r b pinned max_reservation_attempts

unfoldable pub pod_intent_reads :
    Backend → Reconciler → KovaBuild → ActiveReservation → M PodCreateIntent
pod_intent_reads x r b armed =
    observed_read (ensure_live b)
    >> check_grant_namespace r b.namespace true
    >> pod_intent x r b armed true

-- `pod.Annotations[PodTemplateDigestAnnotation] = digest`
unfoldable pub digested : Pod → Text → Pod
digested p digest = record p {
  meta = record meta { annotations = insert digest_annotation digest annotations };
}
  where
    open p use {meta, annotations}

unfoldable pub fresh_template : KovaBuild → Pod → Text → Bool
fresh_template b p nonce =
    text_eq p.namespace b.namespace
    && text_eq p.name (pod_name b.name)
    && text_eq (value_of attempt_annotation p.annotations) nonce
    && pod_owned_by_build p b

-- The Pod with its digest, once its creation is issued.
unfoldable pub finish_fresh_pod_attempt :
    Backend → TemplateCodec → Reconciler → KovaBuild → Pod → Text → M Pod
finish_fresh_pod_attempt x t r b p nonce = do
  require (fresh_template b p nonce && runtime_identity r b p) Error.failed
  digest ← from_result (canonical_pod_template_digest t p)
  armed ← arm_fresh_pod_attempt x r b nonce digest
  intent ← observe (pod_intent_reads x r b armed)
  w ← record_pod_create_once x.payloads r.has_receipts intent
  check_grant_namespace r b.namespace false
  pinned ← pin_pod_receipt x r b armed w
  authorize_fresh_pod_create x r b pinned
  pure (digested p digest)
