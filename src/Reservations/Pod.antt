-- ===== src/Reservations/Pod.antt =====
-- The receipt of a Pod creation (internal/service/buildcontroller/pod_receipt.go): a spent attempt is
-- armed with the digest of its template, its receipt is created once and pinned, and the last write
-- issues the creation; the receipt is deleted after the ledger has recorded the cleanup.
pub mod Arming
pub mod Pinning
pub mod Issuing
pub mod Completing
use kova.Base.{
  ℕ, zero, suc, Bool, true, false, not, ◌&&◌, List, [], ◌∷◌, Option, none, some, if◌then◌else◌,
  is_some, length, ltb, ◌++◌,
}
use kova.Base.Text.{Text, text, text_eq, is_empty}
use kova.Base.Dict.{lookup, insert}
use kova.Api.{KovaBuild, value_of}
use kova.Api.Pods.{Container, Pod}
use kova.Effects.{
  Error, Result, ok, err, ConfigMap, M, pure, fail, attempt, from_result, require, ◌>>=◌, ◌>>◌,
  read_pod, observe, observed_read,
}
use kova.Admission.{ActiveReservation, reservation_key}
use kova.Queue.{valid_digest}
use kova.Queue.Store.{is_nil}
use kova.Receipts.{
  GrantIntent, PodCreateIntent, EffectWitness, new_grant_config_map, new_pod_create_config_map,
  qualify_pod_create, observe_pod_create, record_pod_create_once,
}
use kova.Reservations.{
  ReservationState, valid_reservation_hex, valid_grant_receipt_uid, valid_grant_receipt_digest,
}
use kova.Reservations.Ledger.{
  Reconciler, Backend, max_reservation_attempts, read_reservations, read_reservations_observed,
  write_reservations, cas_reservations, with_entry, ensure_live, pod_name, pod_owned_by_build,
}
use kova.Reservations.Grant.{check_grant_namespace, grant_intent, same_grant, verify_grant_reads}
use kova.Reservations.Grant.Pinning.{or_fail}
use kova.Reservations.Grant.Discarding.{delete_receipt}
use kova.Templates.{TemplateCodec, canonical_pod_template_digest, digest_annotation}

abbrev pub attempt_annotation : Text
attempt_annotation = text "kova.cofy.dev/create-attempt"

unfoldable pub same_pod_attempt : ActiveReservation → ActiveReservation → Bool
same_pod_attempt a b =
    same_grant a b
    && text_eq a.grant_observed_rv b.grant_observed_rv
    && text_eq a.grant_receipt_uid b.grant_receipt_uid
    && text_eq a.grant_receipt_digest b.grant_receipt_digest
    && text_eq a.pod_attempt_nonce b.pod_attempt_nonce

-- `slices.Equal`, and the test on a prefix.
abbrev pub same_texts : List Text → List Text → Bool
same_texts [] [] = true
same_texts (a ∷ more) (b ∷ bs) = text_eq a b && same_texts more bs
same_texts [] (b ∷ bs) = false
same_texts (a ∷ more) [] = false

abbrev pub starts_with : List Text → List Text → Bool
starts_with [] found = true
starts_with (a ∷ more) [] = false
starts_with (a ∷ more) (b ∷ bs) = text_eq a b && starts_with more bs

abbrev pub fetch_command : KovaBuild → List Text
fetch_command b =
    text "kovad"
    ∷ text "source"
    ∷ text "fetch"
    ∷ text "--uri"
    ∷ b.spec.source.uri
    ∷ text "--digest"
    ∷ b.spec.source.digest
    ∷ text "--output"
    ∷ text "/var/lib/kova/source/source.zip"
    ∷ []

abbrev pub runner_ok : Reconciler → List Container → Bool
runner_ok r [] = false
runner_ok r (c ∷ d ∷ rest) = false
runner_ok r (c ∷ []) =
    text_eq c.name (text "runner")
    && text_eq c.image r.runner_image
    && same_texts c.command (text "kovad" ∷ text "daemon" ∷ [])

abbrev pub fetch_ok : Reconciler → KovaBuild → List Container → Bool
fetch_ok r b [] = false
fetch_ok r b (c ∷ d ∷ rest) = false
fetch_ok r b (c ∷ []) =
    text_eq c.name (text "source-fetch")
    && text_eq c.image r.runner_image
    && starts_with (fetch_command b) c.command

-- `validateGenesisPodRuntimeIdentity`
unfoldable pub runtime_identity : Reconciler → KovaBuild → Pod → Bool
runtime_identity r b p =
    runner_ok r p.spec.containers
    && text_eq p.spec.restart_policy (text "Never")
    && (if is_empty b.spec.source.uri
        then is_nil p.spec.init_containers
        else fetch_ok r b p.spec.init_containers)

-- admissioncontract.RunnerManifestDigest
unfoldable pub runner_manifest_digest : Backend → Text → Option Text
runner_manifest_digest x value = elim (x.reference value) [
  | none ↦ none
  | some v ↦
      if not (ltb 512 (length value)) && text_eq v.0 value && valid_digest v.1
      then some v.1
      else none
]

-- runnerexec.RequestID
unfoldable pub request_id : KovaBuild → Text
request_id b = if is_empty b.uid then b.namespace ++ text "/" ++ b.name else b.uid

unfoldable pub attempt_identity : ActiveReservation → Bool
attempt_identity e =
    valid_reservation_hex e.pod_attempt_nonce 32
    && valid_grant_receipt_digest e.pod_template_digest
    && valid_grant_receipt_uid e.grant_receipt_uid
    && valid_grant_receipt_digest e.grant_receipt_digest

unfoldable pub pod_payload :
    KovaBuild → ActiveReservation → GrantIntent → Text → Text → PodCreateIntent
pod_payload b e grant receipt digest = record {
  build = grant.build;
  grant_receipt = record {
    name = receipt;
    uid = e.grant_receipt_uid;
    data_digest = e.grant_receipt_digest;
  };
  pod_name = pod_name b.name;
  pod_attempt_nonce = e.pod_attempt_nonce;
  pod_template_digest = e.pod_template_digest;
  runner_image_digest = digest;
  build_request_id = request_id b;
}

-- The image's digest is the one configured.
unfoldable pub image_digest : Backend → Reconciler → Result Text
image_digest x r = elim (runner_manifest_digest x r.runner_image) [
  | none ↦ err Error.failed
  | some d ↦ if text_eq d r.runner_image_digest then ok d else err Error.failed
]

abbrev pub pinned_image : Reconciler → Bool
pinned_image r = elim r.genesis [ none ↦ false | some o ↦ text_eq r.runner_image o.runner_image ]

unfoldable pub pod_intent :
    Backend → Reconciler → KovaBuild → ActiveReservation → Bool → M PodCreateIntent
pod_intent x r b e observed = do
  require (attempt_identity e) Error.failed
  grant ← grant_intent x r b e observed
  receipt ← from_result (new_grant_config_map x.payloads grant)
  require (pinned_image r) Error.failed
  digest ← from_result (image_digest x r)
  pure (pod_payload b e grant receipt.name digest)

-- The reads of an observation of the Pod's receipt.
unfoldable pub observe_pod_reads :
    Backend → Reconciler → KovaBuild → ActiveReservation → M EffectWitness
observe_pod_reads x r b e =
    check_grant_namespace r b.namespace true >> pod_intent x r b e true >>= λ intent.
    observed_read (observe_pod_create x.payloads r.has_receipts intent) >>= λ w.
    check_grant_namespace r b.namespace true >> pure w

unfoldable pub observe_pod_receipt :
    Backend → Reconciler → KovaBuild → ActiveReservation → M EffectWitness
observe_pod_receipt x r b e =
    require (is_some r.genesis) Error.failed >> observe (observe_pod_reads x r b e)

abbrev pub pod_pinned_as : ActiveReservation → EffectWitness → Bool
pod_pinned_as e w =
    text_eq w.receipt_uid e.pod_receipt_uid && text_eq w.data_digest e.pod_receipt_digest

unfoldable pub verify_pod_reads :
    Backend → Reconciler → KovaBuild → ActiveReservation → Bool → M (Unit {0})
verify_pod_reads x r b e allow_closing =
    if not allow_closing && e.closing
    then fail Error.admission_closed
    else if not (is_empty e.pod_receipt_uid) && not (is_empty e.pod_receipt_digest)
    then (observe_pod_reads x r b e >>= λ w. require (pod_pinned_as e w) Error.receipt_changed)
    else if is_empty e.pod_template_digest
    then fail Error.pod_receipt_unpinned
    else attempt (observe_pod_reads x r b e) λ w. fail Error.pod_receipt_unpinned

unfoldable pub verify_pinned_pod_receipt :
    Backend → Reconciler → KovaBuild → ActiveReservation → Bool → M (Unit {0})
verify_pinned_pod_receipt x r b e allow_closing =
    require (is_some r.genesis) Error.failed >> observe (verify_pod_reads x r b e allow_closing)
