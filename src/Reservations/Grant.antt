-- ===== src/Reservations/Grant.antt =====
-- The receipt of a grant (internal/service/buildcontroller/grant_receipt.go): a fresh grant is armed
-- with an observed resource version, its receipt is created once and pinned; it is deleted after the
-- ledger has recorded the cleanup. `observed` tells the functions that run inside an observation from
-- those that check the pair themselves.
pub mod Pinning
pub mod Discarding
use kova.Base.{
  ℕ, zero, suc, Bool, true, false, not, ◌&&◌, Option, none, some, ◌==◌, if◌then◌else◌, is_some,
}
use kova.Base.Text.{Text, text, text_eq, is_empty}
use kova.Base.Dict.{lookup}
use kova.Api.{KovaBuild}
use kova.Effects.{
  Error, Result, ok, err, ConfigMap, M, pure, fail, attempt, from_result, require, ◌>>=◌, ◌>>◌,
  get_config_map, delete_config_map, check_guard, is_not_found, observe, observed_read,
}
use kova.Admission.{ActiveReservation, reservation_key, requester_key}
use kova.Queue.{Intent, hash_requester, digest_build, intent_annotation}
use kova.Queue.Store.{lookup_intent, intent_eq}
use kova.Queue.Receipt.{check_receipt_namespace, receipt_intent, new_queue_config_map}
use kova.Queue.Release.{note_of, verify_for_build}
use kova.Queue.Observed.{lookup_observed, check_receipt_namespace_observed, verify_observed}
use kova.Receipts.{
  ReceiptLink, GrantIntent, EffectWitness, new_grant_config_map, qualify_grant, observe_grant,
  record_grant_once,
}
use kova.Reservations.{
  ReservationState, valid_reservation_hex, valid_grant_observed_rv, valid_grant_receipt_uid,
  valid_grant_receipt_digest,
}
use kova.Reservations.Ledger.{
  Original, Reconciler, Backend, queue_store, max_reservation_attempts, read_reservations,
  write_reservations, cas_reservations, with_entry, ensure_live,
}

unfoldable pub check_grant_namespace : Reconciler → Text → Bool → M (Unit {0})
check_grant_namespace r ns observed =
    require (is_some r.genesis && r.has_receipts) Error.failed
    >> (if observed
        then check_receipt_namespace_observed (queue_store r ns)
        else check_receipt_namespace (queue_store r ns))

-- The grant carries what its receipt is derived from.
unfoldable pub grant_identity : Backend → Reconciler → KovaBuild → ActiveReservation → Bool
grant_identity x r b e =
    is_some r.genesis
    && not (is_empty b.uid)
    && text_eq e.build_name b.name
    && text_eq e.requester (requester_key b)
    && valid_reservation_hex e.grant_nonce 32
    && not (e.grant_fence == 0)
    && valid_grant_observed_rv x.codec e.grant_observed_rv

-- The queue's entry of the second read is the one that was verified.
unfoldable pub same_snapshot : Option Intent → Option Intent → Bool
same_snapshot none none = true
same_snapshot (some a) (some b) = intent_eq a b
same_snapshot none (some b) = false
same_snapshot (some a) none = false

unfoldable pub charge_ok : KovaBuild → Intent → Text → Bool
charge_ok b q digest =
    text_eq q.nonce (note_of intent_annotation b)
    && not (is_empty q.receipt_uid)
    && not (is_empty q.receipt_digest)
    && text_eq q.request_digest digest
    && is_empty q.cleanup_kind

-- The link to the receipt of the queue's entry.
unfoldable pub queue_link : Backend → Reconciler → KovaBuild → Intent → Result ReceiptLink
queue_link x r b q = elim (receipt_intent x.payloads.base (queue_store r b.namespace) b q) [
  | err e ↦ err e
  | ok intent ↦ (elim (new_queue_config_map x.payloads.base intent) [
    | err e ↦ err e
    | ok cm ↦ ok (record { name = cm.name; uid = q.receipt_uid; data_digest = q.receipt_digest })
  ])
]

-- The admission mode and the link: a build with a queue intent needs its charge, another has none.
unfoldable pub mode_of :
    Backend → Reconciler → KovaBuild → Text → Option Intent → Result (Text × Option ReceiptLink)
mode_of x r b digest found =
    if is_empty (note_of intent_annotation b)
    then (elim found [ none ↦ ok (text "direct", none) | some q ↦ err Error.drift ])
    else elim found [
      | none ↦ err Error.drift
      | some q ↦
          if charge_ok b q digest
          then (elim (queue_link x r b q) [ err e ↦ err e | ok l ↦ ok (text "queued", some l) ])
          else err Error.drift
    ]

unfoldable pub grant_payload :
    Backend
    → Reconciler
    → Original
    → KovaBuild
    → ActiveReservation
    → Text
    → Text × Option ReceiptLink
    → GrantIntent
grant_payload x r o b e digest mode = record {
  build = record {
    namespace = b.namespace;
    namespace_uid = o.guard.bound_namespace_uid;
    receipt_namespace = o.guard.receipt_namespace;
    receipt_namespace_uid = o.guard.receipt_namespace_uid;
    genesis_name = o.guard.genesis_name;
    genesis_uid = o.guard.bound_genesis_uid;
    generation = o.guard.generation;
    active_ledger_uid = o.guard.active_ledger_uid;
    queue_ledger_uid = o.guard.queue_ledger_uid;
    build_name = b.name;
    build_uid = b.uid;
    requester_name = b.spec.requester.username;
    requester_uid = b.spec.requester.uid;
    requester_hash = hash_requester x.payloads.base b.spec.requester.username;
    request_digest = digest;
    source_digest = b.spec.source.digest;
    worker_pool_id = r.worker_pool_id;
  };
  admission_mode = mode.0;
  queue_receipt = mode.1;
  grant_nonce = e.grant_nonce;
  active_ledger_fence = e.grant_fence;
  active_ledger_rv = e.grant_observed_rv;
  allocated_worker_slots = e.slots;
}

unfoldable pub grant_intent :
    Backend → Reconciler → KovaBuild → ActiveReservation → Bool → M GrantIntent
grant_intent x r b e observed = elim r.genesis [
  | none ↦ fail Error.failed
  | some o ↦
      require (grant_identity x r b e) Error.failed
      >> (if observed then pure tt else check_guard)
      >> require (not (is_empty r.worker_pool_id) && text_eq r.worker_pool_id o.worker_pool_id)
          Error.failed
      >> (if observed
          then verify_observed x.payloads.base (queue_store r b.namespace) b
          else verify_for_build x.payloads.base (queue_store r b.namespace) b)
      >>= λ verified.
          (if observed
            then lookup_observed x.payloads.base (queue_store r b.namespace) b.name
            else lookup_intent x.payloads.base (queue_store r b.namespace) b.name)
          >>= λ found.
              require (same_snapshot verified found) Error.drift
              >> from_result (digest_build x.payloads.base b)
              >>= λ digest. from_result (mode_of x r b digest found) >>= λ mode.
                  pure (grant_payload x r o b e digest mode)
]

unfoldable pub same_grant : ActiveReservation → ActiveReservation → Bool
same_grant a b =
    text_eq a.build_name b.build_name
    && text_eq a.requester b.requester
    && a.slots == b.slots
    && text_eq a.grant_nonce b.grant_nonce
    && a.grant_fence == b.grant_fence

-- A fresh grant that nobody has armed, pinned or closed.
unfoldable pub unarmed : ActiveReservation → ActiveReservation → Bool
unarmed e original =
    same_grant e original
    && not e.closing
    && is_empty e.grant_observed_rv
    && is_empty e.grant_receipt_uid

unfoldable pub armed_as : ActiveReservation → ActiveReservation → Text → Bool
armed_as o original rv =
    same_grant o original
    && text_eq o.grant_observed_rv rv
    && not o.closing
    && is_empty o.grant_receipt_uid

-- The readback of an arm.
unfoldable pub confirm_armed :
    Backend → Reconciler → KovaBuild → ActiveReservation → Text → M ActiveReservation
confirm_armed x r b original rv = read_reservations x r b.namespace >>= λ v.
    elim (lookup (reservation_key b) v.1.active) [
      | none ↦ fail Error.failed
      | some o ↦ if armed_as o original rv then pure o else fail Error.failed
    ]

unfoldable pub arm_grant_loop :
    Backend → Reconciler → KovaBuild → ActiveReservation → ℕ → M ActiveReservation
arm_grant_loop x r b original zero = fail Error.failed
arm_grant_loop x r b original (suc left) = read_reservations x r b.namespace >>= λ v.
    elim (lookup (reservation_key b) v.1.active) [
      | none ↦ fail Error.failed
      | some e ↦ do
        require (unarmed e original) Error.failed
        ensure_live b
        require (valid_grant_observed_rv x.codec v.0.resource_version) Error.failed
        cas_reservations x r v.0
            (with_entry v.1 b (record e { grant_observed_rv = v.0.resource_version })) left
            (arm_grant_loop x r b original left) (λ failure. fail failure)
            (confirm_armed x r b original v.0.resource_version)
    ]

unfoldable pub arm_fresh_grant :
    Backend → Reconciler → KovaBuild → ActiveReservation → M ActiveReservation
arm_fresh_grant x r b original = arm_grant_loop x r b original max_reservation_attempts

-- The reads of an observation of the grant's receipt.
unfoldable pub observe_grant_reads :
    Backend → Reconciler → KovaBuild → ActiveReservation → M EffectWitness
observe_grant_reads x r b e =
    check_grant_namespace r b.namespace true >> grant_intent x r b e true >>= λ intent.
    observed_read (observe_grant x.payloads r.has_receipts intent) >>= λ w.
    check_grant_namespace r b.namespace true >> pure w

unfoldable pub observe_grant_receipt :
    Backend → Reconciler → KovaBuild → ActiveReservation → M EffectWitness
observe_grant_receipt x r b e =
    require (is_some r.genesis) Error.failed >> observe (observe_grant_reads x r b e)

abbrev pub grant_pinned_as : ActiveReservation → EffectWitness → Bool
grant_pinned_as e w =
    text_eq w.receipt_uid e.grant_receipt_uid && text_eq w.data_digest e.grant_receipt_digest

-- Without a pinned receipt the observation is made, and its result is dropped.
unfoldable pub verify_grant_reads :
    Backend → Reconciler → KovaBuild → ActiveReservation → M (Unit {0})
verify_grant_reads x r b e =
    if e.closing
    then fail Error.admission_closed
    else if not (is_empty e.grant_receipt_uid) && not (is_empty e.grant_receipt_digest)
    then (observe_grant_reads x r b e >>= λ w. require (grant_pinned_as e w) Error.receipt_changed)
    else if is_empty e.grant_observed_rv
    then fail Error.grant_unpinned
    else attempt (observe_grant_reads x r b e) λ w. fail Error.grant_unpinned

unfoldable pub verify_pinned_grant :
    Backend → Reconciler → KovaBuild → ActiveReservation → M (Unit {0})
verify_pinned_grant x r b e =
    require (is_some r.genesis) Error.failed >> observe (verify_grant_reads x r b e)
