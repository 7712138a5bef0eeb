-- ===== src/Queue/Receipt/Pins.antt =====
-- Deriving, pinning and observing a receipt (internal/service/queueadmission/ledger.go, from
-- ReceiptIntent to observePinnedReceipt).
use kova.Base.{ℕ, zero, suc, Bool, false, not, ◌&&◌, [], Option, none, some, if◌then◌else◌}
use kova.Base.Text.{Text, text_eq, is_empty}
use kova.Base.Dict.{lookup, insert}
use kova.Api.{KovaBuild, value_of}
use kova.Effects.{
  Error, Result, ok, err, Namespace, M, fail, attempt, from_result, require, ◌>>=◌, ◌>>◌,
  get_config_map, read_namespace, check_guard,
}
use kova.Queue.{
  Intent, Externals, max_cas_attempts, hash_requester, digest_build, valid_receipt_uid,
  valid_digest, receipt_uid_annotation, receipt_digest_annotation,
}
use kova.Queue.Store.{Genesis, Store, read, lookup_intent, cas_write, with_intents}
use kova.Queue.Receipt.Data.{
  QueueIntent, ObservedQueueIntent, queue_intent_eq, new_queue_config_map, qualify_queue,
}

-- The receipt that the pinned Genesis and the winning reservation determine.
unfoldable pub queue_intent : Genesis → KovaBuild → Intent → QueueIntent
queue_intent g b e = record {
  namespace = g.namespace;
  namespace_uid = g.bound_namespace_uid;
  receipt_namespace = g.receipt_namespace;
  receipt_namespace_uid = g.receipt_namespace_uid;
  genesis_name = g.genesis_name;
  genesis_uid = g.bound_genesis_uid;
  generation = g.generation;
  active_ledger_uid = g.active_ledger_uid;
  queue_ledger_uid = g.queue_ledger_uid;
  build_name = b.name;
  requester_name = b.spec.requester.username;
  requester_hash = e.requester_hash;
  requester_uid = b.spec.requester.uid;
  request_digest = e.request_digest;
  source_digest = b.spec.source.digest;
  queue_nonce = e.nonce;
}

-- The installation is the pinned one.
unfoldable pub installation_ok : Store → Genesis → Bool
installation_ok s g =
    text_eq g.namespace s.namespace
    && text_eq g.namespace_uid g.bound_namespace_uid
    && not (text_eq g.receipt_namespace s.namespace)
    && not (is_empty g.receipt_namespace)
    && not (is_empty g.receipt_namespace_uid)
    && text_eq g.genesis_uid g.bound_genesis_uid
    && not (is_empty g.active_ledger_uid)
    && not (is_empty g.queue_ledger_uid)

unfoldable pub receipt_intent : Externals → Store → KovaBuild → Intent → Result QueueIntent
receipt_intent x s b e = elim s.genesis [
  | none ↦ err Error.drift
  | some g ↦
      if text_eq b.namespace s.namespace
        && not (is_empty b.name)
        && not (is_empty e.nonce)
        && installation_ok s g
      then (elim (digest_build x b) [
        | err failure ↦ err failure
        | ok digest ↦
            if text_eq e.requester_hash (hash_requester x b.spec.requester.username)
              && text_eq e.request_digest digest
            then (elim (new_queue_config_map x (queue_intent g b e)) [
              | err failure ↦ err failure
              | ok cm ↦ ok (queue_intent g b e)
            ])
            else err Error.drift
      ])
      else err Error.drift
]

-- `receiptNamespace`
abbrev pub receipt_namespace_of : Store → Text
receipt_namespace_of s = elim s.genesis [ none ↦ [] | some g ↦ g.receipt_namespace ]

-- admissioncontract.QualifyReceiptNamespace
unfoldable pub qualify_namespace : Genesis → Namespace → Bool
qualify_namespace g ns =
    g.is_valid
    && text_eq ns.name g.receipt_namespace
    && text_eq ns.uid g.receipt_namespace_uid
    && not ns.deleting
    && ns.is_active

unfoldable pub check_receipt_namespace : Store → M (Unit {0})
check_receipt_namespace s = elim s.genesis [
  | none ↦ fail Error.drift
  | some g ↦ require g.has_api Error.drift >> read_namespace g.receipt_namespace >>= λ ns.
      require (qualify_namespace g ns) Error.drift
]

-- The entry is the reserved one and has no cleanup yet.
unfoldable pub same_reservation : Intent → Intent → Bool
same_reservation e reserved =
    text_eq e.nonce reserved.nonce
    && text_eq e.request_digest reserved.request_digest
    && text_eq e.requester_hash reserved.requester_hash

abbrev pub pinned : Intent → ObservedQueueIntent → Intent
pinned e w = record e { receipt_uid = w.receipt_uid; receipt_digest = w.data_digest }

-- The observed entry carries the nonce and the link of `e`, and the cleanup kind `kind`.
unfoldable pub link_seen : Intent → Text → Option Intent → Bool
link_seen e kind none = false
link_seen e kind (some o) =
    text_eq o.nonce e.nonce
    && text_eq o.receipt_uid e.receipt_uid
    && text_eq o.receipt_digest e.receipt_digest
    && text_eq o.cleanup_kind kind

-- `readErr == nil && found && …`
abbrev pub recovered : Intent → Text → Result (Option Intent) → Bool
recovered e kind (ok o) = link_seen e kind o
recovered e kind (err failure) = false

unfoldable pub pin_loop : Externals → Store → Text → Intent → ObservedQueueIntent → ℕ → M (Unit {0})
pin_loop x s id reserved w zero = fail Error.busy
pin_loop x s id reserved w (suc left) = read x s >>= λ v. elim (lookup id v.1.intents) [
  | none ↦ fail Error.drift
  | some e ↦
      if same_reservation e reserved && is_empty e.cleanup_kind
      then if is_empty e.receipt_uid
        then cas_write x s v.0 (with_intents v.1 (insert id (pinned e w) v.1.intents)) left
            (pin_loop x s id reserved w left)
            (λ failure.
              attempt (lookup_intent x s id) λ r.
                if recovered (pinned e w) [] r then check_receipt_namespace s else fail failure)
            (lookup_intent x s id >>= λ o.
              require (link_seen (pinned e w) [] o) Error.drift >> check_receipt_namespace s)
        else if text_eq e.receipt_uid w.receipt_uid && text_eq e.receipt_digest w.data_digest
        then check_receipt_namespace s
        else fail Error.drift
      else fail Error.drift
]

unfoldable pub pin_receipt :
    Externals → Store → KovaBuild → Intent → ObservedQueueIntent → M (Unit {0})
pin_receipt x s b reserved w = do
  check_receipt_namespace s
  expected ← from_result (receipt_intent x s b reserved)
  require
      (queue_intent_eq w.intent expected
        && valid_receipt_uid w.receipt_uid
        && valid_digest w.data_digest)
      Error.drift
  pin_loop x s b.name reserved w max_cas_attempts

-- The link in the build's annotations is the entry's.
unfoldable pub annotated_link : KovaBuild → Intent → Bool
annotated_link b e =
    text_eq (value_of receipt_uid_annotation b.annotations) e.receipt_uid
    && text_eq (value_of receipt_digest_annotation b.annotations) e.receipt_digest

unfoldable pub observe_pinned_receipt : Externals → Store → KovaBuild → Intent → M (Unit {0})
observe_pinned_receipt x s b e = do
  check_receipt_namespace s
  require
      (not (is_empty e.receipt_uid)
        && not (is_empty e.receipt_digest)
        && is_empty e.cleanup_kind
        && annotated_link b e)
      Error.drift
  intent ← from_result (receipt_intent x s b e)
  expected ← from_result (new_queue_config_map x intent)
  attempt (get_config_map (receipt_namespace_of s) expected.name) λ r. elim r [
    | err failure ↦ fail Error.drift
    | ok observed ↦ (elim (qualify_queue x intent observed) [
      | err failure ↦ fail Error.drift
      | ok w ↦
          require (text_eq w.receipt_uid e.receipt_uid && text_eq w.data_digest e.receipt_digest)
            Error.drift
          >> check_guard
    ])
  ]
