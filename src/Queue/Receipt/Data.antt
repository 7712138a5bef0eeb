-- ===== src/Queue/Receipt/Data.antt =====
-- The data of a queue receipt and its qualification (internal/service/recoveryreceipt/queue.go).
use kova.Base.{
  ℕ, ◌*◌, Bool, true, false, not, ◌&&◌, ◌||◌, [], ◌∷◌, ◌++◌, none, some, ltb, leb, ◌==◌,
  if◌then◌else◌, length,
}
use kova.Base.Text.{Text, text, text_eq, is_empty}
use kova.Base.Dict.{Dict}
use kova.Api.{value_of}
use kova.Effects.{Error, Result, ok, err, ConfigMap}
use kova.Queue.{Externals, valid_lower_hex, valid_digest}
use kova.Queue.Store.{is_nil}

pub record QueueIntent : Type 0 where
  pub namespace : Text
  pub namespace_uid : Text
  pub receipt_namespace : Text
  pub receipt_namespace_uid : Text
  pub genesis_name : Text
  pub genesis_uid : Text
  pub generation : Text
  pub active_ledger_uid : Text
  pub queue_ledger_uid : Text
  pub build_name : Text
  pub requester_name : Text
  pub requester_hash : Text
  pub requester_uid : Text
  pub request_digest : Text
  pub source_digest : Text
  pub queue_nonce : Text

pub record ObservedQueueIntent : Type 0 where
  pub intent : QueueIntent
  pub receipt_name : Text
  pub receipt_uid : Text
  pub resource_version : Text
  pub data_digest : Text

-- The pairs of `data()`.
unfoldable pub receipt_data : QueueIntent → Dict Text
receipt_data q =
    (text "version", text "1")
    ∷ (text "namespaceName", q.namespace)
    ∷ (text "namespaceUID", q.namespace_uid)
    ∷ (text "receiptNamespaceName", q.receipt_namespace)
    ∷ (text "receiptNamespaceUID", q.receipt_namespace_uid)
    ∷ (text "genesisName", q.genesis_name)
    ∷ (text "genesisUID", q.genesis_uid)
    ∷ (text "generation", q.generation)
    ∷ (text "activeLedgerUID", q.active_ledger_uid)
    ∷ (text "queueLedgerUID", q.queue_ledger_uid)
    ∷ (text "buildName", q.build_name)
    ∷ (text "requesterName", q.requester_name)
    ∷ (text "requesterHash", q.requester_hash)
    ∷ (text "requesterUID", q.requester_uid)
    ∷ (text "requestDigest", q.request_digest)
    ∷ (text "sourceDigest", q.source_digest)
    ∷ (text "queueNonce", q.queue_nonce)
    ∷ []

-- `intent == expected`: all fields agree.
unfoldable pub queue_intent_eq : QueueIntent → QueueIntent → Bool
queue_intent_eq a b =
    text_eq a.namespace b.namespace
    && text_eq a.namespace_uid b.namespace_uid
    && text_eq a.receipt_namespace b.receipt_namespace
    && text_eq a.receipt_namespace_uid b.receipt_namespace_uid
    && text_eq a.genesis_name b.genesis_name
    && text_eq a.genesis_uid b.genesis_uid
    && text_eq a.generation b.generation
    && text_eq a.active_ledger_uid b.active_ledger_uid
    && text_eq a.queue_ledger_uid b.queue_ledger_uid
    && text_eq a.build_name b.build_name
    && text_eq a.requester_name b.requester_name
    && text_eq a.requester_hash b.requester_hash
    && text_eq a.requester_uid b.requester_uid
    && text_eq a.request_digest b.request_digest
    && text_eq a.source_digest b.source_digest
    && text_eq a.queue_nonce b.queue_nonce

abbrev pub max_effect_bytes : ℕ
max_effect_bytes = 16 * 1024

unfoldable pub opaque_uid : Externals → Text → Bool
opaque_uid x v = not (is_empty v) && leb (length v) 256 && x.is_utf8 v

unfoldable pub receipt_valid : Externals → QueueIntent → Bool
receipt_valid x q =
    x.is_dns_label q.namespace
    && x.is_dns_label q.receipt_namespace
    && not (text_eq q.receipt_namespace q.namespace)
    && opaque_uid x q.receipt_namespace_uid
    && x.is_dns_subdomain q.genesis_name
    && x.is_dns_subdomain q.build_name
    && opaque_uid x q.namespace_uid
    && opaque_uid x q.genesis_uid
    && opaque_uid x q.active_ledger_uid
    && opaque_uid x q.queue_ledger_uid
    && valid_lower_hex q.generation 32
    && valid_lower_hex q.queue_nonce 32
    && not (is_empty q.requester_name)
    && x.is_utf8 q.requester_name
    && leb (x.rune_count q.requester_name) 253
    && valid_lower_hex q.requester_hash 64
    && valid_lower_hex q.request_digest 64
    && x.is_utf8 q.requester_uid
    && leb (x.rune_count q.requester_uid) 253
    && valid_digest q.source_digest
    && text_eq (x.sha256_hex q.requester_name) q.requester_hash
    && leb (length (x.marshal_texts (receipt_data q))) max_effect_bytes

unfoldable pub receipt_name : QueueIntent → Text
receipt_name q = text "kova-admission-intent-" ++ q.queue_nonce

abbrev pub receipt_label : Text
receipt_label = text "kova.cofy.dev/admission-receipt"

unfoldable pub new_queue_config_map : Externals → QueueIntent → Result ConfigMap
new_queue_config_map x q =
    if receipt_valid x q
    then ok (record {
      meta = record {
        namespace = q.receipt_namespace;
        name = receipt_name q;
        uid = [];
        resource_version = [];
        labels = (receipt_label, text "queue-intent") ∷ [];
        annotations = [];
        finalizers = [];
        owners = [];
        deleting = false;
        created = 0;
      };
      immutable = some true;
      contents = receipt_data q;
      binary = [];
    })
    else err Error.receipt_invalid

-- Every wanted pair is there; a missing key reads as "".
unfoldable pub has_pairs : Dict Text → Dict Text → Bool
has_pairs [] found = true
has_pairs ((k, v) ∷ want) found = text_eq (value_of k found) v && has_pairs want found

-- `cm.Immutable != nil && *cm.Immutable`
abbrev pub is_immutable : ConfigMap → Bool
is_immutable cm = elim cm.immutable [ none ↦ false | some b ↦ b ]

-- recoveryreceipt.DigestData
unfoldable pub digest_data : Externals → Dict Text → Result Text
digest_data x d =
    if is_nil d || ltb (max_effect_bytes * 2) (length (x.marshal_texts d))
    then err Error.receipt_invalid
    else ok (text "sha256:" ++ x.sha256_hex (x.marshal_texts d))

unfoldable pub is_original : Externals → QueueIntent → ConfigMap → Bool
is_original x q cm =
    text_eq cm.namespace q.receipt_namespace
    && text_eq cm.name (receipt_name q)
    && opaque_uid x cm.uid
    && not (is_empty cm.resource_version)
    && not cm.deleting
    && is_immutable cm
    && is_nil cm.binary
    && is_nil cm.owners
    && length cm.contents == length (receipt_data q)
    && text_eq (value_of receipt_label cm.labels) (text "queue-intent")
    && has_pairs (receipt_data q) cm.contents

unfoldable pub qualify_queue : Externals → QueueIntent → ConfigMap → Result ObservedQueueIntent
qualify_queue x q cm =
    if receipt_valid x q
    then if is_original x q cm
      then (elim (digest_data x cm.contents) [
        | err e ↦ err Error.receipt_changed
        | ok digest ↦ ok (record {
          intent = q;
          receipt_name = cm.name;
          receipt_uid = cm.uid;
          resource_version = cm.resource_version;
          data_digest = digest;
        })
      ])
      else err Error.receipt_changed
    else err Error.receipt_invalid
