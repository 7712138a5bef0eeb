-- ===== src/Queue/Reading.antt =====
-- The reads of the queue ledger and the verification of a build change nothing
-- (internal/service/queueadmission/ledger.go).
use kova.Base.{none, some, if◌then◌else◌, Option, ◌&&◌}
use kova.Base.Text.{Text, is_empty, text_eq}
use kova.Api.{KovaBuild}
use kova.Effects.{
  Error, Result, ok, err, M, ConfigMap, check_guard, pure, fail, require, is_not_found, ◌>>=◌, ◌>>◌,
  from_result, observed_read,
}
use kova.Effects.Reads.{
  Reads, Free, read_rules, Free-option, Free-result, Free-bind, Free-ret, Free-if,
}
use kova.Queue.{Intent, Externals, intent_annotation, digest_build}
use kova.Queue.Store.{Store, read, check_ready, lookup_intent, before_read}
use kova.Queue.Receipt.{check_receipt_namespace, observe_pinned_receipt, qualify_queue, QueueIntent}
use kova.Queue.Release.{verify_for_build, note_of, qualify_receipt, matches_build}
use kova.Queue.Observed.{
  read_observed, lookup_observed, check_receipt_namespace_observed, observe_pinned_receipt_observed,
  verify_observed, qualify_observed,
}

pub observed_read-Reads : {A : Type 0} (m : M A) → Reads Free m → Reads Free (observed_read m)
unfolding observed_read
observed_read-Reads m s = search (read_rules) depth 30

module _ (x : Externals) (s : Store) where
  before_read-Reads : Reads Free (before_read s)
  before_read-Reads =
      Free-option s.genesis _ _ (search (read_rules) depth 30) (λ g. search (read_rules) depth 30)

  read-Reads : Reads Free (read x s)
  unfolding read
  read-Reads = search (read_rules, before_read-Reads) depth 30

  pub lookup_intent-Reads : (id : Text) → Reads Free (lookup_intent x s id)
  unfolding lookup_intent
  lookup_intent-Reads id = search (read_rules, read-Reads) depth 30

  pub check_receipt_namespace-Reads : Reads Free (check_receipt_namespace s)
  unfolding check_receipt_namespace
  check_receipt_namespace-Reads =
      Free-option s.genesis _ _ (search (read_rules) depth 30) (λ g. search (read_rules) depth 30)

  -- What follows the read of a receipt.
  receipt_read :
      (e : Intent) (intent : QueueIntent) (r : Result ConfigMap)
      → Reads Free (elim r [
        | err failure ↦ fail {A = Unit {0}} Error.drift
        | ok observed ↦ (elim (qualify_queue x intent observed) [
          | err failure ↦ fail {A = Unit {0}} Error.drift
          | ok w ↦
              require
                (text_eq w.receipt_uid e.receipt_uid && text_eq w.data_digest e.receipt_digest)
                Error.drift
              >> check_guard
        ])
      ])
  receipt_read e intent (err f) = search (read_rules)
  receipt_read e intent (ok o) =
      Free-result (qualify_queue x intent o) _ _ (λ w. search (read_rules) depth 30)
        (λ f. search (read_rules))

  observe_pinned_receipt-Reads :
      (b : KovaBuild) (e : Intent) → Reads Free (observe_pinned_receipt x s b e)
  unfolding observe_pinned_receipt
  observe_pinned_receipt-Reads b e =
      search (read_rules, check_receipt_namespace-Reads, receipt_read) depth 30

  read_observed-Reads : Reads Free (read_observed x s)
  unfolding read_observed observed_read
  read_observed-Reads = search (read_rules) depth 30

  pub lookup_observed-Reads : (id : Text) → Reads Free (lookup_observed x s id)
  unfolding lookup_observed
  lookup_observed-Reads id = search (read_rules, read_observed-Reads) depth 30

  pub check_receipt_namespace_observed-Reads : Reads Free (check_receipt_namespace_observed s)
  unfolding check_receipt_namespace_observed observed_read
  check_receipt_namespace_observed-Reads =
      Free-option s.genesis _ _ (search (read_rules) depth 30) (λ g. search (read_rules) depth 30)

  receipt_read_observed :
      (e : Intent) (intent : QueueIntent) (r : Result ConfigMap)
      → Reads Free (elim r [
        | err failure ↦ fail {A = Unit {0}} Error.drift
        | ok observed ↦ (elim (qualify_queue x intent observed) [
          | err failure ↦ fail {A = Unit {0}} Error.drift
          | ok w ↦
              require
                (text_eq w.receipt_uid e.receipt_uid && text_eq w.data_digest e.receipt_digest)
                Error.drift
        ])
      ])
  receipt_read_observed e intent (err f) = search (read_rules)
  receipt_read_observed e intent (ok o) =
      Free-result (qualify_queue x intent o) _ _ (λ w. search (read_rules))
        (λ f. search (read_rules))

  observe_pinned_receipt_observed-Reads :
      (b : KovaBuild) (e : Intent) → Reads Free (observe_pinned_receipt_observed x s b e)
  unfolding observe_pinned_receipt_observed observed_read
  observe_pinned_receipt_observed-Reads b e =
      search (read_rules, check_receipt_namespace_observed-Reads, receipt_read_observed) depth 30

  -- What follows the lookup in a verification.
  verified :
      (b : KovaBuild) (r : Result (Option Intent)) (m : Intent → M (Unit {0}))
      → ((e : Intent) → Reads Free (m e))
      → Reads Free (elim r [
        | err failure ↦
            if is_not_found failure then fail {A = Option Intent} Error.drift else fail failure
        | ok none ↦ fail {A = Option Intent} Error.drift
        | ok (some e) ↦
            require (matches_build x b e) Error.drift
            >> from_result (digest_build x b)
            >>= λ digest.
                require (text_eq e.request_digest digest) Error.drift >> m e >>= λ u. pure (some e)
      ])
  verified b (err failure) m s = search (read_rules)
  verified b (ok none) m s = search (read_rules)
  verified b (ok (some e)) m s = search (read_rules, s) depth 30

  pub verify_for_build-Reads : (b : KovaBuild) → Reads Free (verify_for_build x s b)
  unfolding verify_for_build check_ready
  verify_for_build-Reads b =
      Free-if (is_empty (note_of intent_annotation b)) _ _
        (Free-option s.genesis _ _ (Free-ret _) (λ g. search (read_rules, read-Reads) depth 30))
        (Free-bind _ _ (lookup_intent-Reads b.name) (λ r.
          verified b r (qualify_receipt x s b)
            (λ e. Free-option s.genesis _ _ (Free-ret _) (λ g. observe_pinned_receipt-Reads b e))))

  pub verify_observed-Reads : (b : KovaBuild) → Reads Free (verify_observed x s b)
  unfolding verify_observed
  verify_observed-Reads b =
      Free-if (is_empty (note_of intent_annotation b)) _ _
        (Free-option s.genesis _ _ (Free-ret _)
          (λ g. search (read_rules, read_observed-Reads) depth 30))
        (Free-bind _ _ (lookup_observed-Reads b.name) (λ r.
          verified b r (qualify_observed x s b) (λ e.
            Free-option s.genesis _ _ (Free-ret _)
              (λ g. observe_pinned_receipt_observed-Reads b e))))
