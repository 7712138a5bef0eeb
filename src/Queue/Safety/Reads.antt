-- ===== src/Queue/Safety/Reads.antt =====
-- The parts of the ledger's operations that change nothing (internal/service/queueadmission/ledger.go):
-- the reads of entries, the checks of the receipt namespace, and the observation of a receipt.
use kova.Base.{◌≡◌, Bool, true, false, not, ◌&&◌, ◌∷◌, Option, none, some, arith, In, here, there}
use kova.Base.Text.{Text, text_eq, is_empty}
use kova.Api.{KovaBuild}
use kova.Effects.{
  Error, Result, ok, err, ConfigMap, Namespace, Request, fail, require, ask_ctx, ◌>>◌, ◌>>=◌,
  check_guard, attempt, read_namespace, get_config_map,
}
use kova.Effects.Traces.{
  History, event, Always, Outcome, Any, Later, passed, seq, checked, by_result,
}
use kova.Queue.{Intent, Externals}
use kova.Queue.Store.{Genesis, Store, read}
use kova.Queue.Receipt.{
  check_receipt_namespace, qualify_namespace, observe_pinned_receipt, annotated_link,
  receipt_intent, QueueIntent, ObservedQueueIntent, new_queue_config_map, qualify_queue,
  receipt_namespace_of,
}
use kova.Queue.Evidence.{Observed, Scope, Safe}
use kova.Queue.Safety.{read-Safe}

module _ (x : Externals) (s : Store) where
  -- The receipt of the entry was read, is the original one for the build and the entry, and carries
  -- the entry's link.
  pub record SeenReceipt (h : History) (b : KovaBuild) (e : Intent) : Type 0 where
    pub intent : QueueIntent
    pub receipt : ConfigMap
    pub name : Text
    pub determined : receipt_intent x s b e ≡ ok intent
    pub got : In (event (Request.get_config (receipt_namespace_of s) name) (ok receipt)) h
    pub seen : ObservedQueueIntent
    pub qualified : qualify_queue x intent receipt ≡ ok seen
    pub same_uid : text_eq seen.receipt_uid e.receipt_uid ≡ true
    pub same_digest : text_eq seen.data_digest e.receipt_digest ≡ true
    pub no_cleanup : is_empty e.cleanup_kind ≡ true

module _ (x : Externals) (s : Store) (K : Scope) where
  -- The start of a turn of `Reserve`.
  pub checked_read-Safe :
      (h : History)
      → Always (Safe x s K) (Outcome (λ g v. Observed x s g v.0 v.1) Any) h (ask_ctx >> read x s)
  checked_read-Safe h = (
    tt,
    λ r. passed (Safe x s K) (λ g v. Observed x s g v.0 v.1) _ r _ (λ u q. read-Safe x s K _),
  )

  pub check_guard-Safe :
      (Q : History → Unit {0} → Type 0) (h : History)
      → ((g : History) → Later h g → Q g tt)
      → Always (Safe x s K) (Outcome Q Any) h check_guard
  check_guard-Safe Q h k = (tt, λ r. told r)
    where
      told : (r : Result (Unit {0})) → Outcome Q Any (event Request.guard_check r ∷ h) r
      told (ok tt) = k _ (λ e i. there i)
      told (err e) = tt

  pub check_receipt_namespace-Safe :
      (Q : History → Unit {0} → Type 0) (h : History)
      → ((g : History) → Later h g → Q g tt)
      → Always (Safe x s K) (Outcome Q Any) h (check_receipt_namespace s)
  unfolding check_receipt_namespace
  check_receipt_namespace-Safe Q h k = go s.genesis
    where
      last :
          (g : History) (b : Bool)
          → Later h g
          → Always (Safe x s K) (Outcome Q Any) g (require b Error.drift)
      last g true l = k g l
      last g false l = tt

      go :
          (o : Option Genesis)
          → Always (Safe x s K) (Outcome Q Any) h (elim o [
            | none ↦ fail Error.drift
            | some g ↦ require g.has_api Error.drift >> read_namespace g.receipt_namespace >>= λ ns.
                require (qualify_namespace g ns) Error.drift
          ])
      go none = tt
      go (some g) =
          seq (Safe x s K) (λ g' v. Later h g') Q h
            (require g.has_api Error.drift >> read_namespace g.receipt_namespace) _
            (checked (Safe x s K) (λ g' v. Later h g') h g.has_api Error.drift _
              (λ q. (tt, λ r. answered r)))
            (λ g' v l o. last g' (qualify_namespace g v) o)
        where
          answered :
              (r : Result Namespace)
              → Outcome
                  (λ g' v. Later h g')
                  Any
                  (event (Request.get_namespace g.receipt_namespace) r ∷ h)
                  r
          answered (ok v) = λ e i. there i
          answered (err e) = tt

  pub observe_pinned_receipt-Safe :
      (h : History) (b : KovaBuild) (e : Intent)
      → Always
          (Safe x s K)
          (Outcome (λ g u. SeenReceipt x s g b e) Any)
          h
          (observe_pinned_receipt x s b e)
  unfolding observe_pinned_receipt
  observe_pinned_receipt-Safe h b e =
      seq (Safe x s K) (λ g u. Unit {0}) (λ g u. SeenReceipt x s g b e) h
        (check_receipt_namespace s) _ (check_receipt_namespace-Safe (λ g u. Unit {0}) h (λ g l. tt))
        (λ g u l o.
          checked (Safe x s K) (λ g u. SeenReceipt x s g b e) g
            (not (is_empty e.receipt_uid)
              && not (is_empty e.receipt_digest)
              && is_empty e.cleanup_kind
              && annotated_link b e)
            Error.drift _
            (λ linked.
              passed (Safe x s K) (λ g u. SeenReceipt x s g b e) g (receipt_intent x s b e) _
                (λ q d.
                  passed (Safe x s K) (λ g u. SeenReceipt x s g b e) g (new_queue_config_map x q) _
                    (λ cm c. asked g q cm.name d (ground arith)))))
    where
      asked :
          (g : History) (q : QueueIntent) (name : Text)
          → receipt_intent x s b e ≡ ok q
          → is_empty e.cleanup_kind ≡ true
          → Always (Safe x s K) (Outcome (λ g' u. SeenReceipt x s g' b e) Any) g (
              attempt (get_config_map (receipt_namespace_of s) name) λ r. elim r [
                | err failure ↦ fail Error.drift
                | ok observed ↦ (elim (qualify_queue x q observed) [
                  | err failure ↦ fail Error.drift
                  | ok w ↦
                      require
                        (text_eq w.receipt_uid e.receipt_uid
                          && text_eq w.data_digest e.receipt_digest)
                        Error.drift
                      >> check_guard
                ])
              ])
      asked g q name d c = (
        tt,
        λ r.
            by_result (Safe x s K) (Outcome (λ g' u. SeenReceipt x s g' b e) Any) _ r _ _
              (λ cm got.
                by_result (Safe x s K) (Outcome (λ g' u. SeenReceipt x s g' b e) Any) _
                  (qualify_queue x q cm) _ _
                  (λ w k.
                    checked (Safe x s K) (λ g' u. SeenReceipt x s g' b e) _
                      (text_eq w.receipt_uid e.receipt_uid
                        && text_eq w.data_digest e.receipt_digest)
                      Error.drift (λ u. check_guard)
                      (λ z.
                        check_guard-Safe (λ g' u. SeenReceipt x s g' b e) _
                          (λ g' l. record {
                            intent = q;
                            receipt = cm;
                            name = name;
                            determined = d;
                            got = l _ (rw got here);
                            seen = w;
                            qualified = k;
                            same_uid = ground arith;
                            same_digest = ground arith;
                            no_cleanup = c;
                          })))
                  (λ f k. tt))
              (λ f k. tt),
      )
