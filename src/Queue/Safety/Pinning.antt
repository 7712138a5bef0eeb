-- ===== src/Queue/Safety/Pinning.antt =====
-- What `PinReceipt` (internal/service/queueadmission/ledger.go) writes and what its success means.
use kova.Base.{
  ℕ, zero, suc, ◌≡◌, refl, ◌∙◌, true, ◌&&◌, [], Option, none, some, arith, if◌then◌else◌,
}
use kova.Base.Text.{Text, text_eq, is_empty, text_eq→eq, is_empty-text_eq}
use kova.Base.Dict.{lookup, insert}
use kova.Api.{KovaBuild}
use kova.Effects.{Error, Result, ok, err, ConfigMap, fail, require, attempt, ◌>>◌, ◌>>=◌}
use kova.Effects.Traces.{
  History, Always, Outcome, Any, Later, after, passed, seq, checked, by_option, by_test,
}
use kova.Queue.{
  Intent, State, Externals, encode_state, valid_receipt_uid, valid_digest, max_cas_attempts,
}
use kova.Queue.Store.{Store, read, cas_write, lookup_intent, with_intents, wanted_version}
use kova.Queue.Receipt.{
  QueueIntent, ObservedQueueIntent, same_reservation, pinned, link_seen, recovered, pin_loop,
  pin_receipt, check_receipt_namespace, receipt_intent, queue_intent_eq,
}
use kova.Queue.Steps.{Step}
use kova.Queue.Evidence.{Act, Scope, Observed, Permitted, Safe, Seen, FoundEntry, Seen-Later}
use kova.Queue.Safety.{insert-Cleared, read-Safe, lookup_intent-Safe, cas_write-Safe}
use kova.Queue.Safety.Reads.{check_receipt_namespace-Safe}
use kova.Queue.Safety.Decoded.{decode_ledger-Checked}

-- The change is to pin a receipt to the entry of the key.
abbrev pub Pins : Text → Scope
Pins id a = (f : Intent) × (a ≡ Act.pins id f)

module _ (x : Externals) (s : Store) where
  -- The call has read an entry with this nonce and link and this cleanup kind.
  abbrev pub SeenLink : Text → Intent → Text → History → Type 0
  SeenLink id e kind h = (o : Intent) × Seen x s h id o × (link_seen e kind (some o) ≡ true)

  pub recovered-SeenLink :
      (h : History) (id : Text) (e : Intent) (kind : Text) (r : Result (Option Intent))
      → Outcome (FoundEntry x s id) Any h r
      → recovered e kind r ≡ true
      → SeenLink id e kind h
  unfolding link_seen
  recovered-SeenLink h id e kind (ok none) o q = absurd (ground arith)
  recovered-SeenLink h id e kind (ok (some i)) (cm, st, o, l) q =
      (i, record { base = cm; held = st; observed = o; entry = l }, q)
  recovered-SeenLink h id e kind (err f) o q = absurd (ground arith)

  SeenLink-Later :
      (h g : History) (id : Text) (e : Intent) (kind : Text)
      → Later h g
      → SeenLink id e kind h
      → SeenLink id e kind g
  SeenLink-Later h g id e kind l (o, v, q) = (o, Seen-Later x s h g id o l v, q)

  -- The receipt namespace is checked again before a success.
  namespace_after :
      (h : History) (id : Text) (e : Intent) (kind : Text)
      → SeenLink id e kind h
      → Always
          (Safe x s (Pins id))
          (Outcome (λ g u. SeenLink id e kind g) Any)
          h
          (check_receipt_namespace s)
  namespace_after h id e kind v =
      check_receipt_namespace-Safe x s (Pins id) (λ g u. SeenLink id e kind g) h
        (λ g l. SeenLink-Later h g id e kind l v)

  pin-Justified :
      (h : History) (id : Text) (e : Intent) (w : ObservedQueueIntent) (cm : ConfigMap) (st : State)
      (bytes : Text)
      → wanted_version s.genesis ≡ 2
      → valid_receipt_uid w.receipt_uid ≡ true
      → valid_digest w.data_digest ≡ true
      → Observed x s h cm st
      → lookup id st.intents ≡ some e
      → is_empty e.receipt_uid ≡ true
      → is_empty e.cleanup_kind ≡ true
      → encode_state x (with_intents st (insert id (pinned e w) st.intents)) ≡ ok bytes
      → Permitted x s (Pins id) h cm bytes
  pin-Justified h id e w cm st bytes two u d o l n c enc =
      let k = decode_ledger-Checked x s cm st o.decoded in
      (
        record {
          old = st;
          new = with_intents st (insert id (pinned e w) st.intents);
          observed = o;
          encoded = enc;
          steps =
              Step.pin id e w.receipt_uid w.data_digest l n c (rw (k.version ∙ two) refl) u d refl;
          cleared = insert-Cleared x s h id (pinned e w) st.intents;
        },
        (e, refl),
      )

  pinned_already :
      (e reserved : Intent) (w : ObservedQueueIntent)
      → same_reservation e reserved ≡ true
      → is_empty e.cleanup_kind ≡ true
      → text_eq e.receipt_uid w.receipt_uid ≡ true
      → text_eq e.receipt_digest w.data_digest ≡ true
      → link_seen (pinned reserved w) [] (some e) ≡ true
  unfolding same_reservation link_seen
  pinned_already e reserved w a b c d = ground (arith, is_empty-text_eq e.cleanup_kind b)

  same_link :
      (e reserved : Intent) (w : ObservedQueueIntent) (o : Option Intent)
      → same_reservation e reserved ≡ true
      → link_seen (pinned e w) [] o ≡ true
      → link_seen (pinned reserved w) [] o ≡ true
  unfolding same_reservation link_seen
  same_link e reserved w none a b = b
  same_link e reserved w (some o) a b = rw (← text_eq→eq e.nonce reserved.nonce (ground arith)) b

  pin_loop-Safe :
      (h : History) (id : Text) (reserved : Intent) (w : ObservedQueueIntent) (left : ℕ)
      → wanted_version s.genesis ≡ 2
      → valid_receipt_uid w.receipt_uid ≡ true
      → valid_digest w.data_digest ≡ true
      → Always
          (Safe x s (Pins id))
          (Outcome (λ g u. SeenLink id (pinned reserved w) [] g) Any)
          h
          (pin_loop x s id reserved w left)
  unfolding pin_loop
  pin_loop-Safe h id reserved w zero two u d = tt
  pin_loop-Safe h id reserved w (suc left) two u d =
      seq (Safe x s (Pins id)) (λ g v. Observed x s g v.0 v.1)
        (λ g u. SeenLink id (pinned reserved w) [] g) h (read x s) _ (read-Safe x s (Pins id) h)
        (λ g v l o.
          by_option (Safe x s (Pins id)) (Outcome (λ g u. SeenLink id (pinned reserved w) [] g) Any)
            g (lookup id v.1.intents) _ _ (λ n. tt)
            (λ e found.
              by_test (Safe x s (Pins id))
                (Outcome (λ g u. SeenLink id (pinned reserved w) [] g) Any) g
                (same_reservation e reserved && is_empty e.cleanup_kind) _ _
                (λ t.
                  by_test (Safe x s (Pins id))
                    (Outcome (λ g u. SeenLink id (pinned reserved w) [] g) Any) g
                    (is_empty e.receipt_uid) _ _
                    (λ bare.
                      write_pin (λ g'. pin_loop-Safe g' id reserved w left two u d) g v.0 v.1 e o
                        found (ground arith) (ground arith) bare)
                    (λ linked.
                      by_test (Safe x s (Pins id))
                        (Outcome (λ g u. SeenLink id (pinned reserved w) [] g) Any) g
                        (text_eq e.receipt_uid w.receipt_uid
                          && text_eq e.receipt_digest w.data_digest)
                        _ _
                        (λ same. namespace_after g id (pinned reserved w) [] (
                          e,
                          record { base = v.0; held = v.1; observed = o; entry = found },
                          pinned_already e reserved w (ground arith) (ground arith) (ground arith)
                              (ground arith),
                        ))
                        (λ f. tt)))
                (λ f. tt)))
    where
      write_pin :
          ((g' : History)
            → Always
                (Safe x s (Pins id))
                (Outcome (λ g u. SeenLink id (pinned reserved w) [] g) Any)
                g'
                (pin_loop x s id reserved w left))
          → (g : History) (cm : ConfigMap) (st : State) (e : Intent) → Observed x s g cm st
          → lookup id st.intents ≡ some e
          → same_reservation e reserved ≡ true
          → is_empty e.cleanup_kind ≡ true
          → is_empty e.receipt_uid ≡ true
          → Always
              (Safe x s (Pins id))
              (Outcome (λ g u. SeenLink id (pinned reserved w) [] g) Any)
              g
              (cas_write x s cm
                (with_intents st (insert id (pinned e w) st.intents))
                left
                (pin_loop x s id reserved w left)
                (λ failure. attempt (lookup_intent x s id) λ r.
                  if recovered (pinned e w) [] r then check_receipt_namespace s else fail failure)
                (lookup_intent x s id >>= λ o.
                  require (link_seen (pinned e w) [] o) Error.drift >> check_receipt_namespace s))
      write_pin again g cm st e o found t c n =
          cas_write-Safe x s (Pins id) (λ g u. SeenLink id (pinned reserved w) [] g) g cm
            (with_intents st (insert id (pinned e w) st.intents)) left _ _ _
            (λ bytes q. pin-Justified g id e w cm st bytes two u d o found n c q) (λ g' k. again g')
            (λ g' failure k.
              after (Safe x s (Pins id)) (Outcome (FoundEntry x s id) Any)
                (Outcome (λ g u. SeenLink id (pinned reserved w) [] g) Any) g'
                (lookup_intent x s id) _ (lookup_intent-Safe x s (Pins id) g' id)
                (λ g'' r l f.
                  by_test (Safe x s (Pins id))
                    (Outcome (λ g u. SeenLink id (pinned reserved w) [] g) Any) g''
                    (recovered (pinned e w) [] r) _ _
                    (λ q.
                      namespace_after g'' id (pinned reserved w) []
                        (relabel e t (recovered-SeenLink g'' id (pinned e w) [] r f q)))
                    (λ q. tt)))
            (λ g' k a.
              seq (Safe x s (Pins id)) (FoundEntry x s id)
                (λ g u. SeenLink id (pinned reserved w) [] g) g' (lookup_intent x s id) _
                (lookup_intent-Safe x s (Pins id) g' id)
                (λ g'' r l f.
                  checked (Safe x s (Pins id)) (λ g u. SeenLink id (pinned reserved w) [] g) g''
                    (link_seen (pinned e w) [] r) Error.drift _
                    (λ q.
                      namespace_after g'' id (pinned reserved w) []
                        (relabel e t (recovered-SeenLink g'' id (pinned e w) [] (ok r) f q)))))
        where
          relabel :
              {g : History} (e : Intent)
              → same_reservation e reserved ≡ true
              → SeenLink id (pinned e w) [] g
              → SeenLink id (pinned reserved w) [] g
          relabel e t (o, v, q) = (o, v, same_link e reserved w (some o) t q)

  two_of_intent :
      (b : KovaBuild) (e : Intent) (q : QueueIntent)
      → receipt_intent x s b e ≡ ok q
      → wanted_version s.genesis ≡ 2
  unfolding receipt_intent
  two_of_intent b e q k = ground arith

  -- Whatever the environment answers, each write of PinReceipt pins a receipt to the entry of the
  -- build's name, over a state read in the call, and its success means that the call has read the
  -- reserved nonce with the witnessed receipt and no cleanup.
  pub pin_receipt-Safe :
      (h : History) (b : KovaBuild) (reserved : Intent) (w : ObservedQueueIntent)
      → Always
          (Safe x s (Pins b.name))
          (Outcome (λ g u. SeenLink b.name (pinned reserved w) [] g) Any)
          h
          (pin_receipt x s b reserved w)
  unfolding pin_receipt
  pin_receipt-Safe h b reserved w =
      seq (Safe x s (Pins b.name)) (λ g u. Unit {0})
        (λ g u. SeenLink b.name (pinned reserved w) [] g) h (check_receipt_namespace s) _
        (check_receipt_namespace-Safe x s (Pins b.name) (λ g u. Unit {0}) h (λ g l. tt))
        (λ g u l o.
          passed (Safe x s (Pins b.name)) (λ g u. SeenLink b.name (pinned reserved w) [] g) g
            (receipt_intent x s b reserved) _
            (λ expected d.
              checked (Safe x s (Pins b.name)) (λ g u. SeenLink b.name (pinned reserved w) [] g) g
                (queue_intent_eq w.intent expected
                  && valid_receipt_uid w.receipt_uid
                  && valid_digest w.data_digest)
                Error.drift _
                (λ t.
                  pin_loop-Safe g b.name reserved w max_cas_attempts
                    (two_of_intent b reserved expected d) (ground arith) (ground arith))))
