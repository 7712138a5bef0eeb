-- ===== src/Queue/Safety/Marking.antt =====
-- What `markReceiptCleanupReady` (internal/service/queueadmission/ledger.go) writes and what its
-- success means.
use kova.Base.{
  ℕ, zero, suc, ◌≡◌, refl, inl, inr, Bool, true, false, not, ◌&&◌, Option, none, some, arith,
  if◌then◌else◌,
}
use kova.Base.Text.{Text, text_eq, is_empty, text_eq→eq, text_eq_refl}
use kova.Base.Dict.{lookup, insert, lookup-insert_self}
use kova.Effects.{Error, ok, ConfigMap, pure, fail, attempt}
use kova.Effects.Traces.{History, Always, Outcome, Any, after, seq, checked, by_option, by_test}
use kova.Queue.{Intent, State, Externals, encode_state, max_cas_attempts}
use kova.Queue.Store.{Store, read, cas_write, lookup_intent, with_intents}
use kova.Queue.Receipt.{
  same_reservation, link_seen, recovered, mark_loop, mark_receipt_cleanup_ready, is_cleanup_kind,
}
use kova.Queue.Steps.{Step}
use kova.Queue.Evidence.{Act, Scope, Observed, Permitted, Safe, FoundEntry, Marked}
use kova.Queue.Safety.{insert-Cleared, read-Safe, lookup_intent-Safe, cas_write-Safe}
use kova.Queue.Safety.Pinning.{recovered-SeenLink}

-- The change is to record this cleanup in the entry of the key.
abbrev pub Marks : Text → Text → Scope
Marks id kind a = (f : Intent) × (a ≡ Act.marks id f kind)

module _ (x : Externals) (s : Store) where
  -- The entry read is the expected one with the same receipt.
  abbrev same_pinned : Intent → Intent → Bool
  same_pinned e expected =
      same_reservation e expected
      && text_eq e.receipt_uid expected.receipt_uid
      && text_eq e.receipt_digest expected.receipt_digest
      && not (is_empty e.receipt_uid)

  relink :
      (e expected : Intent) (kind : Text) (o : Option Intent)
      → same_pinned e expected ≡ true
      → link_seen e kind o ≡ true
      → link_seen expected kind o ≡ true
  unfolding link_seen same_reservation
  relink e expected kind none a b = b
  relink e expected kind (some o) a b =
      rw
        (
          ← text_eq→eq e.nonce expected.nonce (ground arith),
          ← text_eq→eq e.receipt_uid expected.receipt_uid (ground arith),
          ← text_eq→eq e.receipt_digest expected.receipt_digest (ground arith),
        )
        b

  pub own_link :
      (e : Intent) (kind : Text)
      → text_eq e.cleanup_kind kind ≡ true
      → link_seen e kind (some e) ≡ true
  unfolding link_seen
  own_link e kind h = simp (text_eq_refl, h)

  mark-Justified :
      (h : History) (id : Text) (e : Intent) (kind : Text) (cm : ConfigMap) (st : State)
      (bytes : Text)
      → is_cleanup_kind kind ≡ true
      → Observed x s h cm st
      → lookup id st.intents ≡ some e
      → is_empty e.receipt_uid ≡ false
      → is_empty e.cleanup_kind ≡ true
      → encode_state x (with_intents st (insert id (record e { cleanup_kind = kind }) st.intents))
        ≡ ok bytes
      → Permitted x s (Marks id kind) h cm bytes
  mark-Justified h id e kind cm st bytes k o l u c enc = (
    record {
      old = st;
      new = with_intents st (insert id (record e { cleanup_kind = kind }) st.intents);
      observed = o;
      encoded = enc;
      steps = Step.mark id e kind l u c k refl;
      cleared = insert-Cleared x s h id (record e { cleanup_kind = kind }) st.intents;
    },
    (e, refl),
  )

  mark_loop-Safe :
      (h : History) (id : Text) (expected : Intent) (kind : Text) (left : ℕ)
      → is_cleanup_kind kind ≡ true
      → Always
          (Safe x s (Marks id kind))
          (Outcome (λ g u. Marked x s id expected kind g) Any)
          h
          (mark_loop x s id expected kind left)
  unfolding mark_loop
  mark_loop-Safe h id expected kind zero k = tt
  mark_loop-Safe h id expected kind (suc left) k =
      seq (Safe x s (Marks id kind)) (λ g v. Observed x s g v.0 v.1)
        (λ g u. Marked x s id expected kind g) h (read x s) _ (read-Safe x s (Marks id kind) h)
        (λ g v l o.
          by_option (Safe x s (Marks id kind)) (Outcome (λ g u. Marked x s id expected kind g) Any)
            g (lookup id v.1.intents) _ _ (λ n. tt)
            (λ e found.
              by_test (Safe x s (Marks id kind))
                (Outcome (λ g u. Marked x s id expected kind g) Any) g (same_pinned e expected) _ _
                (λ same.
                  by_test (Safe x s (Marks id kind))
                    (Outcome (λ g u. Marked x s id expected kind g) Any) g
                    (text_eq e.cleanup_kind kind) _ _
                    (λ done. (
                      e,
                      inl (record { base = v.0; held = v.1; observed = o; entry = found }),
                      relink e expected kind (some e) same (own_link e kind done),
                    ))
                    (λ other.
                      by_test (Safe x s (Marks id kind))
                        (Outcome (λ g u. Marked x s id expected kind g) Any) g
                        (is_empty e.cleanup_kind) _ _
                        (λ c.
                          write_mark (λ g'. mark_loop-Safe g' id expected kind left k) g v.0 v.1 e o
                            found same c)
                        (λ f. tt)))
                (λ f. tt)))
    where
      write_mark :
          ((g' : History)
            → Always
                (Safe x s (Marks id kind))
                (Outcome (λ g u. Marked x s id expected kind g) Any)
                g'
                (mark_loop x s id expected kind left))
          → (g : History) (cm : ConfigMap) (st : State) (e : Intent) → Observed x s g cm st
          → lookup id st.intents ≡ some e
          → same_pinned e expected ≡ true
          → is_empty e.cleanup_kind ≡ true
          → Always
              (Safe x s (Marks id kind))
              (Outcome (λ g u. Marked x s id expected kind g) Any)
              g
              (cas_write x s cm
                (with_intents st (insert id (record e { cleanup_kind = kind }) st.intents))
                left
                (mark_loop x s id expected kind left)
                (λ failure.
                  attempt
                    (lookup_intent x s id)
                    λ r. if recovered e kind r then pure tt else fail failure)
                (pure tt))
      write_mark again g cm st e o found same c =
          cas_write-Safe x s (Marks id kind) (λ g u. Marked x s id expected kind g) g cm
            (with_intents st (insert id (record e { cleanup_kind = kind }) st.intents)) left _ _ _
            (λ bytes q. mark-Justified g id e kind cm st bytes k o found (ground arith) c q)
            (λ g' l. again g')
            (λ g' failure l.
              after (Safe x s (Marks id kind)) (Outcome (FoundEntry x s id) Any)
                (Outcome (λ g u. Marked x s id expected kind g) Any) g' (lookup_intent x s id) _
                (lookup_intent-Safe x s (Marks id kind) g' id)
                (λ g'' r l' f.
                  by_test (Safe x s (Marks id kind))
                    (Outcome (λ g u. Marked x s id expected kind g) Any) g'' (recovered e kind r) _
                    _
                    (λ q.
                      let (i, seen, linked) = recovered-SeenLink x s g'' id e kind r f q in
                      (i, inl seen, relink e expected kind (some i) same linked))
                    (λ q. tt)))
            (λ g' l a. (
              record e { cleanup_kind = kind },
              inr (record {
                state = with_intents st (insert id (record e { cleanup_kind = kind }) st.intents);
                accepted = a;
                entry = lookup-insert_self id (record e { cleanup_kind = kind }) st.intents;
              }),
              relink e expected kind (some (record e { cleanup_kind = kind })) same (marked_link e),
            ))
        where
          marked_link :
              (e : Intent) → link_seen e kind (some (record e { cleanup_kind = kind })) ≡ true
          marked_link e = unfold link_seen in simp text_eq_refl

  -- Whatever the environment answers, each write of markReceiptCleanupReady records this cleanup
  -- in the entry of the key, over a state read in the call, and its success means that the cleanup
  -- of the entry with the expected receipt was read or committed.
  pub mark_receipt_cleanup_ready-Safe :
      (h : History) (id : Text) (expected : Intent) (kind : Text)
      → Always
          (Safe x s (Marks id kind))
          (Outcome (λ g u. Marked x s id expected kind g) Any)
          h
          (mark_receipt_cleanup_ready x s id expected kind)
  unfolding mark_receipt_cleanup_ready
  mark_receipt_cleanup_ready-Safe h id expected kind =
      checked (Safe x s (Marks id kind)) (λ g u. Marked x s id expected kind g) h
        (is_cleanup_kind kind) Error.drift _
        (λ k. mark_loop-Safe h id expected kind max_cas_attempts k)
