-- ===== src/Queue/Safety/Verifying.antt =====
-- What `VerifyForBuildSnapshot` (internal/service/queueadmission/ledger.go) returns.
use kova.Base.{◌≡◌, refl, ◌∙◌, ◌⊎◌, inl, inr, true, Option, none, some, ap, subst}
use kova.Base.Text.{Text, text_eq, is_empty, text_eq→eq}
use kova.Api.{KovaBuild}
use kova.Effects.{Error, Result, ok, err, pure, require, ◌>>◌, ◌>>=◌, is_not_found, from_result}
use kova.Effects.Traces.{
  History, Always, Outcome, Any, after, seq, checked, by_result, by_option, by_test, kept,
}
use kova.Queue.{Intent, Externals, intent_annotation, digest_build}
use kova.Queue.Store.{Store, read, check_ready, lookup_intent}
use kova.Queue.Receipt.{observe_pinned_receipt}
use kova.Queue.Release.{matches_build, qualify_receipt, verify_for_build, note_of}
use kova.Queue.Evidence.{Observed, Seen, FoundEntry, Nothing, Safe, Seen-Later}
use kova.Queue.Safety.{read-Safe, lookup_intent-Safe}
use kova.Queue.Safety.Reads.{SeenReceipt, observe_pinned_receipt-Safe}
use kova.Queue.Safety.Rejecting.{FoundEntry-Seen}

module _ (x : Externals) (s : Store) where
  -- An entry returned for the build: its own, as it was read, with its receipt observed if there is a
  -- Genesis; or none, for a build without the annotation.
  abbrev pub Verified : KovaBuild → History → Option Intent → Type 0
  Verified b g none = is_empty (note_of intent_annotation b) ≡ true
  Verified b g (some e) =
      Seen x s g b.name e
      × (matches_build x b e ≡ true)
      × (digest_build x b ≡ ok e.request_digest)
      × ((s.genesis ≡ none) ⊎ SeenReceipt x s g b e)

  -- Verification asks for no change at all, and the intent that it returns was read under the name
  -- of the build, has its nonce, requester and request, and with a Genesis its receipt was
  -- observed; no intent is returned only for a build without the annotation.
  pub verify_for_build-Safe :
      (h : History) (b : KovaBuild)
      → Always (Safe x s Nothing) (Outcome (Verified b) Any) h (verify_for_build x s b)
  unfolding verify_for_build
  verify_for_build-Safe h b =
      by_test (Safe x s Nothing) (Outcome (Verified b) Any) h
        (is_empty (note_of intent_annotation b)) _ _
        (λ no_note.
          by_option (Safe x s Nothing) (Outcome (Verified b) Any) h s.genesis (pure none)
            (λ g. check_ready x s >>= λ u. pure none) (λ n. no_note)
            (λ gen q.
              seq (Safe x s Nothing) (λ g u. Unit {0}) (Verified b) h (check_ready x s) _ (ready h)
                (λ g u l o. no_note)))
        (λ note.
          after (Safe x s Nothing) (Outcome (FoundEntry x s b.name) Any) (Outcome (Verified b) Any)
            h (lookup_intent x s b.name) _ (lookup_intent-Safe x s Nothing h b.name)
            (λ g r l f.
              by_result (Safe x s Nothing) (Outcome (Verified b) Any) g r _ _
                (λ o q.
                  by_option (Safe x s Nothing) (Outcome (Verified b) Any) g o _ _ (λ n. tt)
                    (λ e found. entry g e (on_found g r o e q found f)))
                (λ failure q.
                  by_test (Safe x s Nothing) (Outcome (Verified b) Any) g (is_not_found failure) _ _
                    (λ n. tt) (λ n. tt))))
    where
      on_found :
          (g : History) (r : Result (Option Intent)) (o : Option Intent) (e : Intent)
          → r ≡ ok o
          → o ≡ some e
          → Outcome (FoundEntry x s b.name) Any g r
          → Seen x s g b.name e
      on_found g r o e q found f =
          FoundEntry-Seen x s g b.name e
            (subst (Outcome (FoundEntry x s b.name) Any g) (q ∙ ap ok found) f)

      qualify :
          (g : History) (e : Intent)
          → Seen x s g b.name e
          → Always
              (Safe x s Nothing)
              (Outcome
                (λ g' u. Seen x s g' b.name e × ((s.genesis ≡ none) ⊎ SeenReceipt x s g' b e))
                Any)
              g
              (qualify_receipt x s b e)
      qualify g e v =
          by_option (Safe x s Nothing)
            (Outcome (λ g' u. Seen x s g' b.name e × ((s.genesis ≡ none) ⊎ SeenReceipt x s g' b e))
              Any)
            g s.genesis (pure tt) (λ gen. observe_pinned_receipt x s b e) (λ n. (v, inl n))
            (λ gen q.
              kept (Safe x s Nothing) (λ g' u. SeenReceipt x s g' b e)
                (λ g' u. Seen x s g' b.name e × ((s.genesis ≡ none) ⊎ SeenReceipt x s g' b e)) g
                (observe_pinned_receipt x s b e) (observe_pinned_receipt-Safe x s Nothing g b e)
                (λ g' u l r. (Seen-Later x s g g' b.name e l v, inr r)))

      entry :
          (g : History) (e : Intent)
          → Seen x s g b.name e
          → Always (Safe x s Nothing) (Outcome (Verified b) Any) g (
              require (matches_build x b e) Error.drift
              >> from_result (digest_build x b)
              >>= λ digest.
                  require (text_eq e.request_digest digest) Error.drift
                  >> qualify_receipt x s b e
                  >>= λ u. pure (some e))
      entry g e v =
          seq (Safe x s Nothing)
            (λ g' digest.
              Seen x s g' b.name e × (matches_build x b e ≡ true) × (digest_build x b ≡ ok digest))
            (Verified b) g
            (require (matches_build x b e) Error.drift >> from_result (digest_build x b)) _
            (checked (Safe x s Nothing)
              (λ g' digest.
                Seen x s g' b.name e
                × (matches_build x b e ≡ true)
                × (digest_build x b ≡ ok digest))
              g (matches_build x b e) Error.drift (λ u. from_result (digest_build x b))
              (λ m. digested g (digest_build x b) m refl))
            (λ g' digest l (v', m, d).
              seq (Safe x s Nothing)
                (λ g'' u.
                  (text_eq e.request_digest digest ≡ true)
                  × Seen x s g'' b.name e
                  × ((s.genesis ≡ none) ⊎ SeenReceipt x s g'' b e))
                (Verified b) g'
                (require (text_eq e.request_digest digest) Error.drift >> qualify_receipt x s b e) _
                (checked (Safe x s Nothing)
                  (λ g'' u.
                    (text_eq e.request_digest digest ≡ true)
                    × Seen x s g'' b.name e
                    × ((s.genesis ≡ none) ⊎ SeenReceipt x s g'' b e))
                  g' (text_eq e.request_digest digest) Error.drift (λ u. qualify_receipt x s b e)
                  (λ t.
                    kept (Safe x s Nothing)
                      (λ g'' u.
                        Seen x s g'' b.name e × ((s.genesis ≡ none) ⊎ SeenReceipt x s g'' b e))
                      _ g' (qualify_receipt x s b e) (qualify g' e v')
                      (λ g'' u k o. (t, o.0, o.1))))
                (λ g'' u k (t, o, p). (o, m, rw (text_eq→eq e.request_digest digest t) d, p)))
        where
          digested :
              (g' : History) (r : Result Text)
              → matches_build x b e ≡ true
              → digest_build x b ≡ r
              → Always
                  (Safe x s Nothing)
                  (Outcome
                    (λ g'' digest.
                      Seen x s g b.name e
                      × (matches_build x b e ≡ true)
                      × (digest_build x b ≡ ok digest))
                    Any)
                  g'
                  (from_result r)
          digested g' (ok d) m q = (v, m, q)
          digested g' (err f) m q = tt

      ready : (g : History) → Always (Safe x s Nothing) (Outcome Any Any) g (check_ready x s)
      ready g =
          unfold check_ready in
          seq (Safe x s Nothing) (λ g' v. Observed x s g' v.0 v.1) Any g (read x s) _
            (read-Safe x s Nothing g) (λ g' v l o. tt)
