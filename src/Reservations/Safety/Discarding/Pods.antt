-- ===== src/Reservations/Safety/Discarding/Pods.antt =====
-- Pinning and discarding the receipt of a Pod's creation
-- (internal/service/buildcontroller/pod_receipt.go).
use kova.Base.{
  subst, ◌≡◌, refl, ap, sym, ◌∙◌, inl, inr, Bool, true, false, not, ◌&&◌, ◌++◌, [], some,
  if◌then◌else◌, arith, ℕ, zero, suc,
}
use kova.Base.Text.{Text, is_empty}
use kova.Base.Dict.{lookup}
use kova.Api.{KovaBuild}
use kova.Effects.{Error, Result, ok, err, ConfigMap, ◌>>=◌}
use kova.Effects.Traces.{
  History, Always, Outcome, Any, seq, checked, by_test, by_option, passed, kept,
}
use kova.Admission.{ActiveReservation, reservation_key}
use kova.Receipts.{
  PodCreateIntent, EffectWitness, pod_prefix, new_pod_create_config_map, new_effect_config_map,
  pod_create_valid, pod_kind,
}
use kova.Reservations.{ReservationState, valid_grant_receipt_uid, valid_grant_receipt_digest}
use kova.Reservations.Ledger.{
  Reconciler, Backend, max_reservation_attempts, read_reservations, write_reservations, with_entry,
  cas_reservations,
}
use kova.Reservations.Grant.{check_grant_namespace}
use kova.Reservations.Grant.Pinning.{or_fail}
use kova.Reservations.Pod.{
  pod_intent, observe_pod_receipt, verify_pinned_pod_receipt, pod_pinned_as,
}
use kova.Reservations.Pod.Completing.{delete_pinned_pod_receipt, is_pinned_pod, release_pod_receipt}
use kova.Reservations.Pod.Pinning.{
  pin_pod_receipt, pin_pod_loop, same_pod_arm, pod_pin_of, recover_pod_pin, seen_pod_pin,
}
use kova.Reservations.Steps.{Change}
use kova.Reservations.Evidence.{
  Act, Kind, within, Scope, Observed, ReceiptGone, Safe, Observed-Later,
}
use kova.Reservations.Safety.{
  read_reservations-Safe, write_reservations-Safe, cas-Safe, Free-Safe, Reads-Safe,
}
use kova.Reservations.Safety.Changing.{Change-Justified}
use kova.Reservations.Reading.{
  check_grant_namespace-Reads, pod_intent-Reads, observe_pod_receipt-Reads,
  verify_pinned_pod_receipt-Reads, recover_pod_pin-Reads, pinned_pod_read-Reads,
}
use kova.Reservations.Safety.Discarding.{Cleans, delete_receipt-Safe, PodSettled}

-- The change is to pin this receipt to the build's Pod attempt.
abbrev pub PinsPod : KovaBuild → EffectWitness → Scope
PinsPod b w a =
    (e : ActiveReservation) × (a
      ≡ Act.changes (reservation_key b) (Kind.pin_pod w.receipt_uid w.data_digest) e)

module _ (x : Backend) (r : Reconciler) where
  pin_pod_loop-Safe :
      (h : History) (b : KovaBuild) (armed : ActiveReservation) (w : EffectWitness) (left : ℕ)
      → Always (Safe x r (PinsPod b w)) (Outcome Any Any) h (pin_pod_loop x r b armed w left)
  unfolding pin_pod_loop
  pin_pod_loop-Safe h b armed w zero = tt
  pin_pod_loop-Safe h b armed w (suc left) =
      seq (Safe x r (PinsPod b w)) (λ g v. Observed x r g v.0 v.1) Any h
        (read_reservations x r b.namespace) _
        (read_reservations-Safe x r (PinsPod b w) h b.namespace)
        (λ g v l o.
          by_option (Safe x r (PinsPod b w)) (Outcome Any Any) g
            (lookup (reservation_key b) v.1.active) _ _ (λ absent. tt)
            (λ e found.
              checked (Safe x r (PinsPod b w)) Any g
                (same_pod_arm e armed && not e.pod_cleanup_ready) Error.failed _
                (λ same.
                  by_test (Safe x r (PinsPod b w)) (Outcome Any Any) g (is_empty e.pod_receipt_uid)
                    _ _
                    (λ unpinned.
                      pin g v.0 v.1 e o found unpinned (ground arith)
                        (λ k. pin_pod_loop-Safe k b armed w left))
                    (λ pinned.
                      by_test (Safe x r (PinsPod b w)) (Outcome Any Any) g (pod_pinned_as e w) _ _
                        (λ q. tt) (λ q. tt)))))
    where
      pin :
          (g : History) (cm : ConfigMap) (st : ReservationState) (e : ActiveReservation)
          → Observed x r g cm st
          → lookup (reservation_key b) st.active ≡ some e
          → is_empty e.pod_receipt_uid ≡ true
          → e.pod_cleanup_ready ≡ false
          → ((g' : History)
              → Always
                  (Safe x r (PinsPod b w))
                  (Outcome Any Any)
                  g'
                  (pin_pod_loop x r b armed w left))
          → Always (Safe x r (PinsPod b w)) (Outcome Any Any) g (
              cas_reservations x r cm
                (with_entry st b (pod_pin_of e w))
                left
                (pin_pod_loop x r b armed w left)
                (recover_pod_pin x r b armed w)
                (read_reservations x r b.namespace >>= λ o.
                  or_fail (seen_pod_pin b armed w o.1) Error.receipt_changed))
      pin g cm st e o found unpinned dirty again =
          cas-Safe x r (PinsPod b w) Any g cm (with_entry st b (pod_pin_of e w)) left
            (pin_pod_loop x r b armed w left) (recover_pod_pin x r b armed w)
            (read_reservations x r b.namespace >>= λ o.
              or_fail (seen_pod_pin b armed w o.1) Error.receipt_changed)
            (λ bytes q.
              Change-Justified x r (PinsPod b w) g cm st b e (pod_pin_of e w) bytes o found
                (Change.pin_pod w.receipt_uid w.data_digest unpinned dirty refl) (e, refl) q)
            (λ g' l'. again g')
            (λ g' failure l'.
              Free-Safe x r (PinsPod b w) g' _ (recover_pod_pin-Reads x r b armed w failure))
            (λ g' l' a over. Free-Safe x r (PinsPod b w) g' _ (pinned_pod_read-Reads x r b armed w))

  pub pin_pod_receipt-Safe :
      (h : History) (b : KovaBuild) (armed : ActiveReservation) (w : EffectWitness)
      → Always (Safe x r (PinsPod b w)) (Outcome Any Any) h (pin_pod_receipt x r b armed w)
  unfolding pin_pod_receipt
  pin_pod_receipt-Safe h b armed w =
      checked (Safe x r (PinsPod b w)) Any h
        (valid_grant_receipt_uid w.receipt_uid && valid_grant_receipt_digest w.data_digest)
        Error.receipt_changed _ (λ q. pin_pod_loop-Safe h b armed w max_reservation_attempts)

  pub new_pod_create_config_map-name :
      (c : PodCreateIntent) (cm : ConfigMap)
      → new_pod_create_config_map x.payloads c ≡ ok cm
      → cm.name ≡ pod_prefix ++ c.pod_attempt_nonce
  unfolding new_pod_create_config_map new_effect_config_map
  new_pod_create_config_map-name c cm h = go (pod_create_valid x.payloads c) h
    where
      go :
          (b : Bool)
          → (if b
              then ok (
                  new_effect_config_map c.build.receipt_namespace
                    (pod_prefix ++ c.pod_attempt_nonce)
                    pod_kind
                    (x.payloads.marshal_pod_create c))
              else err Error.receipt_invalid)
            ≡ ok cm
          → cm.name ≡ pod_prefix ++ c.pod_attempt_nonce
      go true q = ap name_of (sym q)
        where
          name_of : Result ConfigMap → Text
          name_of (ok a) = a.name
          name_of (err e) = []
      go false q = absurd (ground arith)

  delete_pinned_pod_receipt-Safe :
      (h : History) (b : KovaBuild) (cm : ConfigMap) (st : ReservationState) (e : ActiveReservation)
      → Observed x r h cm st
      → lookup (reservation_key b) st.active ≡ some e
      → Always
          (Safe x r (Cleans (reservation_key b)))
          (Outcome (λ g u. ReceiptGone g (pod_prefix ++ e.pod_attempt_nonce)) Any)
          h
          (delete_pinned_pod_receipt x r b e)
  unfolding delete_pinned_pod_receipt
  delete_pinned_pod_receipt-Safe h b cm st e o found =
      checked (Safe x r (Cleans (reservation_key b)))
        (λ g u. ReceiptGone g (pod_prefix ++ e.pod_attempt_nonce)) h
        (e.pod_cleanup_ready && e.closing && not (is_empty e.pod_receipt_uid)) Error.failed _
        (λ q.
          seq (Safe x r (Cleans (reservation_key b))) Any
            (λ g u. ReceiptGone g (pod_prefix ++ e.pod_attempt_nonce)) h
            (check_grant_namespace r b.namespace false) _
            (Free-Safe x r (Cleans (reservation_key b)) h _
              (check_grant_namespace-Reads x r b.namespace false))
            (λ g u l a.
              seq (Safe x r (Cleans (reservation_key b)))
                (λ k i. i.pod_attempt_nonce ≡ e.pod_attempt_nonce)
                (λ k u'. ReceiptGone k (pod_prefix ++ e.pod_attempt_nonce)) g
                (pod_intent x r b e false) _
                (Reads-Safe x r (Cleans (reservation_key b))
                  (λ i. i.pod_attempt_nonce ≡ e.pod_attempt_nonce) g _
                  (pod_intent-Reads x r b e false))
                (λ k intent l' same.
                  passed (Safe x r (Cleans (reservation_key b)))
                    (λ k' u'. ReceiptGone k' (pod_prefix ++ e.pod_attempt_nonce)) k
                    (new_pod_create_config_map x.payloads intent) _
                    (λ expected made.
                      let its_name : expected.name ≡ pod_prefix ++ e.pod_attempt_nonce =
                        (new_pod_create_config_map-name intent expected made
                          ∙ ap (λ n. pod_prefix ++ n) same) in
                      rw (← its_name) (
                        delete_receipt-Safe x r (Cleans (reservation_key b)) k b.namespace expected
                          e.pod_receipt_uid (is_pinned_pod x intent e)
                          (λ k' l''. (
                            record {
                              base = cm;
                              state = st;
                              observed =
                                  Observed-Later x r h k' cm st (λ ev i. l'' ev (l' ev (l ev i))) o;
                              key = reservation_key b;
                              entry = e;
                              found = found;
                              closing = ground arith;
                              recorded = inr (ground arith, its_name, refl);
                            },
                            refl,
                          )))))))

  pub release_pod_receipt-Safe :
      (h : History) (b : KovaBuild) (cm : ConfigMap) (st : ReservationState) (e : ActiveReservation)
      → Observed x r h cm st
      → lookup (reservation_key b) st.active ≡ some e
      → Always
          (Safe x r (Cleans (reservation_key b)))
          (Outcome (λ g done. done ≡ true → PodSettled x r e g) Any)
          h
          (release_pod_receipt x r b cm st e)
  unfolding release_pod_receipt
  release_pod_receipt-Safe h b cm st e o found =
      by_test (Safe x r (Cleans (reservation_key b)))
        (Outcome (λ g done. done ≡ true → PodSettled x r e g) Any) h
        (is_empty e.pod_template_digest) _ _ (λ unarmed d. inl unarmed)
        (λ armed.
          by_test (Safe x r (Cleans (reservation_key b)))
            (Outcome (λ g done. done ≡ true → PodSettled x r e g) Any) h
            (is_empty e.pod_receipt_uid) _ _
            (λ unpinned.
              seq (Safe x r (Cleans (reservation_key b))) Any
                (λ g done. done ≡ true → PodSettled x r e g) h (observe_pod_receipt x r b e) _
                (Free-Safe x r (Cleans (reservation_key b)) h _ (observe_pod_receipt-Reads x r b e))
                (λ g w l a.
                  seq (Safe x r (Cleans (reservation_key b))) Any
                    (λ g' done. done ≡ true → PodSettled x r e g') g (pin_pod_receipt x r b e w) _
                    (within x r (PinsPod b w) (Cleans (reservation_key b)) (Outcome Any Any) g _
                      (λ a (f, t). subst (Cleans (reservation_key b)) (sym t) refl)
                      (pin_pod_receipt-Safe g b e w))
                    (λ g' pinned l' a' d. absurd (never d))))
            (λ pinned.
              by_test (Safe x r (Cleans (reservation_key b)))
                (Outcome (λ g done. done ≡ true → PodSettled x r e g) Any) h e.pod_cleanup_ready _ _
                (λ ready.
                  seq (Safe x r (Cleans (reservation_key b)))
                    (λ g u. ReceiptGone g (pod_prefix ++ e.pod_attempt_nonce))
                    (λ g done. done ≡ true → PodSettled x r e g) h
                    (delete_pinned_pod_receipt x r b e) _
                    (delete_pinned_pod_receipt-Safe h b cm st e o found)
                    (λ g u l gone d. inr (ready, gone)))
                (λ unready.
                  seq (Safe x r (Cleans (reservation_key b))) Any
                    (λ g done. done ≡ true → PodSettled x r e g) h
                    (verify_pinned_pod_receipt x r b e true) _
                    (Free-Safe x r (Cleans (reservation_key b)) h _
                      (verify_pinned_pod_receipt-Reads x r b e true))
                    (λ g u l a.
                      seq (Safe x r (Cleans (reservation_key b))) Any
                        (λ g' done. done ≡ true → PodSettled x r e g') g
                        (write_reservations x r cm
                          (with_entry st b (record e { pod_cleanup_ready = true })))
                        _
                        (kept (Safe x r (Cleans (reservation_key b))) _ Any g _
                          (write_reservations-Safe x r (Cleans (reservation_key b)) g cm
                            (with_entry st b (record e { pod_cleanup_ready = true }))
                            (λ bytes q.
                              Change-Justified x r (Cleans (reservation_key b)) g cm st b e
                                (record e { pod_cleanup_ready = true }) bytes
                                (Observed-Later x r h g cm st l o) found
                                (Change.pod_ready pinned refl) refl q))
                          (λ k u' l' z. tt))
                        (λ g' u' l' a' d. absurd (never d))))))
    where
      never : false ≡ true → ⊥
      never q = ground arith
