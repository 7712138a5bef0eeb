-- ===== src/Reservations/Safety/Discarding.antt =====
-- Deleting the receipts of a reservation (internal/service/buildcontroller/grant_receipt.go and
-- pod_receipt.go): the ledger has recorded the cleanup, the deletion is limited to the pinned UID, and
-- the end is an answer that the receipt does not exist.
pub mod Pods
use kova.Base.{
  subst, ◌≡◌, refl, ap, sym, ◌∙◌, ◌⊎◌, inl, inr, Bool, true, false, not, ◌&&◌, ◌∷◌, ◌++◌, [], some,
  if◌then◌else◌, arith, here, there, ℕ, zero, suc,
}
use kova.Base.Text.{Text, is_empty}
use kova.Base.Dict.{lookup}
use kova.Api.{KovaBuild}
use kova.Effects.{
  Error, Result, ok, err, ConfigMap, Request, fail, require, ◌>>=◌, ◌>>◌, attempt, is_not_found,
  check_guard, delete_config_map,
}
use kova.Effects.Errors.{is_not_found-eq}
use kova.Effects.Reads.{Reads, Free, read_rules}
use kova.Effects.Traces.{
  History, event, Always, Outcome, Any, Later, seq, checked, by_test, by_option, passed, kept,
}
use kova.Admission.{ActiveReservation, reservation_key}
use kova.Receipts.{
  PodCreateIntent, EffectWitness, grant_prefix, pod_prefix, new_grant_config_map,
  new_pod_create_config_map, new_effect_config_map, pod_create_valid, pod_kind,
}
use kova.Reservations.{ReservationState, valid_grant_receipt_uid, valid_grant_receipt_digest}
use kova.Reservations.Ledger.{
  Reconciler, Backend, max_reservation_attempts, read_reservations, write_reservations, with_entry,
  cas_reservations,
}
use kova.Reservations.Grant.{
  check_grant_namespace, grant_intent, observe_grant_receipt, grant_pinned_as,
}
use kova.Reservations.Grant.Discarding.{
  confirm_gone, delete_receipt, delete_pinned_grant_receipt, is_pinned_grant, release_grant_receipt,
}
use kova.Reservations.Grant.Pinning.{pin_grant_receipt, or_fail}
use kova.Reservations.Pod.{
  pod_intent, observe_pod_receipt, verify_pinned_pod_receipt, pod_pinned_as,
}
use kova.Reservations.Pod.Completing.{delete_pinned_pod_receipt, is_pinned_pod, release_pod_receipt}
use kova.Reservations.Pod.Pinning.{
  pin_pod_receipt, pin_pod_loop, same_pod_arm, pod_pin_of, recover_pod_pin, seen_pod_pin,
}
use kova.Reservations.Steps.{Change}
use kova.Reservations.Evidence.{
  Act, Kind, within, Scope, Observed, Accepted, Deletes, ReceiptGone, Safe, Observed-Later,
}
use kova.Reservations.Safety.{
  read_reservations-Safe, write_reservations-Safe, cas-Safe, Free-Safe, Reads-Safe,
}
use kova.Reservations.Safety.Changing.{Change-Justified}
use kova.Reservations.Safety.Granting.Pinning.{PinsGrant, ValidPin, pin_grant_receipt-Safe}
use kova.Reservations.Safety.Granting.{new_grant_config_map-name}
use kova.Reservations.Reading.{
  check_grant_namespace-Reads, grant_intent-Reads, pod_intent-Reads, observe_grant_receipt-Reads,
  observe_pod_receipt-Reads, verify_pinned_pod_receipt-Reads, recover_pod_pin-Reads,
  pinned_pod_read-Reads,
}

pub ReceiptGone-Later :
    (h g : History) (name : Text) → Later h g → ReceiptGone h name → ReceiptGone g name
ReceiptGone-Later h g name l v = record { namespace = v.namespace; got = l _ v.got }

-- The change is to pin a receipt of the entry, to record its cleanup, to delete it, or to remove the
-- entry.
abbrev pub Cleans : Text → Scope
Cleans key (Act.changes k (Kind.pin uid digest) e) = k ≡ key
Cleans key (Act.changes k Kind.ready e) = k ≡ key
Cleans key (Act.changes k (Kind.pin_pod uid digest) e) = k ≡ key
Cleans key (Act.changes k Kind.pod_ready e) = k ≡ key
Cleans key (Act.discards k e) = k ≡ key
Cleans key (Act.removes k e) = k ≡ key
Cleans key a = ⊥

module _ (x : Backend) (r : Reconciler) where
  pub after_checks : (ns : Text) → Reads Free (check_grant_namespace r ns false >> check_guard)
  after_checks ns = search (read_rules, check_grant_namespace-Reads x) depth 30

module _ (x : Backend) (r : Reconciler) (K : Scope) where
  pub confirm_gone-Safe :
      (h : History) (ns : Text) (expected : ConfigMap)
      → Always
          (Safe x r K)
          (Outcome (λ g u. ReceiptGone g expected.name) Any)
          h
          (confirm_gone r ns expected)
  unfolding confirm_gone
  confirm_gone-Safe h ns expected = (tt, λ seen. judged seen)
    where
      absent :
          (e : Error) (b : Bool)
          → (b ≡ true → e ≡ Error.not_found)
          → Always
              (Safe x r K)
              (Outcome (λ g u. ReceiptGone g expected.name) Any)
              (event (Request.get_config expected.namespace expected.name) (err e) ∷ h)
              (if b
                then (check_grant_namespace r ns false >> check_guard)
                else fail {A = Unit {0}} e)
      absent e true k =
          kept (Safe x r K) Any (λ g u. ReceiptGone g expected.name) _ _
            (Free-Safe x r K _ (check_grant_namespace r ns false >> check_guard)
              (after_checks x r ns))
            (λ g u l a. record { namespace = expected.namespace; got = l _ (rw (k refl) here) })
      absent e false k = tt

      judged :
          (seen : Result ConfigMap)
          → Always
              (Safe x r K)
              (Outcome (λ g u. ReceiptGone g expected.name) Any)
              (event (Request.get_config expected.namespace expected.name) seen ∷ h)
              (elim seen [
                | ok cm ↦ fail {A = Unit {0}} Error.failed
                | err e ↦
                    if is_not_found e
                    then (check_grant_namespace r ns false >> check_guard)
                    else fail {A = Unit {0}} e
              ])
      judged (ok cm) = tt
      judged (err e) = absent e (is_not_found e) (is_not_found-eq e)

  pub delete_receipt-Safe :
      (h : History) (ns : Text) (expected : ConfigMap) (uid : Text) (is_pinned : ConfigMap → Bool)
      → ((g : History)
          → Later h g
          → (d : Deletes x r g expected.name uid) × K (Act.discards d.key d.entry))
      → Always
          (Safe x r K)
          (Outcome (λ g u. ReceiptGone g expected.name) Any)
          h
          (delete_receipt r ns expected uid is_pinned)
  unfolding delete_receipt
  delete_receipt-Safe h ns expected uid is_pinned d = (tt, λ seen. judged seen)
    where
      gone :
          (g : History)
          → Always
              (Safe x r K)
              (Outcome (λ k u. ReceiptGone k expected.name) Any)
              g
              (confirm_gone r ns expected)
      gone g = confirm_gone-Safe g ns expected

      either :
          (g : History) (e : Error) (b : Bool)
          → Always
              (Safe x r K)
              (Outcome (λ k u. ReceiptGone k expected.name) Any)
              g
              (if b then confirm_gone r ns expected else fail {A = Unit {0}} e)
      either g e true = gone g
      either g e false = tt

      deleted :
          (g : History) (u : Result (Unit {0}))
          → Always (Safe x r K) (Outcome (λ k u'. ReceiptGone k expected.name) Any) g (elim u [
            | ok v ↦ confirm_gone r ns expected
            | err e ↦ if is_not_found e then confirm_gone r ns expected else fail {A = Unit {0}} e
          ])
      deleted g (ok v) = gone g
      deleted g (err e) = either g e (is_not_found e)

      judged :
          (seen : Result ConfigMap)
          → Always
              (Safe x r K)
              (Outcome (λ g u. ReceiptGone g expected.name) Any)
              (event (Request.get_config expected.namespace expected.name) seen ∷ h)
              (elim seen [
                | err e ↦
                    if is_not_found e then confirm_gone r ns expected else fail {A = Unit {0}} e
                | ok cm ↦
                    require (is_pinned cm) Error.receipt_changed
                    >> attempt (delete_config_map expected.namespace expected.name uid) λ u.
                      elim u [
                        | ok v ↦ confirm_gone r ns expected
                        | err e ↦
                            if is_not_found e
                            then confirm_gone r ns expected
                            else fail {A = Unit {0}} e
                      ]
              ])
      judged (err e) = either _ e (is_not_found e)
      judged (ok cm) =
          checked (Safe x r K) (λ g u. ReceiptGone g expected.name) _ (is_pinned cm)
            Error.receipt_changed _ (λ q. (d _ (λ ev i. there i), λ u. deleted _ u))

module _ (x : Backend) (r : Reconciler) where
  -- Nothing is left of a grant's receipt, or its cleanup is recorded and the receipt is gone.
  abbrev pub GrantSettled : ActiveReservation → History → Type 0
  GrantSettled e h =
      (is_empty e.grant_observed_rv ≡ true)
      ⊎ ((e.grant_cleanup_ready ≡ true) × ReceiptGone h (grant_prefix ++ e.grant_nonce))

  abbrev pub PodSettled : ActiveReservation → History → Type 0
  PodSettled e h =
      (is_empty e.pod_template_digest ≡ true)
      ⊎ ((e.pod_cleanup_ready ≡ true) × ReceiptGone h (pod_prefix ++ e.pod_attempt_nonce))

  pub delete_pinned_grant_receipt-Safe :
      (h : History) (b : KovaBuild) (cm : ConfigMap) (st : ReservationState) (e : ActiveReservation)
      → Observed x r h cm st
      → lookup (reservation_key b) st.active ≡ some e
      → Always
          (Safe x r (Cleans (reservation_key b)))
          (Outcome (λ g u. ReceiptGone g (grant_prefix ++ e.grant_nonce)) Any)
          h
          (delete_pinned_grant_receipt x r b e)
  unfolding delete_pinned_grant_receipt
  delete_pinned_grant_receipt-Safe h b cm st e o found =
      checked (Safe x r (Cleans (reservation_key b)))
        (λ g u. ReceiptGone g (grant_prefix ++ e.grant_nonce)) h
        (e.grant_cleanup_ready && e.closing && not (is_empty e.grant_receipt_uid)) Error.failed _
        (λ q.
          seq (Safe x r (Cleans (reservation_key b))) Any
            (λ g u. ReceiptGone g (grant_prefix ++ e.grant_nonce)) h
            (check_grant_namespace r b.namespace false) _
            (Free-Safe x r (Cleans (reservation_key b)) h _
              (check_grant_namespace-Reads x r b.namespace false))
            (λ g u l a.
              seq (Safe x r (Cleans (reservation_key b))) (λ k i. i.grant_nonce ≡ e.grant_nonce)
                (λ k u'. ReceiptGone k (grant_prefix ++ e.grant_nonce)) g
                (grant_intent x r b e false) _
                (Reads-Safe x r (Cleans (reservation_key b)) (λ i. i.grant_nonce ≡ e.grant_nonce) g
                  _ (grant_intent-Reads x r b e false))
                (λ k intent l' same.
                  passed (Safe x r (Cleans (reservation_key b)))
                    (λ k' u'. ReceiptGone k' (grant_prefix ++ e.grant_nonce)) k
                    (new_grant_config_map x.payloads intent) _
                    (λ expected made.
                      let its_name : expected.name ≡ grant_prefix ++ e.grant_nonce =
                        (new_grant_config_map-name x r x.payloads intent expected made
                          ∙ ap (λ n. grant_prefix ++ n) same) in
                      rw (← its_name) (
                        delete_receipt-Safe x r (Cleans (reservation_key b)) k b.namespace expected
                          e.grant_receipt_uid (is_pinned_grant x intent e)
                          (λ k' l''. (
                            record {
                              base = cm;
                              state = st;
                              observed =
                                  Observed-Later x r h k' cm st (λ ev i. l'' ev (l' ev (l ev i))) o;
                              key = reservation_key b;
                              entry = e;
                              found = found;
                              closing = ground arith;
                              recorded = inl (ground arith, its_name, refl);
                            },
                            refl,
                          )))))))

  pub release_grant_receipt-Safe :
      (h : History) (b : KovaBuild) (cm : ConfigMap) (st : ReservationState) (e : ActiveReservation)
      → Observed x r h cm st
      → lookup (reservation_key b) st.active ≡ some e
      → Always
          (Safe x r (Cleans (reservation_key b)))
          (Outcome (λ g done. done ≡ true → GrantSettled e g) Any)
          h
          (release_grant_receipt x r b cm st e)
  unfolding release_grant_receipt
  release_grant_receipt-Safe h b cm st e o found =
      by_test (Safe x r (Cleans (reservation_key b)))
        (Outcome (λ g done. done ≡ true → GrantSettled e g) Any) h (is_empty e.grant_observed_rv) _
        _ (λ unarmed d. inl unarmed)
        (λ armed.
          by_test (Safe x r (Cleans (reservation_key b)))
            (Outcome (λ g done. done ≡ true → GrantSettled e g) Any) h
            (is_empty e.grant_receipt_uid) _ _
            (λ unpinned.
              seq (Safe x r (Cleans (reservation_key b))) Any
                (λ g done. done ≡ true → GrantSettled e g) h (observe_grant_receipt x r b e) _
                (Free-Safe x r (Cleans (reservation_key b)) h _
                  (observe_grant_receipt-Reads x r b e))
                (λ g w l a.
                  seq (Safe x r (Cleans (reservation_key b))) Any
                    (λ g' done. done ≡ true → GrantSettled e g') g (pin_grant_receipt x r b e w) _
                    (kept (Safe x r (Cleans (reservation_key b))) (λ k' a'. ValidPin x r k' b w) Any
                      g _
                      (within x r (PinsGrant b w) (Cleans (reservation_key b))
                        (Outcome (λ k' a'. ValidPin x r k' b w) Any) g _
                        (λ a (f, t). subst (Cleans (reservation_key b)) (sym t) refl)
                        (pin_grant_receipt-Safe x r g b e w))
                      (λ k' a' l' z. tt))
                    (λ g' pinned l' a' d. absurd (never d))))
            (λ pinned.
              by_test (Safe x r (Cleans (reservation_key b)))
                (Outcome (λ g done. done ≡ true → GrantSettled e g) Any) h e.grant_cleanup_ready _ _
                (λ ready.
                  seq (Safe x r (Cleans (reservation_key b)))
                    (λ g u. ReceiptGone g (grant_prefix ++ e.grant_nonce))
                    (λ g done. done ≡ true → GrantSettled e g) h
                    (delete_pinned_grant_receipt x r b e) _
                    (delete_pinned_grant_receipt-Safe h b cm st e o found)
                    (λ g u l gone d. inr (ready, gone)))
                (λ unready.
                  seq (Safe x r (Cleans (reservation_key b))) Any
                    (λ g done. done ≡ true → GrantSettled e g) h (observe_grant_receipt x r b e) _
                    (Free-Safe x r (Cleans (reservation_key b)) h _
                      (observe_grant_receipt-Reads x r b e))
                    (λ g w l a.
                      checked (Safe x r (Cleans (reservation_key b)))
                        (λ g' done. done ≡ true → GrantSettled e g') g (grant_pinned_as e w)
                        Error.receipt_changed _
                        (λ same.
                          seq (Safe x r (Cleans (reservation_key b))) Any
                            (λ g' done. done ≡ true → GrantSettled e g') g
                            (write_reservations x r cm
                              (with_entry st b (record e { grant_cleanup_ready = true })))
                            _
                            (kept (Safe x r (Cleans (reservation_key b))) _ Any g _
                              (write_reservations-Safe x r (Cleans (reservation_key b)) g cm
                                (with_entry st b (record e { grant_cleanup_ready = true }))
                                (λ bytes q.
                                  Change-Justified x r (Cleans (reservation_key b)) g cm st b e
                                    (record e { grant_cleanup_ready = true }) bytes
                                    (Observed-Later x r h g cm st l o) found
                                    (Change.ready pinned refl) refl q))
                              (λ k u l' z. tt))
                            (λ g' u l' a' d. absurd (never d)))))))
    where
      never : false ≡ true → ⊥
      never q = ground arith
