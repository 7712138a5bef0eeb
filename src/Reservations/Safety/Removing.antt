-- ===== src/Reservations/Safety/Removing.antt =====
-- What `releaseReservation` (internal/service/buildcontroller/reservation.go) changes and what its
-- success means.
use kova.Base.{
  subst, ℕ, zero, suc, ◌≡◌, refl, ◌∙◌, ◌⊎◌, inl, inr, true, false, not, ◌&&◌, none, some, is_some,
  arith, length,
}
use kova.Base.Text.{Text, text_eq, is_empty}
use kova.Base.Dict.{lookup, erase}
use kova.Api.{KovaBuild}
use kova.Effects.{Error, ConfigMap, M, pure, fail, ◌>>◌, ask_ctx}
use kova.Effects.Traces.{History, Always, Outcome, Any, Later, seq, checked, by_option}
use kova.Admission.{ActiveReservation, reservation_key}
use kova.Queue.Store.{is_nil}
use kova.Reservations.{ReservationState}
use kova.Reservations.Ledger.{
  Reconciler, Backend, max_reservation_attempts, read_reservations, cas_reservations, with_active,
  get_owned_pod,
}
use kova.Reservations.Grant.Discarding.{release_grant_receipt}
use kova.Reservations.Pod.Completing.{release_pod_receipt}
use kova.Reservations.Fences.{
  settled_build, release_receipts, release_reservation_loop, release_reservation,
}
use kova.Reservations.Evidence.{within, Observed, Accepted, Safe, Observed-Later}
use kova.Reservations.Safety.{checked_read-Safe, cas-Safe}
use kova.Reservations.Safety.Discarding.{
  Cleans, GrantSettled, PodSettled, ReceiptGone-Later, release_grant_receipt-Safe,
}
use kova.Reservations.Safety.Discarding.Pods.{release_pod_receipt-Safe}
use kova.Reservations.Safety.Releasing.{
  PodGone, Continues, Continues-Later, Discarded, settled_build-Safe, get_owned_pod-Safe,
  receipt_step-Safe, remove-Justified,
}

module _ (x : Backend) (r : Reconciler) where
  -- The key is gone: a read of the call found no entry, or the call's removal was accepted.
  abbrev pub Released : Text → History → Type 0
  Released key h =
      ((cm : ConfigMap) × (st : ReservationState) × Observed x r h cm st
        × (lookup key st.active ≡ none))
      ⊎ ((st : ReservationState) × Accepted x r h (with_active st (erase key st.active)))

  -- What a turn knows when it comes to the receipts.
  record Ready (h : History) (cm : ConfigMap) (st : ReservationState) (b current : KovaBuild)
      (e : ActiveReservation) : Type 0 where
    observed : Observed x r h cm st
    continues : Continues x r h b current
    found : lookup (reservation_key current) st.active ≡ some e
    shut : e.closing ≡ true
    nothing : is_nil e.in_flight ≡ true
    no_pod : PodGone current h

  Ready-Later :
      (h g : History) (cm : ConfigMap) (st : ReservationState) (b current : KovaBuild)
      (e : ActiveReservation)
      → Later h g
      → Ready h cm st b current e
      → Ready g cm st b current e
  Ready-Later h g cm st b current e l v = record {
    observed = Observed-Later x r h g cm st l v.observed;
    continues = Continues-Later x r h g b current l v.continues;
    found = v.found;
    shut = v.shut;
    nothing = v.nothing;
    no_pod = l _ v.no_pod;
  }

  PodSettled-Later :
      (h g : History) (e : ActiveReservation) → Later h g → PodSettled x r e h → PodSettled x r e g
  PodSettled-Later h g e l (inl u) = inl u
  PodSettled-Later h g e l (inr v) = inr (v.0, ReceiptGone-Later h g _ l v.1)

  module _ (key : Text) (left : ℕ) (b current : KovaBuild) (cm : ConfigMap) (st : ReservationState)
      (e : ActiveReservation) (its_key : reservation_key b ≡ key)
      (again : (g : History)
        → Always
            (Safe x r (Cleans key))
            (Outcome (λ k u. Released key k) Any)
            g
            (release_reservation_loop x r current left)) where
    abbrev removal : M (Unit {0})
    removal =
        cas_reservations x r cm (with_active st (erase (reservation_key current) st.active)) left
          (release_reservation_loop x r current left) (λ failure. fail failure) (pure tt)

    removal-Safe :
        (h : History)
        → Ready h cm st b current e
        → Discarded x r e h
        → Always (Safe x r (Cleans key)) (Outcome (λ k u. Released key k) Any) h removal
    removal-Safe h v gone =
        cas-Safe x r (Cleans key) (λ k u. Released key k) h cm
          (with_active st (erase (reservation_key current) st.active)) left
          (release_reservation_loop x r current left) (λ failure. fail failure) (pure tt)
          (λ bytes q.
            remove-Justified x r (Cleans key) h cm st b current e bytes v.observed v.continues
              v.found v.shut v.nothing v.no_pod gone q (v.continues.same_key ∙ its_key))
          (λ g l. again g) (λ g f l. tt)
          (λ g l a over. inr (st, rw (← its_key, ← v.continues.same_key) a))

    release_receipts-Safe :
        (h : History)
        → Ready h cm st b current e
        → Always (Safe x r (Cleans key)) (Outcome (λ k u. Released key k) Any) h (
            release_receipts x r current cm st e left
              (release_reservation_loop x r current left)
              removal)
    unfolding release_receipts
    release_receipts-Safe h v =
        by_option (Safe x r (Cleans key)) (Outcome (λ k u. Released key k) Any) h r.genesis _ _
          (λ plain. removal-Safe h v (λ s. absurd (no_genesis plain s)))
          (λ o q.
            receipt_step-Safe x r (Cleans key) (λ k u. Released key k) (PodSettled x r e) h left
              (release_pod_receipt x r current cm st e) (release_reservation_loop x r current left)
              _
              (within x r (Cleans (reservation_key current)) (Cleans key)
                (Outcome (λ g done. done ≡ true → PodSettled x r e g) Any) h _
                (λ a t. subst (λ k. Cleans k a) (v.continues.same_key ∙ its_key) t)
                (release_pod_receipt-Safe x r h current cm st e v.observed v.found))
              (λ g l. again g)
              (λ g l pod.
                receipt_step-Safe x r (Cleans key) (λ k u. Released key k) (GrantSettled x r e) g
                  left (release_grant_receipt x r current cm st e)
                  (release_reservation_loop x r current left) _
                  (within x r (Cleans (reservation_key current)) (Cleans key)
                    (Outcome (λ k done. done ≡ true → GrantSettled x r e k) Any) g _
                    (λ a t. subst (λ k. Cleans k a) (v.continues.same_key ∙ its_key) t)
                    (release_grant_receipt-Safe x r g current cm st e
                      (Observed-Later x r h g cm st l v.observed) v.found))
                  (λ k l'. again k)
                  (λ k l' grant.
                    removal-Safe k (Ready-Later h k cm st b current e (λ ev i. l' ev (l ev i)) v)
                      (λ s. (PodSettled-Later g k e l' pod, grant)))))
      where
        no_genesis : r.genesis ≡ none → is_some r.genesis ≡ true → ⊥
        no_genesis p s = ground arith

  release_reservation_loop-Safe :
      (h : History) (key : Text) (b : KovaBuild) (left : ℕ)
      → reservation_key b ≡ key
      → is_empty b.uid ≡ false
      → Always
          (Safe x r (Cleans key))
          (Outcome (λ g u. Released key g) Any)
          h
          (release_reservation_loop x r b left)
  unfolding release_reservation_loop
  release_reservation_loop-Safe h key b zero its_key n = tt
  release_reservation_loop-Safe h key b (suc left) its_key n =
      seq (Safe x r (Cleans key)) (λ g v. Observed x r g v.0 v.1) (λ g u. Released key g) h
        (ask_ctx >> read_reservations x r b.namespace) _
        (checked_read-Safe x r (Cleans key) h b.namespace)
        (λ g v l o.
          by_option (Safe x r (Cleans key)) (Outcome (λ k u. Released key k) Any) g
            (lookup (reservation_key b) v.1.active) _ _
            (λ absent. inl (v.0, v.1, o, rw (← its_key) absent))
            (λ e found.
              checked (Safe x r (Cleans key)) (λ k u. Released key k) g
                (text_eq e.build_name b.name && e.closing) Error.failed _
                (λ named.
                  seq (Safe x r (Cleans key)) (λ k c. Continues x r k b c) (λ k u. Released key k) g
                    (settled_build r b) _ (settled_build-Safe x r (Cleans key) g b n)
                    (λ k current m c.
                      checked (Safe x r (Cleans key)) (λ k' u. Released key k') k
                        (is_nil e.in_flight) (Error.recovery_required (length e.in_flight)) _
                        (λ nothing.
                          seq (Safe x r (Cleans key))
                            (λ k' p. not (is_some p) ≡ true → PodGone current k')
                            (λ k' u. Released key k') k (get_owned_pod current) _
                            (get_owned_pod-Safe x r (Cleans key) k current)
                            (λ k' pod m' none_there.
                              checked (Safe x r (Cleans key)) (λ j u. Released key j) k'
                                (not (is_some pod)) Error.failed _
                                (λ absent.
                                  release_receipts-Safe key left b current v.0 v.1 e its_key
                                    (λ j.
                                      release_reservation_loop-Safe j key current left
                                        (c.same_key ∙ its_key) c.has_uid)
                                    k'
                                    (record {
                                      observed =
                                          Observed-Later x r g k' v.0 v.1 (λ ev i. m' ev (m ev i))
                                            o;
                                      continues = Continues-Later x r k k' b current m' c;
                                      found = rw c.same_key found;
                                      shut = ground arith;
                                      nothing = nothing;
                                      no_pod = none_there absent;
                                    }))))))))

  pub release_reservation-Safe :
      (h : History) (b : KovaBuild)
      → is_empty b.uid ≡ false
      → Always
          (Safe x r (Cleans (reservation_key b)))
          (Outcome (λ g u. Released (reservation_key b) g) Any)
          h
          (release_reservation x r b)
  unfolding release_reservation
  release_reservation-Safe h b n =
      release_reservation_loop-Safe h (reservation_key b) b max_reservation_attempts refl n
