-- ===== src/Reservations/Safety/Completing/Genesis.antt =====
-- `completePodCreate` with a Genesis (internal/service/buildcontroller/pod_receipt.go,
-- completeGenesisPodCreate), and in both modes.
use kova.Base.{
  ℕ, zero, suc, ◌≡◌, refl, inl, inr, Bool, true, false, not, ◌&&◌, [], Option, none, some, arith,
  sym, ap,
}
use kova.Base.Text.{Text, text_eq, is_empty}
use kova.Base.Dict.{lookup, lookup-insert_self}
use kova.Api.{KovaBuild}
use kova.Effects.{Error, Result, ok, err, ConfigMap, pure, fail, require}
use kova.Effects.Traces.{History, Always, Outcome, Any, seq, checked, by_option, by_test, after}
use kova.Admission.{ActiveReservation, reservation_key}
use kova.Queue.Store.{is_nil}
use kova.Reservations.{ReservationState}
use kova.Reservations.Ledger.{
  Reconciler, Backend, max_reservation_attempts, read_reservations, with_entry, cas_reservations,
}
use kova.Reservations.Pod.{same_pod_attempt, verify_pinned_pod_receipt}
use kova.Reservations.Pod.Issuing.{only_text}
use kova.Reservations.Pod.Completing.{
  seen_complete, recover_complete, complete_genesis_loop, complete_genesis_pod_create,
}
use kova.Reservations.Fences.{complete_pod_create}
use kova.Reservations.Steps.{Change}
use kova.Reservations.Evidence.{Observed, Safe, Observed-Later}
use kova.Reservations.Safety.{read_reservations-Safe, cas-Safe, Free-Safe}
use kova.Reservations.Safety.Changing.{Change-Justified}
use kova.Reservations.Reading.{verify_pinned_pod_receipt-Reads}
use kova.Reservations.Safety.Completing.{Completes, without_only, none_left}
use kova.Reservations.Safety.Completing.{Completes, Completed, complete_loop-Safe}

module _ (x : Backend) (r : Reconciler) where
  -- A read that sees the entry with nothing in flight.
  seen-Completed :
      (g : History) (b : KovaBuild) (e : ActiveReservation) (nonce : Text) (cm : ConfigMap)
      (st : ReservationState)
      → Observed x r g cm st
      → seen_complete b e st ≡ true
      → Completed x r g b nonce
  unfolding seen_complete
  seen-Completed g b e nonce cm st o q = go (lookup (reservation_key b) st.active) refl q
    where
      go :
          (f : Option ActiveReservation)
          → lookup (reservation_key b) st.active ≡ f
          → (elim f [
            | none ↦ false
            | some a ↦
                same_pod_attempt a e
                && text_eq a.pod_receipt_uid e.pod_receipt_uid
                && is_nil a.in_flight
          ])
            ≡ true
          → Completed x r g b nonce
      go none l h = absurd (ground arith)
      go (some a) l h = record {
        state = st;
        known = inl (cm, o);
        entry = a;
        found = l;
        landed = none_left a.in_flight nonce (ground arith);
      }

  recover_complete-Safe :
      (h : History) (b : KovaBuild) (e : ActiveReservation) (nonce : Text) (failure : Error)
      → Always
          (Safe x r (Completes b nonce))
          (Outcome (λ g u. Completed x r g b nonce) Any)
          h
          (recover_complete x r b e failure)
  unfolding recover_complete
  recover_complete-Safe h b e nonce failure =
      after (Safe x r (Completes b nonce)) (Outcome (λ g v. Observed x r g v.0 v.1) Any)
        (Outcome (λ g u. Completed x r g b nonce) Any) h (read_reservations x r b.namespace) _
        (read_reservations-Safe x r (Completes b nonce) h b.namespace)
        (λ g seen l o. judged g seen o)
    where
      judged :
          (g : History) (seen : Result (ConfigMap × ReservationState))
          → Outcome (λ g' v. Observed x r g' v.0 v.1) Any g seen
          → Always
              (Safe x r (Completes b nonce))
              (Outcome (λ g' u. Completed x r g' b nonce) Any)
              g
              (elim seen [ err e' ↦ fail failure | ok v ↦ require (seen_complete b e v.1) failure ])
      judged g (err e') o = tt
      judged g (ok v) o = told (seen_complete b e v.1) refl
        where
          told :
              (found : Bool)
              → seen_complete b e v.1 ≡ found
              → Always
                  (Safe x r (Completes b nonce))
                  (Outcome (λ g' u. Completed x r g' b nonce) Any)
                  g
                  (require found failure)
          told true q = seen-Completed g b e nonce v.0 v.1 o q
          told false q = tt

  complete_genesis_loop-Safe :
      (h : History) (b : KovaBuild) (nonce : Text) (left : ℕ)
      → Always
          (Safe x r (Completes b nonce))
          (Outcome (λ g u. Completed x r g b nonce) Any)
          h
          (complete_genesis_loop x r b nonce left)
  unfolding complete_genesis_loop
  complete_genesis_loop-Safe h b nonce zero = tt
  complete_genesis_loop-Safe h b nonce (suc left) =
      seq (Safe x r (Completes b nonce)) (λ g v. Observed x r g v.0 v.1)
        (λ g u. Completed x r g b nonce) h (read_reservations x r b.namespace) _
        (read_reservations-Safe x r (Completes b nonce) h b.namespace)
        (λ g v l o.
          by_option (Safe x r (Completes b nonce)) (Outcome (λ g' u. Completed x r g' b nonce) Any)
            g (lookup (reservation_key b) v.1.active) _ _ (λ absent. tt)
            (λ e found.
              checked (Safe x r (Completes b nonce)) (λ g' u. Completed x r g' b nonce) g
                (text_eq e.build_name b.name
                  && text_eq e.pod_attempt_nonce nonce
                  && not (is_empty e.pod_receipt_uid))
                Error.failed _
                (λ named.
                  by_test (Safe x r (Completes b nonce))
                    (Outcome (λ g' u. Completed x r g' b nonce) Any) g (is_nil e.in_flight) _ _
                    (λ nothing. record {
                      state = v.1;
                      known = inl (v.0, o);
                      entry = e;
                      found = found;
                      landed = none_left e.in_flight nonce nothing;
                    })
                    (λ something.
                      checked (Safe x r (Completes b nonce)) (λ g' u. Completed x r g' b nonce) g
                        (only_text e.in_flight nonce) Error.failed _
                        (λ only.
                          seq (Safe x r (Completes b nonce)) Any (λ g' u. Completed x r g' b nonce)
                            g (verify_pinned_pod_receipt x r b e true) _
                            (Free-Safe x r (Completes b nonce) g _
                              (verify_pinned_pod_receipt-Reads x r b e true))
                            (λ g' u l' a.
                              land g' v.0 v.1 e (Observed-Later x r g g' v.0 v.1 l' o) found only
                                (λ g''. complete_genesis_loop-Safe g'' b nonce left)))))))
    where
      land :
          (g : History) (cm : ConfigMap) (st : ReservationState) (e : ActiveReservation)
          → Observed x r g cm st
          → lookup (reservation_key b) st.active ≡ some e
          → only_text e.in_flight nonce ≡ true
          → ((g' : History)
              → Always
                  (Safe x r (Completes b nonce))
                  (Outcome (λ g'' u. Completed x r g'' b nonce) Any)
                  g'
                  (complete_genesis_loop x r b nonce left))
          → Always
              (Safe x r (Completes b nonce))
              (Outcome (λ g' u. Completed x r g' b nonce) Any)
              g
              (cas_reservations x r cm
                (with_entry st b (record e { in_flight = [] }))
                left
                (complete_genesis_loop x r b nonce left)
                (recover_complete x r b (record e { in_flight = [] }))
                (pure tt))
      land g cm st e o found only again =
          cas-Safe x r (Completes b nonce) (λ g' u. Completed x r g' b nonce) g cm
            (with_entry st b (record e { in_flight = [] })) left
            (complete_genesis_loop x r b nonce left)
            (recover_complete x r b (record e { in_flight = [] })) (pure tt)
            (λ bytes q.
              Change-Justified x r (Completes b nonce) g cm st b e (record e { in_flight = [] })
                bytes o found
                (Change.complete nonce (
                  ap (λ xs. record e { in_flight = xs })
                    (sym (without_only e.in_flight nonce only))))
                (e, refl) q)
            (λ g' l'. again g')
            (λ g' failure l'.
              recover_complete-Safe g' b (record e { in_flight = [] }) nonce failure)
            (λ g' l' a over. record {
              state = with_entry st b (record e { in_flight = [] });
              known = inr a;
              entry = record e { in_flight = [] };
              found = lookup-insert_self (reservation_key b) _ st.active;
              landed = refl;
            })

  pub complete_pod_create-Safe :
      (h : History) (b : KovaBuild) (nonce : Text)
      → Always
          (Safe x r (Completes b nonce))
          (Outcome (λ g u. Completed x r g b nonce) Any)
          h
          (complete_pod_create x r b nonce)
  unfolding complete_pod_create complete_genesis_pod_create
  complete_pod_create-Safe h b nonce =
      by_option (Safe x r (Completes b nonce)) (Outcome (λ g u. Completed x r g b nonce) Any) h
        r.genesis _ _ (λ plain. complete_loop-Safe x r h b nonce max_reservation_attempts plain)
        (λ o q. complete_genesis_loop-Safe h b nonce max_reservation_attempts)
