-- ===== src/Reservations/Safety/Completing.antt =====
-- What `completePodCreate` (internal/service/buildcontroller/reservation.go, and with a Genesis
-- pod_receipt.go) changes and what its success means.
pub mod Genesis
use kova.Base.{
  ℕ, zero, suc, ◌≡◌, refl, ◌⊎◌, inl, inr, Bool, true, false, not, ◌&&◌, List, [], ◌∷◌, Option, none,
  some, if◌then◌else◌, leb, length, arith, sym, ◌∙◌, ap,
}
use kova.Base.Text.{Text, text_eq, is_empty}
use kova.Base.Dict.{lookup, lookup-insert_self}
use kova.Api.{KovaBuild}
use kova.Effects.{Error, Result, ok, err, ConfigMap, pure, fail, attempt, require, ◌>>◌, ask_ctx}
use kova.Effects.Traces.{History, Always, Outcome, Any, seq, checked, by_option, by_test, after}
use kova.Admission.{ActiveReservation, reservation_key}
use kova.Queue.Store.{is_nil}
use kova.Reservations.{ReservationState, reservation_ok}
use kova.Reservations.Ledger.{
  Original, Reconciler, Backend, max_reservation_attempts, read_reservations, with_entry,
  cas_reservations,
}
use kova.Reservations.Pod.{same_pod_attempt, verify_pinned_pod_receipt}
use kova.Reservations.Pod.Issuing.{only_text}
use kova.Reservations.Pod.Completing.{
  seen_complete, recover_complete, complete_genesis_loop, complete_genesis_pod_create,
}
use kova.Reservations.Fences.{
  has_text, without_first, attempt_recorded, seen_as, complete_loop, complete_pod_create,
}
use kova.Reservations.Steps.{Change}
use kova.Reservations.Decoded.{decode_active-Checked, held-entry}
use kova.Reservations.Evidence.{Act, Kind, Scope, Observed, Accepted, Safe, Observed-Later}
use kova.Reservations.Safety.{read_reservations-Safe, checked_read-Safe, cas-Safe, Free-Safe}
use kova.Reservations.Safety.Changing.{Change-Justified}
use kova.Reservations.Reading.{verify_pinned_pod_receipt-Reads}

-- One attempt is all there can be: without it nothing of that name is left.
pub without_first-gone :
    (xs : List Text) (t : Text) → leb (length xs) 1 ≡ true → has_text (without_first xs t) t ≡ false
unfolding without_first
without_first-gone [] t h = refl
without_first-gone (a ∷ []) t h = ground arith
without_first-gone (a ∷ b ∷ rest) t h = absurd (ground arith)

pub without_only : (xs : List Text) (t : Text) → only_text xs t ≡ true → without_first xs t ≡ []
unfolding without_first
without_only [] t h = refl
without_only (a ∷ []) t h = ground arith
without_only (a ∷ b ∷ rest) t h = absurd (ground arith)

pub none_left : (xs : List Text) (t : Text) → is_nil xs ≡ true → has_text xs t ≡ false
none_left [] t h = refl
none_left (a ∷ rest) t h = absurd (ground arith)

-- The change is to take the attempt out of the build's entry.
abbrev pub Completes : KovaBuild → Text → Scope
Completes b nonce a =
    (e : ActiveReservation) × (a ≡ Act.changes (reservation_key b) (Kind.complete nonce) e)

module _ (x : Backend) (r : Reconciler) where
  pub at_most_one :
      (h : History) (cm : ConfigMap) (st : ReservationState) (key : Text) (e : ActiveReservation)
      → Observed x r h cm st
      → lookup key st.active ≡ some e
      → leb (length e.in_flight) 1 ≡ true
  unfolding reservation_ok
  at_most_one h cm st key e o l =
      let v = decode_active-Checked x r cm st o.decoded in
      let q = held-entry x.codec st key e v.valid l in ground (arith, q.0)

  -- A state that the call read, or that the API server accepted from it, has the build's entry, and
  -- the attempt is not in flight there.
  pub record Completed (h : History) (b : KovaBuild) (nonce : Text) : Type 0 where
    pub state : ReservationState
    pub known : ((cm : ConfigMap) × Observed x r h cm state) ⊎ Accepted x r h state
    pub entry : ActiveReservation
    pub found : lookup (reservation_key b) state.active ≡ some entry
    pub landed : has_text entry.in_flight nonce ≡ false

  -- What the read of the attempt found: without a Genesis, whether it is in flight.
  abbrev pub Recorded : KovaBuild → Text → Bool → History → Type 0
  Recorded b nonce found g =
      (cm : ConfigMap) × (st : ReservationState) × (e : ActiveReservation) × Observed x r g cm st
      × (lookup (reservation_key b) st.active ≡ some e)
      × (found ≡ (elim r.genesis [
        | none ↦ has_text e.in_flight nonce
        | some o ↦ text_eq e.pod_attempt_nonce nonce
      ]))

module _ (x : Backend) (r : Reconciler) (K : Scope) where
  pub attempt_recorded-Safe :
      (h : History) (b : KovaBuild) (nonce : Text)
      → Always
          (Safe x r K)
          (Outcome (λ g found. Recorded x r b nonce found g) Any)
          h
          (attempt_recorded x r b nonce)
  unfolding attempt_recorded
  attempt_recorded-Safe h b nonce =
      seq (Safe x r K) (λ g v. Observed x r g v.0 v.1) (λ g found. Recorded x r b nonce found g) h
        (read_reservations x r b.namespace) _ (read_reservations-Safe x r K h b.namespace)
        (λ g v l o.
          by_option (Safe x r K) (Outcome (λ g' found. Recorded x r b nonce found g') Any) g
            (lookup (reservation_key b) v.1.active) _ _ (λ absent. tt)
            (λ e found.
              by_test (Safe x r K) (Outcome (λ g' found'. Recorded x r b nonce found' g') Any) g
                (text_eq e.build_name b.name) _ _ (λ named. by_mode g v.0 v.1 e o found r.genesis)
                (λ other. tt)))
    where
      by_mode :
          (g : History) (cm : ConfigMap) (st : ReservationState) (e : ActiveReservation)
          → Observed x r g cm st
          → lookup (reservation_key b) st.active ≡ some e
          → (o : Option Original)
          → Always
              (Safe x r K)
              (Outcome
                (λ g' found.
                  (cm : ConfigMap) × (st : ReservationState) × (e : ActiveReservation) × Observed x
                    r g' cm st
                  × (lookup (reservation_key b) st.active ≡ some e)
                  × (found ≡ (elim o [
                    | none ↦ has_text e.in_flight nonce
                    | some o ↦ text_eq e.pod_attempt_nonce nonce
                  ])))
                Any)
              g
              (elim o [
                | none ↦ pure (has_text e.in_flight nonce)
                | some o ↦ pure (text_eq e.pod_attempt_nonce nonce)
              ])
      by_mode g cm st e obs found none = (cm, st, e, obs, found, refl)
      by_mode g cm st e obs found (some o) = (cm, st, e, obs, found, refl)

module _ (x : Backend) (r : Reconciler) where
  -- A read in which the attempt is not in flight, in the mode without a Genesis.
  pub Recorded-Completed :
      (g : History) (b : KovaBuild) (nonce : Text) (found : Bool)
      → r.genesis ≡ none
      → found ≡ false
      → Recorded x r b nonce found g
      → Completed x r g b nonce
  Recorded-Completed g b nonce found plain missing (cm, st, e, o, l, q) = record {
    state = st;
    known = inl (cm, o);
    entry = e;
    found = l;
    landed = sym (rw plain at q) ∙ missing;
  }

  pub complete_loop-Safe :
      (h : History) (b : KovaBuild) (nonce : Text) (left : ℕ)
      → r.genesis ≡ none
      → Always
          (Safe x r (Completes b nonce))
          (Outcome (λ g u. Completed x r g b nonce) Any)
          h
          (complete_loop x r b nonce left)
  unfolding complete_loop
  complete_loop-Safe h b nonce zero plain = tt
  complete_loop-Safe h b nonce (suc left) plain =
      seq (Safe x r (Completes b nonce)) (λ g v. Observed x r g v.0 v.1)
        (λ g u. Completed x r g b nonce) h (ask_ctx >> read_reservations x r b.namespace) _
        (checked_read-Safe x r (Completes b nonce) h b.namespace)
        (λ g v l o.
          by_option (Safe x r (Completes b nonce)) (Outcome (λ g' u. Completed x r g' b nonce) Any)
            g (lookup (reservation_key b) v.1.active) _ _ (λ absent. tt)
            (λ e found.
              checked (Safe x r (Completes b nonce)) (λ g' u. Completed x r g' b nonce) g
                (text_eq e.build_name b.name) Error.failed _
                (λ named.
                  by_test (Safe x r (Completes b nonce))
                    (Outcome (λ g' u. Completed x r g' b nonce) Any) g (has_text e.in_flight nonce)
                    _ _
                    (λ flying.
                      land g v.0 v.1 e o found (λ g'. complete_loop-Safe g' b nonce left plain))
                    (λ landed. record {
                      state = v.1;
                      known = inl (v.0, o);
                      entry = e;
                      found = found;
                      landed = landed;
                    }))))
    where
      after_loss :
          (g : History) (failure : Error) (seen : Result Bool)
          → Outcome (λ g' found. Recorded x r b nonce found g') Any g seen
          → Always
              (Safe x r (Completes b nonce))
              (Outcome (λ g' u. Completed x r g' b nonce) Any)
              g
              (if seen_as false seen then pure tt else fail failure)
      after_loss g failure (ok true) q = tt
      after_loss g failure (ok false) q = Recorded-Completed g b nonce false plain refl q
      after_loss g failure (err e) q = tt

      land :
          (g : History) (cm : ConfigMap) (st : ReservationState) (e : ActiveReservation)
          → Observed x r g cm st
          → lookup (reservation_key b) st.active ≡ some e
          → ((g' : History)
              → Always
                  (Safe x r (Completes b nonce))
                  (Outcome (λ g'' u. Completed x r g'' b nonce) Any)
                  g'
                  (complete_loop x r b nonce left))
          → Always
              (Safe x r (Completes b nonce))
              (Outcome (λ g' u. Completed x r g' b nonce) Any)
              g
              (cas_reservations x r cm
                (with_entry st b (record e { in_flight = without_first e.in_flight nonce }))
                left
                (complete_loop x r b nonce left)
                (λ failure.
                  attempt
                    (attempt_recorded x r b nonce)
                    λ seen. if seen_as false seen then pure tt else fail failure)
                (pure tt))
      land g cm st e o found again =
          cas-Safe x r (Completes b nonce) (λ g' u. Completed x r g' b nonce) g cm
            (with_entry st b (record e { in_flight = without_first e.in_flight nonce })) left
            (complete_loop x r b nonce left)
            (λ failure.
              attempt (attempt_recorded x r b nonce)
                λ seen. if seen_as false seen then pure tt else fail failure)
            (pure tt)
            (λ bytes q.
              Change-Justified x r (Completes b nonce) g cm st b e
                (record e { in_flight = without_first e.in_flight nonce }) bytes o found
                (Change.complete nonce refl) (e, refl) q)
            (λ g' l'. again g')
            (λ g' failure l'.
              after (Safe x r (Completes b nonce))
                (Outcome (λ g'' f. Recorded x r b nonce f g'') Any)
                (Outcome (λ g'' u. Completed x r g'' b nonce) Any) g' (attempt_recorded x r b nonce)
                _ (attempt_recorded-Safe x r (Completes b nonce) g' b nonce)
                (λ g'' seen k q. after_loss g'' failure seen q))
            (λ g' l' a over. record {
              state = with_entry st b (record e { in_flight = without_first e.in_flight nonce });
              known = inr a;
              entry = record e { in_flight = without_first e.in_flight nonce };
              found = lookup-insert_self (reservation_key b) _ st.active;
              landed =
                  without_first-gone e.in_flight nonce
                    (at_most_one x r g cm st (reservation_key b) e o found);
            })
