-- ===== src/Reservations/Safety/Fencing.antt =====
-- What `fenceReservation` (internal/service/buildcontroller/reservation.go) changes and what its
-- success means.
use kova.Base.{ℕ, zero, suc, ◌≡◌, refl, ◌⊎◌, inl, inr, true, none, some}
use kova.Base.Text.{text_eq}
use kova.Base.Dict.{lookup, lookup-insert_self}
use kova.Api.{KovaBuild}
use kova.Effects.{Error, pure, fail}
use kova.Effects.Traces.{History, Always, Outcome, Any, seq, checked, by_option}
use kova.Admission.{ActiveReservation, reservation_key}
use kova.Reservations.{ReservationState}
use kova.Reservations.Ledger.{
  Reconciler, Backend, max_reservation_attempts, read_reservations, with_entry,
}
use kova.Reservations.Fences.{next_fence, closed, fence_loop, fence_reservation}
use kova.Reservations.Steps.{Change}
use kova.Reservations.Evidence.{Act, Kind, Scope, Observed, Accepted, Safe}
use kova.Reservations.Safety.{read_reservations-Safe, cas-Safe}
use kova.Reservations.Safety.Changing.{closing-Justified, fence-Justified}

-- The change is the fence, and the closing of the build's entry.
abbrev pub Fences : KovaBuild → Scope
Fences b a =
    (a ≡ Act.fences)
    ⊎ ((e : ActiveReservation) × (a ≡ Act.changes (reservation_key b) Kind.close e))

module _ (x : Backend) (r : Reconciler) where
  -- A write of this call was accepted whose state has no entry of the build, or a closed one.
  pub record Fenced (h : History) (b : KovaBuild) : Type 0 where
    pub state : ReservationState
    pub accepted : Accepted x r h state
    pub shut :
        (lookup (reservation_key b) state.active ≡ none)
        ⊎ ((e : ActiveReservation) × (lookup (reservation_key b) state.active ≡ some e)
            × (e.closing ≡ true))

  fence_loop-Safe :
      (h : History) (b : KovaBuild) (left : ℕ)
      → Always (Safe x r (Fences b)) (Outcome (λ g u. Fenced g b) Any) h (fence_loop x r b left)
  unfolding fence_loop
  fence_loop-Safe h b zero = tt
  fence_loop-Safe h b (suc left) =
      seq (Safe x r (Fences b)) (λ g v. Observed x r g v.0 v.1) (λ g u. Fenced g b) h
        (read_reservations x r b.namespace) _ (read_reservations-Safe x r (Fences b) h b.namespace)
        (λ g v l o.
          by_option (Safe x r (Fences b)) (Outcome (λ g' u. Fenced g' b) Any) g
            (lookup (reservation_key b) v.1.active) _ _
            (λ absent.
              cas-Safe x r (Fences b) (λ g' u. Fenced g' b) g v.0 (next_fence v.1) left
                (fence_loop x r b left) (λ failure. fail failure) (pure tt)
                (λ bytes q. fence-Justified x r (Fences b) g v.0 v.1 bytes o (inl refl) q)
                (λ g' l'. fence_loop-Safe g' b left) (λ g' e l'. tt)
                (λ g' l' a over. record {
                  state = next_fence v.1;
                  accepted = a;
                  shut = inl (unfold next_fence in absent);
                }))
            (λ e found.
              checked (Safe x r (Fences b)) (λ g' u. Fenced g' b) g (text_eq e.build_name b.name)
                Error.failed _
                (λ named.
                  cas-Safe x r (Fences b) (λ g' u. Fenced g' b) g v.0
                    (with_entry (next_fence v.1) b (closed e)) left (fence_loop x r b left)
                    (λ failure. fail failure) (pure tt)
                    (λ bytes q.
                      closing-Justified x r (Fences b) g v.0 v.1 b e (closed e) bytes o found
                        (Change.close refl) (inr (e, refl)) q)
                    (λ g' l'. fence_loop-Safe g' b left) (λ g' f l'. tt)
                    (λ g' l' a over. record {
                      state = with_entry (next_fence v.1) b (closed e);
                      accepted = a;
                      shut = inr (
                        closed e,
                        lookup-insert_self (reservation_key b) (closed e) (next_fence v.1).active,
                        unfold closed in refl,
                      );
                    }))))

  pub fence_reservation-Safe :
      (h : History) (b : KovaBuild)
      → Always (Safe x r (Fences b)) (Outcome (λ g u. Fenced g b) Any) h (fence_reservation x r b)
  unfolding fence_reservation
  fence_reservation-Safe h b = fence_loop-Safe h b max_reservation_attempts
