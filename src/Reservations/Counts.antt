-- ===== src/Reservations/Counts.antt =====
-- The loop of `validateReservationState` (internal/service/buildcontroller/reservation.go) against the
-- counts of the grant decision: slots used, and jobs of one requester.
use kova.Base.{
  ℕ, ◌+◌, ◌≤◌, ◌<◌, ◌≡◌, refl, subst, inl, inr, Bool-cases, true, [], ◌∷◌, none, arith,
  if◌then◌else◌,
}
use kova.Base.Text.{Text, text_eq, text_eq_refl, text_eq→eq}
use kova.Base.Dict.{Dict, lookup, insert}
use kova.Admission.{ActiveReservation, Tally, bump, used_slots, active_for}
use kova.Reservations.{Codec, ReservationState, reservation_ok, version_ok, active_ok}

bump_at : (u o : Text) (t : Tally) → bump u t o ≡ (if text_eq u o then 1 else 0) + t o
unfolding bump
bump_at u o t = refl

bump_self : (u : Text) (t : Tally) → bump u t u ≡ t u + 1
unfolding bump
bump_self u t = rw (text_eq_refl u) (omega arith)

-- Each entry has at most the worker slots: the subtraction of the source does not stop at 0.
reservation_ok-slots :
    (x : Codec) (ws : ℕ) (key : Text) (e : ActiveReservation)
    → reservation_ok x ws key e ≡ true
    → e.slots ≤ ws
unfolding reservation_ok
reservation_ok-slots x ws key e h = ground arith

pub active_ok-slots :
    (x : Codec) (s : ReservationState) (used : ℕ) (c : Tally) (d : Dict ActiveReservation)
    → used ≤ s.worker_slots
    → active_ok x s used c d ≡ true
    → used + used_slots d ≤ s.worker_slots
unfolding active_ok used_slots
active_ok-slots x s used c [] u h = omega arith
active_ok-slots x s used c ((key, e) ∷ d) u h =
    let w = reservation_ok-slots x s.worker_slots key e (ground arith) in
    ground (
      arith,
      w,
      active_ok-slots x s (used + e.slots) (bump e.requester c) d (ground (arith, w))
          (ground arith),
    )

pub active_ok-share :
    (x : Codec) (s : ReservationState) (used : ℕ) (c : Tally) (who : Text)
    (d : Dict ActiveReservation)
    → c who ≤ s.max_per_requester
    → active_ok x s used c d ≡ true
    → c who + active_for who d ≤ s.max_per_requester
unfolding active_ok active_for
active_ok-share x s used c who [] u h = omega arith
active_ok-share x s used c who ((key, e) ∷ d) u h = ground (
  arith,
  bump_at e.requester who c,
  active_ok-share x s (used + e.slots) (bump e.requester c) who d
      (head_share e.requester (ground arith)) (ground arith),
)
  where
    head_share : (r : Text) → bump r c r ≤ s.max_per_requester → bump r c who ≤ s.max_per_requester
    head_share r h = elim (Bool-cases (text_eq r who)) [
      | inl hit ↦ subst (λ o. bump r c o ≤ s.max_per_requester) (text_eq→eq r who hit) h
      | inr miss ↦ rw (bump_at r who c, miss) (omega (arith, u))
    ]

-- A new entry that fits.
pub active_ok-insert_new :
    (x : Codec) (s : ReservationState) (used : ℕ) (c : Tally) (key : Text) (e : ActiveReservation)
    (d : Dict ActiveReservation)
    → lookup key d ≡ none
    → reservation_ok x s.worker_slots key e ≡ true
    → version_ok x s.version e ≡ true
    → used + used_slots d + e.slots ≤ s.worker_slots
    → c e.requester + active_for e.requester d < s.max_per_requester
    → active_ok x s used c d ≡ true
    → active_ok x s used c (insert key e d) ≡ true
unfolding active_ok lookup insert used_slots active_for
active_ok-insert_new x s used c key e [] n r v u a h = ground (arith, bump_self e.requester c)
active_ok-insert_new x s used c key e ((j, w) ∷ d) n r v u a h = ground (
  arith,
  bump_at w.requester e.requester c,
  active_ok-insert_new x s (used + w.slots) (bump w.requester c) key e d,
)
