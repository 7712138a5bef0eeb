-- ===== src/Reservations/Fences.antt =====
-- Fencing and releasing a reservation, and the fence around a Pod creation
-- (internal/service/buildcontroller/reservation.go, from fenceReservation to getOwnedPod).
use kova.Base.{
  ℕ, zero, suc, ◌+◌, ◌%◌, ◌^◌, Bool, true, false, not, ◌&&◌, ◌||◌, List, [], ◌∷◌, ◌++◌, none, some,
  if◌then◌else◌, is_some, length,
}
use kova.Base.Text.{Text, text_eq, is_empty}
use kova.Base.Dict.{lookup, erase}
use kova.Api.{KovaBuild}
use kova.Effects.{
  Error, Result, ok, err, ConfigMap, M, pure, fail, attempt, require, ◌>>=◌, ◌>>◌, ask_ctx,
  ask_nonce, read_build, is_conflict,
}
use kova.Admission.{ActiveReservation, reservation_key, is_terminal_phase}
use kova.Queue.Store.{is_nil}
use kova.Reservations.{ReservationState}
use kova.Reservations.Ledger.{
  Reconciler, Backend, max_reservation_attempts, retry_number, read_reservations,
  wait_reservation_cas, cas_reservations, with_active, with_entry, ensure_live, get_owned_pod,
}
use kova.Reservations.Grant.{verify_pinned_grant}
use kova.Reservations.Grant.Discarding.{release_grant_receipt}
use kova.Reservations.Pod.Completing.{release_pod_receipt, complete_genesis_pod_create}

-- `state.Fence++` on 64 bits.
unfoldable pub next_fence : ReservationState → ReservationState
next_fence st = record st { fence = (fence + 1) % 2 ^ 64 }
  where
    open st use {fence}

unfoldable pub closed : ActiveReservation → ActiveReservation
closed e = record e { closing = true }

unfoldable pub fence_loop : Backend → Reconciler → KovaBuild → ℕ → M (Unit {0})
fence_loop x r b zero = fail Error.failed
fence_loop x r b (suc left) = read_reservations x r b.namespace >>= λ v.
    elim (lookup (reservation_key b) v.1.active) [
      | none ↦
          cas_reservations x r v.0 (next_fence v.1) left (fence_loop x r b left)
            (λ failure. fail failure) (pure tt)
      | some e ↦
          require (text_eq e.build_name b.name) Error.failed
          >> cas_reservations x r v.0 (with_entry (next_fence v.1) b (closed e)) left
              (fence_loop x r b left) (λ failure. fail failure) (pure tt)
    ]

unfoldable pub fence_reservation : Backend → Reconciler → KovaBuild → M (Unit {0})
fence_reservation x r b = fence_loop x r b max_reservation_attempts

-- With a Genesis: the build that the cleanup goes on with, which is the original one, finished or
-- going. Without: the one given.
unfoldable pub settled_build : Reconciler → KovaBuild → M KovaBuild
settled_build r b = elim r.genesis [
  | none ↦ pure b
  | some o ↦ read_build b.namespace b.name >>= λ current.
      require (text_eq current.uid b.uid && (is_terminal_phase current.phase || current.deleting))
        Error.failed
      >> pure current
]

-- One receipt of the release: a conflict waits and starts over, as does a receipt that is not ready.
abbrev pub receipt_step : ℕ → M Bool → M (Unit {0}) → M (Unit {0}) → M (Unit {0})
receipt_step left m again next = attempt m λ ready. elim ready [
  | err e ↦ if is_conflict e then (wait_reservation_cas (retry_number left) >> again) else fail e
  | ok done ↦ if done then next else again
]

unfoldable pub release_receipts :
    Backend
    → Reconciler
    → KovaBuild
    → ConfigMap
    → ReservationState
    → ActiveReservation
    → ℕ
    → M (Unit {0})
    → M (Unit {0})
    → M (Unit {0})
release_receipts x r b cm st e left again next = elim r.genesis [
  | none ↦ next
  | some o ↦
      receipt_step left (release_pod_receipt x r b cm st e) again
        (receipt_step left (release_grant_receipt x r b cm st e) again next)
]

unfoldable pub release_reservation_loop : Backend → Reconciler → KovaBuild → ℕ → M (Unit {0})
release_reservation_loop x r b zero = fail Error.failed
release_reservation_loop x r b (suc left) = ask_ctx >> read_reservations x r b.namespace >>= λ v.
    elim (lookup (reservation_key b) v.1.active) [
      | none ↦ pure tt
      | some e ↦ do
        require (text_eq e.build_name b.name && e.closing) Error.failed
        current ← settled_build r b
        require (is_nil e.in_flight) (Error.recovery_required (length e.in_flight))
        pod ← get_owned_pod current
        require (not (is_some pod)) Error.failed
        release_receipts x r current v.0 v.1 e left (release_reservation_loop x r current left) (
            cas_reservations x r v.0 (with_active v.1 (erase (reservation_key current) v.1.active))
              left (release_reservation_loop x r current left) (λ failure. fail failure) (pure tt))
    ]

unfoldable pub release_reservation : Backend → Reconciler → KovaBuild → M (Unit {0})
release_reservation x r b = release_reservation_loop x r b max_reservation_attempts

-- Whether a read finds the attempt: with a Genesis as the spent nonce, otherwise in flight.
abbrev pub has_text : List Text → Text → Bool
has_text [] t = false
has_text (a ∷ rest) t = text_eq a t || has_text rest t

unfoldable pub attempt_recorded : Backend → Reconciler → KovaBuild → Text → M Bool
attempt_recorded x r b nonce = read_reservations x r b.namespace >>= λ v.
    elim (lookup (reservation_key b) v.1.active) [
      | none ↦ fail Error.failed
      | some e ↦
          if text_eq e.build_name b.name
          then (elim r.genesis [
            | none ↦ pure (has_text e.in_flight nonce)
            | some o ↦ pure (text_eq e.pod_attempt_nonce nonce)
          ])
          else fail Error.failed
    ]

abbrev pub seen_as : Bool → Result Bool → Bool
seen_as want (ok found) = if want then found else not found
seen_as want (err e) = false

-- The entry with the new attempt.
unfoldable pub begun : Reconciler → ActiveReservation → Text → ActiveReservation
begun r e nonce = elim r.genesis [
  | none ↦ record e { in_flight = e.in_flight ++ nonce ∷ [] }
  | some o ↦ record e { pod_attempt_nonce = nonce }
]

-- With a Genesis: the grant's receipt holds, and no attempt was ever spent.
abbrev pub check_unspent : Backend → Reconciler → KovaBuild → ActiveReservation → M (Unit {0})
check_unspent x r b e = elim r.genesis [
  | none ↦ pure tt
  | some o ↦
      (verify_pinned_grant x r b e
        >> require (is_empty e.pod_attempt_nonce) (Error.recovery_required 1))
]

unfoldable pub begin_loop : Backend → Reconciler → KovaBuild → Text → ℕ → M Text
begin_loop x r b nonce zero = fail Error.failed
begin_loop x r b nonce (suc left) = ask_ctx >> read_reservations x r b.namespace >>= λ v.
    ensure_live b >> elim (lookup (reservation_key b) v.1.active) [
      | none ↦ fail Error.failed
      | some e ↦ do
        require (text_eq e.build_name b.name) Error.failed
        require (not e.closing) Error.admission_closed
        check_unspent x r b e
        require (is_nil e.in_flight) (Error.recovery_required (length e.in_flight))
        cas_reservations x r v.0 (with_entry v.1 b (begun r e nonce)) left
            (begin_loop x r b nonce left)
            (λ failure.
              attempt (attempt_recorded x r b nonce)
                λ seen. if seen_as true seen then pure nonce else fail failure)
            (pure nonce)
    ]

unfoldable pub begin_pod_create : Backend → Reconciler → KovaBuild → M Text
begin_pod_create x r b = ask_nonce >>= λ nonce. begin_loop x r b nonce max_reservation_attempts

-- The list without its first such element.
unfoldable pub without_first : List Text → Text → List Text
without_first [] t = []
without_first (a ∷ rest) t = if text_eq a t then rest else a ∷ without_first rest t

unfoldable pub complete_loop : Backend → Reconciler → KovaBuild → Text → ℕ → M (Unit {0})
complete_loop x r b nonce zero = fail Error.failed
complete_loop x r b nonce (suc left) = ask_ctx >> read_reservations x r b.namespace >>= λ v.
    elim (lookup (reservation_key b) v.1.active) [
      | none ↦ fail Error.failed
      | some e ↦
          require (text_eq e.build_name b.name) Error.failed
          >> (if has_text e.in_flight nonce
              then cas_reservations x r v.0
                  (with_entry v.1 b (record e { in_flight = without_first e.in_flight nonce })) left
                  (complete_loop x r b nonce left)
                  (λ failure.
                    attempt (attempt_recorded x r b nonce)
                      λ seen. if seen_as false seen then pure tt else fail failure)
                  (pure tt)
              else pure tt)
    ]

unfoldable pub complete_pod_create : Backend → Reconciler → KovaBuild → Text → M (Unit {0})
complete_pod_create x r b nonce = elim r.genesis [
  | some o ↦ complete_genesis_pod_create x r b nonce
  | none ↦ complete_loop x r b nonce max_reservation_attempts
]
