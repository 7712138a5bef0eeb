-- ===== src/Reservations/Admit.antt =====
-- The grant of a reservation (internal/service/buildcontroller/admission.go, `admission`) and the
-- checks before it that every runner is reserved (reservation.go, ensureNoUnreservedRunner).
use kova.Base.{
  ℕ, zero, suc, Bool, true, false, not, ◌&&◌, ◌||◌, List, [], ◌∷◌, Option, none, some,
  if◌then◌else◌, is_some,
}
use kova.Base.Text.{Text, text_eq, is_empty}
use kova.Base.Dict.{lookup}
use kova.Api.{KovaBuild, Phase, value_of}
use kova.Api.Pods.{Pod}
use kova.Effects.{
  Error, Result, ok, err, ConfigMap, Request, Prog, ret, call, bind, M, pure, fail, from_result,
  require, ◌>>=◌, ◌>>◌, ask_ctx, ask_nonce, get_config_map, read_builds, read_pods,
  is_already_exists, is_conflict,
}
use kova.Admission.{
  ActiveReservation, Decision, reservation_key, requester_key, saturated_admission,
  decide_admission,
}
use kova.Queue.Release.{verify_for_build}
use kova.Reservations.{
  ReservationState, grant_entry, with_grant, nonzero, decode_reservations,
  validate_reservation_limits,
}
use kova.Reservations.Ledger.{
  Reconciler, Backend, reservation_name, max_reservation_attempts, retry_number, queue_store,
  active_identity, read_reservations, write_reservations, wait_reservation_cas, ensure_live,
  pod_owned_by_build, build_label,
}
use kova.Reservations.Grant.{verify_pinned_grant}
use kova.Reservations.Grant.Pinning.{finish_fresh_grant}

-- The checks of the second read, which does not look at the receipt protocol version.
unfoldable pub decode_any : Backend → Reconciler → ConfigMap → Result ReservationState
decode_any x r cm = elim (decode_reservations x.codec cm) [
  | err e ↦ err e
  | ok st ↦ if validate_reservation_limits r.cfg st then ok st else err Error.failed
]

abbrev pub covers : Option ActiveReservation → KovaBuild → Bool
covers none b = false
covers (some e) b = text_eq e.build_name b.name

-- `reservationCovered`: a key that the state lacks is looked for in the ledger again.
unfoldable pub reservation_covered :
    Backend → Reconciler → Text → ReservationState → KovaBuild → M Bool
reservation_covered x r ns st b = elim (lookup (reservation_key b) st.active) [
  | some e ↦ pure (text_eq e.build_name b.name)
  | none ↦ get_config_map ns reservation_name >>= λ cm.
      from_result (active_identity r cm) >> from_result (decode_any x r cm) >>= λ latest.
      pure (covers (lookup (reservation_key b) latest.active) b)
]

abbrev pub holds_runner : Phase → Bool
holds_runner Phase.starting = true
holds_runner Phase.running = true
holds_runner Phase.verifying = true
holds_runner Phase.failed_verifying = true
holds_runner _ = false

abbrev pub require_covered :
    Backend → Reconciler → Text → ReservationState → KovaBuild → M (Unit {0})
require_covered x r ns st b = reservation_covered x r ns st b >>= λ c. require c Error.failed

unfoldable pub builds_covered :
    Backend → Reconciler → Text → ReservationState → List KovaBuild → M (Unit {0})
builds_covered x r ns st [] = pure tt
builds_covered x r ns st (b ∷ rest) =
    if holds_runner b.phase
    then (require_covered x r ns st b >> builds_covered x r ns st rest)
    else builds_covered x r ns st rest

-- The last build of the name, as a Go map filled in order has it.
unfoldable pub find_build : List KovaBuild → Text → Option KovaBuild
find_build [] name = none
find_build (b ∷ rest) name = elim (find_build rest name) [
  | some found ↦ some found
  | none ↦ if text_eq b.name name then some b else none
]

unfoldable pub pods_covered :
    Backend → Reconciler → Text → ReservationState → List KovaBuild → List Pod → M (Unit {0})
pods_covered x r ns st builds [] = pure tt
pods_covered x r ns st builds (p ∷ rest) =
    if is_empty (value_of build_label p.labels)
    then pods_covered x r ns st builds rest
    else elim (find_build builds (value_of build_label p.labels)) [
      | none ↦ fail Error.failed
      | some b ↦
          require (pod_owned_by_build p b) Error.failed
          >> require_covered x r ns st b
          >> pods_covered x r ns st builds rest
    ]

unfoldable pub ensure_no_unreserved_runner :
    Backend → Reconciler → Text → ReservationState → List KovaBuild → M (Unit {0})
ensure_no_unreserved_runner x r ns st builds =
    builds_covered x r ns st builds >> read_pods ns >>= λ pods. pods_covered x r ns st builds pods

abbrev pub deferred : Decision
deferred = record { admitted = false; allocation = 0; message = []; deferred = true }

abbrev pub admitted_with : ℕ → Decision
admitted_with n = record { admitted = true; allocation = n; message = []; deferred = false }

abbrev pub verify_held : Backend → Reconciler → KovaBuild → ActiveReservation → M (Unit {0})
verify_held x r b e = elim r.genesis [ none ↦ pure tt | some o ↦ verify_pinned_grant x r b e ]

-- The reservation that the build already has.
unfoldable pub readmit : Backend → Reconciler → KovaBuild → ActiveReservation → M Decision
readmit x r b e = do
  require (text_eq e.build_name b.name && text_eq e.requester (requester_key b)) Error.failed
  require (not e.closing) Error.admission_closed
  verify_held x r b e
  pure (admitted_with e.slots)

abbrev pub verify_queue : Backend → Reconciler → KovaBuild → M (Unit {0})
verify_queue x r b = verify_for_build x.payloads.base (queue_store r b.namespace) b >>= λ v. pure tt

-- The permit of the coordinator: the one held, or a new one, or none where there is none to take. An
-- answer without a permit defers the build.
abbrev pub Permit : Type 0
Permit = Option ℕ

abbrev pub needs_permit : Reconciler → Permit → Bool
needs_permit r held = is_some r.genesis && r.has_coordinator && not (is_some held)

-- What a turn leaves: a decision or an error, or another turn.
pub data Turn : Type 0 where
  done : Result Decision → Turn
  again : Turn

abbrev pub turn_of : M Decision → Prog Turn
turn_of m = bind m (λ d. ret (Turn.done d))

-- The write of a grant, and with a Genesis its receipt.
unfoldable pub commit_grant :
    Backend
    → Reconciler
    → KovaBuild
    → Option Text
    → ConfigMap
    → ReservationState
    → Decision
    → ℕ
    → Prog Turn
commit_grant x r b minted cm st d left =
    bind (write_reservations x r cm (with_grant x.codec b d.allocation minted st)) λ w. elim w [
      | err e ↦
          if is_conflict e || is_already_exists e
          then (bind (wait_reservation_cas (retry_number left))
              λ waited. elim waited [ ok u ↦ ret Turn.again | err e' ↦ ret (Turn.done (err e')) ])
          else ret (Turn.done (err e))
      | ok u ↦ (elim minted [
        | none ↦ ret (Turn.done (ok d))
        | some t ↦ turn_of (
            finish_fresh_grant x r b (grant_entry b d.allocation (some (t, nonzero st.fence)))
            >> pure d)
      ])
    ]

-- From the listings on.
unfoldable pub decide_turn :
    Backend → Reconciler → KovaBuild → Option Text → ConfigMap → ReservationState → ℕ → Prog Turn
decide_turn x r b minted cm st left =
    bind
      (read_builds b.namespace >>= λ builds.
        ensure_no_unreserved_runner x r b.namespace st builds >> pure builds)
      λ listed. elim listed [
        | err e ↦ ret (Turn.done (err e))
        | ok builds ↦ (elim (lookup (reservation_key b) st.active) [
          | some e ↦ turn_of (readmit x r b e)
          | none ↦
              let d =
                decide_admission x.codec.sha256_hex b builds st.active r.cfg.max_active_jobs
                  r.cfg.max_active_jobs_per_requester r.cfg.worker_slots st.last_granted in
              if d.admitted then commit_grant x r b minted cm st d left else ret (Turn.done (ok d))
        ])
      ]

abbrev pub with_permit : Permit → Prog Turn → Prog (Permit × Turn)
with_permit held m = bind m (λ t. ret (held, t))

-- A build without a reservation is verified against the queue before the listings.
unfoldable pub fresh_turn :
    Backend → Reconciler → KovaBuild → Option Text → ConfigMap → ReservationState → ℕ → Prog Turn
fresh_turn x r b minted cm st left =
    bind (verify_queue x r b)
      λ q. elim q [ err e ↦ ret (Turn.done (err e)) | ok u ↦ decide_turn x r b minted cm st left ]

abbrev pub saturation : Reconciler → KovaBuild → ReservationState → Decision × Bool
saturation r b st =
    saturated_admission b st.active r.cfg.max_active_jobs r.cfg.max_active_jobs_per_requester
      r.cfg.worker_slots

unfoldable pub permit_turn :
    Backend
    → Reconciler
    → KovaBuild
    → Option Text
    → Permit
    → ConfigMap
    → ReservationState
    → ℕ
    → Prog (Permit × Turn)
permit_turn x r b minted held cm st left =
    if (saturation r b st).1
    then with_permit held (turn_of (verify_queue x r b >> pure (saturation r b st).0))
    else if needs_permit r held
    then (call (Request.begin_grant b.namespace) λ p. elim p [
      | err e ↦ ret (held, Turn.done (err e))
      | ok none ↦ ret (held, Turn.done (ok deferred))
      | ok (some mine) ↦ with_permit (some mine) (fresh_turn x r b minted cm st left)
    ])
    else with_permit held (fresh_turn x r b minted cm st left)

unfoldable pub admission_turn :
    Backend → Reconciler → KovaBuild → Option Text → Permit → ℕ → Prog (Permit × Turn)
admission_turn x r b minted held left =
    bind (ask_ctx >> read_reservations x r b.namespace >>= λ v. ensure_live b >> pure v) λ got.
      elim got [
        | err e ↦ ret (held, Turn.done (err e))
        | ok v ↦
            if is_some (lookup (reservation_key b) v.1.active)
            then with_permit held (decide_turn x r b minted v.0 v.1 left)
            else permit_turn x r b minted held v.0 v.1 left
      ]

-- The deferred release of the permit.
abbrev pub finish : Permit → Result Decision → M Decision
finish none d = ret d
finish (some p) d = call (Request.end_grant p) (λ u. ret d)

unfoldable pub admission_loop :
    Backend → Reconciler → KovaBuild → Option Text → Permit → ℕ → M Decision
admission_loop x r b minted held zero = finish held (err Error.failed)
admission_loop x r b minted held (suc left) =
    bind (admission_turn x r b minted held left) λ v. elim v.1 [
      | Turn.done d ↦ finish v.0 d
      | Turn.again ↦ admission_loop x r b minted v.0 left
    ]

unfoldable pub admission : Backend → Reconciler → KovaBuild → M Decision
admission x r b = elim r.genesis [
  | none ↦ admission_loop x r b none none max_reservation_attempts
  | some o ↦
      ask_nonce >>= λ minted. admission_loop x r b (some minted) none max_reservation_attempts
]
