-- ===== src/Reservations/Safety/Admitting.antt =====
-- What `admission` (internal/service/buildcontroller/admission.go) changes and what an admission
-- means.
pub mod Turns
pub mod Loop
use kova.Base.{
  ℕ, zero, suc, ◌≡◌, ◌⊎◌, inl, inr, refl, Bool, true, false, not, ◌&&◌, ◌||◌, List, [], ◌∷◌, Option,
  none, some, In, here, there, if◌then◌else◌, is_some, arith,
}
use kova.Base.Text.{Text, text_eq, text_eq→eq, is_empty}
use kova.Base.Dict.{lookup}
use kova.Api.{KovaBuild, value_of}
use kova.Api.Pods.{Pod}
use kova.Effects.{
  Error, Result, ok, err, ConfigMap, Request, Prog, ret, bind, M, pure, ◌>>=◌, ◌>>◌, ask_ctx,
  ask_nonce, read_builds, is_already_exists, is_conflict,
}
use kova.Effects.Reads.{
  Reads, Free, Free-ret, Free-if, Free-option, Free-seq, Free-require, read_rules,
}
use kova.Effects.Traces.{
  History, event, Always, Outcome, Any, Later, after, kept, passed, seq, checked, by_option,
  by_test,
}
use kova.Admission.{
  ActiveReservation, Decision, reservation_key, requester_key, saturated_admission,
  decide_admission,
}
use kova.Queue.Reading.{verify_for_build-Reads}
use kova.Reservations.{ReservationState, grant_entry, with_grant, nonzero, encode_reservations}
use kova.Reservations.Ledger.{
  Original, Reconciler, Backend, max_reservation_attempts, read_reservations, write_reservations,
  wait_reservation_cas, retry_number, ensure_live, build_label, queue_store, pod_owned_by_build,
}
use kova.Reservations.Grant.Pinning.{finish_fresh_grant}
use kova.Reservations.Admit.{
  Turn, Permit, reservation_covered, holds_runner, builds_covered, find_build, pods_covered,
  ensure_no_unreserved_runner, verify_held, readmit, verify_queue, turn_of, commit_grant,
  decide_turn, with_permit, fresh_turn, saturation, needs_permit, deferred, permit_turn,
  admission_turn, finish, admission_loop, admission,
}
use kova.Reservations.Steps.{Step}
use kova.Reservations.Evidence.{
  Act, Kind, Scope, Observed, Accepted, Justified, Safe, Observed-Later, Accepted-Later,
}
use kova.Reservations.Safety.Granting.{Grants}
use kova.Reservations.Safety.{
  Free-Safe, checked_read-Safe, write_reservations-Safe, inserted-Cleared,
}
use kova.Reservations.Reading.{ensure_live-Reads, verify_pinned_grant-Reads}

-- The change is to grant the build's reservation, or to arm, to create or to pin the receipt of its
-- grant.
abbrev pub Allocates : KovaBuild → Scope
Allocates b (Act.grants key e) = key ≡ reservation_key b
Allocates b (Act.changes key (Kind.arm rv) e) = key ≡ reservation_key b
Allocates b (Act.changes key (Kind.pin uid digest) e) = key ≡ reservation_key b
Allocates b (Act.records key e) = key ≡ reservation_key b
Allocates b a = ⊥

pub Grants-Allocates : (b : KovaBuild) (a : Act) → Grants b a → Allocates b a
Grants-Allocates b (Act.changes key (Kind.arm rv) e) t = t
Grants-Allocates b (Act.changes key (Kind.pin uid digest) e) t = t
Grants-Allocates b (Act.records key e) t = t
Grants-Allocates b (Act.changes key Kind.close e) t = absurd t
Grants-Allocates b (Act.changes key Kind.ready e) t = absurd t
Grants-Allocates b (Act.changes key (Kind.begin nonce) e) t = absurd t
Grants-Allocates b (Act.changes key (Kind.arm_pod digest) e) t = absurd t
Grants-Allocates b (Act.changes key (Kind.pin_pod uid digest) e) t = absurd t
Grants-Allocates b (Act.changes key Kind.pod_ready e) t = absurd t
Grants-Allocates b (Act.changes key (Kind.start nonce) e) t = absurd t
Grants-Allocates b (Act.changes key (Kind.complete nonce) e) t = absurd t
Grants-Allocates b (Act.grants key e) t = absurd t
Grants-Allocates b Act.fences t = absurd t
Grants-Allocates b (Act.removes key e) t = absurd t
Grants-Allocates b (Act.discards key e) t = absurd t

module _ (x : Backend) (r : Reconciler) where
  abbrev pub decision : KovaBuild → ReservationState → List KovaBuild → Decision
  decision b st builds =
      decide_admission x.codec.sha256_hex b builds st.active r.cfg.max_active_jobs
        r.cfg.max_active_jobs_per_requester r.cfg.worker_slots st.last_granted

  -- A grant: the decision was made on a state that a read gave, without an entry of the build, and on
  -- a listing of the builds, and the write of the grant was accepted.
  pub record Granted (b : KovaBuild) (minted : Option Text) (d : Decision) (h : History)
      : Type 0 where
    pub base : ConfigMap
    pub state : ReservationState
    pub builds : List KovaBuild
    pub observed : Observed x r h base state
    pub absent : lookup (reservation_key b) state.active ≡ none
    pub listed : In (event (Request.all_builds b.namespace) (ok builds)) h
    pub decided :
        decide_admission x.codec.sha256_hex b builds state.active r.cfg.max_active_jobs
          r.cfg.max_active_jobs_per_requester r.cfg.worker_slots state.last_granted
        ≡ d
    pub accepted : Accepted x r h (with_grant x.codec b d.allocation minted state)

  -- The reservation that the build had: a read found its open entry, of the same build and requester,
  -- and the decision is for its slots.
  pub record Readmitted (b : KovaBuild) (d : Decision) (h : History) : Type 0 where
    pub base : ConfigMap
    pub state : ReservationState
    pub entry : ActiveReservation
    pub observed : Observed x r h base state
    pub found : lookup (reservation_key b) state.active ≡ some entry
    pub same_build : entry.build_name ≡ b.name
    pub same_requester : entry.requester ≡ requester_key b
    pub still_open : entry.closing ≡ false
    pub its_slots : d.allocation ≡ entry.slots

  abbrev pub Admits : KovaBuild → Option Text → History → Decision → Type 0
  Admits b minted h d = d.admitted ≡ true → Granted b minted d h ⊎ Readmitted b d h

  abbrev pub Settles : KovaBuild → Option Text → History → Turn → Type 0
  Settles b minted h (Turn.done (ok d)) = Admits b minted h d
  Settles b minted h (Turn.done (err e)) = Unit
  Settles b minted h Turn.again = Unit

  pub reservation_covered-Reads :
      (ns : Text) (st : ReservationState) (b : KovaBuild)
      → Reads Free (reservation_covered x r ns st b)
  unfolding reservation_covered
  reservation_covered-Reads ns st b =
      Free-option (lookup (reservation_key b) st.active) _ _ (search (read_rules) depth 30)
        (λ e. Free-ret _)

  pub builds_covered-Reads :
      (ns : Text) (st : ReservationState) (bs : List KovaBuild)
      → Reads Free (builds_covered x r ns st bs)
  unfolding builds_covered
  builds_covered-Reads ns st [] = Free-ret _
  builds_covered-Reads ns st (b ∷ rest) =
      let later = builds_covered-Reads ns st rest in
      Free-if (holds_runner b.phase) _ _
        (Free-seq _ _
          (Free-seq _ _ (reservation_covered-Reads ns st b) (λ c. Free-require c Error.failed))
          (λ u. later))
        later

  pub pods_covered-Reads :
      (ns : Text) (st : ReservationState) (bs : List KovaBuild) (ps : List Pod)
      → Reads Free (pods_covered x r ns st bs ps)
  unfolding pods_covered
  pods_covered-Reads ns st bs [] = Free-ret _
  pods_covered-Reads ns st bs (p ∷ rest) =
      let later = pods_covered-Reads ns st bs rest in
      Free-if (is_empty (value_of build_label p.labels)) _ _ later (
        Free-option (find_build bs (value_of build_label p.labels)) _ _ (Free-ret _) (λ b.
          Free-seq _ _
            (Free-seq _ _ (Free-require (pod_owned_by_build p b) Error.failed) (λ u.
              Free-seq _ _ (reservation_covered-Reads ns st b) (λ c. Free-require c Error.failed)))
            (λ u. later)))

  pub ensure_no_unreserved_runner-Reads :
      (ns : Text) (st : ReservationState) (bs : List KovaBuild)
      → Reads Free (ensure_no_unreserved_runner x r ns st bs)
  unfolding ensure_no_unreserved_runner
  ensure_no_unreserved_runner-Reads ns st bs =
      Free-seq _ _
        (Free-seq _ _ (builds_covered-Reads ns st bs)
          (λ u. Reads.asks (Request.list_pods ns) _ tt (λ answer. Free-ret answer)))
        (λ ps. pods_covered-Reads ns st bs ps)

  pub verify_queue-Reads : (b : KovaBuild) → Reads Free (verify_queue x r b)
  verify_queue-Reads b =
      Free-seq _ _ (verify_for_build-Reads x.payloads.base (queue_store r b.namespace) b)
        (λ v. Free-ret _)

  -- The listing that the turn decides with.
  abbrev pub listing : KovaBuild → ReservationState → M (List KovaBuild)
  listing b st = read_builds b.namespace >>= λ builds.
      ensure_no_unreserved_runner x r b.namespace st builds >> pure builds

module _ (x : Backend) (r : Reconciler) (K : Scope) where
  pub readmit-Safe :
      (h : History) (b : KovaBuild) (minted : Option Text) (cm : ConfigMap) (st : ReservationState)
      (e : ActiveReservation)
      → Observed x r h cm st
      → lookup (reservation_key b) st.active ≡ some e
      → Always (Safe x r K) (Outcome (λ g d. Admits x r b minted g d) Any) h (readmit x r b e)
  unfolding readmit
  readmit-Safe h b minted cm st e o found =
      checked (Safe x r K) (λ g d. Admits x r b minted g d) h
        (text_eq e.build_name b.name && text_eq e.requester (requester_key b)) Error.failed _
        (λ same.
          checked (Safe x r K) (λ g d. Admits x r b minted g d) h (not e.closing)
            Error.admission_closed _
            (λ still_open.
              seq (Safe x r K) Any (λ g d. Admits x r b minted g d) h (verify_held x r b e) _
                (Free-Safe x r K h _
                  (Free-option r.genesis _ _ (Free-ret _) (λ i. verify_pinned_grant-Reads x r b e)))
                (λ g u l q admitted. inr (record {
                  base = cm;
                  state = st;
                  entry = e;
                  observed = Observed-Later x r h g cm st l o;
                  found = found;
                  same_build = text_eq→eq e.build_name b.name (ground arith);
                  same_requester = text_eq→eq e.requester (requester_key b) (ground arith);
                  still_open = ground arith;
                  its_slots = refl;
                }))))

  pub listed-Safe :
      (h : History) (b : KovaBuild) (st : ReservationState)
      → Always
          (Safe x r K)
          (Outcome (λ g bs. In (event (Request.all_builds b.namespace) (ok bs)) g) Any)
          h
          (listing x r b st)
  listed-Safe h b st = (
    tt,
    λ answer.
        passed (Safe x r K) (λ g bs. In (event (Request.all_builds b.namespace) (ok bs)) g) _ answer
          _
          (λ bs got.
            seq (Safe x r K) Any (λ g cs. In (event (Request.all_builds b.namespace) (ok cs)) g) _
              (ensure_no_unreserved_runner x r b.namespace st bs) _
              (Free-Safe x r K _ _ (ensure_no_unreserved_runner-Reads x r b.namespace st bs))
              (λ g u l q. l _ (rw got here))),
  )
