-- ===== src/Reservations/Safety/Admitting/Loop.antt =====
-- The loop of `admission` (internal/service/buildcontroller/admission.go) with its permit.
use kova.Base.{
  ℕ, zero, suc, ◌≡◌, inl, inr, Bool, true, false, ◌∷◌, Option, none, some, there, if◌then◌else◌,
  is_some, arith,
}
use kova.Base.Text.{Text}
use kova.Base.Dict.{lookup}
use kova.Api.{KovaBuild}
use kova.Effects.{
  Error, Result, ok, err, ConfigMap, Request, Prog, ret, M, pure, ◌>>=◌, ◌>>◌, ask_ctx, ask_nonce,
}
use kova.Effects.Traces.{
  History, event, Always, Outcome, Any, Later, after, kept, passed, seq, by_test,
}
use kova.Admission.{Decision, reservation_key, saturated_admission}
use kova.Reservations.{ReservationState}
use kova.Reservations.Ledger.{
  Original, Reconciler, Backend, max_reservation_attempts, read_reservations, ensure_live,
}
use kova.Reservations.Admit.{
  Turn, Permit, verify_queue, decide_turn, with_permit, fresh_turn, saturation, needs_permit,
  deferred, permit_turn, admission_turn, finish, admission_loop, admission,
}
use kova.Reservations.Evidence.{Observed, Safe, Observed-Later, Accepted-Later}
use kova.Reservations.Safety.{Free-Safe, checked_read-Safe}
use kova.Reservations.Reading.{ensure_live-Reads}
use kova.Reservations.Safety.Admitting.{Allocates, Admits, Settles, verify_queue-Reads}
use kova.Reservations.Safety.Admitting.Turns.{turn_of-Safe, decide_turn-Safe, fresh_turn-Safe}

module _ (x : Backend) (r : Reconciler) where
  abbrev Turned : KovaBuild → Option Text → History → Permit × Turn → Type 0
  Turned b minted g v = Settles x r b minted g v.1

  with_permit-Safe :
      (h : History) (b : KovaBuild) (minted : Option Text) (held : Permit) (m : Prog Turn)
      → Always (Safe x r (Allocates b)) (Settles x r b minted) h m
      → Always (Safe x r (Allocates b)) (Turned b minted) h (with_permit held m)
  with_permit-Safe h b minted held m s =
      after (Safe x r (Allocates b)) (Settles x r b minted) (Turned b minted) h m _ s (λ g t l q. q)

  saturation-refuses :
      (b : KovaBuild) (st : ReservationState) → (saturation r b st).0.admitted ≡ false
  unfolding saturated_admission
  saturation-refuses b st = ground arith

  permit_turn-Safe :
      (h : History) (b : KovaBuild) (minted : Option Text) (held : Permit) (cm : ConfigMap)
      (st : ReservationState) (left : ℕ)
      → Observed x r h cm st
      → Always
          (Safe x r (Allocates b))
          (Turned b minted)
          h
          (permit_turn x r b minted held cm st left)
  unfolding permit_turn
  permit_turn-Safe h b minted held cm st left o =
      by_test (Safe x r (Allocates b)) (Turned b minted) h (saturation r b st).1 _ _
        (λ full. with_permit-Safe h b minted held _ (
          turn_of-Safe x r h b minted _ (
            seq (Safe x r (Allocates b)) Any (λ g d. Admits x r b minted g d) h (verify_queue x r b)
              _ (Free-Safe x r (Allocates b) h _ (verify_queue-Reads x r b))
              (λ g u l q admitted. absurd (never (saturation-refuses b st) admitted)))))
        (λ room.
          by_test (Safe x r (Allocates b)) (Turned b minted) h (needs_permit r held) _ _
            (λ needed. (tt, λ answer. permitted answer))
            (λ ready.
              with_permit-Safe h b minted held _ (fresh_turn-Safe x r h b minted cm st left o)))
    where
      never : {q : Bool} → q ≡ false → q ≡ true → ⊥
      never n a = ground arith

      permitted :
          (answer : Result (Option ℕ))
          → Always
              (Safe x r (Allocates b))
              (Turned b minted)
              (event (Request.begin_grant b.namespace) answer ∷ h)
              (elim answer [
                | err e ↦ ret (held, Turn.done (err e))
                | ok none ↦ ret (held, Turn.done (ok deferred))
                | ok (some mine) ↦ with_permit (some mine) (fresh_turn x r b minted cm st left)
              ])
      permitted (err e) = tt
      permitted (ok none) = λ admitted. absurd (ground arith)
      permitted (ok (some mine)) = with_permit-Safe _ b minted (some mine) _ (
          fresh_turn-Safe x r _ b minted cm st left
            (Observed-Later x r h _ cm st (λ ev i. there i) o))

  abbrev live_read : KovaBuild → M (ConfigMap × ReservationState)
  live_read b = ask_ctx >> read_reservations x r b.namespace >>= λ v. ensure_live b >> pure v

  live_read-Safe :
      (h : History) (b : KovaBuild)
      → Always
          (Safe x r (Allocates b))
          (Outcome (λ g v. Observed x r g v.0 v.1) Any)
          h
          (live_read b)
  live_read-Safe h b =
      seq (Safe x r (Allocates b)) (λ g v. Observed x r g v.0 v.1) (λ g v. Observed x r g v.0 v.1) h
        (ask_ctx >> read_reservations x r b.namespace) _
        (checked_read-Safe x r (Allocates b) h b.namespace)
        (λ g v l o.
          seq (Safe x r (Allocates b)) Any (λ k w. Observed x r k w.0 w.1) g (ensure_live b) _
            (Free-Safe x r (Allocates b) g _ (ensure_live-Reads x r b))
            (λ k u m q. Observed-Later x r g k v.0 v.1 m o))

  admission_turn-Safe :
      (h : History) (b : KovaBuild) (minted : Option Text) (held : Permit) (left : ℕ)
      → Always (Safe x r (Allocates b)) (Turned b minted) h (admission_turn x r b minted held left)
  unfolding admission_turn
  admission_turn-Safe h b minted held left =
      after (Safe x r (Allocates b)) (Outcome (λ g v. Observed x r g v.0 v.1) Any) (Turned b minted)
        h (live_read b) _ (live_read-Safe h b) (λ g got l o. turned g got o)
    where
      turned :
          (g : History) (got : Result (ConfigMap × ReservationState))
          → Outcome (λ k v. Observed x r k v.0 v.1) Any g got
          → Always (Safe x r (Allocates b)) (Turned b minted) g (elim got [
            | err e ↦ ret (held, Turn.done (err e))
            | ok v ↦
                if is_some (lookup (reservation_key b) v.1.active)
                then with_permit held (decide_turn x r b minted v.0 v.1 left)
                else permit_turn x r b minted held v.0 v.1 left
          ])
      turned g (err e) o = tt
      turned g (ok v) o =
          by_test (Safe x r (Allocates b)) (Turned b minted) g
            (is_some (lookup (reservation_key b) v.1.active)) _ _
            (λ known.
              with_permit-Safe g b minted held _ (decide_turn-Safe x r g b minted v.0 v.1 left o))
            (λ fresh. permit_turn-Safe g b minted held v.0 v.1 left o)

  Admits-Later :
      (h g : History) (b : KovaBuild) (minted : Option Text) (d : Decision)
      → Later h g
      → Admits x r b minted h d
      → Admits x r b minted g d
  Admits-Later h g b minted d l q admitted = elim (q admitted) [
    | inl v ↦ inl (record {
      base = v.base;
      state = v.state;
      builds = v.builds;
      observed = Observed-Later x r h g v.base v.state l v.observed;
      absent = v.absent;
      listed = l _ v.listed;
      decided = v.decided;
      accepted = Accepted-Later x r h g _ l v.accepted;
    })
    | inr v ↦ inr (record {
      base = v.base;
      state = v.state;
      entry = v.entry;
      observed = Observed-Later x r h g v.base v.state l v.observed;
      found = v.found;
      same_build = v.same_build;
      same_requester = v.same_requester;
      still_open = v.still_open;
      its_slots = v.its_slots;
    })
  ]

  finish-Safe :
      (h : History) (b : KovaBuild) (minted : Option Text) (held : Permit) (d : Result Decision)
      → Outcome (λ k e. Admits x r b minted k e) Any h d
      → Always
          (Safe x r (Allocates b))
          (Outcome (λ k e. Admits x r b minted k e) Any)
          h
          (finish held d)
  finish-Safe h b minted none d q = q
  finish-Safe h b minted (some p) (ok d) q =
      (tt, λ u. Admits-Later h _ b minted d (λ ev i. there i) q)
  finish-Safe h b minted (some p) (err e) q = (tt, λ u. tt)

  admission_loop-Safe :
      (h : History) (b : KovaBuild) (minted : Option Text) (held : Permit) (left : ℕ)
      → Always
          (Safe x r (Allocates b))
          (Outcome (λ g d. Admits x r b minted g d) Any)
          h
          (admission_loop x r b minted held left)
  unfolding admission_loop
  admission_loop-Safe h b minted held zero = finish-Safe h b minted held (err Error.failed) tt
  admission_loop-Safe h b minted held (suc left) =
      after (Safe x r (Allocates b)) (Turned b minted)
        (Outcome (λ g d. Admits x r b minted g d) Any) h (admission_turn x r b minted held left) _
        (admission_turn-Safe h b minted held left)
        (λ g v l q. turned (λ k p. admission_loop-Safe k b minted p left) g v.0 v.1 q)
    where
      turned :
          ((k : History) (p : Permit)
            → Always
                (Safe x r (Allocates b))
                (Outcome (λ g d. Admits x r b minted g d) Any)
                k
                (admission_loop x r b minted p left))
          → (g : History) (p : Permit) (t : Turn) → Settles x r b minted g t
          → Always
              (Safe x r (Allocates b))
              (Outcome (λ k d. Admits x r b minted k d) Any)
              g
              (elim t [
                | Turn.done d ↦ finish p d
                | Turn.again ↦ admission_loop x r b minted p left
              ])
      turned again g p (Turn.done (ok d)) q = finish-Safe g b minted p (ok d) q
      turned again g p (Turn.done (err e)) q = finish-Safe g b minted p (err e) tt
      turned again g p Turn.again q = again g p

  pub admission-Safe :
      (h : History) (b : KovaBuild)
      → Always
          (Safe x r (Allocates b))
          (Outcome (λ g d. (m : Option Text) × Admits x r b m g d) Any)
          h
          (admission x r b)
  unfolding admission
  admission-Safe h b = by_mode r.genesis
    where
      told :
          (h' : History) (m : Option Text)
          → Always
              (Safe x r (Allocates b))
              (Outcome (λ g d. (m : Option Text) × Admits x r b m g d) Any)
              h'
              (admission_loop x r b m none max_reservation_attempts)
      told h' m =
          kept (Safe x r (Allocates b)) (λ g d. Admits x r b m g d)
            (λ g d. (m : Option Text) × Admits x r b m g d) h' _
            (admission_loop-Safe h' b m none max_reservation_attempts) (λ g d l q. (m, q))

      by_mode :
          (o : Option Original)
          → Always
              (Safe x r (Allocates b))
              (Outcome (λ g d. (m : Option Text) × Admits x r b m g d) Any)
              h
              (elim o [
                | none ↦ admission_loop x r b none none max_reservation_attempts
                | some o ↦ ask_nonce >>= λ minted.
                    admission_loop x r b (some minted) none max_reservation_attempts
              ])
      by_mode none = told h none
      by_mode (some o) = (
        tt,
        λ answer.
            passed (Safe x r (Allocates b)) (λ g d. (m : Option Text) × Admits x r b m g d) _ answer
              _ (λ minted q. told _ (some minted)),
      )
