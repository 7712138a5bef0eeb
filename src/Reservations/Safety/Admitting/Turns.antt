-- ===== src/Reservations/Safety/Admitting/Turns.antt =====
-- A turn of the loop of `admission` (internal/service/buildcontroller/admission.go): the write of a
-- grant with its receipt, and the decision.
use kova.Base.{
  ℕ, ◌≡◌, inl, refl, Bool, true, false, ◌||◌, List, Option, none, some, In, if◌then◌else◌, arith,
}
use kova.Base.Text.{Text}
use kova.Base.Dict.{lookup}
use kova.Api.{KovaBuild}
use kova.Effects.{
  Error, Result, ok, err, ConfigMap, Request, ret, bind, M, pure, ◌>>◌, is_already_exists,
  is_conflict,
}
use kova.Receipts.{EffectWitness}
use kova.Effects.Traces.{
  kept, History, event, Always, Outcome, Any, Later, after, seq, by_option, by_test,
}
use kova.Admission.{Decision, reservation_key, decide_admission}
use kova.Reservations.{ReservationState, grant_entry, with_grant, nonzero, encode_reservations}
use kova.Reservations.Ledger.{
  Reconciler, Backend, write_reservations, wait_reservation_cas, retry_number,
}
use kova.Reservations.Grant.Pinning.{finish_fresh_grant}
use kova.Reservations.Admit.{
  Turn, readmit, verify_queue, turn_of, commit_grant, decide_turn, fresh_turn,
}
use kova.Reservations.Steps.{Step}
use kova.Reservations.Evidence.{
  within, Permitted, Observed, Accepted, Safe, Observed-Later, Accepted-Later,
}
use kova.Reservations.Safety.{Over, Free-Safe, write_reservations-Safe, inserted-Cleared}
use kova.Reservations.Safety.Granting.{Grants}
use kova.Reservations.Safety.Granting.Pinning.{ValidPin}
use kova.Reservations.Safety.Granting.Finishing.{finish_fresh_grant-Safe}
use kova.Reservations.Safety.Admitting.{
  Allocates, Grants-Allocates, decision, Admits, Settles, verify_queue-Reads, readmit-Safe, listing,
  listed-Safe,
}

module _ (x : Backend) (r : Reconciler) where
  pub grant-Justified :
      (h : History) (cm : ConfigMap) (st : ReservationState) (b : KovaBuild) (slots : ℕ)
      (minted : Option Text) (bytes : Text)
      → Observed x r h cm st
      → lookup (reservation_key b) st.active ≡ none
      → encode_reservations x.codec (with_grant x.codec b slots minted st) ≡ ok bytes
      → Permitted x r (Allocates b) h cm bytes
  unfolding with_grant grant_entry
  grant-Justified h cm st b slots none bytes o absent q = (
    record {
      old = st;
      new = with_grant x.codec b slots none st;
      observed = o;
      encoded = q;
      steps =
          Step.grant (reservation_key b) (grant_entry b slots none) absent
            (record {
              open_entry = refl;
              nothing_flying = refl;
              no_rv = refl;
              no_receipt = refl;
              no_attempt = refl;
              no_template = refl;
              no_pod_receipt = refl;
            })
            refl;
      header = record {
        version = refl;
        max_jobs = refl;
        max_per_requester = refl;
        worker_slots = refl;
      };
      cleared = inserted-Cleared x r h (reservation_key b) (grant_entry b slots none) st.active;
    },
    refl,
  )
  grant-Justified h cm st b slots (some t) bytes o absent q = (
    record {
      old = st;
      new = with_grant x.codec b slots (some t) st;
      observed = o;
      encoded = q;
      steps =
          Step.grant (reservation_key b) (grant_entry b slots (some (t, nonzero st.fence))) absent
            (record {
              open_entry = refl;
              nothing_flying = refl;
              no_rv = refl;
              no_receipt = refl;
              no_attempt = refl;
              no_template = refl;
              no_pod_receipt = refl;
            })
            refl;
      header = record {
        version = refl;
        max_jobs = refl;
        max_per_requester = refl;
        worker_slots = refl;
      };
      cleared =
          inserted-Cleared x r h (reservation_key b)
            (grant_entry b slots (some (t, nonzero st.fence))) st.active;
    },
    refl,
  )

  pub commit_grant-Safe :
      (h : History) (b : KovaBuild) (minted : Option Text) (cm : ConfigMap) (st : ReservationState)
      (builds : List KovaBuild) (d : Decision) (left : ℕ)
      → Observed x r h cm st
      → lookup (reservation_key b) st.active ≡ none
      → In (event (Request.all_builds b.namespace) (ok builds)) h
      → decide_admission x.codec.sha256_hex b builds st.active r.cfg.max_active_jobs
          r.cfg.max_active_jobs_per_requester r.cfg.worker_slots st.last_granted
        ≡ d
      → Always
          (Safe x r (Allocates b))
          (Settles x r b minted)
          h
          (commit_grant x r b minted cm st d left)
  unfolding commit_grant wait_reservation_cas
  commit_grant-Safe h b minted cm st builds d left o absent listed decided =
      after (Safe x r (Allocates b))
        (Outcome (λ g u. Over x r (Allocates b) cm (with_grant x.codec b d.allocation minted st) g)
          Any)
        (Settles x r b minted) h
        (write_reservations x r cm (with_grant x.codec b d.allocation minted st)) _
        (write_reservations-Safe x r (Allocates b) h cm
          (with_grant x.codec b d.allocation minted st)
          (λ bytes q. grant-Justified h cm st b d.allocation minted bytes o absent q))
        (λ g w l a. written g w l a)
    where
      granted :
          (g k : History)
          → Later h g
          → Later g k
          → Accepted x r g (with_grant x.codec b d.allocation minted st)
          → Admits x r b minted k d
      granted g k l m a admitted = inl (record {
        base = cm;
        state = st;
        builds = builds;
        observed = Observed-Later x r h k cm st (λ ev i. m ev (l ev i)) o;
        absent = absent;
        listed = m _ (l _ listed);
        decided = decided;
        accepted = Accepted-Later x r g k _ m a;
      })

      waited :
          (g : History) (w : Result (Unit {0}))
          → Always
              (Safe x r (Allocates b))
              (Settles x r b minted)
              g
              (elim w [ ok u ↦ ret Turn.again | err e' ↦ ret (Turn.done (err e')) ])
      waited g (ok u) = tt
      waited g (err e') = tt

      lost :
          (g : History) (e : Error) (retried : Bool)
          → Always (Safe x r (Allocates b)) (Settles x r b minted) g (
              if retried
              then (bind (wait_reservation_cas (retry_number left)) λ waited. elim waited [
                | ok u ↦ ret Turn.again
                | err e' ↦ ret (Turn.done (err e'))
              ])
              else ret (Turn.done (err e)))
      lost g e true = (tt, λ w. waited _ w)
      lost g e false = tt

      ended :
          (k : History) (answer : Result Decision)
          → Outcome (λ k' d'. Admits x r b minted k' d') Any k answer
          → Settles x r b minted k (Turn.done answer)
      ended k (ok d') q = q
      ended k (err e) q = tt

      receipted :
          (g : History) (m : Option Text)
          → Later h g
          → Accepted x r g (with_grant x.codec b d.allocation minted st)
          → Always (Safe x r (Allocates b)) (Settles x r b minted) g (elim m [
            | none ↦ ret (Turn.done (ok d))
            | some t ↦ turn_of (
                finish_fresh_grant x r b (grant_entry b d.allocation (some (t, nonzero st.fence)))
                >> pure d)
          ])
      receipted g none l a = granted g g l (λ ev i. i) a
      receipted g (some t) l a =
          after (Safe x r (Allocates b)) (Outcome (λ k d'. Admits x r b minted k d') Any)
            (Settles x r b minted) g _ _
            (seq (Safe x r (Allocates b)) Any (λ k d'. Admits x r b minted k d') g
              (finish_fresh_grant x r b (grant_entry b d.allocation (some (t, nonzero st.fence)))) _
              (kept (Safe x r (Allocates b)) (λ k e. (w : EffectWitness) × ValidPin x r k b w) Any g
                _
                (within x r (Grants b) (Allocates b)
                  (Outcome (λ k e. (w : EffectWitness) × ValidPin x r k b w) Any) g _
                  (Grants-Allocates b)
                  (finish_fresh_grant-Safe x r g b
                    (grant_entry b d.allocation (some (t, nonzero st.fence)))))
                (λ k e l' z. tt))
              (λ k u m q. granted g k l m a))
            (λ k answer m q. ended k answer q)

      written :
          (g : History) (w : Result (Unit {0}))
          → Later h g
          → Outcome
              (λ g' u. Over x r (Allocates b) cm (with_grant x.codec b d.allocation minted st) g')
              Any
              g
              w
          → Always (Safe x r (Allocates b)) (Settles x r b minted) g (elim w [
            | err e ↦
                if is_conflict e || is_already_exists e
                then (bind (wait_reservation_cas (retry_number left)) λ waited. elim waited [
                  | ok u ↦ ret Turn.again
                  | err e' ↦ ret (Turn.done (err e'))
                ])
                else ret (Turn.done (err e))
            | ok u ↦ (elim minted [
              | none ↦ ret (Turn.done (ok d))
              | some t ↦ turn_of (
                  finish_fresh_grant x r b (grant_entry b d.allocation (some (t, nonzero st.fence)))
                  >> pure d)
            ])
          ])
      written g (ok u) l a = receipted g minted l a.0
      written g (err e) l a = lost g e (is_conflict e || is_already_exists e)

  pub turn_of-Safe :
      (h : History) (b : KovaBuild) (minted : Option Text) (m : M Decision)
      → Always (Safe x r (Allocates b)) (Outcome (λ g d. Admits x r b minted g d) Any) h m
      → Always (Safe x r (Allocates b)) (Settles x r b minted) h (turn_of m)
  turn_of-Safe h b minted m s =
      after (Safe x r (Allocates b)) (Outcome (λ g d. Admits x r b minted g d) Any)
        (Settles x r b minted) h m _ s (λ g answer l o. ended g answer o)
    where
      ended :
          (g : History) (answer : Result Decision)
          → Outcome (λ k d. Admits x r b minted k d) Any g answer
          → Settles x r b minted g (Turn.done answer)
      ended g (ok d) q = q
      ended g (err e) q = tt

  pub decide_turn-Safe :
      (h : History) (b : KovaBuild) (minted : Option Text) (cm : ConfigMap) (st : ReservationState)
      (left : ℕ)
      → Observed x r h cm st
      → Always
          (Safe x r (Allocates b))
          (Settles x r b minted)
          h
          (decide_turn x r b minted cm st left)
  unfolding decide_turn
  decide_turn-Safe h b minted cm st left o =
      after (Safe x r (Allocates b))
        (Outcome (λ g bs. In (event (Request.all_builds b.namespace) (ok bs)) g) Any)
        (Settles x r b minted) h (listing x r b st) _ (listed-Safe x r (Allocates b) h b st)
        (λ g got l q. decided g got l q)
    where
      refused : (g : History) (d : Decision) → d.admitted ≡ false → Admits x r b minted g d
      refused g d n a = absurd (ground arith)

      decided :
          (g : History) (got : Result (List KovaBuild))
          → Later h g
          → Outcome (λ k bs. In (event (Request.all_builds b.namespace) (ok bs)) k) Any g got
          → Always (Safe x r (Allocates b)) (Settles x r b minted) g (elim got [
            | err e ↦ ret (Turn.done (err e))
            | ok builds ↦ (elim (lookup (reservation_key b) st.active) [
              | some e ↦ turn_of (readmit x r b e)
              | none ↦
                  let d =
                    decide_admission x.codec.sha256_hex b builds st.active r.cfg.max_active_jobs
                      r.cfg.max_active_jobs_per_requester r.cfg.worker_slots st.last_granted in
                  if d.admitted
                  then commit_grant x r b minted cm st d left
                  else ret (Turn.done (ok d))
            ])
          ])
      decided g (err e) l q = tt
      decided g (ok builds) l q =
          by_option (Safe x r (Allocates b)) (Settles x r b minted) g
            (lookup (reservation_key b) st.active) _ _
            (λ absent.
              by_test (Safe x r (Allocates b)) (Settles x r b minted) g
                (decision x r b st builds).admitted _ _
                (λ admitted.
                  commit_grant-Safe g b minted cm st builds (decision x r b st builds) left
                    (Observed-Later x r h g cm st l o) absent q refl)
                (λ n. refused g (decision x r b st builds) n))
            (λ e found. turn_of-Safe g b minted (readmit x r b e) (
              readmit-Safe x r (Allocates b) g b minted cm st e (Observed-Later x r h g cm st l o)
                found))

  pub fresh_turn-Safe :
      (h : History) (b : KovaBuild) (minted : Option Text) (cm : ConfigMap) (st : ReservationState)
      (left : ℕ)
      → Observed x r h cm st
      → Always
          (Safe x r (Allocates b))
          (Settles x r b minted)
          h
          (fresh_turn x r b minted cm st left)
  unfolding fresh_turn
  fresh_turn-Safe h b minted cm st left o =
      after (Safe x r (Allocates b)) (Outcome Any Any) (Settles x r b minted) h (verify_queue x r b)
        _ (Free-Safe x r (Allocates b) h _ (verify_queue-Reads x r b)) (λ g q l a. verified g q l)
    where
      verified :
          (g : History) (q : Result (Unit {0}))
          → Later h g
          → Always (Safe x r (Allocates b)) (Settles x r b minted) g (elim q [
            | err e ↦ ret (Turn.done (err e))
            | ok u ↦ decide_turn x r b minted cm st left
          ])
      verified g (err e) l = tt
      verified g (ok u) l =
          decide_turn-Safe g b minted cm st left (Observed-Later x r h g cm st l o)
