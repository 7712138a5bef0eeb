-- ===== src/Reservations/Safety/Beginning.antt =====
-- What `beginPodCreate` (internal/service/buildcontroller/reservation.go) changes and what its success
-- means.
use kova.Base.{
  ℕ, zero, suc, ◌≡◌, refl, ap, sym, ◌⊎◌, inl, inr, Bool, true, false, not, List, [], ◌∷◌, ◌++◌,
  Option, none, some, if◌then◌else◌, is_some, arith, In, here, length,
}
use kova.Base.Text.{Text, text_eq, is_empty, text_eq_refl}
use kova.Base.Dict.{lookup, lookup-insert_self}
use kova.Api.{KovaBuild}
use kova.Effects.{
  Error, Result, ok, err, ConfigMap, Request, pure, fail, attempt, require, ◌>>◌, ask_ctx,
}
use kova.Effects.Traces.{
  History, event, Always, Outcome, Any, Later, seq, checked, by_option, after, passed, kept,
}
use kova.Admission.{ActiveReservation, reservation_key}
use kova.Queue.Store.{is_nil}
use kova.Reservations.{ReservationState}
use kova.Reservations.Ledger.{
  Original, Reconciler, Backend, max_reservation_attempts, read_reservations, with_entry,
  cas_reservations, ensure_live, is_live,
}
use kova.Reservations.Grant.{verify_pinned_grant}
use kova.Reservations.Fences.{
  has_text, attempt_recorded, seen_as, begun, check_unspent, begin_loop, begin_pod_create,
}
use kova.Reservations.Steps.{Change}
use kova.Reservations.Evidence.{
  Act, Kind, kind_of, within, Scope, Observed, Accepted, Safe, Observed-Later,
}
use kova.Reservations.Safety.{checked_read-Safe, cas-Safe, Free-Safe}
use kova.Reservations.Safety.Changing.{Change-Justified}
use kova.Reservations.Safety.Completing.{Recorded, attempt_recorded-Safe}
use kova.Reservations.Reading.{verify_pinned_grant-Reads}

-- The build was read and still waits for admission.
pub record LiveRead (h : History) (b : KovaBuild) : Type 0 where
  pub current : KovaBuild
  pub got : In (event (Request.get_build b.namespace b.name) (ok current)) h
  pub live : is_live current b ≡ true

pub LiveRead-Later : (h g : History) (b : KovaBuild) → Later h g → LiveRead h b → LiveRead g b
LiveRead-Later h g b l v = record { current = v.current; got = l _ v.got; live = v.live }

-- The change is to add this attempt to the build's entry: as its spent nonce with a Genesis, and in
-- flight without.
abbrev pub Begins : KovaBuild → Text → Scope
Begins b nonce a =
    (e : ActiveReservation) × ((a ≡ Act.changes (reservation_key b) (Kind.begin nonce) e)
      ⊎ (a ≡ Act.changes (reservation_key b) (Kind.start nonce) e))

module _ (x : Backend) (r : Reconciler) (K : Scope) where
  pub ensure_live-Safe :
      (h : History) (b : KovaBuild)
      → Always (Safe x r K) (Outcome (λ g u. LiveRead g b) Any) h (ensure_live b)
  unfolding ensure_live
  ensure_live-Safe h b = (
    tt,
    λ answer.
        passed (Safe x r K) (λ g u. LiveRead g b) _ answer _
          (λ current q. judged _ current (is_live current b) refl (rw q here)),
  )
    where
      judged :
          (g : History) (current : KovaBuild) (found : Bool)
          → is_live current b ≡ found
          → In (event (Request.get_build b.namespace b.name) (ok current)) g
          → Always
              (Safe x r K)
              (Outcome (λ g' u. LiveRead g' b) Any)
              g
              (require found Error.admission_closed)
      judged g current true l i = record { current = current; got = i; live = l }
      judged g current false l i = tt

module _ (x : Backend) (r : Reconciler) where
  -- Whether an entry has the attempt: in flight, or, with a Genesis, as its spent nonce.
  abbrev pub holds_attempt : ActiveReservation → Text → Bool
  holds_attempt e nonce = elim r.genesis [
    | none ↦ has_text e.in_flight nonce
    | some o ↦ text_eq e.pod_attempt_nonce nonce
  ]

  -- A state that the call read, or that the API server accepted from it, has the build's entry with
  -- the attempt, and the build was seen to wait for admission.
  pub record Begun (h : History) (b : KovaBuild) (nonce : Text) : Type 0 where
    pub state : ReservationState
    pub known : ((cm : ConfigMap) × Observed x r h cm state) ⊎ Accepted x r h state
    pub entry : ActiveReservation
    pub found : lookup (reservation_key b) state.active ≡ some entry
    pub recorded : holds_attempt entry nonce ≡ true
    pub live : LiveRead h b

  added_to_nil : (xs : List Text) (t : Text) → is_nil xs ≡ true → xs ++ t ∷ [] ≡ t ∷ []
  added_to_nil [] t h = refl
  added_to_nil (a ∷ rest) t h = absurd (ground arith)

  has_added : (xs : List Text) (t : Text) → is_nil xs ≡ true → has_text (xs ++ t ∷ []) t ≡ true
  has_added [] t h = rw (text_eq_refl t) refl
  has_added (a ∷ rest) t h = absurd (ground arith)

  begun-Change :
      (b : KovaBuild) (e : ActiveReservation) (nonce : Text)
      → not e.closing ≡ true
      → is_nil e.in_flight ≡ true
      → (is_some r.genesis ≡ true → is_empty e.pod_attempt_nonce ≡ true)
      → (c : Change e (begun r e nonce)) × Begins b nonce
          (Act.changes (reservation_key b) (kind_of c) e)
  unfolding begun
  begun-Change b e nonce c n s = go r.genesis s
    where
      go :
          (o : Option Original)
          → (is_some o ≡ true → is_empty e.pod_attempt_nonce ≡ true)
          → (d : Change e (elim o [
            | none ↦ record e { in_flight = e.in_flight ++ nonce ∷ [] }
            | some _ ↦ record e { pod_attempt_nonce = nonce }
          ]))
            × Begins b nonce (Act.changes (reservation_key b) (kind_of d) e)
      go none k = (
        Change.start nonce (ground arith) n
            (ap (λ xs. record e { in_flight = xs }) (added_to_nil e.in_flight nonce n)),
        (e, inr refl),
      )
      go (some o) k = (Change.begin nonce (ground arith) (k refl) n refl, (e, inl refl))

  abbrev begun_in : Option Original → ActiveReservation → Text → ActiveReservation
  begun_in o e nonce = elim o [
    | none ↦ record e { in_flight = e.in_flight ++ nonce ∷ [] }
    | some _ ↦ record e { pod_attempt_nonce = nonce }
  ]

  begun-holds :
      (e : ActiveReservation) (nonce : Text)
      → is_nil e.in_flight ≡ true
      → holds_attempt (begun r e nonce) nonce ≡ true
  unfolding begun
  begun-holds e nonce n = go r.genesis
    where
      go :
          (o : Option Original)
          → (elim o as (λ _. Bool) [
            | none ↦ has_text (begun_in o e nonce).in_flight nonce
            | some _ ↦ text_eq (begun_in o e nonce).pod_attempt_nonce nonce
          ])
            ≡ true
      go none = has_added e.in_flight nonce n
      go (some o) = text_eq_refl nonce

  check_unspent-Safe :
      (K : Scope) (h : History) (b : KovaBuild) (e : ActiveReservation)
      → Always
          (Safe x r K)
          (Outcome (λ g u. is_some r.genesis ≡ true → is_empty e.pod_attempt_nonce ≡ true) Any)
          h
          (check_unspent x r b e)
  check_unspent-Safe K h b e = go r.genesis
    where
      last :
          (g : History) (found : Bool) (o : Option Original)
          → is_empty e.pod_attempt_nonce ≡ found
          → Always
              (Safe x r K)
              (Outcome (λ g' u. is_some o ≡ true → is_empty e.pod_attempt_nonce ≡ true) Any)
              g
              (require found (Error.recovery_required 1))
      last g true o q = λ s. q
      last g false o q = tt

      go :
          (o : Option Original)
          → Always
              (Safe x r K)
              (Outcome (λ g u. is_some o ≡ true → is_empty e.pod_attempt_nonce ≡ true) Any)
              h
              (elim o [
                | none ↦ pure tt
                | some _ ↦
                    verify_pinned_grant x r b e
                    >> require (is_empty e.pod_attempt_nonce) (Error.recovery_required 1)
              ])
      go none = λ s. absurd (ground arith)
      go (some o) =
          seq (Safe x r K) Any
            (λ g u. is_some (some o) ≡ true → is_empty e.pod_attempt_nonce ≡ true) h
            (verify_pinned_grant x r b e) _
            (Free-Safe x r K h _ (verify_pinned_grant-Reads x r b e))
            (λ g u l a. last g (is_empty e.pod_attempt_nonce) (some o) refl)

  begin_loop-Safe :
      (h : History) (b : KovaBuild) (nonce : Text) (left : ℕ)
      → Always
          (Safe x r (Begins b nonce))
          (Outcome (λ g n. (n ≡ nonce) × Begun g b nonce) Any)
          h
          (begin_loop x r b nonce left)
  unfolding begin_loop
  begin_loop-Safe h b nonce zero = tt
  begin_loop-Safe h b nonce (suc left) =
      seq (Safe x r (Begins b nonce)) (λ g v. Observed x r g v.0 v.1)
        (λ g n. (n ≡ nonce) × Begun g b nonce) h (ask_ctx >> read_reservations x r b.namespace) _
        (checked_read-Safe x r (Begins b nonce) h b.namespace)
        (λ g v l o.
          seq (Safe x r (Begins b nonce)) (λ g' u. LiveRead g' b)
            (λ g' n. (n ≡ nonce) × Begun g' b nonce) g (ensure_live b) _
            (ensure_live-Safe x r (Begins b nonce) g b)
            (λ g' u l' live.
              by_option (Safe x r (Begins b nonce))
                (Outcome (λ g'' n. (n ≡ nonce) × Begun g'' b nonce) Any) g'
                (lookup (reservation_key b) v.1.active) _ _ (λ absent. tt)
                (λ e found.
                  checked (Safe x r (Begins b nonce)) (λ g'' n. (n ≡ nonce) × Begun g'' b nonce) g'
                    (text_eq e.build_name b.name) Error.failed _
                    (λ named.
                      checked (Safe x r (Begins b nonce)) (λ g'' n. (n ≡ nonce) × Begun g'' b nonce)
                        g' (not e.closing) Error.admission_closed _
                        (λ open_entry.
                          seq (Safe x r (Begins b nonce))
                            (λ g'' w.
                              is_some r.genesis ≡ true → is_empty e.pod_attempt_nonce ≡ true)
                            (λ g'' n. (n ≡ nonce) × Begun g'' b nonce) g' (check_unspent x r b e) _
                            (check_unspent-Safe (Begins b nonce) g' b e)
                            (λ g'' w l'' unspent.
                              checked (Safe x r (Begins b nonce))
                                (λ k n. (n ≡ nonce) × Begun k b nonce) g'' (is_nil e.in_flight)
                                (Error.recovery_required (length e.in_flight)) _
                                (λ nothing.
                                  issue g'' v.0 v.1 e
                                    (Observed-Later x r g g'' v.0 v.1 (λ ev i. l'' ev (l' ev i)) o)
                                    (LiveRead-Later g' g'' b l'' live) found open_entry nothing
                                    unspent (λ k. begin_loop-Safe k b nonce left))))))))
    where
      issue :
          (g : History) (cm : ConfigMap) (st : ReservationState) (e : ActiveReservation)
          → Observed x r g cm st
          → LiveRead g b
          → lookup (reservation_key b) st.active ≡ some e
          → not e.closing ≡ true
          → is_nil e.in_flight ≡ true
          → (is_some r.genesis ≡ true → is_empty e.pod_attempt_nonce ≡ true)
          → ((g' : History)
              → Always
                  (Safe x r (Begins b nonce))
                  (Outcome (λ k n. (n ≡ nonce) × Begun k b nonce) Any)
                  g'
                  (begin_loop x r b nonce left))
          → Always
              (Safe x r (Begins b nonce))
              (Outcome (λ k n. (n ≡ nonce) × Begun k b nonce) Any)
              g
              (cas_reservations x r cm
                (with_entry st b (begun r e nonce))
                left
                (begin_loop x r b nonce left)
                (λ failure.
                  attempt
                    (attempt_recorded x r b nonce)
                    λ seen. if seen_as true seen then pure nonce else fail failure)
                (pure nonce))
      issue g cm st e o live found open_entry nothing unspent again =
          cas-Safe x r (Begins b nonce) (λ k n. (n ≡ nonce) × Begun k b nonce) g cm
            (with_entry st b (begun r e nonce)) left (begin_loop x r b nonce left)
            (λ failure.
              attempt (attempt_recorded x r b nonce)
                λ seen. if seen_as true seen then pure nonce else fail failure)
            (pure nonce)
            (λ bytes q.
              let c = begun-Change b e nonce open_entry nothing unspent in
              Change-Justified x r (Begins b nonce) g cm st b e (begun r e nonce) bytes o found c.0
                c.1 q)
            (λ g' l'. again g')
            (λ g' failure l'.
              after (Safe x r (Begins b nonce)) (Outcome (λ k f. Recorded x r b nonce f k) Any)
                (Outcome (λ k n. (n ≡ nonce) × Begun k b nonce) Any) g'
                (attempt_recorded x r b nonce) _
                (attempt_recorded-Safe x r (Begins b nonce) g' b nonce)
                (λ k seen l q.
                  after_loss k failure seen (LiveRead-Later g k b (λ ev i. l ev (l' ev i)) live) q))
            (λ g' l' a over. (
              refl,
              record {
                state = with_entry st b (begun r e nonce);
                known = inr a;
                entry = begun r e nonce;
                found = lookup-insert_self (reservation_key b) _ st.active;
                recorded = begun-holds e nonce nothing;
                live = LiveRead-Later g g' b l' live;
              },
            ))
        where
          after_loss :
              (k : History) (failure : Error) (seen : Result Bool)
              → LiveRead k b
              → Outcome (λ k' f. Recorded x r b nonce f k') Any k seen
              → Always
                  (Safe x r (Begins b nonce))
                  (Outcome (λ k' n. (n ≡ nonce) × Begun k' b nonce) Any)
                  k
                  (if seen_as true seen then pure nonce else fail failure)
          after_loss k failure (ok true) live' (cm', st', e', o', l', q) = (
            refl,
            record {
              state = st';
              known = inl (cm', o');
              entry = e';
              found = l';
              recorded = sym q;
              live = live';
            },
          )
          after_loss k failure (ok false) live' q = tt
          after_loss k failure (err f) live' q = tt

  -- The change is to add one attempt to the build's entry.
  abbrev pub BeginsOne : KovaBuild → Scope
  BeginsOne b a = (nonce : Text) × Begins b nonce a

  pub begin_pod_create-Safe :
      (h : History) (b : KovaBuild)
      → Always
          (Safe x r (BeginsOne b))
          (Outcome (λ g nonce. In (event Request.random_nonce (ok nonce)) g × Begun g b nonce) Any)
          h
          (begin_pod_create x r b)
  unfolding begin_pod_create
  begin_pod_create-Safe h b = (
    tt,
    λ answer.
        passed (Safe x r (BeginsOne b))
          (λ g nonce. In (event Request.random_nonce (ok nonce)) g × Begun g b nonce) _ answer _
          (λ nonce q.
            kept (Safe x r (BeginsOne b)) (λ g n. (n ≡ nonce) × Begun g b nonce)
              (λ g n. In (event Request.random_nonce (ok n)) g × Begun g b n) _
              (begin_loop x r b nonce max_reservation_attempts)
              (within x r (Begins b nonce) (BeginsOne b)
                (Outcome (λ g n. (n ≡ nonce) × Begun g b nonce) Any) _
                (begin_loop x r b nonce max_reservation_attempts) (λ a t. (nonce, t))
                (begin_loop-Safe _ b nonce max_reservation_attempts))
              (λ g n l (same, begun_it). rw same (l _ (rw (← q) here), begun_it))),
  )
