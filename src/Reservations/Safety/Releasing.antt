-- ===== src/Reservations/Safety/Releasing.antt =====
-- The steps of `releaseReservation` (internal/service/buildcontroller/reservation.go): the build it
-- goes on with, the Pod, each receipt, and the removal of the entry.
use kova.Base.{
  ℕ, ◌≡◌, refl, ap, sym, ◌∙◌, inl, inr, Bool, true, false, not, ◌&&◌, ◌||◌, ◌==◌, ◌∷◌, ◌++◌, Option,
  none, some, if◌then◌else◌, is_some, arith, In, here, Bool-cases,
}
use kova.Base.Text.{Text, text_eq, text_eq→eq, is_empty}
use kova.Base.Dict.{Dict, lookup, erase, lookup-erase_other}
use kova.Api.{KovaBuild}
use kova.Api.Pods.{Pod}
use kova.Effects.{
  Error, Result, ok, err, ConfigMap, Request, M, pure, fail, is_not_found, is_conflict, bind, on_ok,
}
use kova.Effects.Errors.{is_not_found-eq}
use kova.Effects.Traces.{
  History, event, Always, Outcome, Any, Later, checked, by_option, passed, after,
}
use kova.Admission.{ActiveReservation, reservation_key, is_terminal_phase}
use kova.Queue.Store.{is_nil}
use kova.Receipts.{grant_prefix, pod_prefix}
use kova.Reservations.{ReservationState, encode_reservations}
use kova.Reservations.Ledger.{
  Original, Reconciler, Backend, wait_reservation_cas, retry_number, with_active, pod_name,
  pod_owned_by_build, get_owned_pod,
}
use kova.Reservations.Fences.{settled_build, receipt_step}
use kova.Reservations.Steps.{Step, settled}
use kova.Reservations.Decoded.{decode_active-Checked}
use kova.Reservations.Evidence.{Observed, Cleared, Ended, ReceiptGone, Act, Scope, Permitted, Safe}
use kova.Reservations.Safety.{wait-Safe}
use kova.Reservations.Safety.Discarding.{GrantSettled, PodSettled}

-- The API server answered that the build's Pod does not exist.
abbrev pub PodGone : KovaBuild → History → Type 0
PodGone b h = In (event (Request.get_pod b.namespace (pod_name b.name)) (err Error.not_found)) h

same_uid-key :
    (a b : KovaBuild)
    → text_eq a.uid b.uid ≡ true
    → is_empty b.uid ≡ false
    → reservation_key a ≡ reservation_key b
unfolding reservation_key
same_uid-key a b q n =
    let same = text_eq→eq a.uid b.uid q in
    let m : is_empty a.uid ≡ false = (rw same n) in rw (n, m) same

module _ (x : Backend) (r : Reconciler) where
  -- The build that the cleanup goes on with: of the same UID, and, with a Genesis, seen to have ended.
  pub record Continues (h : History) (b current : KovaBuild) : Type 0 where
    pub same_key : reservation_key current ≡ reservation_key b
    pub has_uid : is_empty current.uid ≡ false
    pub ended : is_some r.genesis ≡ true → Ended h current

  pub Continues-Later :
      (h g : History) (b c : KovaBuild) → Later h g → Continues h b c → Continues g b c
  Continues-Later h g b c l v = record {
    same_key = v.same_key;
    has_uid = v.has_uid;
    ended = λ s. record {
      namespace = (v.ended s).namespace;
      name = (v.ended s).name;
      got = l _ (v.ended s).got;
      over = (v.ended s).over;
    };
  }

  erased-Cleared :
      (h : History) (key : Text) (e : ActiveReservation) (d : Dict ActiveReservation)
      → lookup key d ≡ some e
      → Cleared x r h key e
      → (j : Text) (f : ActiveReservation) → lookup j d ≡ some f
      → lookup j (erase key d) ≡ none
      → Cleared x r h j f
  erased-Cleared h key e d l c j f found gone = elim (Bool-cases (text_eq key j)) [
    | inl hit ↦
        let k = text_eq→eq key j hit in rw (← k, ← same (sym l ∙ ap (λ i. lookup i d) k ∙ found)) c
    | inr miss ↦ absurd (other (sym found ∙ sym (lookup-erase_other key j d miss) ∙ gone))
  ]
    where
      same : some e ≡ some f → e ≡ f
      same q = ground arith

      other : some f ≡ none → ⊥
      other q = ground arith

  -- What the release has established of the receipts when it removes the entry.
  abbrev pub Discarded : ActiveReservation → History → Type 0
  Discarded e h = is_some r.genesis ≡ true → PodSettled x r e h × GrantSettled x r e h

module _ (x : Backend) (r : Reconciler) (K : Scope) where
  pub settled_build-Safe :
      (h : History) (b : KovaBuild)
      → is_empty b.uid ≡ false
      → Always (Safe x r K) (Outcome (λ g c. Continues x r g b c) Any) h (settled_build r b)
  unfolding settled_build
  settled_build-Safe h b n =
      by_option (Safe x r K) (Outcome (λ g c. Continues x r g b c) Any) h r.genesis _ _
        (λ plain. record { same_key = refl; has_uid = n; ended = λ s. absurd (no_genesis plain s) })
        (λ o q. (
          tt,
          λ answer.
              passed (Safe x r K) (λ g c. Continues x r g b c) _ answer _
                (λ current got.
                  checked (Safe x r K) (λ g c. Continues x r g b c) _
                    (text_eq current.uid b.uid
                      && (is_terminal_phase current.phase || current.deleting))
                    Error.failed _
                    (λ over. record {
                      same_key = same_uid-key current b (ground arith) n;
                      has_uid = rw (text_eq→eq current.uid b.uid (ground arith)) n;
                      ended = λ s. record {
                        namespace = b.namespace;
                        name = b.name;
                        got = rw (← got) here;
                        over = ground arith;
                      };
                    })),
        ))
    where
      no_genesis : r.genesis ≡ none → is_some r.genesis ≡ true → ⊥
      no_genesis p s = ground arith

  pub get_owned_pod-Safe :
      (h : History) (b : KovaBuild)
      → Always
          (Safe x r K)
          (Outcome (λ g o. not (is_some o) ≡ true → PodGone b g) Any)
          h
          (get_owned_pod b)
  unfolding get_owned_pod
  get_owned_pod-Safe h b = (tt, λ answer. judged answer)
    where
      absent :
          (e : Error) (found : Bool)
          → (found ≡ true → e ≡ Error.not_found)
          → Always
              (Safe x r K)
              (Outcome (λ g o. not (is_some o) ≡ true → PodGone b g) Any)
              (event (Request.get_pod b.namespace (pod_name b.name)) (err e) ∷ h)
              (if found then pure none else fail {A = Option Pod} e)
      absent e true k = λ q. rw (k refl) here
      absent e false k = tt

      owned :
          (p : Pod) (found : Bool)
          → Always
              (Safe x r K)
              (Outcome (λ g o. not (is_some o) ≡ true → PodGone b g) Any)
              (event (Request.get_pod b.namespace (pod_name b.name)) (ok p) ∷ h)
              (if found then pure (some p) else fail {A = Option Pod} Error.failed)
      owned p true = λ q. absurd (ground arith)
      owned p false = tt

      judged :
          (answer : Result Pod)
          → Always
              (Safe x r K)
              (Outcome (λ g o. not (is_some o) ≡ true → PodGone b g) Any)
              (event (Request.get_pod b.namespace (pod_name b.name)) answer ∷ h)
              (elim answer [
                | err e ↦ if is_not_found e then pure none else fail {A = Option Pod} e
                | ok p ↦
                    if pod_owned_by_build p b
                    then pure (some p)
                    else fail {A = Option Pod} Error.failed
              ])
      judged (err e) = absent e (is_not_found e) (is_not_found-eq e)
      judged (ok p) = owned p (pod_owned_by_build p b)

  -- One receipt of the release.
  pub receipt_step-Safe :
      (Q : History → Unit {0} → Type 0) (R : History → Type 0) (h : History) (left : ℕ) (m : M Bool)
      (again next : M (Unit {0}))
      → Always (Safe x r K) (Outcome (λ g done. done ≡ true → R g) Any) h m
      → ((g : History) → Later h g → Always (Safe x r K) (Outcome Q Any) g again)
      → ((g : History) → Later h g → R g → Always (Safe x r K) (Outcome Q Any) g next)
      → Always (Safe x r K) (Outcome Q Any) h (receipt_step left m again next)
  receipt_step-Safe Q R h left m again next s a n =
      after (Safe x r K) (Outcome (λ g done. done ≡ true → R g) Any) (Outcome Q Any) h m _ s
        (λ g ready l o. judged g ready l o)
    where
      waits :
          (g : History) (e : Error) (b : Bool)
          → Later h g
          → Always (Safe x r K) (Outcome Q Any) g (
              if b
              then bind (wait_reservation_cas (retry_number left)) (on_ok (λ _. again))
              else fail e)
      waits g e true l =
          wait-Safe x r K Q g (retry_number left) again (λ k l'. a k (λ ev i. l' ev (l ev i)))
      waits g e false l = tt

      judged :
          (g : History) (ready : Result Bool)
          → Later h g
          → Outcome (λ k done. done ≡ true → R k) Any g ready
          → Always (Safe x r K) (Outcome Q Any) g (elim ready [
            | err e ↦
                if is_conflict e
                then bind (wait_reservation_cas (retry_number left)) (on_ok (λ _. again))
                else fail e
            | ok done ↦ if done then next else again
          ])
      judged g (err e) l o = waits g e (is_conflict e) l
      judged g (ok true) l o = n g l (o refl)
      judged g (ok false) l o = a g l

  pub remove-Justified :
      (h : History) (cm : ConfigMap) (st : ReservationState) (b current : KovaBuild)
      (e : ActiveReservation) (bytes : Text)
      → Observed x r h cm st
      → Continues x r h b current
      → lookup (reservation_key current) st.active ≡ some e
      → e.closing ≡ true
      → is_nil e.in_flight ≡ true
      → PodGone current h
      → Discarded x r e h
      → encode_reservations x.codec (with_active st (erase (reservation_key current) st.active))
        ≡ ok bytes
      → K (Act.removes (reservation_key current) e)
      → Permitted x r K h cm bytes
  remove-Justified h cm st b current e bytes o c found shut nothing no_pod gone q t = (
    record {
      old = st;
      new = with_active st (erase (reservation_key current) st.active);
      observed = o;
      encoded = q;
      steps =
          Step.remove (reservation_key current) e found shut nothing
            (λ v2. recorded (gone (has_genesis v2))) refl;
      header = record {
        version = refl;
        max_jobs = refl;
        max_per_requester = refl;
        worker_slots = refl;
      };
      cleared = erased-Cleared x r h (reservation_key current) e st.active found (record {
        build = current;
        its_key = refl;
        no_pod = no_pod;
        ended = c.ended;
        pod_receipt = λ s d. pod_left (gone s).0 d;
        grant_receipt = λ s d. grant_left (gone s).1 d;
      });
    },
    t,
  )
    where
      recorded : PodSettled x r e h × GrantSettled x r e h → settled e ≡ true
      recorded (inl p, inl g) = ground arith
      recorded (inl p, inr g) = ground (arith, g.0)
      recorded (inr p, inl g) = ground (arith, p.0)
      recorded (inr p, inr g) = ground (arith, p.0, g.0)

      pod_left :
          PodSettled x r e h
          → is_empty e.pod_template_digest ≡ false
          → ReceiptGone h (pod_prefix ++ e.pod_attempt_nonce)
      pod_left (inl p) d = absurd (ground arith)
      pod_left (inr p) d = p.1

      grant_left :
          GrantSettled x r e h
          → is_empty e.grant_observed_rv ≡ false
          → ReceiptGone h (grant_prefix ++ e.grant_nonce)
      grant_left (inl p) d = absurd (ground arith)
      grant_left (inr p) d = p.1

      version_genesis :
          (g : Option Original)
          → (st.version == (elim g [ none ↦ 1 | some _ ↦ 2 ])) ≡ true
          → (st.version == 1) ≡ false
          → is_some g ≡ true
      version_genesis none v w = absurd (ground arith)
      version_genesis (some g) v w = refl

      has_genesis : (st.version == 1) ≡ false → is_some r.genesis ≡ true
      has_genesis v2 =
          version_genesis r.genesis (decode_active-Checked x r cm st o.decoded).version v2
