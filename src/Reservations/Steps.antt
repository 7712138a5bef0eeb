-- ===== src/Reservations/Steps.antt =====
-- The steps of the reservation ledger (internal/service/buildcontroller/reservation.go,
-- grant_receipt.go, pod_receipt.go) as a relation on its states, and its runs.
use kova.Base.{
  ◌≡◌, refl, sym, ap, ◌∙◌, ◌⊎◌, inl, inr, Bool, true, false, ◌&&◌, ◌||◌, List, [], ◌∷◌, none, some,
  arith, ◌==◌, In, here, there, Bool-cases, if◌then◌else◌,
}
use kova.Base.Text.{Text, text_eq, text_eq→eq, is_empty}
use kova.Base.Dict.{
  lookup, insert, erase, Distinct, Distinct-insert, Distinct-erase, lookup-insert, lookup-erase,
}
use kova.Admission.{ActiveReservation}
use kova.Queue.Store.{is_nil}
use kova.Reservations.{ReservationState, Codec, validate_reservation_state}
use kova.Reservations.Fences.{closed, without_first}

-- What one write may do to an entry that stays.
-- * close: the cleanup fence.
-- * arm, pin, ready: the grant's receipt, armed once and before it closes; its cleanup is recorded.
-- * begin, arm_pod, pin_pod, pod_ready: the attempt of a Pod and its receipt, begun and armed before
--   the entry closes and once.
-- * start: an attempt goes in flight, before the entry closes and alone.
-- * complete: one attempt is no more in flight.
pub data Change (e f : ActiveReservation) : Type 0 where
  close : f ≡ closed e → Change e f
  arm :
      (rv : Text)
      → e.closing ≡ false
      → is_empty e.grant_observed_rv ≡ true
      → is_empty e.grant_receipt_uid ≡ true
      → f ≡ record e { grant_observed_rv = rv }
      → Change e f
  pin :
      (uid digest : Text)
      → is_empty e.grant_receipt_uid ≡ true
      → e.grant_cleanup_ready ≡ false
      → f ≡ record e { grant_receipt_uid = uid; grant_receipt_digest = digest }
      → Change e f
  ready :
      is_empty e.grant_receipt_uid ≡ false
      → f ≡ record e { grant_cleanup_ready = true }
      → Change e f
  begin :
      (nonce : Text)
      → e.closing ≡ false
      → is_empty e.pod_attempt_nonce ≡ true
      → is_nil e.in_flight ≡ true
      → f ≡ record e { pod_attempt_nonce = nonce }
      → Change e f
  arm_pod :
      (digest : Text)
      → e.closing ≡ false
      → is_empty e.pod_template_digest ≡ true
      → is_empty e.pod_receipt_uid ≡ true
      → is_nil e.in_flight ≡ true
      → f ≡ record e { pod_template_digest = digest }
      → Change e f
  pin_pod :
      (uid digest : Text)
      → is_empty e.pod_receipt_uid ≡ true
      → e.pod_cleanup_ready ≡ false
      → f ≡ record e { pod_receipt_uid = uid; pod_receipt_digest = digest }
      → Change e f
  pod_ready :
      is_empty e.pod_receipt_uid ≡ false → f ≡ record e { pod_cleanup_ready = true } → Change e f
  start :
      (nonce : Text)
      → e.closing ≡ false
      → is_nil e.in_flight ≡ true
      → f ≡ record e { in_flight = nonce ∷ [] }
      → Change e f
  complete :
      (nonce : Text) → f ≡ record e { in_flight = without_first e.in_flight nonce } → Change e f

-- A new entry holds no receipt and no attempt, and is open.
pub record IsFresh (e : ActiveReservation) : Type 0 where
  pub open_entry : e.closing ≡ false
  pub nothing_flying : e.in_flight ≡ []
  pub no_rv : e.grant_observed_rv ≡ []
  pub no_receipt : e.grant_receipt_uid ≡ []
  pub no_attempt : e.pod_attempt_nonce ≡ []
  pub no_template : e.pod_template_digest ≡ []
  pub no_pod_receipt : e.pod_receipt_uid ≡ []

-- What is left of the receipts is recorded for cleanup.
abbrev pub settled : ActiveReservation → Bool
settled e =
    (is_empty e.grant_observed_rv || e.grant_cleanup_ready)
    && (is_empty e.pod_template_digest || e.pod_cleanup_ready)

-- The limits and the version of a ledger.
pub record SameHeader (old new : ReservationState) : Type 0 where
  pub version : new.version ≡ old.version
  pub max_jobs : new.max_jobs ≡ old.max_jobs
  pub max_per_requester : new.max_per_requester ≡ old.max_per_requester
  pub worker_slots : new.worker_slots ≡ old.worker_slots

-- One committed change of the ledger.
-- * grant: a new key.
-- * fence: the entries stay; the fence field may change.
-- * change: one entry, as above.
-- * remove: a closed entry with nothing in flight; in version 2, its receipts are settled.
pub data Step (old new : ReservationState) : Type 0 where
  grant :
      (key : Text) (e : ActiveReservation)
      → lookup key old.active ≡ none
      → IsFresh e
      → new.active ≡ insert key e old.active
      → Step old new
  fence : new.active ≡ old.active → Step old new
  change :
      (key : Text) (e f : ActiveReservation)
      → lookup key old.active ≡ some e
      → Change e f
      → new.active ≡ insert key f old.active
      → Step old new
  remove :
      (key : Text) (e : ActiveReservation)
      → lookup key old.active ≡ some e
      → e.closing ≡ true
      → is_nil e.in_flight ≡ true
      → ((old.version == 1) ≡ false → settled e ≡ true)
      → new.active ≡ erase key old.active
      → Step old new

-- What an entry may become while it stays: who holds it and for what is fixed, closing is for good,
-- and each receipt and each digest is written once.
pub record Extends (e f : ActiveReservation) : Type 0 where
  pub same_build : f.build_name ≡ e.build_name
  pub same_requester : f.requester ≡ e.requester
  pub same_slots : f.slots ≡ e.slots
  pub same_nonce : f.grant_nonce ≡ e.grant_nonce
  pub same_fence : f.grant_fence ≡ e.grant_fence
  pub stays_closed : e.closing ≡ true → f.closing ≡ true
  pub armed_once : is_empty e.grant_observed_rv ≡ false → f.grant_observed_rv ≡ e.grant_observed_rv
  pub pinned_once :
      is_empty e.grant_receipt_uid ≡ false
      → (f.grant_receipt_uid ≡ e.grant_receipt_uid)
        × (f.grant_receipt_digest ≡ e.grant_receipt_digest)
  pub spent_once : is_empty e.pod_attempt_nonce ≡ false → f.pod_attempt_nonce ≡ e.pod_attempt_nonce
  pub templated_once :
      is_empty e.pod_template_digest ≡ false → f.pod_template_digest ≡ e.pod_template_digest
  pub pod_pinned_once :
      is_empty e.pod_receipt_uid ≡ false
      → (f.pod_receipt_uid ≡ e.pod_receipt_uid) × (f.pod_receipt_digest ≡ e.pod_receipt_digest)
  -- After the fence no attempt begins, is armed or goes in flight.
  pub no_new_flight : e.closing ≡ true → (a : Text) → In a f.in_flight → In a e.in_flight
  pub no_new_attempt : e.closing ≡ true → f.pod_attempt_nonce ≡ e.pod_attempt_nonce
  pub no_new_template : e.closing ≡ true → f.pod_template_digest ≡ e.pod_template_digest

pub Extends-refl : (e : ActiveReservation) → Extends e e
Extends-refl e = record {
  same_build = refl;
  same_requester = refl;
  same_slots = refl;
  same_nonce = refl;
  same_fence = refl;
  stays_closed = λ h. h;
  armed_once = λ h. refl;
  pinned_once = λ h. (refl, refl);
  spent_once = λ h. refl;
  templated_once = λ h. refl;
  pod_pinned_once = λ h. (refl, refl);
  no_new_flight = λ h a i. i;
  no_new_attempt = λ h. refl;
  no_new_template = λ h. refl;
}

Extends-trans : (e f g : ActiveReservation) → Extends e f → Extends f g → Extends e g
Extends-trans e f g p q = record {
  same_build = q.same_build ∙ p.same_build;
  same_requester = q.same_requester ∙ p.same_requester;
  same_slots = q.same_slots ∙ p.same_slots;
  same_nonce = q.same_nonce ∙ p.same_nonce;
  same_fence = q.same_fence ∙ p.same_fence;
  stays_closed = λ h. q.stays_closed (p.stays_closed h);
  armed_once = λ h. let a = p.armed_once h in q.armed_once (rw a h) ∙ a;
  pinned_once =
      λ h. let (a, b) = p.pinned_once h in let (c, d) = q.pinned_once (rw a h) in (c ∙ a, d ∙ b);
  spent_once = λ h. let a = p.spent_once h in q.spent_once (rw a h) ∙ a;
  templated_once = λ h. let a = p.templated_once h in q.templated_once (rw a h) ∙ a;
  pod_pinned_once = λ h.
      let (a, b) = p.pod_pinned_once h in let (c, d) = q.pod_pinned_once (rw a h) in (c ∙ a, d ∙ b);
  no_new_flight = λ h a i. p.no_new_flight h a (q.no_new_flight (p.stays_closed h) a i);
  no_new_attempt = λ h. q.no_new_attempt (p.stays_closed h) ∙ p.no_new_attempt h;
  no_new_template = λ h. q.no_new_template (p.stays_closed h) ∙ p.no_new_template h;
}

In-cons : (a x : Text) (xs ys : List Text) → (In a ys → In a xs) → In a (x ∷ ys) → In a (x ∷ xs)
In-cons a x xs ys k here = here
In-cons a x xs ys k (there j) = there (k j)

without_first-In : (xs : List Text) (t a : Text) → In a (without_first xs t) → In a xs
unfolding without_first
without_first-In [] t a i = i
without_first-In (x ∷ xs) t a i = go (without_first-In xs t a) (text_eq x t) i
  where
    go :
        (In a (without_first xs t) → In a xs)
        → (b : Bool) → In a (if b then xs else x ∷ without_first xs t)
        → In a (x ∷ xs)
    go k true j = there j
    go k false j = In-cons a x xs (without_first xs t) k j

contra : {A : Type 0} {b : Bool} → b ≡ true → b ≡ false → A
contra h k = absurd (clash h k)
  where
    clash : {b : Bool} → b ≡ true → b ≡ false → ⊥
    clash h k = ground arith

-- A change that touches neither who holds the entry nor for what.
extends :
    (e f : ActiveReservation)
    → (f.build_name ≡ e.build_name)
      × (f.requester ≡ e.requester)
      × (f.slots ≡ e.slots)
      × (f.grant_nonce ≡ e.grant_nonce)
      × (f.grant_fence ≡ e.grant_fence)
    → (e.closing ≡ true → f.closing ≡ true)
    → (is_empty e.grant_observed_rv ≡ false → f.grant_observed_rv ≡ e.grant_observed_rv)
    → (is_empty e.grant_receipt_uid ≡ false
        → (f.grant_receipt_uid ≡ e.grant_receipt_uid)
          × (f.grant_receipt_digest ≡ e.grant_receipt_digest))
    → (is_empty e.pod_attempt_nonce ≡ false → f.pod_attempt_nonce ≡ e.pod_attempt_nonce)
    → (is_empty e.pod_template_digest ≡ false → f.pod_template_digest ≡ e.pod_template_digest)
    → (is_empty e.pod_receipt_uid ≡ false
        → (f.pod_receipt_uid ≡ e.pod_receipt_uid) × (f.pod_receipt_digest ≡ e.pod_receipt_digest))
    → (e.closing ≡ true
        → ((a : Text) → In a f.in_flight → In a e.in_flight)
          × (f.pod_attempt_nonce ≡ e.pod_attempt_nonce)
          × (f.pod_template_digest ≡ e.pod_template_digest))
    → Extends e f
extends e f (b, q, s, n, g) c a p spent template pod_pin closing = record {
  same_build = b;
  same_requester = q;
  same_slots = s;
  same_nonce = n;
  same_fence = g;
  stays_closed = c;
  armed_once = a;
  pinned_once = p;
  spent_once = spent;
  templated_once = template;
  pod_pinned_once = pod_pin;
  no_new_flight = λ h. (closing h).0;
  no_new_attempt = λ h. (closing h).1;
  no_new_template = λ h. (closing h).2;
}

Change-Extends : (e f : ActiveReservation) → Change e f → Extends e f
unfolding closed
Change-Extends e f (Change.close q) = rw q (
    extends e _ (refl, refl, refl, refl, refl) (λ h. refl) (λ h. refl) (λ h. (refl, refl))
      (λ h. refl) (λ h. refl) (λ h. (refl, refl)) (λ h. (λ a i. i, refl, refl)))
Change-Extends e f (Change.arm rv o v u q) = rw q (
    extends e _ (refl, refl, refl, refl, refl) (λ h. h) (λ h. contra v h) (λ h. (refl, refl))
      (λ h. refl) (λ h. refl) (λ h. (refl, refl)) (λ h. (λ a i. i, refl, refl)))
Change-Extends e f (Change.pin uid digest u c q) = rw q (
    extends e _ (refl, refl, refl, refl, refl) (λ h. h) (λ h. refl) (λ h. contra u h) (λ h. refl)
      (λ h. refl) (λ h. (refl, refl)) (λ h. (λ a i. i, refl, refl)))
Change-Extends e f (Change.ready u q) = rw q (
    extends e _ (refl, refl, refl, refl, refl) (λ h. h) (λ h. refl) (λ h. (refl, refl)) (λ h. refl)
      (λ h. refl) (λ h. (refl, refl)) (λ h. (λ a i. i, refl, refl)))
Change-Extends e f (Change.begin nonce o n i q) = rw q (
    extends e _ (refl, refl, refl, refl, refl) (λ h. h) (λ h. refl) (λ h. (refl, refl))
      (λ h. contra n h) (λ h. refl) (λ h. (refl, refl)) (λ h. contra h o))
Change-Extends e f (Change.arm_pod digest o n u i q) = rw q (
    extends e _ (refl, refl, refl, refl, refl) (λ h. h) (λ h. refl) (λ h. (refl, refl)) (λ h. refl)
      (λ h. contra n h) (λ h. (refl, refl)) (λ h. contra h o))
Change-Extends e f (Change.pin_pod uid digest u c q) = rw q (
    extends e _ (refl, refl, refl, refl, refl) (λ h. h) (λ h. refl) (λ h. (refl, refl)) (λ h. refl)
      (λ h. refl) (λ h. contra u h) (λ h. (λ a i. i, refl, refl)))
Change-Extends e f (Change.pod_ready u q) = rw q (
    extends e _ (refl, refl, refl, refl, refl) (λ h. h) (λ h. refl) (λ h. (refl, refl)) (λ h. refl)
      (λ h. refl) (λ h. (refl, refl)) (λ h. (λ a i. i, refl, refl)))
Change-Extends e f (Change.start nonce o n q) = rw q (
    extends e _ (refl, refl, refl, refl, refl) (λ h. h) (λ h. refl) (λ h. (refl, refl)) (λ h. refl)
      (λ h. refl) (λ h. (refl, refl)) (λ h. contra h o))
Change-Extends e f (Change.complete nonce q) = rw q (
    extends e _ (refl, refl, refl, refl, refl) (λ h. h) (λ h. refl) (λ h. (refl, refl)) (λ h. refl)
      (λ h. refl) (λ h. (refl, refl))
      (λ h. (λ a i. without_first-In e.in_flight nonce a i, refl, refl)))

-- The fate of an entry in one step.
abbrev pub Fate : ReservationState → Text → ActiveReservation → ReservationState → Type 0
Fate old key e new =
    ((f : ActiveReservation) × (lookup key new.active ≡ some f) × Extends e f)
    ⊎ ((lookup key new.active ≡ none)
        × (e.closing ≡ true)
        × (is_nil e.in_flight ≡ true)
        × ((old.version == 1) ≡ false → settled e ≡ true))

same_entry : (a b : ActiveReservation) → some a ≡ some b → a ≡ b
same_entry a b q = ground arith

none_some : {A : Type 0} (a : ActiveReservation) → none ≡ some a → A
none_some a q = absurd (clash q)
  where
    clash : none ≡ some a → ⊥
    clash q = ground arith

step-Fate :
    (old new : ReservationState) (key : Text) (e : ActiveReservation)
    → Distinct old.active
    → lookup key old.active ≡ some e
    → Step old new
    → Fate old key e new
step-Fate old new key e v found (Step.grant k i n g q) = elim (Bool-cases (text_eq k key)) [
  | inl hit ↦ none_some e (sym n ∙ ap (λ j. lookup j old.active) (text_eq→eq k key hit) ∙ found)
  | inr miss ↦ rw q (inl (e, rw (lookup-insert k key i old.active, miss) found, Extends-refl e))
]
step-Fate old new key e v found (Step.fence q) = rw q (inl (e, found, Extends-refl e))
step-Fate old new key e v found (Step.change k i f l c q) = elim (Bool-cases (text_eq k key)) [
  | inl hit ↦
      let same : some i ≡ some e =
        (sym l ∙ ap (λ j. lookup j old.active) (text_eq→eq k key hit) ∙ found) in
      rw q (
        inl (
          f,
          rw (lookup-insert k key f old.active, hit) refl,
          rw (← same_entry i e same) (Change-Extends i f c),
        ))
  | inr miss ↦ rw q (inl (e, rw (lookup-insert k key f old.active, miss) found, Extends-refl e))
]
step-Fate old new key e v found (Step.remove k i l c n z q) = elim (Bool-cases (text_eq k key)) [
  | inl hit ↦
      let same : some i ≡ some e =
        (sym l ∙ ap (λ j. lookup j old.active) (text_eq→eq k key hit) ∙ found) in
      let left : (e.closing ≡ true)
          × (is_nil e.in_flight ≡ true)
          × ((old.version == 1) ≡ false → settled e ≡ true) =
        (rw (← same_entry i e same) (c, n, z)) in
      rw q (inr (rw (lookup-erase k key old.active v, hit) refl, left.0, left.1, left.2))
  | inr miss ↦ rw q (inl (e, rw (lookup-erase k key old.active v, miss) found, Extends-refl e))
]

Step-Distinct :
    (old new : ReservationState) → Distinct old.active → Step old new → Distinct new.active
Step-Distinct old new v (Step.grant k i n g q) = rw q (Distinct-insert k i old.active v)
Step-Distinct old new v (Step.fence q) = rw q v
Step-Distinct old new v (Step.change k i f l c q) = rw q (Distinct-insert k f old.active v)
Step-Distinct old new v (Step.remove k i l c n z q) = rw q (Distinct-erase k old.active v)

-- A step that was encoded: it keeps the limits and the version, and leaves a valid ledger.
pub record Move (x : Codec) (old new : ReservationState) : Type 0 where
  pub step : Step old new
  pub header : SameHeader old new
  pub valid : validate_reservation_state x new ≡ true

-- The states that committed steps lead to, by any replicas in any order.
pub data Reach (x : Codec) (s : ReservationState) : ReservationState → Type 0 where
  start : Reach x s s
  next : {t u : ReservationState} → Reach x s t → Move x t u → Reach x s u

pub Reach-Distinct :
    (x : Codec) (s t : ReservationState) → Distinct s.active → Reach x s t → Distinct t.active
Reach-Distinct x s s' v start = v
Reach-Distinct x s t v (next {t = u} r m) = Step-Distinct u t (Reach-Distinct x s u v r) m.step

-- The key was empty in some state on the way, by a step that found its entry closed, with nothing in
-- flight, and in version 2 with its receipts settled.
pub data Gone (x : Codec) (s : ReservationState) (key : Text) (e : ActiveReservation)
    : ReservationState → Type 0 where
  gone :
      {t u v : ReservationState} (f : ActiveReservation)
      → Reach x s t
      → lookup key t.active ≡ some f
      → Extends e f
      → f.closing ≡ true
      → is_nil f.in_flight ≡ true
      → ((t.version == 1) ≡ false → settled f ≡ true)
      → Step t u
      → lookup key u.active ≡ none
      → Reach x u v
      → Gone x s key e v

-- Along any steps from a ledger with distinct keys, an entry keeps its build, requester, slots,
-- nonce and fence, has each receipt and each digest written once, and once closed stays closed and
-- gains no attempt; or it has left by a step that found it closed, with nothing in flight and, in
-- version 2, with its receipts settled.
pub reservation_history :
    (x : Codec) (s t : ReservationState) (key : Text) (e : ActiveReservation)
    → Distinct s.active
    → lookup key s.active ≡ some e
    → Reach x s t
    → ((f : ActiveReservation) × (lookup key t.active ≡ some f) × Extends e f) ⊎ Gone x s key e t
reservation_history x s s' key e v found start = inl (e, found, Extends-refl e)
reservation_history x s t key e v found (next {t = u} r m) =
    elim (reservation_history x s u key e v found r) [
      | inr (gone f r' l ext c n z st n' r'') ↦ inr (gone f r' l ext c n z st n' (next r'' m))
      | inl (f, l, ext) ↦ elim (step-Fate u t key f (Reach-Distinct x s u v r) l m.step) [
        | inl (g, l', ext') ↦ inl (g, l', Extends-trans e f g ext ext')
        | inr (l', c, n, z) ↦ inr (gone f r l ext c n z m.step l' start)
      ]
    ]
