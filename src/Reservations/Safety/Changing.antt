-- ===== src/Reservations/Safety/Changing.antt =====
-- The writes of the reservation ledger that keep every entry: a change of one entry, and the fence.
use kova.Base.{◌≡◌, refl, none, some, sym, ◌∙◌, arith}
use kova.Base.Text.{Text}
use kova.Base.Dict.{lookup}
use kova.Api.{KovaBuild}
use kova.Effects.{ok, ConfigMap}
use kova.Effects.Traces.{History}
use kova.Admission.{ActiveReservation, reservation_key}
use kova.Reservations.{ReservationState, encode_reservations}
use kova.Reservations.Ledger.{Reconciler, Backend, with_entry}
use kova.Reservations.Fences.{next_fence}
use kova.Reservations.Steps.{Step, Change, SameHeader}
use kova.Reservations.Evidence.{Act, Scope, kind_of, Observed, Permitted}
use kova.Reservations.Safety.{inserted-Cleared}

module _ (x : Backend) (r : Reconciler) (K : Scope) where
  same_limits :
      (st : ReservationState) (b : KovaBuild) (f : ActiveReservation)
      → SameHeader st (with_entry st b f)
  same_limits st b f = record {
    version = refl;
    max_jobs = refl;
    max_per_requester = refl;
    worker_slots = refl;
  }

  -- A change of the entry of a build.
  pub Change-Justified :
      (h : History) (cm : ConfigMap) (st : ReservationState) (b : KovaBuild)
      (e f : ActiveReservation) (bytes : Text)
      → Observed x r h cm st
      → lookup (reservation_key b) st.active ≡ some e
      → (c : Change e f) → K (Act.changes (reservation_key b) (kind_of c) e)
      → encode_reservations x.codec (with_entry st b f) ≡ ok bytes
      → Permitted x r K h cm bytes
  Change-Justified h cm st b e f bytes o l c t q = (
    record {
      old = st;
      new = with_entry st b f;
      observed = o;
      encoded = q;
      steps = Step.change (reservation_key b) e f l c refl;
      header = same_limits st b f;
      cleared = inserted-Cleared x r h (reservation_key b) f st.active;
    },
    t,
  )

  -- The fence, with the entry of the build closed.
  pub closing-Justified :
      (h : History) (cm : ConfigMap) (st : ReservationState) (b : KovaBuild)
      (e f : ActiveReservation) (bytes : Text)
      → Observed x r h cm st
      → lookup (reservation_key b) st.active ≡ some e
      → (c : Change e f) → K (Act.changes (reservation_key b) (kind_of c) e)
      → encode_reservations x.codec (with_entry (next_fence st) b f) ≡ ok bytes
      → Permitted x r K h cm bytes
  unfolding next_fence
  closing-Justified h cm st b e f bytes o l c t q = (
    record {
      old = st;
      new = with_entry (next_fence st) b f;
      observed = o;
      encoded = q;
      steps = Step.change (reservation_key b) e f l c refl;
      header = record {
        version = refl;
        max_jobs = refl;
        max_per_requester = refl;
        worker_slots = refl;
      };
      cleared = inserted-Cleared x r h (reservation_key b) f st.active;
    },
    t,
  )

  both_found :
      {A : Type 0} (k : Text) (st : ReservationState) (e : ActiveReservation)
      → lookup k st.active ≡ some e
      → lookup k st.active ≡ none
      → A
  both_found k st e f n = absurd (clash (sym n ∙ f))
    where
      clash : none ≡ some e → ⊥
      clash q = ground arith

  -- The fence where the build has no entry.
  pub fence-Justified :
      (h : History) (cm : ConfigMap) (st : ReservationState) (bytes : Text)
      → Observed x r h cm st
      → K Act.fences
      → encode_reservations x.codec (next_fence st) ≡ ok bytes
      → Permitted x r K h cm bytes
  unfolding next_fence
  fence-Justified h cm st bytes o t q = (
    record {
      old = st;
      new = next_fence st;
      observed = o;
      encoded = q;
      steps = Step.fence refl;
      header = record {
        version = refl;
        max_jobs = refl;
        max_per_requester = refl;
        worker_slots = refl;
      };
      cleared = λ k e f n. both_found k st e f n;
    },
    t,
  )
