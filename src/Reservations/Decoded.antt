-- ===== src/Reservations/Decoded.antt =====
-- Decoding and encoding the reservation ledger (internal/service/buildcontroller/reservation.go):
-- what a read has checked, and that a write is of a valid ledger.
use kova.Base.{
  ◌≡◌, Bool, true, false, ◌&&◌, ◌==◌, leb, length, Option, none, some, ℕ, ◌+◌, arith, if◌then◌else◌,
  ◌∷◌, [], Bool-cases, inl, inr, refl,
}
use kova.Base.Text.{Text, text_eq, text_eq→eq, is_empty}
use kova.Base.Dict.{Dict, lookup}
use kova.Effects.{Error, Result, ok, err, ConfigMap}
use kova.Admission.{ActiveReservation, Tally, bump}
use kova.Reservations.{
  ReservationState, Codec, decode_reservations, encode_reservations, reservation_data_key,
  validate_reservation_state, validate_reservation_limits, max_reservation_bytes, active_ok,
  reservation_ok, version_ok,
}
use kova.Reservations.Ledger.{Reconciler, Backend, decode_active, receipt_version}

decode_reservations-valid :
    (x : Codec) (cm : ConfigMap) (st : ReservationState)
    → decode_reservations x cm ≡ ok st
    → validate_reservation_state x st ≡ true
unfolding decode_reservations
decode_reservations-valid x cm st d = opened _ (x.unmarshal _) d
  where
    kept :
        (t : ReservationState)
        → (if validate_reservation_state x t then ok t else err Error.failed) ≡ ok st
        → validate_reservation_state x st ≡ true
    kept t e =
        let q : t ≡ st = (ground arith) in
        let p : validate_reservation_state x t ≡ true = (ground arith) in rw (← q) p

    opened :
        (b : Bool) (o : Option ReservationState)
        → (if b
            then (elim o [
              | none ↦ err Error.failed
              | some t ↦ if validate_reservation_state x t then ok t else err Error.failed
            ])
            else err Error.failed)
          ≡ ok st
        → validate_reservation_state x st ≡ true
    opened true (some t) e = kept t e
    opened true none e = absurd (ground arith)
    opened false o e = absurd (ground arith)

-- What a read has checked.
pub record Checked (x : Backend) (r : Reconciler) (st : ReservationState) : Type 0 where
  pub valid : validate_reservation_state x.codec st ≡ true
  pub limits : validate_reservation_limits r.cfg st ≡ true
  pub version : (st.version == receipt_version r) ≡ true

pub decode_active-Checked :
    (x : Backend) (r : Reconciler) (cm : ConfigMap) (st : ReservationState)
    → decode_active x r cm ≡ ok st
    → Checked x r st
unfolding decode_active
decode_active-Checked x r cm st d =
    opened (decode_reservations x.codec cm) (decode_reservations-valid x.codec cm) d
  where
    kept :
        (t : ReservationState)
        → validate_reservation_state x.codec t ≡ true
        → (if validate_reservation_limits r.cfg t && t.version == receipt_version r
            then ok t
            else err Error.failed)
          ≡ ok st
        → Checked x r st
    kept t v e =
        let q : t ≡ st = (ground arith) in
        let p : (validate_reservation_limits r.cfg t && t.version == receipt_version r) ≡ true =
          (ground arith) in
        rw (← q) (record { valid = v; limits = ground arith; version = ground arith })

    opened :
        (o : Result ReservationState)
        → ((t : ReservationState) → o ≡ ok t → validate_reservation_state x.codec t ≡ true)
        → (elim o [
          | err e ↦ err e
          | ok t ↦
              if validate_reservation_limits r.cfg t && t.version == receipt_version r
              then ok t
              else err Error.failed
        ])
          ≡ ok st
        → Checked x r st
    opened (ok t) v e = kept t (v t refl) e
    opened (err f) v e = absurd (ground arith)

pub encode_reservations-valid :
    (x : Codec) (st : ReservationState) (bytes : Text)
    → encode_reservations x st ≡ ok bytes
    → validate_reservation_state x st ≡ true
unfolding encode_reservations
encode_reservations-valid x st bytes e = ground arith

-- Every entry of a valid ledger meets the checks on an entry.
pub active_ok-lookup :
    (x : Codec) (s : ReservationState) (used : ℕ) (counts : Tally) (key : Text)
    (e : ActiveReservation) (d : Dict ActiveReservation)
    → active_ok x s used counts d ≡ true
    → lookup key d ≡ some e
    → (reservation_ok x s.worker_slots key e ≡ true) × (version_ok x s.version e ≡ true)
unfolding active_ok lookup
active_ok-lookup x s used counts key e [] h l = absurd (ground arith)
active_ok-lookup x s used counts key e ((j, f) ∷ d) h l = elim (Bool-cases (text_eq j key)) [
  | inl hit ↦
      let same : f ≡ e = (ground arith) in
      rw (← same, ← text_eq→eq j key hit) (ground arith, ground arith)
  | inr miss ↦
      active_ok-lookup x s (used + f.slots) (bump f.requester counts) key e d (ground arith)
        (ground arith)
]

-- An entry of a ledger that was read holds at most one attempt in flight, and in version 1 no receipt.
pub held-entry :
    (x : Codec) (s : ReservationState) (key : Text) (e : ActiveReservation)
    → validate_reservation_state x s ≡ true
    → lookup key s.active ≡ some e
    → (reservation_ok x s.worker_slots key e ≡ true) × (version_ok x s.version e ≡ true)
unfolding validate_reservation_state
held-entry x s key e v l = active_ok-lookup x s 0 (λ who. 0) key e s.active (ground arith) l

encode_reservations-size :
    (x : Codec) (st : ReservationState) (bytes : Text)
    → encode_reservations x st ≡ ok bytes
    → leb (length bytes) max_reservation_bytes ≡ true
unfolding encode_reservations
encode_reservations-size x st bytes e = ground arith

-- What is stored as the encoding of a state of the replica's limits and mode is read as that state,
-- if the JSON is decoded to it.
pub stored_reservations-decode :
    (x : Backend) (r : Reconciler) (cm : ConfigMap) (next : ReservationState) (bytes : Text)
    → cm.contents ≡ (reservation_data_key, bytes) ∷ []
    → cm.binary ≡ []
    → is_empty bytes ≡ false
    → encode_reservations x.codec next ≡ ok bytes
    → x.codec.unmarshal bytes ≡ some next
    → Checked x r next
    → decode_active x r cm ≡ ok next
unfolding decode_active decode_reservations lookup text_eq
stored_reservations-decode x r cm next bytes c b n e u k =
    let size = encode_reservations-size x.codec next bytes e in
    let valid = encode_reservations-valid x.codec next bytes e in
    rw (c, b, n, size, u, valid) (accepted next k)
  where
    accepted :
        (t : ReservationState)
        → Checked x r t
        → (if validate_reservation_limits r.cfg t && t.version == receipt_version r
            then ok t
            else err Error.failed)
          ≡ ok t
    accepted t k = ground (arith, k.limits, k.version)
