-- ===== src/Reservations/Cluster.antt =====
-- The reservation ledger under any number of replicas: the API server accepts a write only over the
-- ConfigMap it holds, so that the accepted writes, each made by some replica after a history of its
-- own, form one sequence.
pub mod Writing
use kova.Base.{◌≡◌, sym, ◌∙◌, true, false, [], ◌∷◌, some, arith}
use kova.Base.Text.{Text, is_empty}
use kova.Effects.{ok, ConfigMap}
use kova.Effects.Traces.{History}
use kova.Reservations.{ReservationState, reservation_data_key, validate_reservation_limits, Limits}
use kova.Reservations.Ledger.{Reconciler, Backend, decode_active}
use kova.Reservations.Steps.{SameHeader, Reach}
use kova.Reservations.Evidence.{Justified}
use kova.Reservations.Decoded.{
  decode_active-Checked, encode_reservations-valid, stored_reservations-decode,
}

pub header_limits :
    (cfg : Limits) (old new : ReservationState)
    → SameHeader old new
    → validate_reservation_limits cfg old ≡ true
    → validate_reservation_limits cfg new ≡ true
unfolding validate_reservation_limits
header_limits cfg old new s v = rw (s.max_jobs, s.max_per_requester, s.worker_slots) v

module _ (x : Backend) (r : Reconciler) where
  -- One accepted write: what the operations prove of it, what the server stores, and that decoding
  -- the stored JSON gives back the state that was encoded.
  pub record Commit (old_map new_map : ConfigMap) : Type 0 where
    pub history : History
    pub bytes : Text
    pub justified : Justified x r history old_map bytes
    pub stored : new_map.contents ≡ (reservation_data_key, bytes) ∷ []
    pub no_binary : new_map.binary ≡ []
    pub some_bytes : is_empty bytes ≡ false
    pub round_trip : x.codec.unmarshal bytes ≡ some justified.new

  -- The ConfigMaps that the server holds one after the other.
  pub data Commits (first : ConfigMap) : ConfigMap → Type 0 where
    start : Commits first first
    commit : {a b : ConfigMap} → Commits first a → Commit a b → Commits first b

  Commit-decodes : (a b : ConfigMap) (c : Commit a b) → decode_active x r b ≡ ok c.justified.new
  Commit-decodes a b c =
      let o = decode_active-Checked x r a c.justified.old c.justified.observed.decoded in
      stored_reservations-decode x r b c.justified.new c.bytes c.stored c.no_binary c.some_bytes
        c.justified.encoded c.round_trip
        (record {
          valid = encode_reservations-valid x.codec c.justified.new c.bytes c.justified.encoded;
          limits = header_limits r.cfg c.justified.old c.justified.new c.justified.header o.limits;
          version = rw (c.justified.header.version) o.version;
        })

  ok-injective : (a b : ReservationState) → ok a ≡ ok b → a ≡ b
  ok-injective a b q = ground arith

  -- If every write of the reservation ledger that the API server accepts was justified by the
  -- operation that made it, over the ConfigMap then stored, and the stored JSON decodes to what
  -- was encoded, then the ledger stays readable and its state is reached from the first one by
  -- grant, fence, change and remove steps between valid ledgers of the same limits.
  pub reservation-Commits :
      (a b : ConfigMap) (st : ReservationState)
      → decode_active x r a ≡ ok st
      → Commits a b
      → (t : ReservationState) × (decode_active x r b ≡ ok t) × Reach x.codec st t
  reservation-Commits a b st d start = (st, d, Reach.start)
  reservation-Commits a b st d (commit {a = m} before c) =
      let (t, e, z) = reservation-Commits a m st d before in
      let q : c.justified.old ≡ t =
        (ok-injective c.justified.old t (sym c.justified.observed.decoded ∙ e)) in
      (
        c.justified.new,
        Commit-decodes m b c,
        Reach.next z (
            rw (← q) (record {
              step = c.justified.steps;
              header = c.justified.header;
              valid = encode_reservations-valid x.codec c.justified.new c.bytes c.justified.encoded;
            })),
      )
