-- ===== src/Reservations/Tests.antt =====
-- The theorems of the reservation ledger at a concrete state.
use kova.Base.{arith, ℕ, zero, suc, ◌≤◌, ◌≡◌, refl, true, false, [], ◌∷◌, none, length}
use kova.Base.Text.{Text, text, all_bytes}
use kova.Base.Dict.{lookup}
use kova.Admission.{used_slots, active_for, decide_admission, granted, reservation_key}
use kova.Admission.Tests.{b1, one_active, runs, SameBuild-alone}
use kova.Reservations.{
  Codec, ReservationState, validate_capacity, validate_reservation_state, valid_reservation_hex,
  reservation_ok, version_ok, legacy_ok, active_ok, with_grant,
}
use kova.Reservations.Grants.{Grantable, validate_reservation_state-bounds, with_grant-valid}

abbrev repeat : ℕ → ℕ → Text
repeat zero c = []
repeat (suc n) c = c ∷ repeat n c

abbrev codec : Codec
codec = record {
  marshal = λ s. text "{}";
  unmarshal = λ t. none;
  sha256_hex = λ t. repeat 64 b'a';
  is_dns_subdomain = λ t. true;
  is_utf8 = λ t. true;
  rune_count = length;
  has_blank = λ t. false;
}

-- Ann holds three of six slots.
abbrev ann_works : ReservationState
ann_works = record {
  version = 1;
  fence = 0;
  max_jobs = 4;
  max_per_requester = 2;
  worker_slots = 6;
  last_granted = [];
  has_active = true;
  active = one_active;
}

ann_works-valid : validate_reservation_state codec ann_works ≡ true
unfolding validate_reservation_state validate_capacity active_ok reservation_ok version_ok legacy_ok
    runs
ann_works-valid = refl

b1-Grantable : Grantable codec ann_works b1 none
unfolding runs valid_reservation_hex all_bytes
b1-Grantable = record {
  key_present = refl;
  key_length = refl;
  key_text = refl;
  name_present = refl;
  name_length = refl;
  name_dns = refl;
  requester_present = refl;
  requester_text = refl;
  requester_length = refl;
  hash = refl;
  mode = refl;
  nonce_hex = λ t e. absurd (ground arith);
}

b1-absent : lookup (reservation_key b1) one_active ≡ none
unfolding runs
b1-absent = refl

b1-decided : decide_admission codec.sha256_hex b1 (b1 ∷ []) one_active 4 2 6 [] ≡ granted 3
unfolding runs
b1-decided = refl

validate_reservation_state-bounds_example :
    (used_slots one_active ≤ 6)
    × (1 ≤ 4)
    × (active_for (text "ann") one_active ≤ 2)
    × (4 ≤ 128)
    × (6 ≤ 65535)
validate_reservation_state-bounds_example =
    validate_reservation_state-bounds codec ann_works (text "ann") ann_works-valid

with_grant-valid_example :
    validate_reservation_state codec (with_grant codec b1 3 none ann_works) ≡ true
with_grant-valid_example =
    with_grant-valid codec ann_works b1 (b1 ∷ []) 3 none ann_works-valid b1-absent b1-Grantable
      (SameBuild-alone b1) b1-decided
