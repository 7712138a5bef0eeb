-- ===== src/Admission/Tests.antt =====
-- Runs of the grant decision, and its theorems at concrete inputs.
use mathlib.Core.List.{Mem, mem-cons_self, mem-cons_of_mem, mem-cons, not-mem-nil}
use mathlib.Core.Logic.Or
use mathlib.Core.HLevel.{×_prop}
use kova.Base.{ℕ, ◌≡◌, refl, List, [], ◌∷◌, true, false, ◌<◌, ◌≤◌, arith}
use kova.Base.Text.{Text, text}
use kova.Base.Dict.{Dict}
use kova.Api.{KovaBuild, Phase, Spec}
use kova.Api.Int.{pos}
use kova.Base.Text.{text_eq, text_lt}
use kova.Base.Dict.{lookup}
use kova.Base.Sort.{sort}
use kova.Base.{map, Perm, ◌+◌}
use kova.Recovery.{is_inert_build_tombstone}
use kova.Admission.Fair.{Ascending, fair_queue-perm, fair_queue-head, served_order-Ascending}
use kova.Admission.Limits.{
  decide_admission-fits, saturated_admission-agrees, decide_admission-progress,
}
use kova.Admission.Decide.{SameBuild}
use kova.Admission.{
  ActiveReservation, decide_admission, fair_queue, active_for, granted, waiting, served_order,
  interleave, rotate, tier, put_back, nth_of_each, sort_groups, group_builds, add_to_group,
  requester_less, oldest_less, build_less, requester_key, reservation_key, requested_concurrency,
  used_slots, saturated_admission, queued_candidates, is_candidate, cancellation_requested,
  holds_slots, grant_loop, bump, no_share,
}

abbrev pub queued_build : Text → Text → ℕ → ℕ → KovaBuild
queued_build name who created slots = record {
  meta = record {
    namespace = text "ns";
    name = name;
    uid = name;
    resource_version = text "1";
    labels = [];
    annotations = [];
    finalizers = [];
    owners = [];
    deleting = false;
    created = created;
  };
  spec = record {
    requester = record { username = who; uid = [] };
    targets = [];
    source = record { uri = []; digest = [] };
    build = record {
      format = text "oci";
      concurrency = pos slots;
      timeout = pos 0;
      oom_cooldown = [];
      fail_fast = false;
      verbose = false;
      vars = [];
    };
    idempotency_key = [];
  };
  phase = Phase.queued;
}

abbrev pub reservation : Text → Text → ℕ → ActiveReservation
reservation name who slots = record {
  build_name = name;
  requester = who;
  slots = slots;
  grant_nonce = [];
  grant_fence = 0;
  grant_observed_rv = [];
  grant_receipt_uid = [];
  grant_receipt_digest = [];
  grant_cleanup_ready = false;
  pod_attempt_nonce = [];
  pod_template_digest = [];
  pod_receipt_uid = [];
  pod_receipt_digest = [];
  pod_cleanup_ready = false;
  closing = false;
  in_flight = [];
}

abbrev plain_hash : Text → Text
plain_hash t = t

abbrev a1 : KovaBuild
a1 = queued_build (text "a1") (text "ann") 1 2

abbrev a2 : KovaBuild
a2 = queued_build (text "a2") (text "ann") 2 2

abbrev pub b1 : KovaBuild
b1 = queued_build (text "b1") (text "bob") 3 4

abbrev listing : List KovaBuild
listing = a1 ∷ a2 ∷ b1 ∷ []

abbrev pub one_active : Dict ActiveReservation
one_active = (text "a0", reservation (text "a0") (text "ann") 3) ∷ []

-- What a run of the decision computes with.
unfoldable pub runs : Unit {0}
unfolding fair_queue served_order interleave rotate tier put_back nth_of_each sort_groups
    group_builds add_to_group requester_less oldest_less build_less requester_key reservation_key
    requested_concurrency sort text_eq text_lt active_for used_slots decide_admission
    saturated_admission queued_candidates is_candidate cancellation_requested holds_slots lookup
    grant_loop bump is_inert_build_tombstone
runs = tt

-- Bob has no job, so his build comes before Ann's older ones.
fair_listing :
    fair_queue plain_hash listing (λ who. active_for who one_active) [] ≡ b1 ∷ a1 ∷ a2 ∷ []
unfolding runs
fair_listing = refl

b1-granted : decide_admission plain_hash b1 listing one_active 4 2 6 [] ≡ granted 3
unfolding runs
b1-granted = refl

Text-set : {a b : Text} → IsProp (a ≡ b)
Text-set {a} {b} = (let s : IsSet Text = hlevel in s) a b

Spec-set : {a b : Spec} → IsProp (a ≡ b)
Spec-set {a} {b} = (let s : IsSet Spec = hlevel in s) a b

-- A build is the only one in its own listing.
pub SameBuild-alone : (b : KovaBuild) → SameBuild b (b ∷ [])
SameBuild-alone b c m k =
    Or.elim (×_prop Text-set Spec-set) (mem-cons.0 m) (λ e. rw e (refl, refl))
      (λ i. absurd (not-mem-nil i))

fair_queue-perm_example :
    Perm (fair_queue plain_hash listing (λ who. active_for who one_active) []) listing
fair_queue-perm_example = fair_queue-perm plain_hash listing (λ who. active_for who one_active) []

fair_queue-head_example : active_for (text "bob") one_active ≤ active_for (text "ann") one_active
unfolding requester_key
fair_queue-head_example =
    fair_queue-head plain_hash listing (λ who. active_for who one_active) [] b1 (a1 ∷ a2 ∷ [])
      fair_listing a1 mem-cons_self

served_order-Ascending_example : Ascending (
    map
      (λ g. active_for g.0 one_active)
      (served_order plain_hash (text "bob") (λ who. active_for who one_active) listing))
served_order-Ascending_example =
    served_order-Ascending plain_hash (text "bob") (λ who. active_for who one_active) listing

decide_admission-fits_example :
    (0 < 3)
    × (3 ≤ requested_concurrency b1)
    × (0 < 6 → used_slots one_active + 3 ≤ 6)
    × (0 < 4 → 1 + 1 ≤ 4)
    × (0 < 2 → active_for (requester_key b1) one_active + 1 ≤ 2)
decide_admission-fits_example =
    decide_admission-fits plain_hash b1 (b1 ∷ []) one_active 4 2 6 [] 3 (SameBuild-alone b1)
      (unfold runs in refl)

saturated_admission-agrees_example :
    decide_admission plain_hash a1 (a1 ∷ []) one_active 4 1 6 [] ≡ waiting no_share
saturated_admission-agrees_example =
    saturated_admission-agrees plain_hash a1 (a1 ∷ []) one_active 4 1 6 [] (waiting no_share)
      (SameBuild-alone a1) (unfold runs in refl)

decide_admission-progress_example :
    (d : KovaBuild) × Mem d listing
    × (is_candidate one_active d ≡ true)
    × (n : ℕ) × (decide_admission plain_hash d listing one_active 4 1 6 [] ≡ granted n)
decide_admission-progress_example =
    decide_admission-progress plain_hash listing one_active 4 1 6 [] b1
      (unfold runs in mem-cons_of_mem _ (mem-cons_of_mem _ mem-cons_self)) (λ h. omega arith)
      (λ h. unfold runs in omega arith) (λ h. unfold runs in omega arith)
