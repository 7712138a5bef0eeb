-- ===== src/Reservations/Safety/Tests.antt =====
-- The theorems of the reservation ledger's operations at concrete inputs, and one accepted write.
use kova.Base.{
  ℕ, inl, inr, there, arith, ap, sym, In, ◌≡◌, ◌⊎◌, refl, true, false, [], ◌∷◌, none, some, here,
  if◌then◌else◌, ◌==◌,
}
use kova.Base.Text.{Text, text, text_eq}
use kova.Base.Dict.{Dict, erase, lookup, insert, Distinct}
use kova.Api.{KovaBuild}
use kova.Api.Pods.{Pod}
use kova.Templates.{TemplateCodec}
use kova.Effects.{Error, err, ok, ConfigMap, Request}
use kova.Effects.Traces.{Asks, History, event, Always, Outcome, Any}
use kova.Admission.{ActiveReservation, reservation_key, used_slots, active_for, bump}
use kova.Admission.Tests.{queued_build, reservation, one_active}
use kova.Queue.Tests.{externals, pair_genesis}
use kova.Reservations.{
  Codec, ReservationState, Limits, reservation_data_key, decode_reservations, encode_reservations,
  validate_reservation_limits, validate_reservation_state, validate_capacity, active_ok,
  reservation_ok, version_ok, legacy_ok,
}
use kova.Reservations.Ledger.{
  Reconciler, Backend, reservation_name, decode_active, with_entry, with_active, with_reservations,
  pod_name, read_reservations, get_owned_pod, write_reservations, one_reservation,
}
use kova.Reservations.Grant.Discarding.{release_grant_receipt}
use kova.Reservations.Pod.Completing.{release_pod_receipt}
use kova.Reservations.Fences.{
  release_reservation_loop, settled_build, release_receipts, next_fence, closed,
  release_reservation,
}
use kova.Reservations.Steps.{Step, Change, Reach, Gone, Extends, SameHeader}
use kova.Reservations.Evidence.{Observed, Cleared, Safe}
use kova.Reservations.Cluster.Writing.{Operation, Write, Writes, reservation-Writes}
use kova.Reservations.Cluster.{Commit, Commits, reservation-Commits}
use kova.Reservations.Safety.{inserted-Cleared}
use kova.Reservations.Safety.Fencing.{Fences}
use kova.Reservations.Safety.Discarding.{
  Cleans, GrantSettled, PodSettled, release_grant_receipt-Safe,
}
use kova.Reservations.Safety.Discarding.Pods.{release_pod_receipt-Safe}

abbrev a0 : KovaBuild
a0 = queued_build (text "a0") (text "ann") 1 3

abbrev held : ActiveReservation
held = reservation (text "a0") (text "ann") 3

abbrev open_state : ReservationState
open_state = record {
  version = 1;
  fence = 0;
  max_jobs = 4;
  max_per_requester = 2;
  worker_slots = 6;
  last_granted = [];
  has_active = true;
  active = one_active;
}

-- The state after the fence of `a0`.
abbrev shut_state : ReservationState
shut_state = record open_state {
  fence = 1;
  active = (text "a0", record held { closing = true }) ∷ [];
}

abbrev json_open : Text
json_open = text "{0}"

abbrev json_shut : Text
json_shut = text "{1}"

abbrev marshal_by_fence : ReservationState → Text
marshal_by_fence s = if s.fence == 0 then json_open else json_shut

abbrev codec : Codec
codec = record {
  marshal = marshal_by_fence;
  unmarshal = λ t.
      if text_eq t json_open
      then some open_state
      else if text_eq t json_shut
      then some shut_state
      else none;
  sha256_hex = λ t. text "aa";
  is_dns_subdomain = λ t. true;
  is_utf8 = λ t. true;
  rune_count = λ t. 3;
  has_blank = λ t. false;
}

abbrev backend : Backend
backend = record {
  codec = codec;
  payloads = record {
    base = externals;
    marshal_grant = λ g. text "grant";
    marshal_pod_create = λ p. text "pod";
    has_blank = λ t. false;
  };
  reference = λ t. none;
}

abbrev limits : Limits
limits = record { max_active_jobs = 4; max_active_jobs_per_requester = 2; worker_slots = 6 }

abbrev plain : Reconciler
plain = record {
  genesis = none;
  has_reader = true;
  has_receipts = true;
  has_coordinator = true;
  cfg = limits;
  max_queued_jobs = 10;
  max_queued_jobs_per_requester = 5;
  worker_pool_id = text "pool";
  runner_image = text "runner";
  runner_image_digest = text "digest";
}

-- The same with a Genesis.
abbrev paired : Reconciler
paired = record plain {
  genesis = some (record {
    guard = pair_genesis;
    active_matches = λ cm. text_eq cm.uid (text "u3");
    worker_pool_id = text "pool";
    runner_image = text "runner";
  });
}

abbrev template_codec : TemplateCodec
template_codec = record { marshal_template = λ p. some p.name; sha256_hex = λ t. t }

-- The Pod of `a0`, with its owner and attempt.
abbrev a0_pod : Pod
a0_pod = record {
  meta = record {
    namespace = text "ns";
    name = text "kova-job-a0";
    uid = [];
    resource_version = [];
    labels = (text "kova.cofy.dev/build-id", text "a0") ∷ [];
    annotations = (text "kova.cofy.dev/create-attempt", text "n") ∷ [];
    finalizers = [];
    owners =
        record {
          api_version = text "kova.cofy.dev/v1alpha1";
          kind = text "KovaBuild";
          name = text "a0";
          uid = text "a0";
        }
        ∷ [];
    deleting = false;
    created = 0;
  };
  spec = record {
    node_name = [];
    service_account_name = [];
    deprecated_service_account = [];
    dns_policy = [];
    scheduler_name = [];
    restart_policy = text "Never";
    grace_seconds = none;
    enable_service_links = none;
    automount_token = none;
    host_users = none;
    priority = none;
    preemption_policy = none;
    tolerations = [];
    containers = [];
    init_containers = [];
    volumes = [];
    others = [];
  };
}

-- The ConfigMap with a state.
abbrev stored : Text → ConfigMap
stored bytes = record {
  meta = record {
    namespace = text "ns";
    name = reservation_name;
    uid = text "u3";
    resource_version = text "1";
    labels = [];
    annotations = [];
    finalizers = [];
    owners = [];
    deleting = false;
    created = 0;
  };
  immutable = none;
  contents = (reservation_data_key, bytes) ∷ [];
  binary = [];
}

-- What reading the two states computes with.
unfoldable reads : Unit {0}
unfolding bump decode_active decode_reservations encode_reservations validate_reservation_limits
    validate_reservation_state validate_capacity active_ok reservation_ok version_ok legacy_ok
    used_slots active_for text_eq lookup insert reservation_key next_fence closed
reads = tt

decodes_open : decode_active backend plain (stored json_open) ≡ ok open_state
unfolding reads
decodes_open = refl

a0_held : lookup (reservation_key a0) open_state.active ≡ some held
unfolding reads
a0_held = refl

shut_encoded :
    encode_reservations codec (with_entry (next_fence open_state) a0 (closed held)) ≡ ok json_shut
unfolding reads
shut_encoded = refl

shut_decoded :
    codec.unmarshal json_shut ≡ some (with_entry (next_fence open_state) a0 (closed held))
unfolding reads
shut_decoded = refl

abbrev seen_open :
    Observed backend plain
      (event (Request.get_config (text "ns") reservation_name) (ok (stored json_open)) ∷ [])
      (stored json_open)
      open_state
seen_open = record { namespace = text "ns"; got = here; decoded = decodes_open }

a0_stays :
    (k : Text) (e : ActiveReservation)
    → lookup k one_active ≡ some e
    → lookup k (insert (text "a0") (closed held) one_active) ≡ none
    → Cleared backend plain
        (event (Request.get_config (text "ns") reservation_name) (ok (stored json_open)) ∷ [])
        k
        e
a0_stays k e f n = inserted-Cleared backend plain _ (text "a0") (closed held) one_active k e f n

fence_limits : SameHeader open_state (with_entry (next_fence open_state) a0 (closed held))
unfolding reads
fence_limits = record {
  version = refl;
  max_jobs = refl;
  max_per_requester = refl;
  worker_slots = refl;
}

fence_step : Step open_state (with_entry (next_fence open_state) a0 (closed held))
unfolding next_fence
fence_step = Step.change (reservation_key a0) held (closed held) a0_held (Change.close refl) refl

fence-Cleared :
    (k : Text) (e : ActiveReservation)
    → lookup k open_state.active ≡ some e
    → lookup k (with_entry (next_fence open_state) a0 (closed held)).active ≡ none
    → Cleared backend plain
        (event (Request.get_config (text "ns") reservation_name) (ok (stored json_open)) ∷ [])
        k
        e
unfolding next_fence reservation_key
fence-Cleared = a0_stays

abbrev fence_commit : Commit backend plain (stored json_open) (stored json_shut)
fence_commit = record {
  history = event (Request.get_config (text "ns") reservation_name) (ok (stored json_open)) ∷ [];
  bytes = json_shut;
  justified = record {
    old = open_state;
    new = with_entry (next_fence open_state) a0 (closed held);
    observed = seen_open;
    encoded = shut_encoded;
    steps = fence_step;
    header = fence_limits;
    cleared = fence-Cleared;
  };
  stored = refl;
  no_binary = refl;
  some_bytes = refl;
  round_trip = shut_decoded;
}

reservation-Commits_example :
    (t : ReservationState) × (decode_active backend plain (stored json_shut) ≡ ok t)
    × Reach codec open_state t
reservation-Commits_example =
    reservation-Commits backend plain (stored json_open) (stored json_shut) open_state decodes_open
      (Commits.commit Commits.start fence_commit)

one-Distinct : Distinct one_active
unfolding reads
one-Distinct = (tt, tt)

shut_valid :
    validate_reservation_state codec (with_entry (next_fence open_state) a0 (closed held)) ≡ true
unfolding reads
shut_valid = refl

-- A codec for the closed state and for every state without entries.
abbrev two_codec : Codec
two_codec = record codec {
  marshal = λ st. elim st.active [ [] ↦ 0 ∷ st.fence ∷ st.last_granted | e ∷ rest ↦ json_shut ];
  unmarshal = λ t. elim t [
    | [] ↦ none
    | k ∷ rest ↦ (elim rest [
      | [] ↦ none
      | f ∷ last ↦
          if k == 0
          then some (record open_state { fence = f; last_granted = last; active = [] })
          else some shut_state
    ])
  ];
}

abbrev two_backend : Backend
two_backend = record backend { codec = two_codec }

abbrev emptied : Text
emptied = 0 ∷ 1 ∷ []

abbrev empty_state : ReservationState
empty_state = record shut_state { active = [] }

shut_read : decode_active two_backend plain (stored json_shut) ≡ ok shut_state
unfolding reads
shut_read = refl

emptied_read : decode_active two_backend plain (stored emptied) ≡ ok empty_state
unfolding reads
emptied_read = refl

shut_Distinct : Distinct shut_state.active
shut_Distinct = (tt, tt)

shut_entry : lookup (reservation_key a0) shut_state.active ≡ some (record held { closing = true })
unfolding reads
shut_entry = refl

emptied_encodes :
    encode_reservations two_codec
      (with_active shut_state (erase (reservation_key a0) shut_state.active))
    ≡ ok emptied
unfolding reads erase
emptied_encodes = refl

-- The run of releaseReservation that reads the closed entry, finds no Pod and writes the ledger
-- without the entry.
abbrev release_history : History
release_history =
    event (Request.get_pod (text "ns") (pod_name (text "a0"))) (err Error.not_found)
    ∷ event (Request.get_config (text "ns") reservation_name) (ok (stored json_shut))
    ∷ event Request.ctx_err (ok tt)
    ∷ []

release_asked :
    Asks []
      (release_reservation two_backend plain a0)
      release_history
      (Request.update_config (with_reservations (stored json_shut) emptied))
unfolding release_reservation release_reservation_loop read_reservations settled_build get_owned_pod
    release_receipts write_reservations one_reservation reads erase
release_asked =
    inr (ok tt, inr (ok (stored json_shut), inr (err Error.not_found, inl (refl, refl))))

encoded_as :
    (x : Codec) (st : ReservationState) (bytes : Text)
    → encode_reservations x st ≡ ok bytes
    → x.marshal st ≡ bytes
unfolding encode_reservations
encoded_as x st bytes e = ground arith

no_entries :
    (d : Dict ActiveReservation) (f : ℕ) (last : Text)
    → (elim d [ [] ↦ 0 ∷ f ∷ last | e ∷ rest ↦ json_shut ]) ≡ emptied
    → (d ≡ []) × (f ≡ 1) × (last ≡ [])
no_entries [] f last h = (refl, ground arith, ground arith)
no_entries (e ∷ d) f last h = absurd (ground arith)

all_active :
    (x : Codec) (st : ReservationState) (bytes : Text)
    → encode_reservations x st ≡ ok bytes
    → st.has_active ≡ true
unfolding encode_reservations validate_reservation_state
all_active x st bytes e = ground arith

same_limits :
    (st : ReservationState)
    → validate_reservation_limits limits st ≡ true
    → (st.max_jobs ≡ 4) × (st.max_per_requester ≡ 2) × (st.worker_slots ≡ 6)
unfolding validate_reservation_limits
same_limits st v = (ground arith, ground arith, ground arith)

empty_of :
    (st : ReservationState)
    → validate_reservation_limits limits st ≡ true
    → (st.version == 1) ≡ true
    → encode_reservations two_codec st ≡ ok emptied
    → st ≡ empty_state
empty_of st l v e =
    let (j, p, w) = same_limits st l in
    let (n, f, g) =
      no_entries st.active st.fence st.last_granted (encoded_as two_codec st emptied e) in
    let h = all_active two_codec st emptied e in
    let one : st.version ≡ 1 = (ground arith) in
    λ i. record {
      version = one i;
      fence = f i;
      max_jobs = j i;
      max_per_requester = p i;
      worker_slots = w i;
      last_granted = g i;
      has_active = h i;
      active = n i;
    }

release-Write : Write two_backend plain (stored json_shut) (stored emptied)
release-Write = record {
  operation = Operation.releases a0 refl;
  history = release_history;
  base = stored json_shut;
  bytes = emptied;
  sent = inl release_asked;
  same_namespace = refl;
  accepted = refl;
  reads = λ ns cm i n v. read_one ns cm i;
  stored = refl;
  no_binary = refl;
  codec = λ st l v e. (ap some (sym (empty_of st l v e)), refl);
}
  where
    read_one :
        (ns : Text) (cm : ConfigMap)
        → In (event (Request.get_config ns reservation_name) (ok cm)) release_history
        → cm ≡ stored json_shut
    read_one ns cm (there here) = refl
    read_one ns cm (there (there (there i))) = elim i [ ]

reservation-Writes_example :
    (t : ReservationState) × (decode_active two_backend plain (stored emptied) ≡ ok t)
    × (((f : ActiveReservation) × (lookup (reservation_key a0) t.active ≡ some f)
          × Extends (record held { closing = true }) f)
        ⊎ Gone two_codec shut_state (reservation_key a0) (record held { closing = true }) t)
reservation-Writes_example =
    reservation-Writes two_backend plain (stored json_shut) (stored emptied) shut_state
      (reservation_key a0) (record held { closing = true }) shut_read shut_Distinct shut_entry
      (Writes.write Writes.start release-Write)

release_grant_receipt-Safe_example :
    Always
      (Safe backend plain (Cleans (reservation_key a0)))
      (Outcome
        (λ g done. done ≡ true → GrantSettled backend plain (record held { closing = true }) g)
        Any)
      (event (Request.get_config (text "ns") reservation_name) (ok (stored json_shut)) ∷ [])
      (release_grant_receipt backend plain a0
        (stored json_shut)
        shut_state
        (record held { closing = true }))
release_grant_receipt-Safe_example =
    release_grant_receipt-Safe backend plain
      (event (Request.get_config (text "ns") reservation_name) (ok (stored json_shut)) ∷ []) a0
      (stored json_shut) shut_state (record held { closing = true })
      (record { namespace = text "ns"; got = here; decoded = unfold reads in refl })
      (unfold reads in refl)

release_pod_receipt-Safe_example :
    Always
      (Safe backend plain (Cleans (reservation_key a0)))
      (Outcome
        (λ g done. done ≡ true → PodSettled backend plain (record held { closing = true }) g)
        Any)
      (event (Request.get_config (text "ns") reservation_name) (ok (stored json_shut)) ∷ [])
      (release_pod_receipt backend plain a0
        (stored json_shut)
        shut_state
        (record held { closing = true }))
release_pod_receipt-Safe_example =
    release_pod_receipt-Safe backend plain
      (event (Request.get_config (text "ns") reservation_name) (ok (stored json_shut)) ∷ []) a0
      (stored json_shut) shut_state (record held { closing = true })
      (record { namespace = text "ns"; got = here; decoded = unfold reads in refl })
      (unfold reads in refl)
