-- ===== src/Admission.antt =====
-- The grant decision of the controller (internal/service/buildcontroller/admission.go, and the
-- active reservation of reservation.go that it reads).
--
-- `hash_requester` (queueadmission.HashRequester, a SHA-256 in hexadecimal) is a parameter. Counts
-- and capacities are natural numbers: `a - b <= 0` is `a - b == 0` here.
pub mod Fair
pub mod Decide
pub mod Limits
pub mod Tests
use kova.Base.{
  ℕ, zero, suc, ◌+◌, ◌-◌, Bool, true, false, not, ◌&&◌, ◌||◌, List, [], ◌∷◌, ◌++◌, Option, none,
  some, ltb, leb, ◌==◌, if◌then◌else◌, length, get_elem?,
}
use kova.Base.Text.{Text, text, text_eq, text_lt, is_empty}
use kova.Base.Dict.{Dict, lookup}
use kova.Base.Sort.{sort}
use kova.Api.{KovaBuild, Phase, value_of}
use kova.Recovery.{is_inert_build_tombstone}
use kova.Api.Int.{ℤ, pos, negsuc}

pub record ActiveReservation : Type 0 where
  pub build_name : Text
  pub requester : Text
  pub slots : ℕ
  pub grant_nonce : Text
  pub grant_fence : ℕ
  pub grant_observed_rv : Text
  pub grant_receipt_uid : Text
  pub grant_receipt_digest : Text
  pub grant_cleanup_ready : Bool
  pub pod_attempt_nonce : Text
  pub pod_template_digest : Text
  pub pod_receipt_uid : Text
  pub pod_receipt_digest : Text
  pub pod_cleanup_ready : Bool
  pub closing : Bool
  pub in_flight : List Text

pub record Decision : Type 0 where
  pub admitted : Bool
  pub allocation : ℕ
  pub message : Text
  -- `admissionLocalDeferred`
  pub deferred : Bool

abbrev pub waiting : Text → Decision
waiting m = record { admitted = false; allocation = 0; message = m; deferred = false }

abbrev pub granted : ℕ → Decision
granted n = record { admitted = true; allocation = n; message = []; deferred = false }

abbrev pub no_job_slot : Text
no_job_slot = text "waiting for an active job slot"

abbrev pub no_worker : Text
no_worker = text "waiting for worker capacity"

abbrev pub no_share : Text
no_share = text "waiting for fair-share capacity"

-- The API server always sets the UID; the name serves builds without one.
unfoldable pub reservation_key : KovaBuild → Text
reservation_key b = if is_empty b.uid then text "name:" ++ b.name else b.uid

unfoldable pub requester_key : KovaBuild → Text
requester_key b =
    if is_empty b.spec.requester.username
    then text "unknown/" ++ b.name
    else b.spec.requester.username

abbrev positive_or_one : ℤ → ℕ
positive_or_one (pos zero) = 1
positive_or_one (pos (suc n)) = suc n
positive_or_one (negsuc n) = 1

unfoldable pub requested_concurrency : KovaBuild → ℕ
requested_concurrency b = positive_or_one b.spec.build.concurrency

unfoldable pub cancellation_requested : KovaBuild → Bool
cancellation_requested b =
    not (is_empty (value_of (text "kova.cofy.dev/cancellation-requested-at") b.annotations))

unfoldable pub is_terminal_phase : Phase → Bool
is_terminal_phase Phase.succeeded = true
is_terminal_phase Phase.failed = true
is_terminal_phase Phase.cancelled = true
is_terminal_phase _ = false

abbrev pub awaits_admission : Phase → Bool
awaits_admission Phase.unset = true
awaits_admission Phase.queued = true
awaits_admission _ = false

-- `usedSlots`, and the jobs that one requester holds.
unfoldable pub used_slots : Dict ActiveReservation → ℕ
used_slots [] = 0
used_slots ((k, r) ∷ d) = r.slots + used_slots d

unfoldable pub active_for : Text → Dict ActiveReservation → ℕ
active_for who [] = 0
active_for who ((k, r) ∷ d) = (if text_eq r.requester who then 1 else 0) + active_for who d

unfoldable pub saturated_admission :
    KovaBuild → Dict ActiveReservation → ℕ → ℕ → ℕ → Decision × Bool
saturated_admission b active max_jobs max_requester_jobs worker_slots =
    if ltb 0 max_jobs && leb max_jobs (length active)
    then (waiting no_job_slot, true)
    else if ltb 0 worker_slots && leb worker_slots (used_slots active)
    then (waiting no_worker, true)
    else if ltb 0 max_requester_jobs && leb max_requester_jobs (active_for (requester_key b) active)
    then (waiting no_share, true)
    else (waiting [], false)

-- `activeByRequester`, a Go map of counts: a missing key reads as 0.
abbrev pub Tally : Type 0
Tally = Text → ℕ

-- `activeByRequester[requester]++`
unfoldable pub bump : Text → Tally → Tally
bump who t other = (if text_eq who other then 1 else 0) + t other

-- The loop of `decideAdmission` over the fair queue. What is bounded by a limit of 0 is unbounded.
unfoldable pub grant_loop : Text → ℕ → Bool → List KovaBuild → Tally → ℕ → ℕ → Decision
grant_loop key max_requester_jobs bounded [] tally job_capacity slot_capacity = waiting no_share
grant_loop key max_requester_jobs bounded (c ∷ cs) tally job_capacity slot_capacity =
    let who = requester_key c in
    let want = requested_concurrency c in
    let allocation = if bounded && ltb slot_capacity want then slot_capacity else want in
    let skipped = grant_loop key max_requester_jobs bounded cs tally job_capacity slot_capacity in
    let later =
      grant_loop key max_requester_jobs bounded cs (bump who tally) (job_capacity - 1)
        (if bounded then slot_capacity - allocation else slot_capacity) in
    if ltb 0 max_requester_jobs && leb max_requester_jobs (tally who)
    then skipped
    else if allocation == 0 || job_capacity == 0
    then waiting no_share
    else if text_eq (reservation_key c) key
    then granted allocation
    else later

-- `buildLess`: the older first, then the lesser name.
unfoldable pub build_less : KovaBuild → KovaBuild → Bool
build_less l r = if l.created == r.created then text_lt l.name r.name else ltb l.created r.created

-- The queue of one requester: an entry of `groups`.
abbrev pub Group : Type 0
Group = Text × List KovaBuild

-- `groups[key] = append(groups[key], build)`
unfoldable pub add_to_group : KovaBuild → List Group → List Group
add_to_group b [] = (requester_key b, b ∷ []) ∷ []
add_to_group b ((who, bs) ∷ gs) =
    if text_eq who (requester_key b)
    then (who, bs ++ b ∷ []) ∷ gs
    else (who, bs) ∷ add_to_group b gs

unfoldable pub group_builds : List KovaBuild → List Group → List Group
group_builds [] gs = gs
group_builds (b ∷ bs) gs = group_builds bs (add_to_group b gs)

unfoldable pub sort_groups : List Group → List Group
sort_groups [] = []
sort_groups ((who, bs) ∷ gs) = (who, sort build_less bs) ∷ sort_groups gs

-- `buildLess` of the oldest builds; no group is empty.
unfoldable pub oldest_less : List KovaBuild → List KovaBuild → Bool
oldest_less [] r = false
oldest_less (x ∷ xs) [] = false
oldest_less (x ∷ xs) (y ∷ ys) = build_less x y

-- The order on requesters, each with its queue.
unfoldable pub requester_less : Tally → Group → Group → Bool
requester_less tally (l, ls) (r, rs) =
    if tally l == tally r
    then (if oldest_less ls rs then true else if oldest_less rs ls then false else text_lt l r)
    else ltb (tally l) (tally r)

-- The longest run from the front whose requesters hold `n` jobs, and what follows it.
unfoldable pub tier : Tally → ℕ → List Group → List Group × List Group
tier tally n [] = ([], [])
tier tally n (g ∷ gs) =
    let (run, rest) = tier tally n gs in if tally g.0 == n then (g ∷ run, rest) else ([], g ∷ gs)

-- The requesters before the one in hand, nearest first, put back in front.
unfoldable pub put_back {ℓ} : {A : Type ℓ} → List A → List A → List A
put_back [] ys = ys
put_back (x ∷ xs) ys = put_back xs (x ∷ ys)

-- The rotation within the tier of the requester that holds the last grant: `start` goes down through
-- `before`, `end` up through the rest.
unfoldable pub rotate : (Text → Text) → Text → Tally → List Group → List Group → List Group
rotate hash last tally before [] = put_back before []
rotate hash last tally before (g ∷ gs) =
    let (run_before, front) = tier tally (tally g.0) before in
    let (run_after, back) = tier tally (tally g.0) gs in
    let further = rotate hash last tally (g ∷ before) gs in
    if text_eq (hash g.0) last
    then put_back front (run_after ++ put_back run_before (g ∷ back))
    else further

-- One round of the interleaving: the build of each requester at that position.
unfoldable pub nth_of_each : ℕ → List Group → List KovaBuild
nth_of_each round [] = []
nth_of_each round ((who, bs) ∷ gs) =
    (elim (get_elem? bs round) [ none ↦ [] | some b ↦ b ∷ [] ]) ++ nth_of_each round gs

-- `for round := 0; len(ordered) < len(builds); round++`
unfoldable pub interleave : ℕ → ℕ → ℕ → List Group → List KovaBuild → List KovaBuild
interleave zero total round gs ordered = ordered
interleave (suc fuel) total round gs ordered =
    let more = interleave fuel total (round + 1) gs (ordered ++ nth_of_each round gs) in
    if ltb (length ordered) total then more else ordered

-- The requesters in the order in which they are served.
unfoldable pub served_order : (Text → Text) → Text → Tally → List KovaBuild → List Group
served_order hash last tally builds =
    rotate hash last tally [] (sort (requester_less tally) (sort_groups (group_builds builds [])))

-- Each round takes a build while one is left, so as many rounds as builds are enough.
unfoldable pub fair_queue : (Text → Text) → List KovaBuild → Tally → Text → List KovaBuild
fair_queue hash builds tally last =
    interleave (length builds) (length builds) 0 (served_order hash last tally builds) []

-- `active[reservationKey(item)].Slots == 0`: a missing entry has no slots.
unfoldable pub holds_slots : Text → Dict ActiveReservation → Bool
holds_slots key active = elim (lookup key active) [ none ↦ false | some r ↦ not (r.slots == 0) ]

unfoldable pub is_candidate : Dict ActiveReservation → KovaBuild → Bool
is_candidate active b =
    not (is_inert_build_tombstone b)
    && not b.deleting
    && not (cancellation_requested b)
    && awaits_admission b.phase
    && not (holds_slots (reservation_key b) active)

unfoldable pub queued_candidates : Dict ActiveReservation → List KovaBuild → List KovaBuild
queued_candidates active [] = []
queued_candidates active (b ∷ bs) =
    if is_candidate active b then b ∷ queued_candidates active bs else queued_candidates active bs

unfoldable pub decide_admission :
    (Text → Text)
    → KovaBuild
    → List KovaBuild
    → Dict ActiveReservation
    → ℕ
    → ℕ
    → ℕ
    → Text
    → Decision
decide_admission hash b builds active max_jobs max_requester_jobs worker_slots last =
    let queued = queued_candidates active builds in
    let tally : Tally = λ who. active_for who active in
    let job_capacity = if ltb 0 max_jobs then max_jobs - length active else length queued in
    let slot_capacity = if ltb 0 worker_slots then worker_slots - used_slots active else 0 in
    if ltb 0 max_jobs && job_capacity == 0
    then waiting no_job_slot
    else if ltb 0 worker_slots && slot_capacity == 0
    then waiting no_worker
    else grant_loop (reservation_key b) max_requester_jobs (ltb 0 worker_slots)
        (fair_queue hash queued tally last) tally job_capacity slot_capacity
