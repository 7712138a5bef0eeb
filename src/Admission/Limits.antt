-- ===== src/Admission/Limits.antt =====
-- `decideAdmission` and `saturatedAdmission` (internal/service/buildcontroller/admission.go) against
-- the limits.
use mathlib.Core.Logic.Or
use mathlib.Core.List.{Mem, mem-cons, mem-cons_self, mem-cons_of_mem, not-mem-nil, Mem-prop}
use mathlib.Core.List.Perm
use kova.Base.{
  ℕ, ◌+◌, ◌-◌, ◌≤◌, ◌<◌, ◌≡◌, refl, ◌⊎◌, inl, inr, Bool, true, ◌&&◌, List, [], ◌∷◌, ltb, leb,
  if◌then◌else◌, length, arith, Bool-cases,
}
use kova.Base.Text.{Text, text_eq_iff}
use kova.Base.Dict.{Dict}
use kova.Base.Perms.{In-mem}
use kova.Api.{KovaBuild}
use kova.Admission.{
  ActiveReservation, Decision, Tally, reservation_key, requester_key, requested_concurrency,
  used_slots, active_for, saturated_admission, grant_loop, fair_queue, is_candidate,
  queued_candidates, decide_admission, waiting, granted, no_share,
}
use kova.Admission.Decide.{
  Fits, grant_loop-Fits, grant_loop-cases, queued_candidates-mem, SameBuild, same_requester,
  same_concurrency, requested_concurrency-pos,
}
use kova.Admission.Fair.{fair_queue-perm}

module _ (hash : Text → Text) (b : KovaBuild) (builds : List KovaBuild)
    (active : Dict ActiveReservation) (mj mr ws : ℕ) (last : Text) where
  tally : Tally
  tally who = active_for who active

  fair : List KovaBuild
  fair = fair_queue hash (queued_candidates active builds) (λ who. active_for who active) last

  -- The loop as `decide_admission` calls it.
  calls_loop : (key : Text) → ℕ → Decision
  calls_loop key jobs =
      grant_loop key mr (ltb 0 ws) fair (λ who. active_for who active) jobs
        (if ltb 0 ws then ws - used_slots active else 0)

  decide_shape :
      (n : ℕ)
      → decide_admission hash b builds active mj mr ws last ≡ granted n
      → (jobs : ℕ) × (calls_loop (reservation_key b) jobs ≡ granted n)
        × (0 < mj → length active < mj)
        × (0 < ws → used_slots active < ws)
  unfolding decide_admission calls_loop fair
  decide_shape n h = (
    (if ltb 0 mj then mj - length active else length (queued_candidates active builds)),
    ground arith,
    ground arith,
    ground arith,
  )

  fair-mem : (c : KovaBuild) → Mem c fair → Mem c builds × (is_candidate active c ≡ true)
  unfolding fair
  fair-mem c m =
      queued_candidates-mem active c builds (Perm.subset (fair_queue-perm hash _ _ last) _ m)

  -- A grant is positive, asks no more than the build does, fits the worker slots left, and keeps
  -- the job limits of all and of its requester, where a limit of 0 does not bind, if the listed
  -- builds with its key have its name and specification.
  pub decide_admission-fits :
      (n : ℕ)
      → SameBuild b builds
      → decide_admission hash b builds active mj mr ws last ≡ granted n
      → (0 < n)
        × (n ≤ requested_concurrency b)
        × (0 < ws → used_slots active + n ≤ ws)
        × (0 < mj → length active + 1 ≤ mj)
        × (0 < mr → active_for (requester_key b) active + 1 ≤ mr)
  decide_admission-fits n same h =
      let (jobs, looped, jobs_left, slots_left) = decide_shape n h in
      let fits = loop-Fits jobs looped in
      let (c, member, mine, wanted, share) = fits.served in
      let (names, specs) = same c (fair-mem c (In-mem member)).0 mine in
      (
        fits.positive,
        rw (← same_concurrency c b specs) wanted,
        (λ w. ground (arith, fits.in_slots (ground arith), slots_left w)),
        (λ m. omega (arith, jobs_left m)),
        (λ r. rw (← same_requester c b names specs) (omega (arith, share r))),
      )
    where
      loop-Fits :
          (jobs : ℕ)
          → calls_loop (reservation_key b) jobs ≡ granted n
          → Fits
              (reservation_key b)
              mr
              (ltb 0 ws)
              fair
              (λ who. active_for who active)
              jobs
              (if ltb 0 ws then ws - used_slots active else 0)
              n
      loop-Fits jobs e =
          unfold calls_loop in grant_loop-Fits (reservation_key b) mr (ltb 0 ws) fair _ jobs _ n e

  -- With a job and a slot left, the loop decides.
  decide_cases :
      ((0 < mj) → length active < mj)
      → ((0 < ws) → used_slots active < ws)
      → (decide_admission hash b builds active mj mr ws last ≡ waiting no_share)
        ⊎ ((n : ℕ) × (decide_admission hash b builds active mj mr ws last ≡ granted n))
  unfolding decide_admission
  decide_cases j w = ground (
    arith,
    grant_loop-cases (reservation_key b) mr (ltb 0 ws)
        (fair_queue hash (queued_candidates active builds) (λ who. active_for who active) last)
        (λ who. active_for who active)
        (if ltb 0 mj then mj - length active else length (queued_candidates active builds))
        (if ltb 0 ws then ws - used_slots active else 0),
  )

  -- If the listed builds with the build's key have its name and specification, then whenever the
  -- early check refuses, the full decision is that same refusal with the same message.
  pub saturated_admission-agrees :
      (d : Decision)
      → SameBuild b builds
      → saturated_admission b active mj mr ws ≡ (d, true)
      → decide_admission hash b builds active mj mr ws last ≡ d
  saturated_admission-agrees d same h = elim (Bool-cases (ltb 0 mj && leb mj (length active))) [
    | inl jobs_full ↦ unfold saturated_admission decide_admission in ground arith
    | inr jobs_left ↦ elim (Bool-cases (ltb 0 ws && leb ws (used_slots active))) [
      | inl slots_full ↦ unfold saturated_admission decide_admission in ground arith
      | inr slots_left ↦ elim (decide_cases (ground arith) (ground arith)) [
        | inl none_left ↦ unfold saturated_admission in ground arith
        | inr (n, e) ↦
            let bound = (decide_admission-fits n same e).4 in
            absurd (over bound (unfold saturated_admission in ground arith))
      ]
    ]
  ]
    where
      over : {a : ℕ} → (0 < mr → a + 1 ≤ mr) → (0 < mr) × (mr ≤ a) → ⊥
      over f p = omega (arith, f p.0)

-- The first build in line whose requester has a job left is granted.
grant_loop-first :
    (mr : ℕ) (bounded : Bool) (cs : List KovaBuild) (t : Tally) (jobs slots : ℕ) (c : KovaBuild)
    → 0 < jobs
    → (bounded ≡ true → 0 < slots)
    → (0 < mr → t (requester_key c) < mr)
    → Mem c cs
    → (d : KovaBuild) × Mem d cs
      × (n : ℕ) × (grant_loop (reservation_key d) mr bounded cs t jobs slots ≡ granted n)
unfolding grant_loop
grant_loop-first mr bounded [] t jobs slots c j s r m = absurd (not-mem-nil m)
grant_loop-first mr bounded (x ∷ cs) t jobs slots c j s r m =
    elim (Bool-cases (ltb 0 mr && leb mr (t (requester_key x)))) [
      | inl full ↦
          let (d, i, n, e) = grant_loop-first mr bounded cs t jobs slots c j s r (later full) in
          (d, mem-cons_of_mem _ i, n, rw full e)
      | inr room ↦ (
        x,
        mem-cons_self,
        (if bounded && ltb slots (requested_concurrency x) then slots else requested_concurrency x),
        ground (
          arith,
          (text_eq_iff (reservation_key x) (reservation_key x)).1 refl,
          requested_concurrency-pos x,
        ),
      )
    ]
  where
    later : ltb 0 mr && leb mr (t (requester_key x)) ≡ true → Mem c cs
    later full = Or.elim Mem-prop (mem-cons.0 m) (λ e. absurd (full_not (rw e at r) full)) (λ i. i)
      where
        full_not : {a : ℕ} → (0 < mr → a < mr) → ltb 0 mr && leb mr a ≡ true → ⊥
        full_not f g = ground arith

mem-pos : (c : KovaBuild) (cs : List KovaBuild) → Mem c cs → 0 < length cs
mem-pos c [] m = absurd (not-mem-nil m)
mem-pos c (x ∷ cs) m = omega arith

-- While a job and a worker slot are left and some candidate is of a requester below its limit, the
-- decision for one of the candidates in the listing is a grant.
pub decide_admission-progress :
    (hash : Text → Text) (builds : List KovaBuild) (active : Dict ActiveReservation) (mj mr ws : ℕ)
    (last : Text) (c : KovaBuild)
    → Mem c (queued_candidates active builds)
    → (0 < mj → length active < mj)
    → (0 < ws → used_slots active < ws)
    → (0 < mr → active_for (requester_key c) active < mr)
    → (d : KovaBuild) × Mem d builds
      × (is_candidate active d ≡ true)
      × (n : ℕ) × (decide_admission hash d builds active mj mr ws last ≡ granted n)
decide_admission-progress hash builds active mj mr ws last c m j w r =
    let perm =
      fair_queue-perm hash (queued_candidates active builds) (λ who. active_for who active) last in
    let (d, i, n, e) =
      grant_loop-first mr (ltb 0 ws) (fair hash c builds active mj mr ws last)
        (λ who. active_for who active)
        (if ltb 0 mj then mj - length active else length (queued_candidates active builds))
        (if ltb 0 ws then ws - used_slots active else 0) c
        (ground (arith, mem-pos c (queued_candidates active builds) m)) (λ b. ground arith) r
        (unfold fair in Perm.subset (Perm.symm perm) _ m) in
    let (listed, cand) = fair-mem hash c builds active mj mr ws last d i in
    (d, listed, cand, n, grants d n e)
  where
    grants :
        (d : KovaBuild) (n : ℕ)
        → grant_loop
            (reservation_key d)
            mr
            (ltb 0 ws)
            (fair hash c builds active mj mr ws last)
            (λ who. active_for who active)
            (if ltb 0 mj then mj - length active else length (queued_candidates active builds))
            (if ltb 0 ws then ws - used_slots active else 0)
          ≡ granted n
        → decide_admission hash d builds active mj mr ws last ≡ granted n
    grants d n e = unfold decide_admission fair in ground arith
