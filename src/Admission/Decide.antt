-- ===== src/Admission/Decide.antt =====
-- The loop of `decideAdmission` (internal/service/buildcontroller/admission.go).
use mathlib.Core.Logic.Or
use mathlib.Core.HLevel.{×_prop}
use mathlib.Core.List.{Mem, Mem-prop, mem-cons, mem-cons_self, mem-cons_of_mem, not-mem-nil}
use kova.Base.Perms.{Bool-IsSet}
use kova.Base.{
  ℕ, ◌-◌, ◌≤◌, ◌<◌, ◌≡◌, refl, ◌⊎◌, inl, inr, Bool, true, ◌&&◌, ◌||◌, List, [], ◌∷◌, ltb, leb, ◌==◌,
  if◌then◌else◌, arith, Bool-cases, In, here, there,
}
use kova.Base.Text.{Text, text_eq, text_eq_iff}
use kova.Base.Dict.{Dict}
use kova.Api.{KovaBuild}
use kova.Admission.{
  ActiveReservation, Tally, reservation_key, requester_key, requested_concurrency, bump, grant_loop,
  queued_candidates, is_candidate, waiting, granted, no_share,
}

bump-le : (who other : Text) (t : Tally) → t other ≤ bump who t other
unfolding bump
bump-le who other t = ground arith

pub requested_concurrency-pos : (b : KovaBuild) → 0 < requested_concurrency b
unfolding requested_concurrency
requested_concurrency-pos b = ground arith

-- What is known of a grant that the loop makes to the build with key `key`.
pub record Fits (key : Text) (max_requester : ℕ) (bounded : Bool) (cs : List KovaBuild) (t : Tally)
    (jobs slots n : ℕ) : Type 0 where
  pub positive : 0 < n
  pub in_slots : bounded ≡ true → n ≤ slots
  pub a_job : 0 < jobs
  pub served :
      (c : KovaBuild) × In c cs
      × (reservation_key c ≡ key)
      × (n ≤ requested_concurrency c)
      × (0 < max_requester → t (requester_key c) < max_requester)

Fits-there :
    (key : Text) (mr : ℕ) (bounded : Bool) (c : KovaBuild) (cs : List KovaBuild) (t u : Tally)
    (jobs slots jobs' slots' n : ℕ)
    → ((who : Text) → t who ≤ u who)
    → jobs' ≤ jobs
    → slots' ≤ slots
    → Fits key mr bounded cs u jobs' slots' n
    → Fits key mr bounded (c ∷ cs) t jobs slots n
Fits-there key mr bounded c cs t u jobs slots jobs' slots' n h j s f =
    let (d, i, k, w, share) = f.served in
    record {
      positive = f.positive;
      in_slots = λ b. omega (arith, f.in_slots b);
      a_job = omega arith;
      served = (d, there i, k, w, λ m. omega (arith, share m, h (requester_key d)));
    }

pub grant_loop-Fits :
    (key : Text) (mr : ℕ) (bounded : Bool) (cs : List KovaBuild) (t : Tally) (jobs slots n : ℕ)
    → grant_loop key mr bounded cs t jobs slots ≡ granted n
    → Fits key mr bounded cs t jobs slots n
unfolding grant_loop
grant_loop-Fits key mr bounded [] t jobs slots n h = absurd (ground arith)
grant_loop-Fits key mr bounded (c ∷ cs) t jobs slots n h =
    elim (Bool-cases (ltb 0 mr && leb mr (t (requester_key c)))) [
      | inl full ↦
          Fits-there key mr bounded c cs t t jobs slots jobs slots n (λ w. omega arith)
            (omega arith) (omega arith)
            (grant_loop-Fits key mr bounded cs t jobs slots n (rw full at h))
      | inr room ↦ elim (Bool-cases (alloc == 0 || jobs == 0)) [
        | inl stop ↦ absurd (ground arith)
        | inr go ↦ elim (Bool-cases (text_eq (reservation_key c) key)) [
          | inl mine ↦ record {
            positive = ground arith;
            in_slots = λ b. ground arith;
            a_job = ground arith;
            served = (c, here, (text_eq_iff _ _).0 mine, ground arith, λ m. ground arith);
          }
          | inr other ↦
              Fits-there key mr bounded c cs t (bump (requester_key c) t) jobs slots (jobs - 1)
                (if bounded then slots - alloc else slots) n (λ w. bump-le (requester_key c) w t)
                (omega arith) (ground arith)
                (grant_loop-Fits key mr bounded cs (bump (requester_key c) t) (jobs - 1)
                  (if bounded then slots - alloc else slots) n (rw (room, go, other) at h))
        ]
      ]
    ]
  where
    alloc : ℕ
    alloc =
        if bounded && ltb slots (requested_concurrency c) then slots else requested_concurrency c

pub grant_loop-cases :
    (key : Text) (mr : ℕ) (bounded : Bool) (cs : List KovaBuild) (t : Tally) (jobs slots : ℕ)
    → (grant_loop key mr bounded cs t jobs slots ≡ waiting no_share)
      ⊎ ((n : ℕ) × (grant_loop key mr bounded cs t jobs slots ≡ granted n))
unfolding grant_loop
grant_loop-cases key mr bounded [] t jobs slots = inl refl
grant_loop-cases key mr bounded (c ∷ cs) t jobs slots =
    elim (Bool-cases (ltb 0 mr && leb mr (t (requester_key c)))) [
      | inl full ↦ rw full (grant_loop-cases key mr bounded cs t jobs slots)
      | inr room ↦ elim (Bool-cases (alloc == 0 || jobs == 0)) [
        | inl stop ↦ rw (room, stop) (inl refl)
        | inr go ↦ elim (Bool-cases (text_eq (reservation_key c) key)) [
          | inl mine ↦ rw (room, go, mine) (inr (alloc, refl))
          | inr other ↦
              rw (room, go, other)
                (grant_loop-cases key mr bounded cs (bump (requester_key c) t) (jobs - 1)
                  (if bounded then slots - alloc else slots))
        ]
      ]
    ]
  where
    alloc : ℕ
    alloc =
        if bounded && ltb slots (requested_concurrency c) then slots else requested_concurrency c

pub queued_candidates-mem :
    (active : Dict ActiveReservation) (c : KovaBuild) (bs : List KovaBuild)
    → Mem c (queued_candidates active bs)
    → Mem c bs × (is_candidate active c ≡ true)
unfolding queued_candidates
queued_candidates-mem active c [] m = absurd (not-mem-nil m)
queued_candidates-mem active c (b ∷ bs) m = elim (Bool-cases (is_candidate active b)) [
  | inl y ↦
      Or.elim (×_prop Mem-prop (Bool-IsSet _ _)) (mem-cons.0 (rw y at m))
        (λ e. (rw e mem-cons_self, rw e y))
        (λ i. let r = queued_candidates-mem active c bs i in (mem-cons_of_mem _ r.0, r.1))
  | inr n ↦ let r = queued_candidates-mem active c bs (rw n at m) in (mem-cons_of_mem _ r.0, r.1)
]

-- The listed builds that carry a build's key carry its immutable name and specification.
abbrev pub SameBuild : KovaBuild → List KovaBuild → Type 0
SameBuild b builds =
    (c : KovaBuild)
    → Mem c builds
    → reservation_key c ≡ reservation_key b
    → (c.name ≡ b.name) × (c.spec ≡ b.spec)

pub same_requester :
    (c b : KovaBuild) → c.name ≡ b.name → c.spec ≡ b.spec → requester_key c ≡ requester_key b
unfolding requester_key
same_requester c b n s = rw (n, s)

pub same_concurrency :
    (c b : KovaBuild) → c.spec ≡ b.spec → requested_concurrency c ≡ requested_concurrency b
unfolding requested_concurrency
same_concurrency c b s = rw s
