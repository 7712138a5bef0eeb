-- ===== src/Coordinator/Wakeup.antt =====
-- Runs of the admission coordinator
-- (internal/service/buildcontroller/admission_coordinator.go).
use kova.Base.{
  ℕ, ◌^◌, ◌≤◌, ◌<◌, ◌==◌, ◌≡◌, refl, ◌⊎◌, true, false, Option, some, is_some, length, arith,
}
use kova.Base.Text.{Text}
use kova.Effects.{Error, ok}
use kova.Coordinator.{
  Coordinator, new_coordinator, try_begin, defer_if_busy, send_event, is_holder, release, receive,
}

-- One operation of any caller, but not the pump's receive.
pub data Quiet (g : Coordinator) : Coordinator → Type 0 where
  begins : (ns : Text) (first second : Option Error) → Quiet g (try_begin g ns first second).0
  defers : (ns : Text) → Quiet g (defer_if_busy g ns).0
  releases : (p : ℕ) → Quiet g (release g p)

pub data QuietRun (g : Coordinator) : Coordinator → Type 0 where
  stop : QuietRun g g
  step : {h k : Coordinator} → QuietRun g h → Quiet h k → QuietRun g k

pub data Run (g : Coordinator) : Coordinator → Type 0 where
  stop : Run g g
  step : {h k : Coordinator} → Run g h → Quiet h k → Run g k
  receives : {h : Coordinator} → Run g h → Run g (receive h)

-- A demand is remembered under a holder, whose release sends the event, or the event is sent.
abbrev Remembered : Coordinator → Type 0
Remembered g = ((g.pending ≡ true) × (is_some g.holder ≡ true)) ⊎ (1 ≤ length g.events)

begins-Remembered :
    (g : Coordinator) (ns : Text) (first second : Option Error)
    → Remembered g
    → Remembered (try_begin g ns first second).0
unfolding try_begin
begins-Remembered g ns first second r = ground arith

defers-Remembered : (g : Coordinator) (ns : Text) → Remembered g → Remembered (defer_if_busy g ns).0
unfolding defer_if_busy
defers-Remembered g ns r = ground arith

releases-Remembered : (g : Coordinator) (p : ℕ) → Remembered g → Remembered (release g p)
unfolding release send_event
releases-Remembered g p r = ground arith

Quiet-Remembered : (g h : Coordinator) → Remembered g → Quiet g h → Remembered h
Quiet-Remembered g h r (Quiet.begins ns a b) = begins-Remembered g ns a b r
Quiet-Remembered g h r (Quiet.defers ns) = defers-Remembered g ns r
Quiet-Remembered g h r (Quiet.releases p) = releases-Remembered g p r

QuietRun-Remembered : (g h : Coordinator) → Remembered g → QuietRun g h → Remembered h
QuietRun-Remembered g h r QuietRun.stop = r
QuietRun-Remembered g h r (QuietRun.step {h = k} run q) =
    Quiet-Remembered k h (QuietRun-Remembered g k r run) q

registered :
    (g : Coordinator) (ns : Text) (n : ℕ)
    → (defer_if_busy g ns).1 ≡ ok (true, n)
    → Remembered (defer_if_busy g ns).0
unfolding defer_if_busy
registered g ns n h = ground arith

-- When deferIfBusy has answered busy, then after any operations of any callers and before the next
-- receive, an event waits in the channel, or a permit is held and the demand is remembered.
pub no_lost_wakeup :
    (g h : Coordinator) (ns : Text) (n : ℕ)
    → (defer_if_busy g ns).1 ≡ ok (true, n)
    → QuietRun (defer_if_busy g ns).0 h
    → ((h.pending ≡ true) × (is_some h.holder ≡ true)) ⊎ (1 ≤ length h.events)
no_lost_wakeup g h ns n busy run =
    QuietRun-Remembered (defer_if_busy g ns).0 h (registered g ns n busy) run

-- Any run in which every caller but the holder of `p` acts, and the pump receives: permits other than
-- `p` are released.
pub data Others (p : ℕ) (g : Coordinator) : Coordinator → Type 0 where
  stop : Others p g g
  begins :
      {h : Coordinator} (ns : Text) (first second : Option Error)
      → Others p g h
      → Others p g (try_begin h ns first second).0
  defers : {h : Coordinator} (ns : Text) → Others p g h → Others p g (defer_if_busy h ns).0
  releases : {h : Coordinator} (q : ℕ) → (p == q) ≡ false → Others p g h → Others p g (release h q)
  receives : {h : Coordinator} → Others p g h → Others p g (receive h)

begun-holder :
    (g : Coordinator) (ns : Text) (first second : Option Error) (p : ℕ)
    → (try_begin g ns first second).1 ≡ ok (some p)
    → (try_begin g ns first second).0.holder ≡ some p
unfolding try_begin
begun-holder g ns first second p h = ground arith

held-begins :
    (g : Coordinator) (ns : Text) (first second : Option Error) (p : ℕ)
    → g.holder ≡ some p
    → (try_begin g ns first second).0.holder ≡ some p
unfolding try_begin
held-begins g ns first second p h = ground arith

held-refuses :
    (g : Coordinator) (ns : Text) (first second : Option Error) (p q : ℕ)
    → g.holder ≡ some p
    → (try_begin g ns first second).1 ≡ ok (some q)
    → ⊥
unfolding try_begin
held-refuses g ns first second p q h k = ground arith

held-defers :
    (g : Coordinator) (ns : Text) (p : ℕ)
    → g.holder ≡ some p
    → (defer_if_busy g ns).0.holder ≡ some p
unfolding defer_if_busy
held-defers g ns p h = ground arith

held-releases :
    (g : Coordinator) (p q : ℕ)
    → g.holder ≡ some p
    → (p == q) ≡ false
    → (release g q).holder ≡ some p
unfolding release
held-releases g p q h n = ground (arith, h, n)

held-receives : (g : Coordinator) (p : ℕ) → g.holder ≡ some p → (receive g).holder ≡ some p
unfolding receive
held-receives g p h = h

held-Others : (p : ℕ) (g h : Coordinator) → g.holder ≡ some p → Others p g h → h.holder ≡ some p
held-Others p g h e Others.stop = e
held-Others p g h e (Others.begins {h = k} ns a b run) =
    held-begins k ns a b p (held-Others p g k e run)
held-Others p g h e (Others.defers {h = k} ns run) = held-defers k ns p (held-Others p g k e run)
held-Others p g h e (Others.releases {h = k} q n run) =
    held-releases k p q (held-Others p g k e run) n
held-Others p g h e (Others.receives {h = k} run) = held-receives k p (held-Others p g k e run)

-- Once tryBegin has granted a permit, then after any operations of other callers and receives, in
-- which permits other than this one may be released, this permit is still the held one and no
-- tryBegin grants another.
pub one_holder :
    (g h : Coordinator) (ns other : Text) (a b c d : Option Error) (p q : ℕ)
    → (try_begin g ns a b).1 ≡ ok (some p)
    → Others p (try_begin g ns a b).0 h
    → (h.holder ≡ some p) × ¬ ((try_begin h other c d).1 ≡ ok (some q))
one_holder g h ns other a b c d p q begun run =
    let e = held-Others p (try_begin g ns a b).0 h (begun-holder g ns a b p begun) run in
    (e, λ k. held-refuses h other c d p q e k)

-- A permit that was allocated and is not held.
record Retired (p : ℕ) (g : Coordinator) : Type 0 where
  old : p < g.next
  not_held : is_holder g.holder p ≡ false

Quiet-Retired : (p : ℕ) (g h : Coordinator) → Retired p g → Quiet g h → Retired p h
unfolding try_begin defer_if_busy release
Quiet-Retired p g h r (Quiet.begins ns a b) = record {
  old = ground (arith, r.old);
  not_held = ground (arith, r.old, r.not_held);
}
Quiet-Retired p g h r (Quiet.defers ns) = record {
  old = ground (arith, r.old);
  not_held = ground (arith, r.not_held);
}
Quiet-Retired p g h r (Quiet.releases q) = record {
  old = ground (arith, r.old);
  not_held = ground (arith, r.not_held);
}

Run-Retired : (p : ℕ) (g h : Coordinator) → Retired p g → Run g h → Retired p h
unfolding receive
Run-Retired p g h r Run.stop = r
Run-Retired p g h r (Run.step {h = k} run q) = Quiet-Retired p k h (Run-Retired p g k r run) q
Run-Retired p g h r (Run.receives {h = k} run) =
    let z = Run-Retired p g k r run in record { old = z.old; not_held = z.not_held }

-- Permits are the numbers below `next`, and a held one is among them.
pub record Allocated (g : Coordinator) : Type 0 where
  pub below : (p : ℕ) → g.holder ≡ some p → p < g.next
  pub capacity : length g.events ≤ 1
  pub bounded : g.generation < 2 ^ 64

released-Retired :
    (g : Coordinator) (p : ℕ) → Allocated g → g.holder ≡ some p → Retired p (release g p)
unfolding release
released-Retired g p a h =
    rw h (record { old = ground (arith, a.below p h); not_held = ground arith })

-- From a coordinator whose held permit is among those it has allocated, whose channel holds at
-- most one event and whose generation is below 2 ^ 64, once a held permit is released, releasing
-- it again after any run of operations and receives changes nothing, whoever holds a permit then.
pub duplicate_release :
    (g h : Coordinator) (p : ℕ)
    → Allocated g
    → g.holder ≡ some p
    → Run (release g p) h
    → release h p ≡ h
unfolding release
duplicate_release g h p a held run =
    let r = Run-Retired p (release g p) h (released-Retired g p a held) run in rw r.not_held refl

Quiet-Allocated : (g h : Coordinator) → Allocated g → Quiet g h → Allocated h
unfolding try_begin defer_if_busy release send_event
Quiet-Allocated g h a (Quiet.begins ns x y) = record {
  below = λ p q. ground (arith, a.below p);
  capacity = ground (arith, a.capacity);
  bounded = ground (arith, a.bounded);
}
Quiet-Allocated g h a (Quiet.defers ns) = record {
  below = λ p q. ground (arith, a.below p);
  capacity = ground (arith, a.capacity);
  bounded = ground (arith, a.bounded);
}
Quiet-Allocated g h a (Quiet.releases r) = record {
  below = λ p q. ground (arith, a.below p);
  capacity = ground (arith, a.capacity);
  bounded = ground (arith, a.bounded);
}

receive-Allocated : (g : Coordinator) → Allocated g → Allocated (receive g)
unfolding receive
receive-Allocated g a = record { below = a.below; capacity = omega arith; bounded = a.bounded }

new-Allocated : (ns : Text) → Allocated (new_coordinator ns)
unfolding new_coordinator
new-Allocated ns = record {
  below = λ p q. absurd (ground arith);
  capacity = omega arith;
  bounded = omega arith;
}

-- After any run from the start, the held permit was allocated, the channel holds at most one
-- event, and the generation is below 2 ^ 64.
pub Run-Allocated : (ns : Text) (g : Coordinator) → Run (new_coordinator ns) g → Allocated g
Run-Allocated ns g Run.stop = new-Allocated ns
Run-Allocated ns g (Run.step {h = k} r q) = Quiet-Allocated k g (Run-Allocated ns k r) q
Run-Allocated ns g (Run.receives {h = k} r) = receive-Allocated k (Run-Allocated ns k r)
