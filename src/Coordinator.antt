-- ===== src/Coordinator.antt =====
-- The admission coordinator (internal/service/buildcontroller/admission_coordinator.go): one permit
-- for a fresh grant in this process, a bit that remembers a refused demand, and a channel of capacity
-- one that wakes the pump.
--
-- Every operation holds the mutex, so that it is one step. A permit is a number, new for each
-- allocation, for the pointer of the source; `next` is the first one not yet allocated. A context
-- check is its answer. Coordinators and permits are never nil here.
mod Wakeup
mod Tests
use kova.Base.{
  ℕ, zero, suc, ◌+◌, ◌%◌, ◌^◌, Bool, true, false, not, ◌&&◌, ◌||◌, List, [], ◌∷◌, Option, none,
  some, ltb, ◌==◌, if◌then◌else◌, is_some, length, ◌≡◌,
}
use kova.Base.Text.{Text, text_eq, is_empty}
use kova.Effects.{Error, Result, ok, err}

pub record Coordinator : Type 0 where
  pub namespace : Text
  pub holder : Option ℕ
  pub pending : Bool
  pub generation : ℕ
  -- The channel exists; the namespaces of the events in it.
  pub has_release : Bool
  pub events : List Text
  pub next : ℕ

unfoldable pub new_coordinator : Text → Coordinator
new_coordinator ns = record {
  namespace = ns;
  holder = none;
  pending = false;
  generation = 0;
  has_release = true;
  events = [];
  next = 0;
}

unfoldable pub validate_coordinator : Coordinator → Text → Bool
validate_coordinator g ns = not (is_empty ns) && text_eq g.namespace ns && g.has_release

-- `tryBegin`, with the answers of its two context checks; no permit without an error means busy.
unfoldable pub try_begin :
    Coordinator → Text → Option Error → Option Error → Coordinator × Result (Option ℕ)
try_begin g ns first second =
    if validate_coordinator g ns
    then (elim first [
      | some e ↦ (g, err e)
      | none ↦ (elim second [
        | some e ↦ (g, err e)
        | none ↦ (elim g.holder [
          | some p ↦ (record g { pending = true }, ok none)
          | none ↦ (record g { holder = some g.next; next = suc g.next }, ok (some g.next))
        ])
      ])
    ])
    else (g, err Error.failed)

-- `deferIfBusy`: busy, and the generation.
unfoldable pub defer_if_busy : Coordinator → Text → Coordinator × Result (Bool × ℕ)
defer_if_busy g ns =
    if validate_coordinator g ns
    then (elim g.holder [
      | some p ↦ (record g { pending = true }, ok (true, g.generation))
      | none ↦ (g, ok (false, g.generation))
    ])
    else (g, err Error.failed)

-- The send with a default case, on a channel of capacity one.
unfoldable pub send_event : List Text → Text → List Text
send_event events ns = if ltb (length events) 1 then ns ∷ events else events

abbrev pub is_holder : Option ℕ → ℕ → Bool
is_holder none p = false
is_holder (some q) p = q == p

-- `release` of a permit.
unfoldable pub release : Coordinator → ℕ → Coordinator
release g p =
    if is_holder g.holder p
    then record g {
      holder = none;
      generation = (g.generation + 1) % 2 ^ 64;
      pending = false;
      events = if g.pending then send_event g.events g.namespace else g.events;
    }
    else g

-- The pump takes the event.
unfoldable pub receive : Coordinator → Coordinator
receive g = record g { events = [] }
