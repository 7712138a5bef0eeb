-- ===== src/Coordinator/Tests.antt =====
-- The theorems of the admission coordinator at concrete runs.
use kova.Base.{◌≤◌, ◌≡◌, refl, ◌⊎◌, true, none, some, is_some, length}
use kova.Base.Text.{Text, text, text_eq}
use kova.Effects.{ok}
use kova.Coordinator.{
  Coordinator, new_coordinator, validate_coordinator, try_begin, defer_if_busy, release, receive,
  send_event,
}
use kova.Coordinator.Wakeup.{
  QuietRun, Quiet, Run, Allocated, no_lost_wakeup, one_holder, Others, duplicate_release,
  Run-Allocated,
}

abbrev ns : Text
ns = text "ns"

-- The first permit is held, then a demand is refused, then the permit is released.
abbrev held : Coordinator
held = (try_begin (new_coordinator ns) ns none none).0

abbrev refused : Coordinator
refused = (defer_if_busy held ns).0

held-busy : (defer_if_busy held ns).1 ≡ ok (true, 0)
unfolding defer_if_busy try_begin new_coordinator validate_coordinator text_eq
held-busy = refl

refused-holder : refused.holder ≡ some 0
unfolding defer_if_busy try_begin new_coordinator validate_coordinator text_eq
refused-holder = refl

refused-pending : refused.pending ≡ true
unfolding defer_if_busy try_begin new_coordinator validate_coordinator text_eq
refused-pending = refl

-- The pump finds the event, and the next demand gets a permit.
woken : length (release refused 0).events ≡ 1
unfolding defer_if_busy try_begin new_coordinator validate_coordinator text_eq release send_event
woken = refl

next_permit : (try_begin (receive (release refused 0)) ns none none).1 ≡ ok (some 1)
unfolding defer_if_busy try_begin new_coordinator validate_coordinator text_eq release send_event
    receive
next_permit = refl

abbrev reused : Coordinator
reused = (try_begin (release refused 0) ns none none).0

no_lost_wakeup_example :
    (((release refused 0).pending ≡ true) × (is_some (release refused 0).holder ≡ true))
    ⊎ (1 ≤ length (release refused 0).events)
no_lost_wakeup_example =
    no_lost_wakeup held (release refused 0) ns 0 held-busy
      (QuietRun.step QuietRun.stop (Quiet.releases 0))

held-begun : (try_begin (new_coordinator ns) ns none none).1 ≡ ok (some 0)
unfolding try_begin new_coordinator validate_coordinator text_eq
held-begun = refl

one_holder_example :
    ((release refused 1).holder ≡ some 0)
    × ¬ ((try_begin (release refused 1) ns none none).1 ≡ ok (some 1))
one_holder_example =
    one_holder (new_coordinator ns) (release refused 1) ns ns none none none none 0 1 held-begun
      (Others.releases 1 refl (Others.defers ns Others.stop))

refused-Allocated : Allocated refused
refused-Allocated =
    Run-Allocated ns refused
      (Run.step (Run.step Run.stop (Quiet.begins ns none none)) (Quiet.defers ns))

duplicate_release_example : release reused 0 ≡ reused
duplicate_release_example =
    duplicate_release refused reused 0 refused-Allocated refused-holder
      (Run.step Run.stop (Quiet.begins ns none none))
