-- ===== src/Tests/Rest.antt =====
-- src/pysilience/fallback.py and src/pysilience/core/ at concrete inputs.
use pysilience.Prelude.{ℕ, ◌+◌, ◌≡◌, refl, true, List, [], ◌∷◌}
use pysilience.Python.{Exc, is_instance, is_exception, exception_class, Result, ok, raise}
use pysilience.Fallback.Handler.{Fallback}
use pysilience.Core.Listeners.{Listener, notify_listeners, on_events, notify_listeners-on_events}
use pysilience.Core.Registry.{Key}
use pysilience.Tests.Data.{boom, harmless, ignorable}

abbrev fallback : Fallback
fallback = record {
  config = record { fallback_on = exception_class ∷ []; raise_on = ignorable ∷ [] };
  name = "cached";
  events = [];
}

-- The world counts the calls.
abbrev failing : ℕ → Result ℕ × ℕ
failing n = (raise boom, n + 1)

abbrev fussy : ℕ → Result ℕ × ℕ
fussy n = (raise harmless, n + 1)

abbrev constant_seven : Exc → ℕ → Result ℕ × ℕ
constant_seven exc n = (ok 7, n + 1)

harmless-raised : is_instance harmless (ignorable ∷ []) ≡ true
unfolding is_instance
harmless-raised = refl

-- A listener that counts its calls, and one that raises as well.
abbrev counting : Listener ℕ ℕ
counting event n = (ok tt, n + 1)

abbrev raising : Listener ℕ ℕ
raising event n = (raise boom, n + 1)

boom-suppressed : is_exception boom ≡ true
unfolding is_exception is_instance
boom-suppressed = refl

notify_listeners-on_events_example :
    notify_listeners (on_events (raising ∷ counting ∷ []) []) 5 0 ≡ (ok tt, 2)
notify_listeners-on_events_example =
    notify_listeners-on_events (raising ∷ counting ∷ []) 5 0
      ((λ v. boom-suppressed), ((λ v. refl), tt))

abbrev registry : List (Key × ℕ)
registry = (("retry", "api"), 1) ∷ (("cache", "api"), 2) ∷ (("cache", "db"), 3) ∷ []
