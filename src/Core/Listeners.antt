-- ===== src/Core/Listeners.antt =====
-- src/pysilience/core/listeners.py: `notify_listeners`. A listener takes the event and the world
-- that it works on, and may raise.
use pysilience.Prelude.{◌≡◌, refl, sym, ◌∙◌, ◌++◌, Bool, true, List, [], ◌∷◌, if◌then◌else◌, All}
use mathlib.Core.List.{append-nil, append_assoc}
use pysilience.Python.{Result, ok, raise, is_exception}

abbrev pub Listener {ℓ κ} : Type ℓ → Type κ → Type (ℓ ⊔ κ)
Listener T W = T → W → Result (Unit {0}) × W

-- `contextlib.suppress(Exception)` around one call: whether the loop goes on.
abbrev pub suppressed : Result (Unit {0}) → Bool
suppressed (ok _) = true
suppressed (raise exc) = is_exception exc

-- `notify_listeners`
unfoldable pub notify_listeners {ℓ κ} :
    {T : Type ℓ} {W : Type κ} → List (Listener T W) → T → W → Result (Unit {0}) × W
notify_listeners [] event w = (ok tt, w)
notify_listeners (listener ∷ listeners) event w =
    let (answer, w') = listener event w in
    let rest = notify_listeners listeners event w' in
    if suppressed answer then rest else (answer, w')

-- `on_event` of each pattern
unfoldable pub on_event {ℓ κ} :
    {T : Type ℓ} {W : Type κ} → Listener T W → List (Listener T W) → List (Listener T W)
on_event listener listeners = listeners ++ (listener ∷ [])

-- Calls of `on_event`, one after the other.
abbrev pub on_events {ℓ κ} :
    {T : Type ℓ} {W : Type κ} → List (Listener T W) → List (Listener T W) → List (Listener T W)
on_events [] listeners = listeners
on_events (listener ∷ more) listeners = on_events more (on_event listener listeners)

-- The world after the listeners have run, one after the other, whatever they raise.
abbrev pub all_called {ℓ κ} : {T : Type ℓ} {W : Type κ} → List (Listener T W) → T → W → W
all_called [] event w = w
all_called (listener ∷ listeners) event w = all_called listeners event (listener event w).1

-- If no listener raises anything but an `Exception`, each of them runs, in order, and the notifier
-- raises nothing.
pub notify_listeners-all_called {ℓ κ} :
    {T : Type ℓ} {W : Type κ} (listeners : List (Listener T W)) (event : T) (w : W)
    → All (λ listener. (v : W) → suppressed (listener event v).0 ≡ true) listeners
    → notify_listeners listeners event w ≡ (ok tt, all_called listeners event w)
unfolding notify_listeners
notify_listeners-all_called [] event w h = refl
notify_listeners-all_called (listener ∷ listeners) event w h =
    rw (h.0 w) (notify_listeners-all_called listeners event (listener event w).1 h.1)

on_events-append {ℓ κ} :
    {T : Type ℓ} {W : Type κ} (more listeners : List (Listener T W))
    → on_events more listeners ≡ listeners ++ more
unfolding on_event
on_events-append [] listeners = sym (append-nil listeners)
on_events-append (listener ∷ more) listeners =
    on_events-append more (listeners ++ (listener ∷ []))
    ∙ append_assoc listeners (listener ∷ []) more

-- Listeners that were added by `on_event` to an object without any all run, in the order of their
-- registration, and the notifier raises nothing, if none of them raises anything but an `Exception`.
pub notify_listeners-on_events {ℓ κ} :
    {T : Type ℓ} {W : Type κ} (listeners : List (Listener T W)) (event : T) (w : W)
    → All (λ listener. (v : W) → suppressed (listener event v).0 ≡ true) listeners
    → notify_listeners (on_events listeners []) event w ≡ (ok tt, all_called listeners event w)
notify_listeners-on_events listeners event w h =
    rw (on_events-append listeners []) (notify_listeners-all_called listeners event w h)
