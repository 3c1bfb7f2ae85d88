-- ===== src/Fallback/Handler.antt =====
-- src/pysilience/fallback.py: `FallbackConfig`, the events and `class Fallback`. `func` and `action`
-- take and return the world that they work on. `events` has the latest first.
use pysilience.Prelude.{
  Bool, false, not, ◌&&◌, Option, none, some, List, [], ◌∷◌, String, if◌then◌else◌,
}
use pysilience.Python.{
  or_default, Class, Exc, value_error, is_instance, is_exception, non_empty, Result, ok, raise,
}

pub record Config : Type 0 where
  pub fallback_on : List Class
  pub raise_on : List Class

-- `__post_init__`
unfoldable pub post_init : Config → Result Config
post_init c = if not (non_empty c.fallback_on) then raise value_error else ok c

pub data EventType : Type 0 where
  success recovered fallback_error : EventType

pub record Event : Type 0 where
  pub event_type : EventType
  pub name : String
  pub exception : Option Exc
  pub fallback_exception : Option Exc

pub record Fallback : Type 0 where
  pub config : Config
  pub name : String
  pub events : List Event

-- `__init__`; the action is an argument of the methods.
unfoldable pub init : Config → Option String → Fallback
init config name = record { config = config; name = or_default name "fallback"; events = [] }

-- `_should_fallback`
unfoldable pub should_fallback : Config → Exc → Bool
should_fallback c exc =
    if non_empty c.raise_on && is_instance exc c.raise_on
    then false
    else is_instance exc c.fallback_on

-- `_emit_event`
abbrev pub emit : EventType → Option Exc → Option Exc → Fallback → Fallback
emit event_type exc fallback_exc f = record f {
  events =
      record {
        event_type = event_type;
        name = f.name;
        exception = exc;
        fallback_exception = fallback_exc;
      }
      ∷ f.events;
}

module _ {ℓ κ} {A : Type ℓ} {W : Type κ} (action : Exc → W → Result A × W) where
  -- The `try` of `_invoke_fallback`, after the action ended.
  unfoldable pub after_action : Exc → Result A → Fallback → Result A × Fallback
  after_action exc (ok result) f = (ok result, emit EventType.recovered (some exc) none f)
  after_action exc (raise fb_exc) f = (
    raise fb_exc,
    if is_exception fb_exc then emit EventType.fallback_error (some exc) (some fb_exc) f else f,
  )

  -- `_invoke_fallback`
  unfoldable pub invoke_fallback : Exc → Fallback → W → Result A × Fallback × W
  invoke_fallback exc f w =
      let (answer, w') = action exc w in
      let (result, f') = after_action exc answer f in (result, f', w')

  -- `execute` after `func` ended: `except BaseException` catches every exception.
  unfoldable pub on_result : Result A → Fallback → W → Result A × Fallback × W
  on_result (ok result) f w = (ok result, emit EventType.success none none f, w)
  on_result (raise exc) f w =
      if not (should_fallback f.config exc) then (raise exc, f, w) else invoke_fallback exc f w

  -- `execute`
  unfoldable pub execute : (W → Result A × W) → Fallback → W → Result A × Fallback × W
  execute func f w = let (result, w') = func w in on_result result f w'

  -- `execute_async`: the same over an awaited factory.
  unfoldable pub execute_async : (W → Result A × W) → Fallback → W → Result A × Fallback × W
  execute_async factory f w = let (result, w') = factory w in on_result result f w'
