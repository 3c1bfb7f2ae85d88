-- ===== src/Tests/Data.antt =====
-- What the tests share: exceptions of a few classes, and a clock.
use pysilience.Prelude.{[], ◌∷◌}
use pysilience.Python.{Class, Exc, other, exception_class, base_exception_class, Clock}

abbrev pub io_error : Class
io_error = 20

abbrev pub ignorable : Class
ignorable = 21

-- An exception that is an `Exception`.
abbrev pub boom : Exc
boom = other (io_error ∷ exception_class ∷ base_exception_class ∷ []) 1

abbrev pub harmless : Exc
harmless = other (ignorable ∷ exception_class ∷ base_exception_class ∷ []) 2

-- An exception that is none, such as `KeyboardInterrupt`.
abbrev pub interrupt : Exc
interrupt = other (22 ∷ base_exception_class ∷ []) 3

abbrev pub clock : Clock
clock = record { now = 100; delays = 1 ∷ 2 ∷ 3 ∷ [] }
