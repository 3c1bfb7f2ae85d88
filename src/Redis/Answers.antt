-- ===== src/Redis/Answers.antt =====
-- Calls of the client of Redis one after the other.
use pysilience.Python.{Exc, Result, ok, raise}
use pysilience.Redis.Client.{Answers}
use pysilience.Redis.Backend.{then_do}

-- A promise that follows from another.
pub Answers-mono :
    {S A : Type 0} (IsError : Exc → Type 0) (P Q : A → S → Type 0) (r : Result A × S)
    → ((a : A) (s : S) → P a s → Q a s)
    → Answers IsError P r
    → Answers IsError Q r
Answers-mono IsError P Q (ok a, s) f h = f a s h
Answers-mono IsError P Q (raise exc, s) f h = h

pub Answers-then_do :
    {S A B : Type 0} (IsError : Exc → Type 0) (P : A → S → Type 0) (Q : B → S → Type 0)
    (r : Result A × S) (f : A → S → Result B × S)
    → Answers IsError P r
    → ((a : A) (s : S) → P a s → Answers IsError Q (f a s))
    → Answers IsError Q (then_do r f)
Answers-then_do IsError P Q (ok a, s) f h g = g a s h
Answers-then_do IsError P Q (raise exc, s) f h g = h

pub Answers-both :
    {S A : Type 0} (IsError : Exc → Type 0) (P Q : A → S → Type 0) (r : Result A × S)
    → Answers IsError P r
    → Answers IsError Q r
    → Answers IsError (λ a s. P a s × Q a s) r
Answers-both IsError P Q (ok a, s) h g = (h, g)
Answers-both IsError P Q (raise exc, s) h g = h
