-- ===== src/Redis/Client.antt =====
-- The client of Redis that src/pysilience/cache_redis.py calls: a parameter, with the state `S` of the
-- server and what is relied on of it.
use pysilience.Prelude.{
  ℕ, ◌≤◌, ◌<◌, ◌≡◌, ◌≢◌, String, Bool, true, false, ◌||◌, Option, none, some, List, [], ◌∷◌, ◌⊎◌,
  ltb, any_of, if◌then◌else◌,
}
use text.Mathlib.Text.{◌==◌ as str_eq}
use pysilience.Python.{Exc, Result, ok, raise, Bytes}

-- `setex` takes whole seconds, `delete` several keys and answers how many there were, and `scan` a
-- cursor and a pattern.
pub record RedisClient (S : Type 0) : Type 0 where
  pub get : String → S → Result (Option Bytes) × S
  pub set : String → Bytes → S → Result (Unit {0}) × S
  pub setex : String → ℕ → Bytes → S → Result (Unit {0}) × S
  pub delete : List String → S → Result ℕ × S
  pub scan : ℕ → String → S → Result (ℕ × List String) × S

-- `key in keys`
abbrev pub is_in : String → List String → Bool
is_in key [] = false
is_in key (k ∷ keys) = str_eq key k || is_in key keys

abbrev pub is_there : Option Bytes → Bool
is_there none = false
is_there (some _) = true

-- A call either answers as promised or raises one of the errors of the client.
abbrev pub Answers : {S A : Type 0} → (Exc → Type 0) → (A → S → Type 0) → Result A × S → Type 0
Answers IsError Promise (ok a, s) = Promise a s
Answers IsError Promise (raise exc, s) = IsError exc

-- What is relied on of the client and the server. `view` is the entry that the server holds under a
-- key, and `expiry` the seconds that it was given; `matches` is how the server reads patterns.
-- Entries that the server drops by itself are a step of their own, elsewhere.
pub record IsRedis {S : Type 0} (client : RedisClient S) (IsError : Exc → Type 0) : Type 1 where
  pub view : String → S → Option Bytes
  pub expiry : String → S → Option ℕ
  pub matches : String → String → Bool
  -- `get` reads.
  pub get_law :
      (k : String) (s : S)
      → Answers IsError
          (λ r s'. (r ≡ view k s) × ((j : String) → view j s' ≡ view j s))
          (client.get k s)
  -- `set` and `setex` write one entry.
  pub set_law :
      (k : String) (data_ : Bytes) (s : S)
      → Answers IsError
          (λ r s'.
            (expiry k s' ≡ none)
            × ((j : String) → view j s' ≡ (if str_eq j k then some data_ else view j s)))
          (client.set k data_ s)
  pub setex_law :
      (k : String) (seconds : ℕ) (data_ : Bytes) (s : S)
      → 0 < seconds
      → Answers IsError
          (λ r s'.
            (expiry k s' ≡ some seconds)
            × ((j : String) → view j s' ≡ (if str_eq j k then some data_ else view j s)))
          (client.setex k seconds data_ s)
  -- `delete` removes its keys and answers how many were there.
  pub delete_law :
      (keys : List String) (s : S)
      → Answers IsError
          (λ n s'.
            (ltb 0 n ≡ any_of (λ k. is_there (view k s)) keys)
            × ((j : String) → view j s' ≡ (if is_in j keys then none else view j s)))
          (client.delete keys s)
  -- An iteration by `scan` returns each matching key that is there from its start to its end.
  -- `IsAhead` says that a key has still to be returned; `rounds` bounds the calls that are left.
  pub IsAhead : String → ℕ → S → String → Type 0
  pub rounds : String → ℕ → S → ℕ
  pub start_law :
      (pattern k : String) (s : S)
      → matches pattern k ≡ true
      → is_there (view k s) ≡ true
      → IsAhead pattern 0 s k
  pub scan_law :
      (cursor : ℕ) (pattern : String) (s : S)
      → Answers IsError
          (λ page s'.
            ((j : String) → view j s' ≡ view j s)
            × ((k : String) → is_in k page.1 ≡ true → matches pattern k ≡ true)
            × ((k : String)
                → IsAhead pattern cursor s k
                → is_there (view k s) ≡ true
                → (is_in k page.1 ≡ true) ⊎ ((page.0 ≢ 0) × IsAhead pattern page.0 s' k))
            × (page.0 ≢ 0 → rounds pattern page.0 s' < rounds pattern cursor s))
          (client.scan cursor pattern s)
  -- Deleting does not disturb an iteration.
  pub delete_scan_law :
      (keys : List String) (s : S)
      → Answers IsError
          (λ n s'.
            ((pattern k : String) (cursor : ℕ)
              → IsAhead pattern cursor s k
              → IsAhead pattern cursor s' k)
            × ((pattern : String) (cursor : ℕ)
                → rounds pattern cursor s' ≤ rounds pattern cursor s))
          (client.delete keys s)
