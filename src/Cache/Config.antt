-- ===== src/Cache/Config.antt =====
-- src/pysilience/cache.py: `CacheConfig` with its checks, the events, and the protocol
-- `CacheBackend`.
use pysilience.Prelude.{
  ℕ, String, ◌<◌, ◌≡◌, ◌↔◌, Bool, false, Option, none, some, if◌then◌else◌, arith,
}
use pysilience.Python.{Exc, value_error, Result, ok, raise, ℤ, pos, ltb_ℤ, leb_ℤ, to_ℕ}

pub record Config : Type 0 where
  pub max_size : ℕ
  pub ttl : Option ℕ

-- The arguments of the dataclass, before `__post_init__`.
pub record Args : Type 0 where
  pub max_size : ℤ
  pub ttl : Option ℤ

abbrev to_ttl : Option ℤ → Option ℕ
to_ttl none = none
to_ttl (some t) = some (to_ℕ t)

abbrev of_ttl : Option ℕ → Option ℤ
of_ttl none = none
of_ttl (some t) = some (pos t)

-- `ttl is not None and ttl <= 0`
abbrev is_not_positive : Option ℤ → Bool
is_not_positive none = false
is_not_positive (some t) = leb_ℤ t 0

-- `__post_init__`
unfoldable pub post_init : Args → Result Config
post_init a =
    if ltb_ℤ a.max_size 1
    then raise value_error
    else if is_not_positive a.ttl
    then raise value_error
    else ok (record { max_size = to_ℕ a.max_size; ttl = to_ttl a.ttl })

abbrev IsPositive : Option ℕ → Type 0
IsPositive none = Unit
IsPositive (some t) = 0 < t

-- What the checks promise.
pub record IsConfig (c : Config) : Type 0 where
  pub size_pos : 0 < c.max_size
  pub ttl_pos : IsPositive c.ttl

abbrev pub args_of : Config → Args
args_of c = record { max_size = pos c.max_size; ttl = of_ttl c.ttl }

-- The checks pass exactly the arguments of a valid configuration, and build that configuration.
pub cache-post_init_accepts :
    (a : Args) (c : Config) → (post_init a ≡ ok c) ↔ ((a ≡ args_of c) × IsConfig c)
unfolding post_init
cache-post_init_accepts a c = (λ h. (ground arith, ground arith), λ h. ground arith)

pub data EventType : Type 0 where
  hit miss error : EventType

pub record Event {ℓ} (K : Type ℓ) : Type ℓ where
  pub event_type : EventType
  pub name : String
  pub key : K
  pub exception : Option Exc

-- The protocol that a backend satisfies: `none` from `get` is the sentinel `_MISS`, and any
-- operation may raise.
pub record CacheBackend {ℓ} (K V B : Type ℓ) : Type ℓ where
  pub get : K → B → Result (Option V) × B
  pub put : K → V → Option ℕ → B → Result (Unit {0}) × B
  pub delete : K → B → Result Bool × B
  pub clear : B → Result (Unit {0}) × B
  pub aget : K → B → Result (Option V) × B
  pub aput : K → V → Option ℕ → B → Result (Unit {0}) × B
  pub adelete : K → B → Result Bool × B
  pub aclear : B → Result (Unit {0}) × B
