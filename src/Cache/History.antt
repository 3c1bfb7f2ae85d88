-- ===== src/Cache/History.antt =====
-- src/pysilience/cache.py: `MemoryBackend` over any sequence of its operations.
use pysilience.Prelude.{ℕ, ◌<◌, Option, List, [], ◌∷◌, arith}
use pysilience.Python.{Clock}
use pysilience.Cache.Memory.{Memory, init, get, put, delete, clear}
use pysilience.Cache.Laws.{IsValid, put-IsValid}
use pysilience.Cache.Reads.{get-IsValid, delete-IsValid}

pub data Operation {ℓ} (K V : Type ℓ) : Type ℓ where
  read : K → Operation K V
  write : K → V → Option ℕ → Operation K V
  drop_key : K → Operation K V
  drop_all : Operation K V

module _ {ℓ} {K V : Type ℓ} (dec : Discrete K) where
  abbrev pub apply : Operation K V → Memory K V → Memory K V
  apply (read key) m = (get dec key m).1
  apply (write key value ttl) m = (put dec key value ttl m).1
  apply (drop_key key) m = (delete dec key m).1
  apply drop_all m = clear dec m

  abbrev pub apply_all : List (Operation K V) → Memory K V → Memory K V
  apply_all [] m = m
  apply_all (op ∷ ops) m = apply_all ops (apply op m)

  apply-IsValid : (op : Operation K V) (m : Memory K V) → IsValid dec m → IsValid dec (apply op m)
  unfolding clear
  apply-IsValid (read key) m h = get-IsValid dec key m h
  apply-IsValid (write key value ttl) m h = put-IsValid dec key value ttl m h
  apply-IsValid (drop_key key) m h = delete-IsValid dec key m h
  apply-IsValid drop_all m h = record {
    positive = h.positive;
    bounded = omega arith;
    distinct = tt;
  }

  -- What any operations make of a valid store is valid.
  apply_all-IsValid :
      (ops : List (Operation K V)) (m : Memory K V) → IsValid dec m → IsValid dec (apply_all ops m)
  apply_all-IsValid [] m h = h
  apply_all-IsValid (op ∷ ops) m h = apply_all-IsValid ops (apply op m) (apply-IsValid op m h)

  -- Whatever sequence of reads, writes and deletions a new backend goes through, and however the
  -- clock moves, its store has at most `max_size` entries, and no key stands in it twice.
  pub history-IsValid :
      (ops : List (Operation K V)) (max_size : ℕ) (ttl : Option ℕ) (clock : Clock)
      → 0 < max_size
      → IsValid dec (apply_all ops (init max_size ttl clock))
  unfolding init
  history-IsValid ops max_size ttl clock h =
      apply_all-IsValid ops (init max_size ttl clock)
        (record { positive = h; bounded = omega arith; distinct = tt })
