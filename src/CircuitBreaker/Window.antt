-- ===== src/CircuitBreaker/Window.antt =====
-- src/pysilience/circuitbreaker.py: the sliding window of `_window_record` against the history of
-- all outcomes.
use pysilience.Prelude.{
  ℕ, suc, ◌+◌, ◌-◌, ◌≤◌, ◌<◌, ◌≡◌, refl, ◌∙◌, ap, sym, Bool, true, false, List, [], ◌∷◌, ◌++◌,
  length, drop, length-append, length-drop, drop-drop_one, drop-append, last, arith, if◌then◌else◌,
}
use native.Mathlib.Decide.{dec_lt}
use mathlib.Core.List.{append_assoc, append-nil}
use pysilience.CircuitBreaker.Breaker.{Breaker, failures, append, evicts_failure, window_record}

pub failures-append : (xs ys : List Bool) → failures (xs ++ ys) ≡ failures xs + failures ys
failures-append [] ys = omega arith
failures-append (true ∷ xs) ys = omega (arith, failures-append xs ys)
failures-append (false ∷ xs) ys = omega (arith, failures-append xs ys)

pub failures-le-length : (xs : List Bool) → failures xs ≤ length xs
failures-le-length [] = omega arith
failures-le-length (true ∷ xs) = omega (arith, failures-le-length xs)
failures-le-length (false ∷ xs) = omega (arith, failures-le-length xs)

-- A deque grows by one until it is full, and then keeps its length.
pub length-append_deque :
    (n : ℕ) (w : List Bool) (x : Bool)
    → 0 < n
    → length w ≤ n
    → (length (append n w x) ≤ n) × (0 < length (append n w x)) × (length w ≤ length (append n w x))
length-append_deque n [] x p h = omega arith
length-append_deque n (v ∷ w) x p h =
    ground (arith, length-append w (x ∷ []), length-append (v ∷ w) (x ∷ []))

-- The failures in the deque after an append, without the evicted one.
pub failures-append_deque :
    (n : ℕ) (w : List Bool) (x : Bool)
    → failures (append n w x) + (if evicts_failure n w then 1 else 0)
      ≡ failures w + (if x then 0 else 1)
failures-append_deque n [] x = ground arith
failures-append_deque n (v ∷ w) x =
    ground (arith, failures-append w (x ∷ []), failures-append (v ∷ w) (x ∷ []))

evicts-failures : (n : ℕ) (w : List Bool) → evicts_failure n w ≡ true → 0 < failures w
evicts-failures n [] h = ground arith
evicts-failures n (v ∷ w) h = ground arith

-- The counter still counts the failures of the window, and a decrement never starts from zero.
pub window_record-counted :
    (success : Bool) (b : Breaker)
    → b.failure_count ≡ failures b.window
    → (window_record success b).failure_count ≡ failures (window_record success b).window
unfolding window_record
window_record-counted success b h = ground (
  arith,
  failures-append_deque b.config.sliding_window_size b.window success,
  evicts-failures b.config.sliding_window_size b.window,
)

append_room : (n : ℕ) (w : List Bool) (x : Bool) → length w < n → append n w x ≡ w ++ (x ∷ [])
append_room n [] x h = refl
append_room n (v ∷ w) x h = ground arith

append_full :
    (n : ℕ) (w : List Bool) (x : Bool) → length w ≡ n → 0 < n → append n w x ≡ drop 1 w ++ (x ∷ [])
append_full n [] x h p = absurd (omega arith)
append_full n (v ∷ w) x h p = ground arith

-- The deque holds the last `n` outcomes before and after an append.
append-last :
    (n : ℕ) (h : List Bool) (x : Bool) → 0 < n → append n (last n h) x ≡ last n (h ++ (x ∷ []))
append-last n h x p = elim (dec_lt (length h) n) [
  | yes room ↦
      let short : length h - n ≡ 0 = omega arith in
      let still : length (h ++ (x ∷ [])) - n ≡ 0 = omega (arith, length-append h (x ∷ [])) in
      rw (short, still) (append_room n h x room)
  | no full ↦
      let k = length h - n in
      let grown : length (h ++ (x ∷ [])) - n ≡ suc k = omega (arith, length-append h (x ∷ [])) in
      rw grown (
        append_full n (drop k h) x (omega (arith, length-drop k h)) p
        ∙ ap (λ w. w ++ (x ∷ [])) (drop-drop_one k h)
        ∙ sym (drop-append (suc k) h (x ∷ []) (omega arith)))
]

-- Outcomes recorded one after the other.
abbrev pub record_all : List Bool → Breaker → Breaker
record_all [] b = b
record_all (x ∷ xs) b = record_all xs (window_record x b)

-- Recording keeps the deque equal to the last `sliding_window_size` outcomes of the whole history,
-- the oldest first, and the counter equal to their failures.
pub record_all-last :
    (xs h : List Bool) (b : Breaker)
    → 0 < b.config.sliding_window_size
    → b.window ≡ last b.config.sliding_window_size h
    → b.failure_count ≡ failures b.window
    → ((record_all xs b).window ≡ last b.config.sliding_window_size (h ++ xs))
      × ((record_all xs b).failure_count ≡ failures (record_all xs b).window)
unfolding window_record
record_all-last [] h b p w c = (w ∙ ap (last b.config.sliding_window_size) (sym (append-nil h)), c)
record_all-last (x ∷ xs) h b p w c =
    let next = window_record x b in
    let size = b.config.sliding_window_size in
    let shown : next.window ≡ last size (h ++ (x ∷ [])) =
      ap (λ v. append size v x) w ∙ append-last size h x p in
    rw (← append_assoc h (x ∷ []) xs)
      (record_all-last xs (h ++ (x ∷ [])) next p shown (window_record-counted x b c))
