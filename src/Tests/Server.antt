-- ===== src/Tests/Server.antt =====
-- A server for src/pysilience/cache_redis.py: it has two keys, which it returns on two pages, and it
-- keeps to what is relied on of Redis.

use text.Mathlib.Text.{◌==◌ as str_eq}
use text.Mathlib.TextEquality.{eq_iff}
use pysilience.Prelude.{
  ℕ, zero, suc, ◌<◌, ◌≤◌, ◌≡◌, ◌≢◌, refl, String, Bool, true, false, ◌&&◌, ◌||◌, Option, none, some,
  List, [], ◌∷◌, ◌⊎◌, inl, inr, if◌then◌else◌, ltb, any_of, arith, Bool-cases,
}
use pysilience.Python.{Exc, runtime_error, ok, raise, Bytes}
use pysilience.Redis.Client.{RedisClient, IsRedis, is_in, is_there, Answers}

-- Each key holds bytes and the seconds that they were given.
abbrev pub Server : Type 0
Server = String → Option (Bytes × Option ℕ)

abbrev first_key : String
first_key = "pysilience:1"

abbrev second_key : String
second_key = "pysilience:2"

abbrev is_known : String → Bool
is_known k = str_eq k first_key || str_eq k second_key

abbrev bytes_of : Option (Bytes × Option ℕ) → Option Bytes
bytes_of none = none
bytes_of (some e) = some e.0

abbrev seconds_left : Option (Bytes × Option ℕ) → Option ℕ
seconds_left none = none
seconds_left (some e) = e.1

abbrev see : String → Server → Option Bytes
see k s = if is_known k then bytes_of (s k) else none

abbrev write : String → Bytes × Option ℕ → Server → Server
write k e s j = if str_eq j k then some e else s j

abbrev count_there : List String → Server → ℕ
count_there [] s = 0
count_there (k ∷ keys) s = let n = count_there keys s in if is_there (see k s) then suc n else n

abbrev page_of : String → String → Server → List String
page_of k pattern s = if str_eq pattern "pysilience:*" && is_there (see k s) then k ∷ [] else []

abbrev scan_page : ℕ → String → Server → ℕ × List String
scan_page zero pattern s = (1, page_of first_key pattern s)
scan_page (suc _) pattern s = (0, page_of second_key pattern s)

abbrev pub client : RedisClient Server
client = record {
  get = λ k s. (ok (see k s), s);
  set = λ k data_ s.
      if is_known k then (ok tt, write k (data_, none) s) else (raise runtime_error, s);
  setex = λ k seconds data_ s.
      if is_known k then (ok tt, write k (data_, some seconds) s) else (raise runtime_error, s);
  delete = λ keys s. (ok (count_there keys s), λ j. if is_in j keys then none else s j);
  scan = λ cursor pattern s. (ok (scan_page cursor pattern s), s);
}

abbrev pub IsError : Exc → Type 0
IsError exc = exc ≡ runtime_error

abbrev Ahead : String → ℕ → Server → String → Type 0
Ahead pattern zero s k = str_eq pattern "pysilience:*" ≡ true
Ahead pattern (suc _) s k = (str_eq pattern "pysilience:*" ≡ true) × (str_eq k first_key ≡ false)

abbrev left : String → ℕ → Server → ℕ
left pattern zero s = 1
left pattern (suc _) s = 0

see-write :
    (k : String) (e : Bytes × Option ℕ) (s : Server) (j : String)
    → is_known k ≡ true
    → see j (write k e s) ≡ (if str_eq j k then some e.0 else see j s)
see-write k e s j known = elim (Bool-cases (str_eq j k)) [
  | inl same ↦
      let known' : is_known j ≡ true = rw ((eq_iff j k).0 same) known in
      ground (arith, same, known')
  | inr other ↦ ground (arith, other)
]

pub count-there :
    (keys : List String) (s : Server)
    → ltb 0 (count_there keys s) ≡ any_of (λ k. is_there (see k s)) keys
count-there [] s = refl
count-there (k ∷ keys) s = ground (arith, count-there keys s)

pub set_law :
    (k : String) (data_ : Bytes) (s : Server)
    → Answers IsError
        (λ _ s'.
          (seconds_left (s' k) ≡ none)
          × ((j : String) → see j s' ≡ (if str_eq j k then some data_ else see j s)))
        (client.set k data_ s)
set_law k data_ s = elim (Bool-cases (is_known k)) [
  | inl known ↦ rw known (rw ((eq_iff k k).1 refl) refl, λ j. see-write k (data_, none) s j known)
  | inr unknown ↦ rw unknown refl
]

pub setex_law :
    (k : String) (seconds : ℕ) (data_ : Bytes) (s : Server)
    → Answers IsError
        (λ _ s'.
          (seconds_left (s' k) ≡ some seconds)
          × ((j : String) → see j s' ≡ (if str_eq j k then some data_ else see j s)))
        (client.setex k seconds data_ s)
setex_law k seconds data_ s = elim (Bool-cases (is_known k)) [
  | inl known ↦
      rw known (rw ((eq_iff k k).1 refl) refl, λ j. see-write k (data_, some seconds) s j known)
  | inr unknown ↦ rw unknown refl
]

pub see-delete :
    (keys : List String) (s : Server) (j : String)
    → see j (λ i. if is_in i keys then none else s i) ≡ (if is_in j keys then none else see j s)
see-delete keys s j = ground arith

abbrev matching : String → String → Bool
matching pattern k = str_eq pattern "pysilience:*" && is_known k

page-listed :
    (key k pattern : String) (s : Server)
    → is_in k (page_of key pattern s) ≡ true
    → (k ≡ key) × (str_eq pattern "pysilience:*" ≡ true)
page-listed key k pattern s h = ground (arith, h, eq_iff k key)

page-matching :
    (key k pattern : String) (s : Server)
    → is_known key ≡ true
    → is_in k (page_of key pattern s) ≡ true
    → matching pattern k ≡ true
page-matching key k pattern s known h =
    let (same, all) = page-listed key k pattern s h in rw same (rw all known)

on_page :
    (key k pattern : String) (s : Server)
    → str_eq pattern "pysilience:*" ≡ true
    → str_eq k key ≡ true
    → is_there (see k s) ≡ true
    → is_in k (page_of key pattern s) ≡ true
on_page key k pattern s all same there =
    let there' : is_there (see key s) ≡ true = rw (← (eq_iff k key).0 same) there in
    ground (arith, all, same, there')

pub scan_law :
    (cursor : ℕ) (pattern : String) (s : Server)
    → Answers IsError
        (λ page s'.
          ((j : String) → see j s' ≡ see j s)
          × ((k : String) → is_in k page.1 ≡ true → matching pattern k ≡ true)
          × ((k : String)
              → Ahead pattern cursor s k
              → is_there (see k s) ≡ true
              → (is_in k page.1 ≡ true) ⊎ ((page.0 ≢ 0) × Ahead pattern page.0 s' k))
          × (page.0 ≢ 0 → left pattern page.0 s' < left pattern cursor s))
        (client.scan cursor pattern s)
scan_law zero pattern s = (
  (λ j. refl),
  (λ k listed. page-matching first_key k pattern s refl listed),
  (λ k all there. elim (Bool-cases (str_eq k first_key)) [
    | inl first ↦ inl (on_page first_key k pattern s all first there)
    | inr other ↦ inr ((λ e. absurd (omega arith)), (all, other))
  ]),
  (λ _. omega arith),
)
scan_law (suc c) pattern s = (
  (λ j. refl),
  (λ k listed. page-matching second_key k pattern s refl listed),
  (λ k ahead there.
      inl (on_page second_key k pattern s ahead.0 (ground (arith, ahead.1, there)) there)),
  (λ ne. absurd (ne refl)),
)

pub deleted-Ahead :
    (pattern k : String) (cursor : ℕ) (s s' : Server)
    → Ahead pattern cursor s k
    → Ahead pattern cursor s' k
deleted-Ahead pattern k zero s s' h = h
deleted-Ahead pattern k (suc c) s s' h = h

pub deleted_left :
    (pattern : String) (cursor : ℕ) (s s' : Server) → left pattern cursor s' ≤ left pattern cursor s
deleted_left pattern zero s s' = omega arith
deleted_left pattern (suc c) s s' = omega arith

unfoldable pub server_laws : IsRedis client IsError
server_laws = record {
  view = see;
  expiry = λ k s. seconds_left (s k);
  matches = matching;
  get_law = λ k s. (refl, λ j. refl);
  set_law = set_law;
  setex_law = λ k seconds data_ s _. setex_law k seconds data_ s;
  delete_law = λ keys s. (count-there keys s, see-delete keys s);
  IsAhead = Ahead;
  rounds = left;
  start_law = λ pattern k s matches there. ground (arith, matches);
  scan_law = scan_law;
  delete_scan_law = λ keys s. (
    (λ pattern k cursor. deleted-Ahead pattern k cursor s _),
    (λ pattern cursor. deleted_left pattern cursor s _),
  );
}
