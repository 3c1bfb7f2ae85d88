-- ===== src/Redis/Reads.antt =====
-- src/pysilience/cache_redis.py: what `get`, `put` and `delete` do to the entries that a reader sees.
use pysilience.Prelude.{
  ◌≡◌, refl, ap, ◌∙◌, String, Bool, Option, none, some, ◌⊎◌, inl, inr, if◌then◌else◌, arith,
  Bool-cases, Option-cases,
}
use text.Mathlib.Text.{◌==◌ as str_eq}
use pysilience.Python.{Exc, Result, ok, raise, Bytes, Result-cases}
use pysilience.Serializer.Protocol.{Refuses}
use pysilience.Redis.Client.{RedisClient, IsRedis}
use pysilience.Redis.Backend.{Platform, RedisBackend, loaded, load, key_of, found, get_by}

module _ {K V S : Type 0} (p : Platform K) (client : RedisClient S) (IsError : Exc → Type 0)
    (laws : IsRedis client IsError) (b : RedisBackend V S) where
  -- What a reader of a Redis key finds.
  abbrev pub read_raw : Option Bytes → Result (Option V)
  read_raw none = ok none
  read_raw (some raw) = load b raw

  abbrev pub read : K → S → Result (Option V)
  read key s = read_raw (laws.view (key_of p b key) s)

  -- Whether two keys are stored under the same Redis key.
  abbrev pub same_key : K → K → Bool
  same_key q key = str_eq (key_of p b q) (key_of p b key)

  found-read :
      (o : Option Bytes) (s : S) → ((found p b o s).0 ≡ read_raw o) × ((found p b o s).1 ≡ s)
  found-read none s = (refl, refl)
  found-read (some raw) s = (refl, refl)

  get_by-found :
      (key : K) (s : S) (o : Option Bytes)
      → (client.get (key_of p b key) s).0 ≡ ok o
      → get_by p b key client s ≡ found p b o (client.get (key_of p b key) s).1
  get_by-found key s o answered = rw (answered, get_by) refl

  -- A call raises one of the errors of the client, or it gives what a reader finds and changes
  -- nothing.
  pub get_by-read :
      (key : K) (s : S)
      → ((exc : Exc) × (IsError exc × ((get_by p b key client s).0 ≡ raise exc)))
        ⊎ (((get_by p b key client s).0 ≡ read key s)
            × ((j : String) → laws.view j (get_by p b key client s).1 ≡ laws.view j s))
  get_by-read key s =
      let promised = laws.get_law (key_of p b key) s in
      elim (Result-cases (client.get (key_of p b key) s).0) [
        | inr (exc, raised) ↦ inl (exc, (rw raised at promised, ground (arith, raised)))
        | inl (o, answered) ↦
            let now : (o ≡ laws.view (key_of p b key) s)
                × ((j : String) → laws.view j (client.get (key_of p b key) s).1 ≡ laws.view j s) =
              rw answered at promised in
            inr (
              ap (λ r. r.0) (get_by-found key s o answered)
                  ∙ (found-read o (client.get (key_of p b key) s).1).0
                  ∙ ap read_raw now.0,
              λ j.
                  ap (λ r. laws.view j r.1) (get_by-found key s o answered)
                  ∙ ap (laws.view j) (found-read o (client.get (key_of p b key) s).1).1
                  ∙ now.1 j,
            )
      ]

  -- A serializer that refuses by `ValueError` alone makes every entry a value or a miss.
  pub read-Refuses : (key : K) (s : S) → Refuses b.serializer → (o : Option V) × (read key s ≡ ok o)
  unfolding load loaded
  read-Refuses key s refuses = elim (Option-cases (laws.view (key_of p b key) s)) [
    | inl missing ↦ (none, ground (arith, missing))
    | inr (raw, there) ↦ elim (Result-cases (b.serializer.loads raw)) [
      | inl (v, restored) ↦ (some v, ground (arith, there, restored))
      | inr (exc, refused) ↦ (none, ground (arith, there, refused, refuses raw exc refused))
    ]
  ]

  -- After a write of `new`, a reader of its key finds what `new` reads as; others find what they did.
  abbrev pub Rewritten : K → Option Bytes → S → S → Type 0
  Rewritten key new s s' = (q : K) → read q s' ≡ (if same_key q key then read_raw new else read q s)

  pub rewritten :
      (key : K) (new : Option Bytes) (s s' : S)
      → ((j : String) → laws.view j s' ≡ (if str_eq j (key_of p b key) then new else laws.view j s))
      → Rewritten key new s s'
  rewritten key new s s' h q = elim (Bool-cases (same_key q key)) [
    | inl same ↦ ground (arith, same, h (key_of p b q))
    | inr other ↦ ground (arith, other, h (key_of p b q))
  ]
