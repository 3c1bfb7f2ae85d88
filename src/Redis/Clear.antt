-- ===== src/Redis/Clear.antt =====
-- src/pysilience/cache_redis.py: `clear` ends, and removes exactly the keys of its pattern.
use native.Mathlib.Decide.{ℕ_discrete}
use pysilience.Prelude.{
  ℕ, zero, suc, ◌≤◌, ◌<◌, ◌≡◌, ◌≢◌, refl, ◌∙◌, String, true, false, Option, none, some, List, [],
  ◌∷◌, ◌⊎◌, inl, inr, if◌then◌else◌, arith, Bool-cases, Option-cases,
}
use pysilience.Python.{Exc, Result, ok, raise, Result-cases}
use pysilience.Redis.Client.{RedisClient, IsRedis, Answers, is_in, is_there}
use pysilience.Redis.Answers.{Answers-mono, Answers-then_do, Answers-both}
use pysilience.Redis.Backend.{
  RedisBackend, require_sync, require_async, pattern_of, delete_page, clear_round, clear_loop,
  clear, aclear,
}

module _ {S : Type 0} (client : RedisClient S) (IsError : Exc → Type 0)
    (laws : IsRedis client IsError) (pattern : String) where
  -- Every key of the pattern that is there has still to be returned.
  abbrev IsComplete : ℕ → S → Type 0
  IsComplete cursor s =
      (k : String)
      → laws.matches pattern k ≡ true
      → is_there (laws.view k s) ≡ true
      → laws.IsAhead pattern cursor s k

  -- No key of the pattern is left.
  abbrev pub IsCleared : S → Type 0
  IsCleared s = (k : String) → laws.matches pattern k ≡ true → laws.view k s ≡ none

  -- The entries outside of the pattern are the same.
  abbrev pub KeepsOthers : S → S → Type 0
  KeepsOthers s s' = (j : String) → laws.matches pattern j ≡ false → laws.view j s' ≡ laws.view j s

  -- What a pass leaves: the loop is at its end and all is cleared, or it goes on with less to do.
  abbrev AfterRound : ℕ → S → ℕ → S → Type 0
  AfterRound cursor s next s' =
      KeepsOthers s s'
      × (((next ≡ 0) × IsCleared s')
          ⊎ ((next ≢ 0)
              × (IsComplete next s'
                  × (laws.rounds pattern next s' < laws.rounds pattern cursor s))))

  -- What a page was and what deleting it leaves.
  abbrev AfterPage : List String → S → S → Type 0
  AfterPage keys s s' =
      ((j : String) → laws.view j s' ≡ (if is_in j keys then none else laws.view j s))
      × (((p k : String) (cursor : ℕ) → laws.IsAhead p cursor s k → laws.IsAhead p cursor s' k)
          × ((p : String) (cursor : ℕ) → laws.rounds p cursor s' ≤ laws.rounds p cursor s))

  delete_page-Answers :
      (keys : List String) (s : S)
      → Answers IsError (λ _ s'. AfterPage keys s s') (delete_page client keys s)
  delete_page-Answers [] s = ((λ j. refl), ((λ p k cursor h. h), (λ p cursor. omega arith)))
  delete_page-Answers (k ∷ keys) s =
      Answers-then_do IsError _ _ (client.delete (k ∷ keys) s) _
        (Answers-both IsError _ _ _ (laws.delete_law (k ∷ keys) s)
          (laws.delete_scan_law (k ∷ keys) s))
        (λ n s' h. (h.0.1, h.1))

  -- What `scan` answers, and the server after it.
  abbrev AfterScan : ℕ → S → ℕ × List String → S → Type 0
  AfterScan cursor s page s' =
      ((j : String) → laws.view j s' ≡ laws.view j s)
      × ((k : String) → is_in k page.1 ≡ true → laws.matches pattern k ≡ true)
      × ((k : String)
          → laws.IsAhead pattern cursor s k
          → is_there (laws.view k s) ≡ true
          → (is_in k page.1 ≡ true) ⊎ ((page.0 ≢ 0) × laws.IsAhead pattern page.0 s' k))
      × (page.0 ≢ 0 → laws.rounds pattern page.0 s' < laws.rounds pattern cursor s)

  module _ (cursor : ℕ) (s : S) (complete : IsComplete cursor s) (page : ℕ × List String)
      (s' s'' : S) (scanned : AfterScan cursor s page s') (dropped : AfterPage page.1 s' s'') where
    page-KeepsOthers : KeepsOthers s s''
    page-KeepsOthers j outside = elim (Bool-cases (is_in j page.1)) [
      | inl listed ↦ absurd (ground (arith, outside, scanned.1 j listed))
      | inr unlisted ↦ ground (arith, unlisted, dropped.0 j, scanned.0 j)
    ]

    -- A key of the pattern that is still there was not on the page.
    left_ahead :
        (k : String)
        → laws.matches pattern k ≡ true
        → is_there (laws.view k s'') ≡ true
        → (page.0 ≢ 0) × laws.IsAhead pattern page.0 s' k
    left_ahead k matching there = elim (Bool-cases (is_in k page.1)) [
      | inl listed ↦ absurd (ground (arith, listed, there, dropped.0 k))
      | inr unlisted ↦
          let before : is_there (laws.view k s) ≡ true =
            ground (arith, there, unlisted, dropped.0 k, scanned.0 k) in
          elim (scanned.2 k (complete k matching before) before) [
            | inl listed ↦ absurd (ground (arith, listed, unlisted))
            | inr ahead ↦ ahead
          ]
    ]

    page-AfterRound : AfterRound cursor s page.0 s''
    page-AfterRound = (
      page-KeepsOthers,
      elim (ℕ_discrete page.0 0) [
        | yes last ↦ inl (
          last,
          λ k matching. elim (Option-cases (laws.view k s'')) [
            | inl gone ↦ gone
            | inr (data_, there) ↦ absurd ((left_ahead k matching (ground (arith, there))).0 last)
          ],
        )
        | no more ↦ inr (
          more,
          (
            (λ k matching there. dropped.1.0 pattern k page.0 (left_ahead k matching there).1),
            omega (arith, scanned.3 more, dropped.1.1 pattern page.0),
          ),
        )
      ],
    )

  round-Answers :
      (cursor : ℕ) (s : S)
      → IsComplete cursor s
      → Answers IsError (AfterRound cursor s) (clear_round client pattern cursor s)
  unfolding clear_round
  round-Answers cursor s complete =
      Answers-then_do IsError (AfterScan cursor s) (AfterRound cursor s)
        (client.scan cursor pattern s) _ (laws.scan_law cursor pattern s)
        (λ page s' scanned.
          Answers-then_do IsError (λ _ s''. AfterPage page.1 s' s'') (AfterRound cursor s)
            (delete_page client page.1 s') _ (delete_page-Answers page.1 s')
            (λ _ s'' dropped. page-AfterRound cursor s complete page s' s'' scanned dropped))

  -- The loop has ended, and unless it raised, the keys of the pattern are gone and the others kept.
  abbrev pub IsDone : S → Option (Result (Unit {0}) × S) → Type 0
  IsDone s o =
      (r : Result (Unit {0}) × S) × ((o ≡ some r)
        × Answers IsError (λ _ s'. IsCleared s' × KeepsOthers s s') r)

  loop-IsDone :
      (fuel cursor : ℕ) (s : S)
      → IsComplete cursor s
      → laws.rounds pattern cursor s < fuel
      → IsDone s (clear_loop client pattern fuel cursor s)
  unfolding clear_loop
  loop-IsDone zero cursor s complete enough = absurd (omega arith)
  loop-IsDone (suc fuel) cursor s complete enough =
      let after = round-Answers cursor s complete in
      let s' = (clear_round client pattern cursor s).1 in
      elim (Result-cases (clear_round client pattern cursor s).0) [
        | inr (exc, raised) ↦ ((raise exc, s'), (ground (arith, raised), rw raised at after))
        | inl (next, passed) ↦
            let now : AfterRound cursor s next s' = rw passed at after in
            elim now.1 [
              | inl (last, cleared) ↦
                  ((ok tt, s'), (ground (arith, passed, last), (cleared, now.0)))
              | inr (more, (complete', less)) ↦
                  let (r, (ended, promised)) = loop-IsDone fuel next s' complete' (omega arith) in
                  (
                    r,
                    (
                      ground (arith, passed, more, ended),
                      Answers-mono IsError _ _ r
                          (λ _ s'' h. (h.0, λ j outside. h.1 j outside ∙ now.0 j outside)) promised,
                    ),
                  )
            ]
      ]

  clear_loop-IsDone :
      (fuel : ℕ) (s : S)
      → laws.rounds pattern 0 s < fuel
      → IsDone s (clear_loop client pattern fuel 0 s)
  clear_loop-IsDone fuel s enough =
      loop-IsDone fuel 0 s (λ k matching there. laws.start_law pattern k s matching there) enough

module _ {V S : Type 0} (client : RedisClient S) (IsError : Exc → Type 0)
    (laws : IsRedis client IsError) where
  -- `clear` ends within as many passes as its iteration over the keys has, and, unless the client
  -- raises one of its errors, no key of the prefix's pattern is left and every other entry is as it
  -- was.
  pub clear-IsDone :
      (b : RedisBackend V S) (fuel : ℕ) (s : S)
      → b.sync_client ≡ some client
      → laws.rounds (pattern_of b) 0 s < fuel
      → IsDone client IsError laws (pattern_of b) s (clear fuel b s)
  unfolding clear require_sync
  clear-IsDone b fuel s given enough =
      rw given (clear_loop-IsDone client IsError laws (pattern_of b) fuel s enough)

  -- The same of `aclear` and the asynchronous client.
  pub aclear-IsDone :
      (b : RedisBackend V S) (fuel : ℕ) (s : S)
      → b.async_client ≡ some client
      → laws.rounds (pattern_of b) 0 s < fuel
      → IsDone client IsError laws (pattern_of b) s (aclear fuel b s)
  unfolding aclear require_async
  aclear-IsDone b fuel s given enough =
      rw given (clear_loop-IsDone client IsError laws (pattern_of b) fuel s enough)
