-- ===== src/Core/Registry.antt =====
-- src/pysilience/core/registry.py: the registry, a dict from kinds and names to instances, in the
-- order of insertion. Each operation holds the module's lock throughout.
use pysilience.Prelude.{
  ◌≡◌, ◌≢◌, refl, Bool, ◌&&◌, Option, none, some, List, [], ◌∷◌, String, if◌then◌else◌, arith,
  Bool-cases, ◌⊎◌, inl, inr,
}
use text.Mathlib.Text.{◌==◌ as str_eq}
use text.Mathlib.TextEquality.{eq_iff}
use pysilience.Python.{value_error, Result, ok, raise}

abbrev pub Key : Type 0
Key = String × String

abbrev pub same_key : Key → Key → Bool
same_key (k, n) (l, m) = str_eq k l && str_eq n m

module _ {ℓ} {I : Type ℓ} where
  -- `_instances[key] = instance`
  unfoldable pub assign : Key → I → List (Key × I) → List (Key × I)
  assign key i [] = (key, i) ∷ []
  assign key i ((l, j) ∷ d) = if same_key l key then (l, i) ∷ d else (l, j) ∷ assign key i d

  -- `register`
  unfoldable pub register :
      String → String → I → List (Key × I) → Result (Unit {0}) × List (Key × I)
  register kind name instance_ d =
      if str_eq name "" then (raise value_error, d) else (ok tt, assign (kind, name) instance_ d)

  -- `unregister`
  unfoldable pub unregister : String → String → List (Key × I) → List (Key × I)
  unregister kind name [] = []
  unregister kind name ((l, j) ∷ d) =
      if same_key l (kind, name) then d else (l, j) ∷ unregister kind name d

  -- `get`
  unfoldable pub get : String → String → List (Key × I) → Option I
  get kind name [] = none
  get kind name ((l, j) ∷ d) = if same_key l (kind, name) then some j else get kind name d

  -- `clear`
  unfoldable pub clear : List (Key × I) → List (Key × I)
  clear d = []

  -- `iter_by_kind`: the snapshot that it yields from.
  unfoldable pub iter_by_kind : String → List (Key × I) → List (String × I)
  iter_by_kind kind [] = []
  iter_by_kind kind (((k, n), j) ∷ d) =
      let rest = iter_by_kind kind d in if str_eq k kind then (n, j) ∷ rest else rest

  -- `all_instances`
  unfoldable pub all_instances : List (Key × I) → List (Key × I)
  all_instances d = d

  -- The instance under a name among those of one kind.
  abbrev pub find_name : String → List (String × I) → Option I
  find_name name [] = none
  find_name name ((n, j) ∷ l) = if str_eq n name then some j else find_name name l

  -- Iterating over a kind yields, under each name, what `get` returns for the kind and the name.
  pub find_name-iter_by_kind :
      (kind name : String) (d : List (Key × I))
      → find_name name (iter_by_kind kind d) ≡ get kind name d
  unfolding iter_by_kind get
  find_name-iter_by_kind kind name [] = refl
  find_name-iter_by_kind kind name (((k, n), j) ∷ d) =
      ground (arith, find_name-iter_by_kind kind name d)

  pub get-assign :
      (kind name k n : String) (i : I) (d : List (Key × I))
      → get kind name (assign (k, n) i d)
        ≡ (if same_key (k, n) (kind, name) then some i else get kind name d)
  unfolding get assign
  get-assign kind name k n i [] = refl
  get-assign kind name k n i (((l, m), j) ∷ d) = ground (
    arith,
    eq_iff l k,
    eq_iff m n,
    eq_iff l kind,
    eq_iff m name,
    eq_iff k kind,
    eq_iff n name,
    get-assign kind name k n i d,
  )

  -- Registering under a name that is not empty makes `get` return the new instance for that kind
  -- and name, in place of an earlier one, and leaves every other answer as it was; under the empty
  -- name it raises and changes nothing.
  pub get-register :
      (kind name k n : String) (i : I) (d : List (Key × I))
      → let (answer, d') = register k n i d in
        ((n ≡ "") × (answer ≡ raise value_error) × (d' ≡ d))
        ⊎ ((n ≢ "")
            × (answer ≡ ok tt)
            × (get kind name d'
                ≡ (if same_key (k, n) (kind, name) then some i else get kind name d)))
  unfolding register
  get-register kind name k n i d = elim (Bool-cases (str_eq n "")) [
    | inl empty ↦ rw empty (inl ((eq_iff n "").0 empty, refl, refl))
    | inr named ↦
        rw named (inr ((λ e. cc (named, (eq_iff n "").1 e)), refl, get-assign kind name k n i d))
  ]
