-- ===== src/Python/Dict.antt =====
-- `dict` and `collections.OrderedDict`: a list of keys and entries in the order of insertion; in the
-- store of src/pysilience/cache.py the least recently used entry comes first.
use pysilience.Prelude.{
  ℕ, zero, suc, ◌+◌, ◌≤◌, ◌≡◌, ◌≢◌, refl, ◌∙◌, Option, none, some, List, [], ◌∷◌, ◌++◌, length,
  drop, arith,
}
use mathlib.Core.Logic.{ite, if_pos}

module _ {ℓ} {K E : Type ℓ} (dec : Discrete K) where
  -- `d.get(key)`
  unfoldable pub find : K → List (K × E) → Option E
  find k [] = none
  find k ((j, e) ∷ d) = ite (dec j k) (some e) (find k d)

  -- `del d[key]`, if it is there
  unfoldable pub remove : K → List (K × E) → List (K × E)
  remove k [] = []
  remove k ((j, e) ∷ d) = ite (dec j k) d ((j, e) ∷ remove k d)

  -- `d[key] = e`: in place, or at the end
  unfoldable pub assign : K → E → List (K × E) → List (K × E)
  assign k e [] = (k, e) ∷ []
  assign k e ((j, f) ∷ d) = ite (dec j k) ((j, e) ∷ d) ((j, f) ∷ assign k e d)

  -- `d.move_to_end(key)`, for the entry that is there
  unfoldable pub move_to_end : K → E → List (K × E) → List (K × E)
  move_to_end k e d = remove k d ++ ((k, e) ∷ [])

  -- No key stands twice.
  abbrev pub Distinct : List (K × E) → Type ℓ
  Distinct [] = Unit
  Distinct ((k, e) ∷ d) = (find k d ≡ none) × Distinct d

  pub find-append : (k : K) (c d : List (K × E)) → find k c ≡ none → find k (c ++ d) ≡ find k d
  unfolding find
  find-append k [] d h = refl
  find-append k ((j, e) ∷ c) d h = ground (arith, find-append k c d)

  pub find-append_found :
      (k : K) (c d : List (K × E)) (e : E) → find k c ≡ some e → find k (c ++ d) ≡ some e
  unfolding find
  find-append_found k [] d e h = cc
  find-append_found k ((j, f) ∷ c) d e h = ground (arith, find-append_found k c d e)

  pub find-remove_ne : (q k : K) (d : List (K × E)) → q ≢ k → find q (remove k d) ≡ find q d
  unfolding find remove
  find-remove_ne q k [] h = refl
  find-remove_ne q k ((j, e) ∷ d) h = ground (arith, find-remove_ne q k d h)

  pub find-remove_self : (k : K) (d : List (K × E)) → Distinct d → find k (remove k d) ≡ none
  unfolding find remove
  find-remove_self k [] h = refl
  find-remove_self k ((j, e) ∷ d) h = ground (arith, find-remove_self k d h.1)

  pub length-remove :
      (k : K) (e : E) (d : List (K × E)) → find k d ≡ some e → length (remove k d) + 1 ≡ length d
  unfolding find remove
  length-remove k e [] h = cc
  length-remove k e ((j, f) ∷ d) h = ground (arith, length-remove k e d)

  pub length-remove-le : (k : K) (d : List (K × E)) → length (remove k d) ≤ length d
  unfolding remove
  length-remove-le k [] = omega arith
  length-remove-le k ((j, f) ∷ d) = ground (arith, length-remove-le k d)

  pub remove-Distinct : (k : K) (d : List (K × E)) → Distinct d → Distinct (remove k d)
  unfolding remove
  remove-Distinct k [] h = h
  remove-Distinct k ((j, e) ∷ d) h = ground (arith, remove-Distinct k d h.1, find-remove_ne j k d)

  pub assign_absent :
      (k : K) (e : E) (d : List (K × E)) → find k d ≡ none → assign k e d ≡ d ++ ((k, e) ∷ [])
  unfolding find assign
  assign_absent k e [] h = refl
  assign_absent k e ((j, f) ∷ d) h = ground (arith, assign_absent k e d)

  pub assign-append_self :
      (k : K) (e f : E) (d : List (K × E))
      → find k d ≡ none
      → assign k e (d ++ ((k, f) ∷ [])) ≡ d ++ ((k, e) ∷ [])
  unfolding find assign
  assign-append_self k e f [] h = if_pos (dec k k) refl _ _
  assign-append_self k e f ((j, g) ∷ d) h = ground (arith, assign-append_self k e f d)

  find_one : (k : K) (e : E) → find k ((k, e) ∷ []) ≡ some e
  unfolding find
  find_one k e = if_pos (dec k k) refl _ _

  pub find-append_self :
      (k : K) (e : E) (d : List (K × E)) → find k d ≡ none → find k (d ++ ((k, e) ∷ [])) ≡ some e
  find-append_self k e d h = find-append k d ((k, e) ∷ []) h ∙ find_one k e

  pub find-append_ne :
      (q k : K) (e : E) (d : List (K × E)) → q ≢ k → find q (d ++ ((k, e) ∷ [])) ≡ find q d
  unfolding find
  find-append_ne q k e [] h = ground arith
  find-append_ne q k e ((j, f) ∷ d) h = ground (arith, find-append_ne q k e d h)

  pub append-Distinct :
      (k : K) (e : E) (d : List (K × E))
      → find k d ≡ none
      → Distinct d
      → Distinct (d ++ ((k, e) ∷ []))
  unfolding find
  append-Distinct k e [] h p = (refl, tt)
  append-Distinct k e ((j, f) ∷ d) h p =
      ground (arith, append-Distinct k e d, find-append_ne j k e d)

  pub remove_absent : (k : K) (d : List (K × E)) → find k d ≡ none → remove k d ≡ d
  unfolding find remove
  remove_absent k [] h = refl
  remove_absent k ((j, e) ∷ d) h = ground (arith, remove_absent k d)

  pub find-drop_absent :
      (k : K) (n : ℕ) (d : List (K × E)) → find k d ≡ none → find k (drop n d) ≡ none
  unfolding find
  find-drop_absent k zero d h = h
  find-drop_absent k (suc n) [] h = refl
  find-drop_absent k (suc n) ((j, e) ∷ d) h = find-drop_absent k n d (ground arith)

  pub drop-Distinct : (n : ℕ) (d : List (K × E)) → Distinct d → Distinct (drop n d)
  drop-Distinct zero d h = h
  drop-Distinct (suc n) [] h = h
  drop-Distinct (suc n) ((j, e) ∷ d) h = drop-Distinct n d h.1

  pub find-assign_self : (k : K) (e : E) (d : List (K × E)) → find k (assign k e d) ≡ some e
  unfolding find assign
  find-assign_self k e [] = if_pos (dec k k) refl _ _
  find-assign_self k e ((j, f) ∷ d) = ground (arith, find-assign_self k e d)

  pub find-assign_ne :
      (q k : K) (e : E) (d : List (K × E)) → q ≢ k → find q (assign k e d) ≡ find q d
  unfolding find assign
  find-assign_ne q k e [] h = ground arith
  find-assign_ne q k e ((j, f) ∷ d) h = ground (arith, find-assign_ne q k e d h)

  pub assign-Distinct : (k : K) (e : E) (d : List (K × E)) → Distinct d → Distinct (assign k e d)
  unfolding find assign
  assign-Distinct k e [] h = (refl, tt)
  assign-Distinct k e ((j, f) ∷ d) h =
      ground (arith, assign-Distinct k e d h.1, find-assign_ne j k e d)
