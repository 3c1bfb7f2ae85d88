-- ===== src/Python/Encoding.antt =====
-- `bytes` as lists of numbers, and `str.encode` to UTF-8.
use Prim.Native.String.{[] as no_text, ◌∷◌ as ◌then_text◌}
use Prim.Native.Char.{code}
use pysilience.Prelude.{
  ℕ, ◌+◌, ◌/◌, ◌%◌, ◌≡◌, ◌↔◌, refl, String, Bool, true, false, ◌&&◌, List, [], ◌∷◌, ◌++◌, ltb, ◌==◌,
  if◌then◌else◌, arith,
}

abbrev pub Bytes : Type 0
Bytes = List ℕ

-- The UTF-8 of one character.
abbrev pub utf8 : ℕ → Bytes
utf8 n =
    if ltb n 128
    then n ∷ []
    else if ltb n 2048
    then (192 + n / 64) ∷ (128 + n % 64) ∷ []
    else if ltb n 65536
    then (224 + n / 4096) ∷ (128 + n / 64 % 64) ∷ (128 + n % 64) ∷ []
    else (240 + n / 262144) ∷ (128 + n / 4096 % 64) ∷ (128 + n / 64 % 64) ∷ (128 + n % 64) ∷ []

-- `s.encode()`
abbrev pub encode : String → Bytes
encode no_text = []
encode (c then_text s) = utf8 (code c) ++ encode s

-- `a == b`
abbrev pub same_bytes : Bytes → Bytes → Bool
same_bytes [] [] = true
same_bytes [] (y ∷ ys) = false
same_bytes (x ∷ xs) [] = false
same_bytes (x ∷ xs) (y ∷ ys) = (x == y) && same_bytes xs ys

pub same_bytes_iff : (a b : Bytes) → (same_bytes a b ≡ true) ↔ (a ≡ b)
same_bytes_iff [] [] = (λ _. refl, λ _. refl)
same_bytes_iff [] (y ∷ ys) = (λ e. ground arith, λ e. ground arith)
same_bytes_iff (x ∷ xs) [] = (λ e. ground arith, λ e. ground arith)
same_bytes_iff (x ∷ xs) (y ∷ ys) =
    (λ e. ground (arith, same_bytes_iff xs ys), λ e. ground (arith, same_bytes_iff xs ys))
