-- ===== src/Client/Hooks/Names.antt =====
-- The names of islands and actors, from the hook that copies one into a packet to the handler that
-- compares it.
use bf_multiplayer.Prelude.{
  ℕ, zero, suc, ◌-◌, ◌<◌, ◌≡◌, ◌≢◌, refl, ap, List, [], ◌∷◌, ◌++◌, arith, length, take, replicate,
  All, bytes_eqb, ok,
}
use bf_multiplayer.Server.Handlers.{strncpy}
use bf_multiplayer.Client.Progress.{is_equal_string}

strncpy_nil : (n : ℕ) → strncpy (suc n) [] ≡ 0 ∷ replicate n 0
unfolding strncpy
strncpy_nil n = ap (λ k. replicate k 0) {x = suc n - 0} {y = suc n} (omega arith)

strncpy_cons : (n x : ℕ) (xs : List ℕ) → strncpy (suc n) (x ∷ xs) ≡ x ∷ strncpy n xs
unfolding strncpy
strncpy_cons n x xs =
    ap (λ k. x ∷ (take n xs ++ replicate k 0)) {x = suc n - suc (length xs)} {y = n - length xs}
      (omega arith)

-- A name that is shorter than the array is copied so that it equals itself and no other name.
pub is_equal_string-strncpy :
    (n : ℕ) (name other : List ℕ)
    → length name < n
    → All (λ b. b ≢ 0) name
    → All (λ b. b ≢ 0) other
    → is_equal_string (strncpy n name) other ≡ ok (bytes_eqb name other)
unfolding is_equal_string bytes_eqb
is_equal_string-strncpy zero name other h a b = absurd (omega arith)
is_equal_string-strncpy (suc n) [] [] h a b = rw (strncpy_nil n) refl
is_equal_string-strncpy (suc n) [] (y ∷ ys) h a b = rw (strncpy_nil n) (ground arith)
is_equal_string-strncpy (suc n) (x ∷ xs) [] h a b = rw (strncpy_cons n x xs) (ground arith)
is_equal_string-strncpy (suc n) (x ∷ xs) (y ∷ ys) h a b =
    rw (strncpy_cons n x xs) (ground (arith, is_equal_string-strncpy n xs ys (omega arith) a.1 b.1))
