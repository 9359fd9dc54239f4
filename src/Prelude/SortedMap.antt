-- ===== src/Prelude/SortedMap.antt =====
-- `std::map<std::string, V>`: a list of pairs in the order of their keys, which are compared byte by
-- byte as `std::string` compares them.
use Prim.Native.Nat.{ℕ}
use mathlib.Core.Path.{◌≡◌, refl, ap, sym, ◌∙◌}
use mathlib.Core.Logic.{◌↔◌, inl, inr}
use mathlib.Core.Bool.{Bool, true, false, ◌&&◌}
use mathlib.Core.List.{List, [], ◌∷◌, ◌++◌, append-nil, append_assoc}
use mathlib.Core.Option.{Option, none, some}
use native.Mathlib.Omega.{arith}
use bf_multiplayer.Prelude.Tests.{ltb, ◌==◌, if◌then◌else◌, Bool-cases}
use bf_multiplayer.Prelude.Lists.{All}

unfoldable pub bytes_ltb : List ℕ → List ℕ → Bool
bytes_ltb [] [] = false
bytes_ltb [] (y ∷ ys) = true
bytes_ltb (x ∷ xs) [] = false
bytes_ltb (x ∷ xs) (y ∷ ys) = if ltb x y then true else (x == y && bytes_ltb xs ys)

unfoldable pub bytes_eqb : List ℕ → List ℕ → Bool
bytes_eqb [] [] = true
bytes_eqb [] (y ∷ ys) = false
bytes_eqb (x ∷ xs) [] = false
bytes_eqb (x ∷ xs) (y ∷ ys) = x == y && bytes_eqb xs ys

pub bytes_eqb→eq : (a b : List ℕ) → bytes_eqb a b ≡ true → a ≡ b
unfolding bytes_eqb
bytes_eqb→eq [] [] h = refl
bytes_eqb→eq [] (y ∷ ys) h = cc
bytes_eqb→eq (x ∷ xs) [] h = cc
bytes_eqb→eq (x ∷ xs) (y ∷ ys) h = ground (arith, bytes_eqb→eq xs ys)

pub bytes_eqb_self : (a : List ℕ) → bytes_eqb a a ≡ true
unfolding bytes_eqb
bytes_eqb_self [] = refl
bytes_eqb_self (x ∷ xs) = ground (arith, bytes_eqb_self xs)

pub bytes_eqb_iff : (a b : List ℕ) → (bytes_eqb a b ≡ true) ↔ (a ≡ b)
bytes_eqb_iff a b = (bytes_eqb→eq a b, λ e. ap (bytes_eqb a) (sym e) ∙ bytes_eqb_self a)

pub bytes_ltb_asymm : (a b : List ℕ) → bytes_ltb a b ≡ true → bytes_ltb b a ≡ false
unfolding bytes_ltb
bytes_ltb_asymm [] [] h = cc
bytes_ltb_asymm [] (y ∷ ys) h = refl
bytes_ltb_asymm (x ∷ xs) [] h = cc
bytes_ltb_asymm (x ∷ xs) (y ∷ ys) h = ground (arith, bytes_ltb_asymm xs ys)

pub bytes_ltb_trans :
    (a b c : List ℕ) → bytes_ltb a b ≡ true → bytes_ltb b c ≡ true → bytes_ltb a c ≡ true
unfolding bytes_ltb
bytes_ltb_trans [] [] c h k = cc
bytes_ltb_trans [] (y ∷ ys) [] h k = cc
bytes_ltb_trans [] (y ∷ ys) (z ∷ zs) h k = refl
bytes_ltb_trans (x ∷ xs) [] c h k = cc
bytes_ltb_trans (x ∷ xs) (y ∷ ys) [] h k = cc
bytes_ltb_trans (x ∷ xs) (y ∷ ys) (z ∷ zs) h k = ground (arith, bytes_ltb_trans xs ys zs)

pub bytes_ltb_antisymm : (a b : List ℕ) → bytes_ltb a b ≡ false → bytes_ltb b a ≡ false → a ≡ b
unfolding bytes_ltb
bytes_ltb_antisymm [] [] h k = refl
bytes_ltb_antisymm [] (y ∷ ys) h k = cc
bytes_ltb_antisymm (x ∷ xs) [] h k = cc
bytes_ltb_antisymm (x ∷ xs) (y ∷ ys) h k = ground (arith, bytes_ltb_antisymm xs ys)

module _ {ℓ} {V : Type ℓ} where
  unfoldable pub lookup : List ℕ → List (List ℕ × V) → Option V
  lookup k [] = none
  lookup k ((j, v) ∷ m) = if bytes_eqb j k then some v else lookup k m

  -- `m[k] = v`.
  unfoldable pub insert : List ℕ → V → List (List ℕ × V) → List (List ℕ × V)
  insert k v [] = (k, v) ∷ []
  insert k v ((j, w) ∷ m) =
      if bytes_ltb k j
      then (k, v) ∷ (j, w) ∷ m
      else (if bytes_ltb j k then (j, w) ∷ insert k v m else (j, v) ∷ m)

  -- Every key is less than the keys behind it.
  abbrev pub IsSorted : List (List ℕ × V) → Type ℓ
  IsSorted [] = Unit
  IsSorted ((k, v) ∷ m) = All (λ e. bytes_ltb k e.0 ≡ true) m × IsSorted m

  pub lookup-insert :
      (k j : List ℕ) (v : V) (m : List (List ℕ × V))
      → lookup j (insert k v m) ≡ (if bytes_eqb k j then some v else lookup j m)
  unfolding lookup insert
  lookup-insert k j v [] = refl
  lookup-insert k j v ((i, w) ∷ m) = ground (
    arith,
    bytes_eqb_iff k j,
    bytes_eqb_iff i k,
    bytes_eqb_iff i j,
    bytes_ltb_antisymm k i,
    lookup-insert k j v m,
  )

  All-insert :
      (j k : List ℕ) (v : V) (m : List (List ℕ × V))
      → bytes_ltb j k ≡ true
      → All (λ e. bytes_ltb j e.0 ≡ true) m
      → All (λ e. bytes_ltb j e.0 ≡ true) (insert k v m)
  unfolding insert
  All-insert j k v [] h a = (h, tt)
  All-insert j k v ((i, w) ∷ m) h a = elim (Bool-cases (bytes_ltb k i)) [
    | inl before ↦ rw before (h, a)
    | inr before ↦ elim (Bool-cases (bytes_ltb i k)) [
      | inl after ↦ rw (before, after) (a.0, All-insert j k v m h a.1)
      | inr same ↦ rw (before, same) a
    ]
  ]

  All-weaken :
      (j k : List ℕ) (m : List (List ℕ × V))
      → bytes_ltb j k ≡ true
      → All (λ e. bytes_ltb k e.0 ≡ true) m
      → All (λ e. bytes_ltb j e.0 ≡ true) m
  All-weaken j k [] h a = tt
  All-weaken j k ((i, w) ∷ m) h a = (bytes_ltb_trans j k i h a.0, All-weaken j k m h a.1)

  -- An assignment keeps the order of the keys.
  pub insert-IsSorted :
      (k : List ℕ) (v : V) (m : List (List ℕ × V)) → IsSorted m → IsSorted (insert k v m)
  unfolding insert
  insert-IsSorted k v [] s = (tt, tt)
  insert-IsSorted k v ((i, w) ∷ m) s = elim (Bool-cases (bytes_ltb k i)) [
    | inl before ↦ rw before ((before, All-weaken k i m before s.0), s)
    | inr later ↦ elim (Bool-cases (bytes_ltb i k)) [
      | inl after ↦ rw (later, after) (All-insert i k v m after s.0, insert-IsSorted k v m s.1)
      | inr same ↦ rw (later, same) (s.0, s.1)
    ]
  ]

  -- A key greater than those of the map is put at its end.
  pub insert_last :
      (m : List (List ℕ × V)) (k : List ℕ) (v : V)
      → All (λ e. bytes_ltb e.0 k ≡ true) m
      → insert k v m ≡ m ++ (k, v) ∷ []
  unfolding insert
  insert_last [] k v a = refl
  insert_last ((i, w) ∷ m) k v a =
      rw (bytes_ltb_asymm i k a.0, a.0) (ap (λ l. (i, w) ∷ l) (insert_last m k v a.1))

  -- The assignments of a loop over pairs, in their order.
  unfoldable pub insert_all : List (List ℕ × V) → List (List ℕ × V) → List (List ℕ × V)
  insert_all [] m = m
  insert_all ((k, v) ∷ es) m = insert_all es (insert k v m)

  All-append_one :
      (P : List ℕ × V → Type 0) (m : List (List ℕ × V)) (e : List ℕ × V)
      → All P m
      → P e
      → All P (m ++ e ∷ [])
  All-append_one P [] e a h = (h, tt)
  All-append_one P (x ∷ m) e a h = (a.0, All-append_one P m e a.1 h)

  -- The keys of `m` are less than those of `es`.
  abbrev Below : List (List ℕ × V) → List (List ℕ × V) → Type ℓ
  Below m [] = Unit
  Below m (e ∷ es) = All (λ d. bytes_ltb d.0 e.0 ≡ true) m × Below m es

  Below-append_one :
      (m es : List (List ℕ × V)) (e : List ℕ × V)
      → Below m es
      → All (λ d. bytes_ltb e.0 d.0 ≡ true) es
      → Below (m ++ e ∷ []) es
  Below-append_one m [] e b a = tt
  Below-append_one m (d ∷ es) e b a =
      (All-append_one (λ x. bytes_ltb x.0 d.0 ≡ true) m e b.0 a.0, Below-append_one m es e b.1 a.1)

  insert_all-append :
      (m es : List (List ℕ × V)) → IsSorted es → Below m es → insert_all es m ≡ m ++ es
  unfolding insert_all
  insert_all-append m [] s b = rw append-nil
  insert_all-append m ((k, v) ∷ es) s b = rw (insert_last m k v b.0) (
      insert_all-append (m ++ (k, v) ∷ []) es s.1 (Below-append_one m es (k, v) b.1 s.0)
      ∙ append_assoc m ((k, v) ∷ []) es)

  Below-nil : (es : List (List ℕ × V)) → Below [] es
  Below-nil [] = tt
  Below-nil (e ∷ es) = (tt, Below-nil es)

  -- The pairs of a sorted map, assigned in order to an empty map, give the map.
  pub insert_all-IsSorted : (m : List (List ℕ × V)) → IsSorted m → insert_all m [] ≡ m
  insert_all-IsSorted m s = insert_all-append [] m s (Below-nil m)
