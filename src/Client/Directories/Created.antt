-- ===== src/Client/Directories/Created.antt =====
-- A directory is created.
use bf_multiplayer.Prelude.{
  ℕ, zero, suc, ◌+◌, ◌≡◌, ◌≤◌, ◌<◌, refl, ap, ◌∙◌, true, false, List, [], ◌∷◌, some, arith,
  Bool-cases, inl, inr, if◌then◌else◌,
}
use bf_multiplayer.Client.Directories.{
  DirPath, FileSystem, get_parent_path, ◌>>=◌, create_on, create_directory_recursively,
}

-- What is documented of CreateDirectory, be it successful or not: the directories stay.
pub record Creates (fs : FileSystem) : Type 0 where
  pub kept :
      (p q : DirPath) (s : fs.State)
      → fs.directory_exists q s ≡ true
      → fs.directory_exists q (fs.create_directory p s) ≡ true

module _ (fs : FileSystem) where
  -- The directories to create, up to the first that exists.
  abbrev pub missing : DirPath → fs.State → ℕ
  missing [] s = 0
  missing (part ∷ path) s = if fs.directory_exists (part ∷ path) s then 0 else suc (missing path s)

  -- The root of a path exists.
  abbrev pub HasRoot : DirPath → fs.State → Type 0
  HasRoot [] s = ⊥
  HasRoot (part ∷ []) s = fs.directory_exists (part ∷ []) s ≡ true
  HasRoot (part ∷ parent ∷ path) s = HasRoot (parent ∷ path) s

  -- CreateDirectory succeeds on a path and on each above it, whenever the parent exists: there is
  -- space, and no file has their names.
  abbrev pub Succeeds : DirPath → Type 0
  Succeeds [] = Unit {0}
  Succeeds (part ∷ path) =
      ((s : fs.State)
        → fs.directory_exists path s ≡ true
        → fs.directory_exists (part ∷ path) s ≡ false
        → fs.directory_exists (part ∷ path) (fs.create_directory (part ∷ path) s) ≡ true)
      × Succeeds path

  -- The directory is there, and none was lost.
  abbrev pub IsCreated : DirPath → fs.State → fs.State → Type 0
  IsCreated d s s' =
      (fs.directory_exists d s' ≡ true)
      × ((q : DirPath) → fs.directory_exists q s ≡ true → fs.directory_exists q s' ≡ true)

  create_on-found :
      (fuel : ℕ) (d p : DirPath) (s : fs.State)
      → 0 < fuel
      → fs.directory_exists p s ≡ true
      → create_on fs fuel d p s ≡ some s
  unfolding create_on
  create_on-found zero d p s f h = absurd (omega arith)
  create_on-found (suc fuel) d p s f h = rw (h, create_on) refl

  pub create_on_climbs :
      (fuel : ℕ) (d p : DirPath) (s : fs.State)
      → fs.directory_exists p s ≡ false
      → fs.directory_exists (get_parent_path p) s ≡ false
      → create_on fs (suc fuel) d p s ≡ create_on fs fuel d (get_parent_path p) s
  unfolding create_on
  create_on_climbs fuel d p s e absent = rw (e, absent, create_on) refl

  pub create_on_creates :
      (fuel : ℕ) (d p : DirPath) (s : fs.State)
      → fs.directory_exists p s ≡ false
      → fs.directory_exists (get_parent_path p) s ≡ true
      → create_on fs (suc fuel) d p s ≡ (
          create_on fs fuel d d (fs.create_directory p s)
          >>= create_on fs fuel d (get_parent_path p))
  unfolding create_on
  create_on_creates fuel d p s e there = rw (e, there, create_on) refl

-- Enough fuel to come back to the start for each of a number of missing directories.
abbrev pub rounds : ℕ → ℕ
rounds zero = 1
rounds (suc n) = n + rounds n

abbrev pub fuel_for : ℕ → ℕ
fuel_for n = n + rounds n

rounds_pos : (n : ℕ) → 0 < rounds n
rounds_pos zero = omega arith
rounds_pos (suc n) = omega (arith, rounds_pos n)

fuel_for-le : (m n : ℕ) → m ≤ n → fuel_for m ≤ fuel_for n
fuel_for-le m zero h = ground arith
fuel_for-le zero (suc n) h = omega (arith, fuel_for-le 0 n (omega arith))
fuel_for-le (suc m) (suc n) h = omega (arith, fuel_for-le m n (omega arith))

rounds_down : (m n : ℕ) → m < n → m + rounds m ≤ rounds n
rounds_down m zero h = absurd (omega arith)
rounds_down m (suc n) h = fuel_for-le m n (omega arith)

-- The paths from `d` up to the one before `p` do not exist.
data Climb (fs : FileSystem) (s : fs.State) (d : DirPath) : DirPath → ℕ → Type 0 where
  start : Climb fs s d d 0
  up :
      (part parent : List ℕ) (p : DirPath) (n : ℕ)
      → Climb fs s d (part ∷ parent ∷ p) n
      → fs.directory_exists (part ∷ parent ∷ p) s ≡ false
      → Climb fs s d (parent ∷ p) (suc n)

module _ (fs : FileSystem) (s : fs.State) (d : DirPath) where
  Climb-missing : (p : DirPath) (n : ℕ) → Climb fs s d p n → missing fs d s ≡ n + missing fs p s
  Climb-missing p n start = omega arith
  Climb-missing p n (up part parent q k c none_there) =
      Climb-missing _ k c ∙ rw none_there (omega arith)

  Climb-missing_le :
      (p : DirPath) (n : ℕ) (s' : fs.State)
      → Climb fs s d p n
      → missing fs d s' ≤ n + missing fs p s'
  Climb-missing_le p n s' start = omega arith
  Climb-missing_le p n s' (up part parent q k c none_there) =
      ground (arith, Climb-missing_le (part ∷ parent ∷ q) k s' c)

module _ (fs : FileSystem) (law : Creates fs) where
  HasRoot-create :
      (d p : DirPath) (s : fs.State) → HasRoot fs d s → HasRoot fs d (fs.create_directory p s)
  HasRoot-create [] p s h = h
  HasRoot-create (part ∷ []) p s h = law.kept p (part ∷ []) s h
  HasRoot-create (part ∷ parent ∷ path) p s h = HasRoot-create (parent ∷ path) p s h

  missing_at :
      (part : List ℕ) (p : DirPath) (s : fs.State)
      → fs.directory_exists (part ∷ p) s ≡ true
      → missing fs (part ∷ p) s ≡ 0
  missing_at part p s h = rw h refl

  missing_below :
      (part : List ℕ) (p : DirPath) (s : fs.State)
      → fs.directory_exists (part ∷ p) s ≡ false
      → missing fs (part ∷ p) s ≡ suc (missing fs p s)
  missing_below part p s h = rw h refl

  -- Behind the inner call the loop ends, since the parent is there.
  behind_creation :
      (fuel : ℕ) (d p : DirPath) (s s' : fs.State)
      → fs.directory_exists p s ≡ false
      → fs.directory_exists (get_parent_path p) s ≡ true
      → create_on fs fuel d d (fs.create_directory p s) ≡ some s'
      → ((q : DirPath)
          → fs.directory_exists q (fs.create_directory p s) ≡ true
          → fs.directory_exists q s' ≡ true)
      → 0 < fuel
      → create_on fs (suc fuel) d p s ≡ some s'
  behind_creation fuel d p s s' e there made kept f =
      create_on_creates fs fuel d p s e there
      ∙ ap (λ r. r >>= create_on fs fuel d (get_parent_path p)) made
      ∙ create_on-found fs fuel d (get_parent_path p) s' f (kept _ (law.kept p _ s there))

  create_on-IsCreated :
      (fuel : ℕ) (d p : DirPath) (n : ℕ) (s : fs.State)
      → Succeeds fs p
      → Succeeds fs d
      → Climb fs s d p n
      → HasRoot fs p s
      → HasRoot fs d s
      → fs.directory_exists p s ≡ false
      → missing fs p s + rounds (missing fs d s) ≤ fuel
      → (s' : fs.State) × (create_on fs fuel d p s ≡ some s') × IsCreated fs d s s'
  unfolding get_parent_path
  create_on-IsCreated fuel d [] n s g gd c r rd e f = absurd r
  create_on-IsCreated fuel d (part ∷ []) n s g gd c r rd e f = cc
  create_on-IsCreated zero d (part ∷ parent ∷ p) n s g gd c r rd e f =
      absurd (omega (arith, missing_below part (parent ∷ p) s e))
  create_on-IsCreated (suc fuel) d (part ∷ parent ∷ p) n s g gd c r rd e f =
      elim (Bool-cases (fs.directory_exists (parent ∷ p) s)) [
        | inr absent ↦
            let (s', made, post) =
              create_on-IsCreated fuel d (parent ∷ p) (suc n) s g.1 gd (up part parent p n c e) r rd
                absent (omega (arith, missing_below part (parent ∷ p) s e)) in
            (s', create_on_climbs fs fuel d (part ∷ parent ∷ p) s e absent ∙ made, post)
        | inl there ↦
            let s1 = fs.create_directory (part ∷ parent ∷ p) s in
            let new : fs.directory_exists (part ∷ parent ∷ p) s1 ≡ true = g.0 s there e in
            let fewer : missing fs d s1 < missing fs d s = omega (
              arith,
              missing_below part (parent ∷ p) s e,
              Climb-missing fs s d (part ∷ parent ∷ p) n c,
              Climb-missing_le fs s d (part ∷ parent ∷ p) n s1 c,
              missing_at part (parent ∷ p) s1 new,
            ) in
            let enough : missing fs d s1 + rounds (missing fs d s1) ≤ fuel = omega (
              arith,
              missing_below part (parent ∷ p) s e,
              rounds_down (missing fs d s1) (missing fs d s) fewer,
            ) in
            elim (Bool-cases (fs.directory_exists d s1)) [
              | inl whole ↦ (
                s1,
                behind_creation fuel d (part ∷ parent ∷ p) s s1 e there
                    (create_on-found fs fuel d d s1 (omega (arith, rounds_pos (missing fs d s1)))
                      whole)
                    (λ q h. h) (omega (arith, rounds_pos (missing fs d s1))),
                (whole, λ q h. law.kept (part ∷ parent ∷ p) q s h),
              )
              | inr partial ↦
                  let (s2, made, post) =
                    create_on-IsCreated fuel d d 0 s1 gd gd start
                      (HasRoot-create d (part ∷ parent ∷ p) s rd)
                      (HasRoot-create d (part ∷ parent ∷ p) s rd) partial enough in
                  (
                    s2,
                    behind_creation fuel d (part ∷ parent ∷ p) s s2 e there made post.1
                        (omega (arith, rounds_pos (missing fs d s1))),
                    (post.0, λ q h. post.1 q (law.kept (part ∷ parent ∷ p) q s h)),
                  )
            ]
      ]

-- Where the root of the path exists and CreateDirectory succeeds on the path and on those above it,
-- createDirectoryRecursively returns: with as much fuel as a bound that depends only on the number of
-- missing directories, the directory exists behind it, and so does each that existed before.
pub create_directory_recursively-IsCreated :
    (fs : FileSystem) (law : Creates fs) (d : DirPath) (s : fs.State) (fuel : ℕ)
    → Succeeds fs d
    → HasRoot fs d s
    → fuel_for (missing fs d s) ≤ fuel
    → (s' : fs.State) × (create_directory_recursively fs fuel d s ≡ some s') × IsCreated fs d s s'
unfolding create_directory_recursively
create_directory_recursively-IsCreated fs law d s fuel g r f =
    elim (Bool-cases (fs.directory_exists d s)) [
      | inl there ↦ (
        s,
        create_on-found fs fuel d d s (omega (arith, rounds_pos (missing fs d s))) there,
        (there, λ q h. h),
      )
      | inr absent ↦ create_on-IsCreated fs law fuel d d 0 s g g start r r absent f
    ]
