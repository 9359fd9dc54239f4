-- ===== src/Client/Tests/Files.antt =====
-- The theorems about directories, on a card with a root and one directory.
use bf_multiplayer.Prelude.{
  ℕ, ◌==◌, ==_iff, if◌then◌else◌, ◌≡◌, refl, ap, Bool, true, false, List, [], ◌∷◌, some, none,
  arith,
}
use bf_multiplayer.Client.Directories.{
  DirPath, FileSystem, get_parent_path, create_directory_recursively,
}
use bf_multiplayer.Client.Directories.Created.{
  Creates, Succeeds, IsCreated, create_directory_recursively-IsCreated,
}
use bf_multiplayer.Client.Directories.Endless.{
  create_directory_recursively-IsAbsent, create_directory_recursively_fails,
}

abbrev same_part : List ℕ → List ℕ → Bool
same_part [] [] = true
same_part [] (b ∷ q) = false
same_part (a ∷ p) [] = false
same_part (a ∷ p) (b ∷ q) = if a == b then same_part p q else false

abbrev same_path : DirPath → DirPath → Bool
same_path [] [] = true
same_path [] (b ∷ q) = false
same_path (a ∷ p) [] = false
same_path (a ∷ p) (b ∷ q) = if same_part a b then same_path p q else false

abbrev has_path : DirPath → List DirPath → Bool
has_path p [] = false
has_path p (q ∷ qs) = if same_path p q then true else has_path p qs

-- A file system that is the list of its directories.
abbrev card : FileSystem
card = record { State = List DirPath; directory_exists = has_path; create_directory = λ p s. p ∷ s }

same_part_refl : (p : List ℕ) → same_part p p ≡ true
same_part_refl [] = refl
same_part_refl (a ∷ p) = rw ((==_iff a a).1 refl, same_part_refl p) refl

same_path_refl : (p : DirPath) → same_path p p ≡ true
same_path_refl [] = refl
same_path_refl (a ∷ p) = rw (same_part_refl a, same_path_refl p) refl

card-Creates : Creates card
card-Creates = record { kept = λ p q s e. ground (arith, e) }

card-Succeeds : (d : DirPath) → Succeeds card d
card-Succeeds [] = tt
card-Succeeds (part ∷ path) = (
  λ s e missing.
      ap (λ b. if b then true else has_path (part ∷ path) s) (same_path_refl (part ∷ path)),
  card-Succeeds path,
)

-- A card that takes no directory.
abbrev full_card : FileSystem
full_card = record {
  State = List DirPath;
  directory_exists = has_path;
  create_directory = λ p s. s;
}

abbrev root : DirPath
root = (115 ∷ 100 ∷ 58 ∷ []) ∷ []

abbrev deep : DirPath
deep = (99 ∷ []) ∷ (98 ∷ []) ∷ (97 ∷ []) ∷ root

create_directory_recursively-IsCreated_example :
    (s' : List DirPath) × (create_directory_recursively card 7 deep (root ∷ []) ≡ some s')
    × IsCreated card deep (root ∷ []) s'
create_directory_recursively-IsCreated_example =
    create_directory_recursively-IsCreated card card-Creates deep (root ∷ []) 7 (card-Succeeds deep)
      refl (omega arith)

create_directory_recursively-IsAbsent_example :
    create_directory_recursively card 1000 deep [] ≡ none
create_directory_recursively-IsAbsent_example =
    create_directory_recursively-IsAbsent card deep [] 1000 (refl, (refl, (refl, refl)))

create_directory_recursively_fails_example :
    create_directory_recursively full_card 1000 ((97 ∷ []) ∷ root) (root ∷ []) ≡ none
unfolding get_parent_path
create_directory_recursively_fails_example =
    create_directory_recursively_fails full_card ((97 ∷ []) ∷ root) (root ∷ []) 1000 refl refl refl
