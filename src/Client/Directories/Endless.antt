-- ===== src/Client/Directories/Endless.antt =====
-- A directory whose root is missing, or that cannot be created.
use bf_multiplayer.Prelude.{ℕ, zero, suc, ◌≡◌, refl, ap, true, ◌∙◌, false, [], ◌∷◌, none}
use bf_multiplayer.Client.Directories.{
  DirPath, FileSystem, get_parent_path, ◌>>=◌, create_on, create_directory_recursively,
}
use bf_multiplayer.Client.Directories.Created.{create_on_climbs, create_on_creates}

-- Neither the path nor one above it exists.
abbrev pub IsAbsent : (fs : FileSystem) → DirPath → fs.State → Type 0
IsAbsent fs [] s = ⊥
IsAbsent fs (part ∷ []) s = fs.directory_exists (part ∷ []) s ≡ false
IsAbsent fs (part ∷ parent ∷ path) s =
    (fs.directory_exists (part ∷ parent ∷ path) s ≡ false) × IsAbsent fs (parent ∷ path) s

module _ (fs : FileSystem) (s : fs.State) where
  create_on-IsAbsent : (fuel : ℕ) (d p : DirPath) → IsAbsent fs p s → create_on fs fuel d p s ≡ none
  unfolding get_parent_path create_on
  create_on-IsAbsent zero d p a = refl
  create_on-IsAbsent (suc fuel) d [] a = absurd a
  create_on-IsAbsent (suc fuel) d (part ∷ []) a =
      create_on_climbs fs fuel d (part ∷ []) s a a ∙ create_on-IsAbsent fuel d (part ∷ []) a
  create_on-IsAbsent (suc fuel) d (part ∷ parent ∷ []) a =
      create_on_climbs fs fuel d (part ∷ parent ∷ []) s a.0 a.1
      ∙ create_on-IsAbsent fuel d (parent ∷ []) a.1
  create_on-IsAbsent (suc fuel) d (part ∷ parent ∷ next ∷ path) a =
      create_on_climbs fs fuel d (part ∷ parent ∷ next ∷ path) s a.0 a.1.0
      ∙ create_on-IsAbsent fuel d (parent ∷ next ∷ path) a.1

-- Where neither the directory nor any above it exists, the root included, no amount of fuel is
-- enough: createDirectoryRecursively does not return.
pub create_directory_recursively-IsAbsent :
    (fs : FileSystem) (d : DirPath) (s : fs.State) (fuel : ℕ)
    → IsAbsent fs d s
    → create_directory_recursively fs fuel d s ≡ none
unfolding create_directory_recursively
create_directory_recursively-IsAbsent fs d s fuel a = create_on-IsAbsent fs s fuel d d a

create_on_fails :
    (fs : FileSystem) (d : DirPath) (s : fs.State) (fuel : ℕ)
    → fs.directory_exists d s ≡ false
    → fs.directory_exists (get_parent_path d) s ≡ true
    → fs.create_directory d s ≡ s
    → create_on fs fuel d d s ≡ none
unfolding create_on
create_on_fails fs d s zero e there same = refl
create_on_fails fs d s (suc fuel) e there same =
    create_on_creates fs fuel d d s e there
    ∙ ap (λ t. create_on fs fuel d d t >>= create_on fs fuel d (get_parent_path d)) same
    ∙ ap (λ r. r >>= create_on fs fuel d (get_parent_path d))
        (create_on_fails fs d s fuel e there same)

-- Where the parent of a missing directory exists, and CreateDirectory fails and changes nothing, no
-- amount of fuel is enough either: the function calls itself again and again.
pub create_directory_recursively_fails :
    (fs : FileSystem) (d : DirPath) (s : fs.State) (fuel : ℕ)
    → fs.directory_exists d s ≡ false
    → fs.directory_exists (get_parent_path d) s ≡ true
    → fs.create_directory d s ≡ s
    → create_directory_recursively fs fuel d s ≡ none
unfolding create_directory_recursively
create_directory_recursively_fails fs d s fuel e there same =
    create_on_fails fs d s fuel e there same
