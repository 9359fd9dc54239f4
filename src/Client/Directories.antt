-- ===== src/Client/Directories.antt =====
-- createDirectoryRecursively of src/pe/Hacks/FSHacks.cpp. A path is its parts between the '/', the
-- last one first.
pub mod Created
pub mod Endless
use bf_multiplayer.Prelude.{
  ℕ, zero, suc, Bool, true, false, List, [], ◌∷◌, Option, none, some, if◌then◌else◌,
}

abbrev pub DirPath : Type 0
DirPath = List (List ℕ)

-- The file system of the console: directoryExists, and nn::fs::CreateDirectory, whose result is not
-- looked at: it may leave the state as it is.
pub record FileSystem : Type 1 where
  pub State : Type 0
  pub directory_exists : DirPath → State → Bool
  pub create_directory : DirPath → State → State

-- getParentPath: the path up to its last '/', or the path itself when it has none.
unfoldable pub get_parent_path : DirPath → DirPath
get_parent_path [] = []
get_parent_path (part ∷ []) = part ∷ []
get_parent_path (part ∷ parent ∷ path) = parent ∷ path

infixl 5 ◌>>=◌
abbrev pub ◌>>=◌ : {A B : Type 0} → Option A → (A → Option B) → Option B
none >>= next = none
some a >>= next = next a

module _ (fs : FileSystem) where
  -- The loop of createDirectoryRecursively(dir_path) at `path`; `none` when the fuel runs out.
  unfoldable pub create_on : ℕ → DirPath → DirPath → fs.State → Option fs.State
  unfolding get_parent_path
  create_on zero dir_path path s = none
  create_on (suc fuel) dir_path path s = elim (fs.directory_exists path s) [
    | true ↦ some s
    | false ↦
        (elim (fs.directory_exists (get_parent_path path) s) [
          | true ↦ create_on fuel dir_path dir_path (fs.create_directory path s)
          | false ↦ some s
        ])
        >>= create_on fuel dir_path (get_parent_path path)
  ]

  unfoldable pub create_directory_recursively : ℕ → DirPath → fs.State → Option fs.State
  unfolding create_on
  create_directory_recursively fuel dir_path s = create_on fuel dir_path dir_path s
