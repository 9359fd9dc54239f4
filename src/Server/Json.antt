-- ===== src/Server/Json.antt =====
-- nlohmann::json, a library that the server uses, as an interface: what its documentation says of
-- the calls in ServerSaveData.cpp.
pub mod Values
use bf_multiplayer.Prelude.{
  ℕ, ◌≡◌, Bool, true, false, ℤ, List, [], ◌∷◌, Option, none, some, if◌then◌else◌, Result, ok, err,
  abort,
}
use Prim.Native.String.{String}
use package.text.Mathlib.Text.{◌==◌ as str_eq}

unfoldable pub find_key {ℓ} : {V : Type ℓ} → String → List (String × V) → Option V
find_key k [] = none
find_key k ((j, v) ∷ ms) = if str_eq j k then some v else find_key k ms

abbrev pub all {ℓ} : {A : Type ℓ} → (A → Bool) → List A → Bool
all test [] = true
all test (x ∷ xs) = if test x then all test xs else false

-- `object` is what assignments to the distinct keys of a new object leave, and `array` what
-- `push_back` leaves in a new array. A conversion or an access that does not fit throws
-- `type_error`, which the server does not catch; `parse` throws `parse_error` at `none`.
-- `is_utf8` is that a string is UTF-8, `is_dumpable` that every string in a value is, without which
-- `dump` throws `type_error` too.
pub record JsonLib : Type 1 where
  pub Json : Type 0
  pub Text : Type 0
  pub of_bool : Bool → Json
  pub of_int : ℤ → Json
  pub of_text : List ℕ → Json
  pub array : List Json → Json
  pub object : List (String × Json) → Json
  pub at : Json → String → Result Json
  pub as_bool : Json → Result Bool
  pub as_int : Json → Result ℤ
  pub as_text : Json → Result (List ℕ)
  pub items : Json → List Json
  pub is_utf8 : List ℕ → Bool
  pub is_dumpable : Json → Bool
  pub dump : Json → Result Text
  pub parse : Text → Option Json

-- What the documentation says of values that this code itself has built.
pub record IsJsonLib (j : JsonLib) : Type 0 where
  pub at-object :
      (ms : List (String × j.Json)) (k : String) (v : j.Json)
      → find_key k ms ≡ some v
      → j.at (j.object ms) k ≡ ok v
  pub as_bool-of_bool : (b : Bool) → j.as_bool (j.of_bool b) ≡ ok b
  pub as_int-of_int : (i : ℤ) → j.as_int (j.of_int i) ≡ ok i
  pub as_text-of_text : (t : List ℕ) → j.as_text (j.of_text t) ≡ ok t
  pub items-array : (xs : List j.Json) → j.items (j.array xs) ≡ xs
  pub is_dumpable-of_bool : (b : Bool) → j.is_dumpable (j.of_bool b) ≡ true
  pub is_dumpable-of_int : (i : ℤ) → j.is_dumpable (j.of_int i) ≡ true
  pub is_dumpable-of_text : (t : List ℕ) → j.is_dumpable (j.of_text t) ≡ j.is_utf8 t
  pub is_dumpable-array : (xs : List j.Json) → j.is_dumpable (j.array xs) ≡ all j.is_dumpable xs
  pub is_dumpable-object :
      (ms : List (String × j.Json)) → j.is_dumpable (j.object ms) ≡ all (λ m. j.is_dumpable m.1) ms
  pub parse-dump :
      (v : j.Json)
      → j.is_dumpable v ≡ true
      → (t : j.Text) × (j.dump v ≡ ok t) × (j.parse t ≡ some v)
  pub dump_throws : (v : j.Json) → j.is_dumpable v ≡ false → j.dump v ≡ err abort
