-- ===== src/Server/Json/Values.antt =====
-- A value of the JSON interface, which shows that its laws can hold: JSON values themselves, written
-- to a file as they are.
use bf_multiplayer.Prelude.{
  ℕ, ltb, ◌≡◌, refl, ap, Bool, true, false, ℤ, List, [], ◌∷◌, some, if◌then◌else◌, arith, Result,
  ok, err, abort,
}
use Prim.Native.String.{String}
use package.text.Mathlib.Text.{◌==◌ as str_eq}
use bf_multiplayer.Server.Json.{JsonLib, IsJsonLib, find_key, all}

mutual
  pub data Json : Type 0 where
    null : Json
    boolean : Bool → Json
    integer : ℤ → Json
    string : List ℕ → Json
    array : Items → Json
    object : Members → Json

  pub data Items : Type 0 where
    nil : Items
    cons : Json → Items → Items

  pub data Members : Type 0 where
    end : Members
    member : String → Json → Members → Members

abbrev pub to_items : List Json → Items
to_items [] = nil
to_items (x ∷ xs) = cons x (to_items xs)

abbrev pub of_items : Items → List Json
of_items nil = []
of_items (cons x xs) = x ∷ of_items xs

abbrev pub to_members : List (String × Json) → Members
to_members [] = end
to_members ((k, v) ∷ ms) = member k v (to_members ms)

abbrev pub find_member : String → Members → Json
find_member k end = null
find_member k (member j v ms) = if str_eq j k then v else find_member k ms

abbrev pub at : Json → String → Result Json
at (object ms) k = ok (find_member k ms)
at null k = ok null
at other k = err abort

abbrev pub as_bool : Json → Result Bool
as_bool (boolean b) = ok b
as_bool other = err abort

abbrev pub as_int : Json → Result ℤ
as_int (integer i) = ok i
as_int other = err abort

abbrev pub as_text : Json → Result (List ℕ)
as_text (string t) = ok t
as_text other = err abort

abbrev pub items : Json → List Json
items (array xs) = of_items xs
items other = []

-- UTF-8 is ASCII here.
abbrev pub is_ascii : List ℕ → Bool
is_ascii = all (λ c. ltb c 128)

unfoldable mutual
  pub is_dumpable : Json → Bool
  is_dumpable null = true
  is_dumpable (boolean b) = true
  is_dumpable (integer i) = true
  is_dumpable (string t) = is_ascii t
  is_dumpable (array xs) = are_dumpable xs
  is_dumpable (object ms) = have_dumpable ms

  pub are_dumpable : Items → Bool
  are_dumpable nil = true
  are_dumpable (cons x xs) = if is_dumpable x then are_dumpable xs else false

  pub have_dumpable : Members → Bool
  have_dumpable end = true
  have_dumpable (member k v ms) = if is_dumpable v then have_dumpable ms else false

unfoldable pub dump : Json → Result Json
dump v = if is_dumpable v then ok v else err abort

abbrev pub values : JsonLib
values = record {
  Json = Json;
  Text = Json;
  of_bool = boolean;
  of_int = integer;
  of_text = string;
  array = λ xs. array (to_items xs);
  object = λ ms. object (to_members ms);
  at = at;
  as_bool = as_bool;
  as_int = as_int;
  as_text = as_text;
  items = items;
  is_utf8 = is_ascii;
  is_dumpable = is_dumpable;
  dump = dump;
  parse = some;
}

of_items-to_items : (xs : List Json) → of_items (to_items xs) ≡ xs
of_items-to_items [] = refl
of_items-to_items (x ∷ xs) = ap (λ l. x ∷ l) (of_items-to_items xs)

find_member-to_members :
    (ms : List (String × Json)) (k : String) (v : Json)
    → find_key k ms ≡ some v
    → find_member k (to_members ms) ≡ v
unfolding find_key
find_member-to_members [] k v h = ground arith
find_member-to_members ((j, w) ∷ ms) k v h = ground (arith, find_member-to_members ms k v)

are_dumpable-to_items : (xs : List Json) → are_dumpable (to_items xs) ≡ all is_dumpable xs
unfolding are_dumpable
are_dumpable-to_items [] = refl
are_dumpable-to_items (x ∷ xs) =
    ap (λ b. if is_dumpable x then b else false) (are_dumpable-to_items xs)

have_dumpable-to_members :
    (ms : List (String × Json)) → have_dumpable (to_members ms) ≡ all (λ m. is_dumpable m.1) ms
unfolding have_dumpable
have_dumpable-to_members [] = refl
have_dumpable-to_members ((k, v) ∷ ms) =
    ap (λ b. if is_dumpable v then b else false) (have_dumpable-to_members ms)

dump-ok : (v : Json) → is_dumpable v ≡ true → dump v ≡ ok v
unfolding dump
dump-ok v h = rw h refl

dump_throws : (v : Json) → is_dumpable v ≡ false → dump v ≡ err abort
unfolding dump
dump_throws v h = rw h refl

pub values-IsJsonLib : IsJsonLib values
unfolding is_dumpable
values-IsJsonLib = record {
  at-object = λ ms k v h. ap ok (find_member-to_members ms k v h);
  as_bool-of_bool = λ b. refl;
  as_int-of_int = λ i. refl;
  as_text-of_text = λ t. refl;
  items-array = of_items-to_items;
  is_dumpable-of_bool = λ b. refl;
  is_dumpable-of_int = λ i. refl;
  is_dumpable-of_text = λ t. refl;
  is_dumpable-array = are_dumpable-to_items;
  is_dumpable-object = have_dumpable-to_members;
  parse-dump = λ v h. (v, dump-ok v h, refl);
  dump_throws = dump_throws;
}
