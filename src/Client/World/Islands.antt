-- ===== src/Client/World/Islands.antt =====
-- The scenarios of the islands that a game is told of, one packet for each.
use bf_multiplayer.Prelude.{
  ℕ, ◌≡◌, ◌≢◌, ◌<◌, refl, ap, subst, fun_ext, sym, ◌∙◌, true, false, ℤ, List, [], ◌∷◌, map, Option,
  none, some, arith, length, All, Bool-cases, inl, inr, if◌then◌else◌, bytes_eqb, bytes_eqb_iff,
  bytes_ltb, bytes_ltb_asymm, lookup, IsSorted, Result, ok, ◌>>=◌,
}
use bf_multiplayer.Packet.{ScenarioUpdateData}
use bf_multiplayer.Server.Handlers.{strncpy}
use bf_multiplayer.Client.Progress.{Island, set_scenario}
use bf_multiplayer.Client.Hooks.Names.{is_equal_string-strncpy}

-- A name that the 128 bytes of a packet hold, with no zero inside.
abbrev pub Fits : List ℕ → Type 0
Fits name = (length name < 128) × All (λ (b : ℕ). b ≢ 0) name

-- No two islands of the game share a name.
abbrev pub AreDistinct : List Island → Type 0
AreDistinct [] = Unit {0}
AreDistinct (i ∷ is) = All (λ (j : Island). bytes_eqb i.name j.name ≡ false) is × AreDistinct is

abbrev pub FitAll : List Island → Type 0
FitAll = All (λ (i : Island). Fits i.name)

abbrev pub FitKeys : List (List ℕ × ℤ) → Type 0
FitKeys = All (λ (e : List ℕ × ℤ). Fits e.0)

-- What a scenario does to an island.
abbrev assign : List ℕ → ℤ → Island → Island
assign name scenario i =
    if bytes_eqb name i.name then record i { scenario = some (scenario, none) } else i

-- The packet of an island of the server.
abbrev pub scenario_data : List ℕ → ℤ → ScenarioUpdateData
scenario_data name scenario = record {
  island_name = strncpy 128 name;
  scenario = scenario;
  unk = none;
}

assign_others :
    (name : List ℕ) (scenario : ℤ) (is : List Island)
    → All (λ (j : Island). bytes_eqb name j.name ≡ false) is
    → map (assign name scenario) is ≡ is
assign_others name scenario [] a = refl
assign_others name scenario (i ∷ is) a = rw (a.0, assign_others name scenario is a.1)

-- One packet sets the scenario of the island with its name, wherever it stands among the islands.
set_scenario_lem :
    (name : List ℕ) (scenario : ℤ) (is : List Island)
    → Fits name
    → FitAll is
    → AreDistinct is
    → set_scenario (scenario_data name scenario) is ≡ ok (map (assign name scenario) is)
unfolding set_scenario
set_scenario_lem name scenario [] f g d = refl
set_scenario_lem name scenario (i ∷ is) f g d =
    rw (is_equal_string-strncpy 128 name i.name f.0 f.1 g.0.1)
      (elim (Bool-cases (bytes_eqb name i.name)) [
        | inl same ↦ rw same (
            ap (λ l. ok (record i { scenario = some (scenario, none) } ∷ l))
              (sym (
                assign_others name scenario is (
                  subst (λ n. All (λ (j : Island). bytes_eqb n j.name ≡ false) is)
                    (sym ((bytes_eqb_iff name i.name).0 same)) d.0))))
        | inr other ↦ rw other (rw (set_scenario_lem name scenario is f g.1 d.1) refl)
      ])

-- The packets of all the islands of the server, in their order.
unfoldable pub assign_all : List (List ℕ × ℤ) → Island → Island
assign_all [] i = i
assign_all ((name, scenario) ∷ es) i = assign_all es (assign name scenario i)

-- What the server holds of an island of the game.
abbrev pub tell : Option ℤ → Island → Island
tell none i = i
tell (some scenario) i = record i { scenario = some (scenario, none) }

abbrev pub told : List (List ℕ × ℤ) → Island → Island
told es i = tell (lookup i.name es) i

bytes_eqb_later : (a b : List ℕ) → bytes_ltb a b ≡ true → bytes_eqb b a ≡ false
bytes_eqb_later a b h = elim (Bool-cases (bytes_eqb b a)) [
  | inl same ↦ ground (arith, (bytes_eqb_iff b a).0 same, bytes_ltb_asymm a b h)
  | inr other ↦ other
]

assign_all_other :
    (es : List (List ℕ × ℤ)) (i : Island)
    → All (λ (e : List ℕ × ℤ). bytes_ltb i.name e.0 ≡ true) es
    → assign_all es i ≡ i
unfolding assign_all
assign_all_other [] i a = refl
assign_all_other ((name, scenario) ∷ es) i a =
    rw (bytes_eqb_later i.name name a.0) (assign_all_other es i a.1)

-- With sorted names, the packets give each island what the server holds of it.
assign_all_lem : (es : List (List ℕ × ℤ)) (i : Island) → IsSorted es → assign_all es i ≡ told es i
unfolding assign_all lookup
assign_all_lem [] i s = refl
assign_all_lem ((name, scenario) ∷ es) i s = elim (Bool-cases (bytes_eqb name i.name)) [
  | inl same ↦
      rw (same, told, lookup)
        (assign_all_other es (record i { scenario = some (scenario, none) })
          (subst (λ n. All (λ (e : List ℕ × ℤ). bytes_ltb n e.0 ≡ true) es)
            ((bytes_eqb_iff name i.name).0 same) s.0))
  | inr other ↦ rw (other, told, lookup) (assign_all_lem es i s.1)
]

-- Another scenario leaves every name as it was.
assign-name : (name : List ℕ) (scenario : ℤ) (i : Island) → (assign name scenario i).name ≡ i.name
assign-name name scenario i = ground arith

assign-FitAll :
    (name : List ℕ) (scenario : ℤ) (is : List Island)
    → FitAll is
    → FitAll (map (assign name scenario) is)
assign-FitAll name scenario [] g = tt
assign-FitAll name scenario (i ∷ is) g =
    (subst Fits (sym (assign-name name scenario i)) g.0, assign-FitAll name scenario is g.1)

assign-others_distinct :
    (name : List ℕ) (scenario : ℤ) (n : List ℕ) (is : List Island)
    → All (λ (j : Island). bytes_eqb n j.name ≡ false) is
    → All (λ (j : Island). bytes_eqb n j.name ≡ false) (map (assign name scenario) is)
assign-others_distinct name scenario n [] d = tt
assign-others_distinct name scenario n (i ∷ is) d = (
  subst (λ m. bytes_eqb n m ≡ false) (sym (assign-name name scenario i)) d.0,
  assign-others_distinct name scenario n is d.1,
)

assign-AreDistinct :
    (name : List ℕ) (scenario : ℤ) (is : List Island)
    → AreDistinct is
    → AreDistinct (map (assign name scenario) is)
assign-AreDistinct name scenario [] d = tt
assign-AreDistinct name scenario (i ∷ is) d = (
  subst (λ m. All (λ (j : Island). bytes_eqb m j.name ≡ false) (map (assign name scenario) is))
      (sym (assign-name name scenario i)) (assign-others_distinct name scenario i.name is d.0),
  assign-AreDistinct name scenario is d.1,
)

map-assign_all :
    (name : List ℕ) (scenario : ℤ) (es : List (List ℕ × ℤ)) (is : List Island)
    → map (assign_all es) (map (assign name scenario) is)
      ≡ map (assign_all ((name, scenario) ∷ es)) is
unfolding assign_all
map-assign_all name scenario es [] = refl
map-assign_all name scenario es (i ∷ is) =
    ap (λ l. assign_all es (assign name scenario i) ∷ l) (map-assign_all name scenario es is)

map-assign_none : (is : List Island) → map (assign_all []) is ≡ is
unfolding assign_all
map-assign_none [] = refl
map-assign_none (i ∷ is) = ap (λ l. i ∷ l) (map-assign_none is)

map-told :
    (es : List (List ℕ × ℤ)) (is : List Island)
    → IsSorted es
    → map (assign_all es) is ≡ map (told es) is
map-told es is s = rw (fun_ext (λ i. assign_all_lem es i s)) refl

-- The scenarios set one after the other.
unfoldable pub set_scenarios : List (List ℕ × ℤ) → List Island → Result (List Island)
set_scenarios [] is = ok is
set_scenarios ((name, scenario) ∷ es) is =
    set_scenario (scenario_data name scenario) is >>= set_scenarios es

set_scenarios_each :
    (es : List (List ℕ × ℤ)) (is : List Island)
    → FitKeys es
    → FitAll is
    → AreDistinct is
    → set_scenarios es is ≡ ok (map (assign_all es) is)
unfolding set_scenarios
set_scenarios_each [] is f g d = ap ok (sym (map-assign_none is))
set_scenarios_each ((name, scenario) ∷ es) is f g d =
    rw (set_scenario_lem name scenario is f.0 g d) (
      set_scenarios_each es (map (assign name scenario) is) f.1 (assign-FitAll name scenario is g)
        (assign-AreDistinct name scenario is d)
      ∙ ap ok (map-assign_all name scenario es is))

-- Where the names fit and the game's are distinct, the scenarios of a sorted map give each island of
-- the game what the map holds of it.
pub set_scenarios-told :
    (es : List (List ℕ × ℤ)) (is : List Island)
    → FitKeys es
    → FitAll is
    → AreDistinct is
    → IsSorted es
    → set_scenarios es is ≡ ok (map (told es) is)
set_scenarios-told es is f g d s = set_scenarios_each es is f g d ∙ ap ok (map-told es is s)
