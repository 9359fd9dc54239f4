-- ===== src/Server/Handlers/Worlds.antt =====
-- Toads and islands: what their handlers keep of the save data.
use bf_multiplayer.Prelude.{
  ℕ, ◌≡◌, refl, ap, sym, ◌∙◌, ◌⊎◌, inl, inr, true, false, ℤ, eqb_ℤ, eqb_ℤ_iff, List, [], ◌∷◌, ◌++◌,
  some, if◌then◌else◌, arith, ok, Bool-cases, lookup, lookup-insert, bytes_eqb, IsSorted,
  insert-IsSorted,
}
use mathlib.Core.List.{append-nil, append_assoc}
use bf_multiplayer.Packet.{
  ScenarioUpdateData, MiscMapSyncData, toad_unlock, shard_collect, kill_actor_by_obj_id,
  dark_bowser_health, to_c_scenario_update, to_c_misc_map_sync,
}
use bf_multiplayer.Server.State.{Client, Server, Output, saved, other_clients}
use bf_multiplayer.Server.State.Sends.{sends, send_packet_to_all_except_lem}
use bf_multiplayer.Server.Handlers.{
  redistribute_packet, c_string, handle_scenario_update, has_toad, store_misc_map_sync,
  handle_misc_map_sync,
}

-- A toad is in the list.
abbrev pub IsUnlocked : ℤ → List ℤ → Type 0
IsUnlocked toad [] = ⊥
IsUnlocked toad (t ∷ ts) = (t ≡ toad) ⊎ IsUnlocked toad ts

-- No toad stands twice in the list.
abbrev pub AreDistinctToads : List ℤ → Type 0
AreDistinctToads [] = Unit
AreDistinctToads (t ∷ ts) = (¬ IsUnlocked t ts) × AreDistinctToads ts

-- The loop finds what is in the list.
has_toad-IsUnlocked : (t : ℤ) (ts : List ℤ) → has_toad t ts ≡ true → IsUnlocked t ts
unfolding has_toad
has_toad-IsUnlocked t [] h = ground arith
has_toad-IsUnlocked t (u ∷ ts) h = elim (Bool-cases (eqb_ℤ u t)) [
  | inl this ↦ inl ((eqb_ℤ_iff u t).0 this)
  | inr other ↦ inr (has_toad-IsUnlocked t ts (ground (arith, h, other)))
]

IsUnlocked-has_toad : (t : ℤ) (ts : List ℤ) → IsUnlocked t ts → has_toad t ts ≡ true
unfolding has_toad
IsUnlocked-has_toad t [] h = absurd h
IsUnlocked-has_toad t (u ∷ ts) (inl this) = ground (arith, (eqb_ℤ_iff u t).1 this)
IsUnlocked-has_toad t (u ∷ ts) (inr later) = ground (arith, IsUnlocked-has_toad t ts later)

IsUnlocked-append_one :
    (t u : ℤ) (ts : List ℤ) → IsUnlocked t (ts ++ u ∷ []) → IsUnlocked t ts ⊎ (u ≡ t)
IsUnlocked-append_one t u [] (inl h) = inr h
IsUnlocked-append_one t u [] (inr h) = absurd h
IsUnlocked-append_one t u (x ∷ ts) (inl h) = inl (inl h)
IsUnlocked-append_one t u (x ∷ ts) (inr h) = elim (IsUnlocked-append_one t u ts h) [
  | inl old ↦ inl (inr old)
  | inr new ↦ inr new
]

IsUnlocked-append_self : (t : ℤ) (ts : List ℤ) → IsUnlocked t (ts ++ t ∷ [])
IsUnlocked-append_self t [] = inl refl
IsUnlocked-append_self t (x ∷ ts) = inr (IsUnlocked-append_self t ts)

AreDistinctToads-append_one :
    (ts : List ℤ) (u : ℤ)
    → AreDistinctToads ts
    → ¬ IsUnlocked u ts
    → AreDistinctToads (ts ++ u ∷ [])
AreDistinctToads-append_one [] u d h = ((λ none_there. none_there), tt)
AreDistinctToads-append_one (x ∷ ts) u d h = (
  λ twice. elim (IsUnlocked-append_one x u ts twice) [
    | inl old ↦ d.0 old
    | inr e ↦ h (inl (sym e))
  ],
  AreDistinctToads-append_one ts u d.1 (λ old. h (inr old)),
)

not-IsUnlocked : (t : ℤ) (ts : List ℤ) → has_toad t ts ≡ false → ¬ IsUnlocked t ts
not-IsUnlocked t ts missing h = ground (arith, missing, IsUnlocked-has_toad t ts h)

store_misc_map_sync-AreDistinctToads :
    (p : MiscMapSyncData) (s : Server)
    → AreDistinctToads s.save_data.unlocked_toads
    → AreDistinctToads (store_misc_map_sync p s).save_data.unlocked_toads
unfolding store_misc_map_sync
store_misc_map_sync-AreDistinctToads (toad_unlock toad) s h =
    elim (Bool-cases (has_toad toad s.save_data.unlocked_toads)) [
      | inl known ↦ rw known h
      | inr new ↦ rw new (
          AreDistinctToads-append_one s.save_data.unlocked_toads toad h
            (not-IsUnlocked toad s.save_data.unlocked_toads new))
    ]
store_misc_map_sync-AreDistinctToads (shard_collect zone shard) s h = h
store_misc_map_sync-AreDistinctToads (kill_actor_by_obj_id id) s h = h
store_misc_map_sync-AreDistinctToads (dark_bowser_health health) s h = h

-- A toad whose unlocking the event reports is in the list.
abbrev pub IsListed : MiscMapSyncData → List ℤ → Type 0
IsListed (toad_unlock toad) ts = IsUnlocked toad ts
IsListed other ts = Unit

store_misc_map_sync-IsListed :
    (p : MiscMapSyncData) (s : Server)
    → IsListed p (store_misc_map_sync p s).save_data.unlocked_toads
unfolding store_misc_map_sync
store_misc_map_sync-IsListed (toad_unlock toad) s =
    elim (Bool-cases (has_toad toad s.save_data.unlocked_toads)) [
      | inl known ↦ rw known (has_toad-IsUnlocked toad s.save_data.unlocked_toads known)
      | inr new ↦ rw new (IsUnlocked-append_self toad s.save_data.unlocked_toads)
    ]
store_misc_map_sync-IsListed (shard_collect zone id) s = tt
store_misc_map_sync-IsListed (kill_actor_by_obj_id id) s = tt
store_misc_map_sync-IsListed (dark_bowser_health health) s = tt

store_misc_map_sync_outputs :
    (p : MiscMapSyncData) (s : Server)
    → (kept : List Output) × ((store_misc_map_sync p s).out ≡ s.out ++ kept)
      × ((kept ≡ []) ⊎ (kept ≡ saved (store_misc_map_sync p s).save_data ∷ []))
unfolding store_misc_map_sync
store_misc_map_sync_outputs (toad_unlock toad) s =
    elim (Bool-cases (has_toad toad s.save_data.unlocked_toads)) [
      | inl known ↦ rw known ([], sym (append-nil s.out), inl refl)
      | inr new ↦ rw new (_, refl, inr refl)
    ]
store_misc_map_sync_outputs (shard_collect zone shard) s = (_, refl, inr refl)
store_misc_map_sync_outputs (kill_actor_by_obj_id id) s = ([], sym (append-nil s.out), inl refl)
store_misc_map_sync_outputs (dark_bowser_health health) s = ([], sym (append-nil s.out), inl refl)

store_misc_map_sync_after :
    (p : MiscMapSyncData) (s : Server) (before after : List Output)
    → s.out ≡ before ++ after
    → (kept : List Output) × ((store_misc_map_sync p s).out ≡ before ++ (after ++ kept))
      × ((kept ≡ []) ⊎ (kept ≡ saved (store_misc_map_sync p s).save_data ∷ []))
store_misc_map_sync_after p s before after e =
    let (kept, out, what) = store_misc_map_sync_outputs p s in
    (kept, out ∙ ap (λ l. l ++ kept) e ∙ append_assoc before after kept, what)

-- Whatever map event comes, no toad is listed twice afterwards if none was before, and a toad whose
-- unlocking was reported is listed. The event goes to every client but its sender, reliably, and the
-- only other output is a save.
pub handle_misc_map_sync_lem :
    (p : MiscMapSyncData) (c : Client) (s : Server)
    → AreDistinctToads s.save_data.unlocked_toads
    → let t = handle_misc_map_sync p c s in
      AreDistinctToads t.save_data.unlocked_toads
      × IsListed p t.save_data.unlocked_toads
      × ((kept : List Output) × (t.out
            ≡ s.out
              ++ (sends
                    (to_c_misc_map_sync (record { uid = c.uid; packet_data = p }))
                    true
                    (other_clients c.node s.clients)
                  ++ kept))
          × ((kept ≡ []) ⊎ (kept ≡ saved t.save_data ∷ [])))
unfolding handle_misc_map_sync redistribute_packet
handle_misc_map_sync_lem p c s h = rw send_packet_to_all_except_lem (
  store_misc_map_sync-AreDistinctToads p _ h,
  store_misc_map_sync-IsListed p _,
  store_misc_map_sync_after p _ s.out _ refl,
)

-- A scenario update with a terminated name is stored under that name and no other in a map in order,
-- keeps it in order, and goes to every client but its sender. It is not saved to the files.
pub handle_scenario_update_lem :
    (p : ScenarioUpdateData) (c : Client) (s : Server) (name : List ℕ)
    → c_string p.island_name ≡ ok name
    → IsSorted s.save_data.island_to_scenario_map
    → (t : Server) × (handle_scenario_update p c s ≡ ok t)
      × IsSorted t.save_data.island_to_scenario_map
      × ((island : List ℕ)
          → lookup island t.save_data.island_to_scenario_map ≡ (
              if bytes_eqb name island
              then some p.scenario
              else lookup island s.save_data.island_to_scenario_map))
      × (t.out
          ≡ s.out
            ++ sends
                (to_c_scenario_update (record { uid = c.uid; packet_data = p }))
                true
                (other_clients c.node s.clients))
unfolding handle_scenario_update redistribute_packet
handle_scenario_update_lem p c s name e sorted =
    rw (e, send_packet_to_all_except_lem)
      (
        _,
        refl,
        insert-IsSorted name p.scenario s.save_data.island_to_scenario_map sorted,
        λ island. lookup-insert name island p.scenario s.save_data.island_to_scenario_map,
        refl,
      )
