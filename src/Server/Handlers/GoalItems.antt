-- ===== src/Server/Handlers/GoalItems.antt =====
-- Shines: what their handler keeps true of the save data, and whom it tells.
use bf_multiplayer.Prelude.{
  ℕ, ◌≡◌, ◌≢◌, ◌⊎◌, refl, ap, sym, subst, ◌∙◌, inl, inr, Bool, true, false, ◌&&◌, ℤ, pos, ◌+ℤ◌,
  eqb_ℤ, eqb_ℤ_iff, int_max, suc_int, suc_int_below, List, [], ◌∷◌, ◌++◌, Option, none, some, arith,
  Bool-cases, length, length-append,
}
use mathlib.Core.List.{append_assoc}
use bf_multiplayer.Packet.{Packet, Uid, ToSGoalItemInfo, to_c_goal_item_info}
use bf_multiplayer.Server.SaveData.{
  GoalItemCollectData, ServerSaveData, is_goal_item_already_collected, collected_in,
}
use bf_multiplayer.Server.State.{Client, Server, Output, saved, other_clients}
use bf_multiplayer.Server.State.Sends.{
  sends, replies, send_packet_lem, send_packet_to_all_except_lem,
}
use bf_multiplayer.Server.Handlers.{collect_goal_item, goal_item_reply, handle_goal_item_info}

-- A shine of an island is in the list.
abbrev pub IsCollected : ℤ → ℤ → List GoalItemCollectData → Type 0
IsCollected island shine [] = ⊥
IsCollected island shine (g ∷ gs) =
    ((g.island_id ≡ island) × (g.scenario_id ≡ shine)) ⊎ IsCollected island shine gs

-- No shine stands twice in the list.
abbrev pub AreDistinct : List GoalItemCollectData → Type 0
AreDistinct [] = Unit
AreDistinct (g ∷ gs) = (¬ IsCollected g.island_id g.scenario_id gs) × AreDistinct gs

-- The save data counts each shine that is collected once, from a number on that a console
-- command may have set.
pub record CountsShines (base : ℤ) (d : ServerSaveData) : Type 0 where
  pub distinct : AreDistinct d.collected_goal_items
  pub counted : d.num_collected_goal_items ≡ base +ℤ pos (length d.collected_goal_items)

-- The loop finds what is in the list.
collected_in-IsCollected :
    (i s : ℤ) (gs : List GoalItemCollectData) → collected_in i s gs ≡ true → IsCollected i s gs
collected_in-IsCollected i s [] h = ground arith
collected_in-IsCollected i s (g ∷ gs) h =
    elim (Bool-cases (eqb_ℤ g.island_id i && eqb_ℤ g.scenario_id s)) [
      | inl this ↦ inl (
        (eqb_ℤ_iff g.island_id i).0 (ground (arith, this)),
        (eqb_ℤ_iff g.scenario_id s).0 (ground (arith, this)),
      )
      | inr other ↦ inr (collected_in-IsCollected i s gs (ground (arith, h, other)))
    ]

IsCollected-collected_in :
    (i s : ℤ) (gs : List GoalItemCollectData) → IsCollected i s gs → collected_in i s gs ≡ true
IsCollected-collected_in i s [] h = absurd h
IsCollected-collected_in i s (g ∷ gs) (inl (a, b)) =
    ground (arith, (eqb_ℤ_iff g.island_id i).1 a, (eqb_ℤ_iff g.scenario_id s).1 b)
IsCollected-collected_in i s (g ∷ gs) (inr later) =
    ground (arith, IsCollected-collected_in i s gs later)

IsCollected-append_one :
    (i s : ℤ) (gs : List GoalItemCollectData) (g : GoalItemCollectData)
    → IsCollected i s (gs ++ g ∷ [])
    → IsCollected i s gs ⊎ ((g.island_id ≡ i) × (g.scenario_id ≡ s))
IsCollected-append_one i s [] g (inl h) = inr h
IsCollected-append_one i s [] g (inr h) = absurd h
IsCollected-append_one i s (x ∷ gs) g (inl h) = inl (inl h)
IsCollected-append_one i s (x ∷ gs) g (inr h) = elim (IsCollected-append_one i s gs g h) [
  | inl old ↦ inl (inr old)
  | inr new ↦ inr new
]

IsCollected-append_self :
    (gs : List GoalItemCollectData) (g : GoalItemCollectData)
    → IsCollected g.island_id g.scenario_id (gs ++ g ∷ [])
IsCollected-append_self [] g = inl (refl, refl)
IsCollected-append_self (x ∷ gs) g = inr (IsCollected-append_self gs g)

AreDistinct-append_one :
    (gs : List GoalItemCollectData) (g : GoalItemCollectData)
    → AreDistinct gs
    → ¬ IsCollected g.island_id g.scenario_id gs
    → AreDistinct (gs ++ g ∷ [])
AreDistinct-append_one [] g d h = ((λ none_there. none_there), tt)
AreDistinct-append_one (x ∷ gs) g d h = (
  λ twice. elim (IsCollected-append_one x.island_id x.scenario_id gs g twice) [
    | inl old ↦ d.0 old
    | inr (a, b) ↦ h (inl (sym a, sym b))
  ],
  AreDistinct-append_one gs g d.1 (λ old. h (inr old)),
)

-- The save data behind a shine that was not there.
abbrev pub with_shine : ToSGoalItemInfo → ServerSaveData → ServerSaveData
with_shine p d = record d {
  num_collected_goal_items = suc_int d.num_collected_goal_items;
  collected_goal_items =
      d.collected_goal_items ++ record { island_id = p.island_id; scenario_id = p.shine_id } ∷ [];
}

-- The packet about a shine.
abbrev pub shine_told : Uid → ℤ → Bool → Option ℤ → Option ℤ → Packet
shine_told uid n is_new island shine = to_c_goal_item_info (record {
  user = uid;
  num_collected_goal_items = n;
  is_collect_new_shine = is_new;
  island_id = island;
  shine_id = shine;
})

-- What is told when the count is `n`: everybody but the reporter whether the shine is new, the
-- reporter that it is not; then the data is saved.
abbrev pub shine_outputs :
    Bool → Option ℤ → Option ℤ → Client → List (ℕ × Client) → ServerSaveData → List Output
shine_outputs is_new island shine c clients d =
    sends (shine_told c.uid d.num_collected_goal_items is_new island shine) true
      (other_clients c.node clients)
    ++ (replies c (shine_told c.uid d.num_collected_goal_items false island shine) true
        ++ saved d ∷ [])

handle_goal_item_info_known :
    (p : ToSGoalItemInfo) (c : Client) (s : Server)
    → is_goal_item_already_collected s.save_data p.island_id p.shine_id ≡ true
    → ((handle_goal_item_info p c s).save_data ≡ s.save_data)
      × ((handle_goal_item_info p c s).out
          ≡ s.out ++ shine_outputs false none none c s.clients s.save_data)
unfolding handle_goal_item_info goal_item_reply
handle_goal_item_info_known p c s e =
    rw (e, send_packet_to_all_except_lem, send_packet_lem, append_assoc, append_assoc) (refl, refl)

handle_goal_item_info_new :
    (p : ToSGoalItemInfo) (c : Client) (s : Server)
    → is_goal_item_already_collected s.save_data p.island_id p.shine_id ≡ false
    → ((handle_goal_item_info p c s).save_data ≡ with_shine p s.save_data)
      × ((handle_goal_item_info p c s).out
          ≡ s.out
            ++ shine_outputs true
                (some p.island_id)
                (some p.shine_id)
                c
                s.clients
                (with_shine p s.save_data))
unfolding handle_goal_item_info goal_item_reply collect_goal_item
handle_goal_item_info_new p c s e =
    rw (e, send_packet_to_all_except_lem, send_packet_lem, append_assoc, append_assoc) (refl, refl)

-- By whether the shine is in the list.
is_goal_item_already_collected-IsCollected :
    (d : ServerSaveData) (i s : ℤ)
    → IsCollected i s d.collected_goal_items
    → is_goal_item_already_collected d i s ≡ true
unfolding is_goal_item_already_collected
is_goal_item_already_collected-IsCollected d i s h =
    IsCollected-collected_in i s d.collected_goal_items h

is_goal_item_already_collected_new :
    (d : ServerSaveData) (i s : ℤ)
    → ¬ IsCollected i s d.collected_goal_items
    → is_goal_item_already_collected d i s ≡ false
unfolding is_goal_item_already_collected
is_goal_item_already_collected_new d i s h =
    elim (Bool-cases (collected_in i s d.collected_goal_items)) [
      | inl found ↦ absurd (h (collected_in-IsCollected i s d.collected_goal_items found))
      | inr missing ↦ missing
    ]

IsCollected-cases :
    (i s : ℤ) (gs : List GoalItemCollectData) → IsCollected i s gs ⊎ (¬ IsCollected i s gs)
IsCollected-cases i s gs = elim (Bool-cases (collected_in i s gs)) [
  | inl found ↦ inl (collected_in-IsCollected i s gs found)
  | inr missing ↦ inr (λ h. ground (arith, IsCollected-collected_in i s gs h, missing))
]

with_shine-CountsShines :
    (base : ℤ) (p : ToSGoalItemInfo) (d : ServerSaveData)
    → d.num_collected_goal_items ≢ pos int_max
    → ¬ IsCollected p.island_id p.shine_id d.collected_goal_items
    → CountsShines base d
    → CountsShines base (with_shine p d)
with_shine-CountsShines base p d below new h = record {
  distinct = AreDistinct-append_one d.collected_goal_items _ h.distinct new;
  counted =
      suc_int_below d.num_collected_goal_items below
      ∙ ground (
        arith,
        h.counted,
        length-append {0} d.collected_goal_items
            (record { island_id = p.island_id; scenario_id = p.shine_id } ∷ []),
      );
}

-- A report of a shine leaves the counter equal to the number of different shines, from the same
-- starting number, and the shine is in the list, where the counter is not the largest int. Reported
-- again, by anybody, it changes no save data.
pub handle_goal_item_info-CountsShines :
    (base : ℤ) (p : ToSGoalItemInfo) (c c' : Client) (s : Server)
    → CountsShines base s.save_data
    → s.save_data.num_collected_goal_items ≢ pos int_max
    → let t = handle_goal_item_info p c s in
      CountsShines base t.save_data
      × IsCollected p.island_id p.shine_id t.save_data.collected_goal_items
      × ((handle_goal_item_info p c' t).save_data ≡ t.save_data)
handle_goal_item_info-CountsShines base p c c' s h below =
    elim (IsCollected-cases p.island_id p.shine_id s.save_data.collected_goal_items) [
      | inl known ↦
          facts s.save_data
            (handle_goal_item_info_known p c s (
              is_goal_item_already_collected-IsCollected s.save_data p.island_id p.shine_id
                known)).0
            h known
      | inr new ↦
          facts (with_shine p s.save_data)
            (handle_goal_item_info_new p c s
              (is_goal_item_already_collected_new s.save_data p.island_id p.shine_id new)).0
            (with_shine-CountsShines base p s.save_data below new h)
            (IsCollected-append_self s.save_data.collected_goal_items
              (record { island_id = p.island_id; scenario_id = p.shine_id }))
    ]
  where
    facts :
        (d : ServerSaveData)
        → (handle_goal_item_info p c s).save_data ≡ d
        → CountsShines base d
        → IsCollected p.island_id p.shine_id d.collected_goal_items
        → let t = handle_goal_item_info p c s in
          CountsShines base t.save_data
          × IsCollected p.island_id p.shine_id t.save_data.collected_goal_items
          × ((handle_goal_item_info p c' t).save_data ≡ t.save_data)
    facts d e counts known =
        let t = handle_goal_item_info p c s in
        let known' : IsCollected p.island_id p.shine_id t.save_data.collected_goal_items =
          subst (λ (x : ServerSaveData). IsCollected p.island_id p.shine_id x.collected_goal_items)
            (sym e) known in
        (
          subst (CountsShines base) (sym e) counts,
          known',
          (handle_goal_item_info_known p c' t (
              is_goal_item_already_collected-IsCollected t.save_data p.island_id p.shine_id
                known')).0,
        )

-- For a shine that is in the list, everybody but the reporter is told the count, without a shine, and
-- so is the reporter; the save data stays. For one that is not, the counter goes up by one, where it is
-- not the largest int, everybody but the reporter is told of a new shine with its island, and the
-- reporter the same but that it is not new. Either way the data is then saved.
pub handle_goal_item_info_outputs :
    (p : ToSGoalItemInfo) (c : Client) (s : Server)
    → let t = handle_goal_item_info p c s in
      (IsCollected p.island_id p.shine_id s.save_data.collected_goal_items
        → (t.save_data ≡ s.save_data)
          × (t.out ≡ s.out ++ shine_outputs false none none c s.clients s.save_data))
      × ((¬ IsCollected p.island_id p.shine_id s.save_data.collected_goal_items)
          → s.save_data.num_collected_goal_items ≢ pos int_max
          → (t.save_data.num_collected_goal_items ≡ s.save_data.num_collected_goal_items +ℤ pos 1)
            × (t.out
                ≡ s.out
                  ++ shine_outputs true
                      (some p.island_id)
                      (some p.shine_id)
                      c
                      s.clients
                      t.save_data))
handle_goal_item_info_outputs p c s = (
  λ known.
      handle_goal_item_info_known p c s
        (is_goal_item_already_collected-IsCollected s.save_data p.island_id p.shine_id known),
  λ new below.
      let (stored, told) =
        handle_goal_item_info_new p c s
          (is_goal_item_already_collected_new s.save_data p.island_id p.shine_id new) in
      (
        ap (λ (d : ServerSaveData). d.num_collected_goal_items) stored
            ∙ suc_int_below s.save_data.num_collected_goal_items below,
        rw stored told,
      ),
)
