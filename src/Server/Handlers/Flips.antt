-- ===== src/Server/Handlers/Flips.antt =====
-- Jump-flip panels: handleJumpFlip.
use bf_multiplayer.Prelude.{
  ◌≤◌, ◌<◌, ◌≡◌, refl, inl, inr, Bool, false, not, [], ◌++◌, some, ltb, if◌then◌else◌, arith,
  Bool-cases,
}
use mathlib.Core.Bool.{xor}
use mathlib.Core.List.{append_assoc, append-nil}
use bf_multiplayer.Packet.{Uid, Packet, JumpFlipData, to_c_jump_flip}
use bf_multiplayer.Server.State.{Client, Server, Readings, other_clients}
use bf_multiplayer.Server.State.Sends.{
  sends, replies, send_packet_lem, send_packet_to_all_except_lem,
}
use bf_multiplayer.Server.Handlers.{flip, handle_jump_flip, last_flip_at, milliseconds}

-- The packet that tells of a state.
abbrev pub flip_packet : Uid → Bool → Packet
flip_packet uid state =
    to_c_jump_flip (record { uid = uid; packet_data = record { flip_state = state } })

flip_lem :
    (p : JumpFlipData) (c : Client) (s : Server)
    → let state = not s.save_data.jump_flip_state in
      ((flip p c s).save_data.jump_flip_state ≡ state)
      × ((flip p c s).last_flip ≡ s.last_flip)
      × ((flip p c s).out
          ≡ s.out
            ++ (sends (flip_packet c.uid state) false (other_clients c.node s.clients)
                ++ (if xor p.flip_state state
                    then replies c (flip_packet c.uid state) false
                    else [])))
unfolding flip
flip_lem p c s = elim (Bool-cases (xor p.flip_state (not s.save_data.jump_flip_state))) [
  | inl differ ↦
      rw (differ, send_packet_lem, send_packet_to_all_except_lem, append_assoc) (refl, refl, refl)
  | inr same ↦ rw (same, send_packet_to_all_except_lem, append-nil) (refl, refl, refl)
]

-- A flip at least 16 ms after the last one turns the shared state over and starts a new interval.
-- The new state goes to every client but the sender; to the sender too exactly when it reported
-- the other state. So everybody who can be reached ends with the server's state.
pub handle_jump_flip_accepted :
    (p : JumpFlipData) (r : Readings) (c : Client) (s : Server)
    → 16 ≤ milliseconds (last_flip_at r s.last_flip) r.now
    → let t = handle_jump_flip p r c s in
      let state = not s.save_data.jump_flip_state in
      (t.save_data.jump_flip_state ≡ state)
      × (t.last_flip ≡ some r.now)
      × (t.out
          ≡ s.out
            ++ (sends (flip_packet c.uid state) false (other_clients c.node s.clients)
                ++ (if xor p.flip_state state
                    then replies c (flip_packet c.uid state) false
                    else [])))
unfolding handle_jump_flip
handle_jump_flip_accepted p r c s late = rw (soon, handle_jump_flip) (flip_lem p c _)
  where
    soon : ltb (milliseconds (last_flip_at r s.last_flip) r.now) 16 ≡ false
    soon = ground arith

-- A flip within 16 ms of the last one, or of the first reading if there was none, is dropped:
-- nobody is told, not even the sender, and the interval is not prolonged.
pub handle_jump_flip_dropped :
    (p : JumpFlipData) (r : Readings) (c : Client) (s : Server)
    → milliseconds (last_flip_at r s.last_flip) r.now < 16
    → let t = handle_jump_flip p r c s in
      (t.save_data ≡ s.save_data)
      × (t.out ≡ s.out)
      × (t.last_flip ≡ some (last_flip_at r s.last_flip))
unfolding handle_jump_flip
handle_jump_flip_dropped p r c s early = ground arith
