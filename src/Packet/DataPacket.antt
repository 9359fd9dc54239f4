-- ===== src/Packet/DataPacket.antt =====
-- lib/penet/Include/pe/Enet/DataPacket.h: a packet whose bytes are those of its members. How the
-- compiler lays the members out is not in the source, so the layout is a parameter.
use bf_multiplayer.Prelude.{ℕ, ◌≡◌, List, [], ◌==◌, length, Result, ok, err, abort, if◌then◌else◌}

-- The object representation of the members of `T`: `sizeof(T) - sizeof(DataPacket<T>)` bytes.
pub record Layout (T : Type 0) : Type 0 where
  pub size : ℕ
  pub image : T → List ℕ
  pub object : List ℕ → T

-- What the language says of the representation of a trivially copyable object.
pub record IsLayout {T : Type 0} (l : Layout T) : Type 0 where
  pub length-image : (t : T) → length (l.image t) ≡ l.size
  pub object-image : (t : T) → l.object (l.image t) ≡ t

module _ {T : Type 0} (l : Layout T) where
  unfoldable pub calc_size : T → ℕ
  calc_size t = l.size

  -- `build` copies `getSize()` bytes, when there are any.
  unfoldable pub build : T → List ℕ
  build t = if l.size == 0 then [] else l.image t

  -- `read` into an object that holds `old`.
  unfoldable pub read : T → List ℕ → ℕ → Result T
  read old bytes len =
      if len == l.size then ok (if l.size == 0 then old else l.object bytes) else err abort
