-- ===== src/Packet/Tests.antt =====
-- The theorems about the packets' encodings, on packets of one or two bytes.
use bf_multiplayer.Prelude.{ℕ, ◌+◌, ◌≡◌, refl, List, [], ◌∷◌, some, ok, ◌>>=◌, arith}
use bf_multiplayer.Packet.DataPacket.{Layout, IsLayout}
use bf_multiplayer.Packet.ArrayPacket
use bf_multiplayer.Packet.Log.{ToSLog, LogRead}
use bf_multiplayer.Packet.Log

-- A member of one byte.
abbrev byte_layout : Layout ℕ
byte_layout = record { size = 1; image = λ n. n ∷ []; object = first }
  where
    first : List ℕ → ℕ
    first [] = 0
    first (b ∷ bs) = b

byte_layout-IsLayout : IsLayout byte_layout
byte_layout-IsLayout = record { length-image = λ t. refl; object-image = λ t. refl }

read-build_entries_example :
    (ArrayPacket.build byte_layout (some (7 ∷ 8 ∷ [])) >>= ArrayPacket.read byte_layout)
    ≡ ok (7 ∷ 8 ∷ [])
read-build_entries_example =
    ArrayPacket.read-build_entries byte_layout (7 ∷ 8 ∷ []) byte_layout-IsLayout (omega arith)

abbrev greeting_log : ToSLog
greeting_log = record { msg = some (72 ∷ 105 ∷ []); log_type = 1 }

read-build_overflows_example :
    (bytes : List ℕ) × (len : ℕ) × (r : LogRead) × (Log.build greeting_log ≡ ok bytes)
    × (Log.calc_size greeting_log ≡ ok len)
    × (Log.read bytes len ≡ ok r)
    × (r.log ≡ greeting_log)
    × (r.written ≡ r.allocated + 1)
read-build_overflows_example =
    Log.read-build_overflows (72 ∷ 105 ∷ []) 1 ((λ e. ground arith), ((λ e. ground arith), tt))
      (omega arith)
