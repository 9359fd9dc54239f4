-- ===== src/Prelude/Bytes.antt =====
-- Byte arrays addressed by their offset, and `memcpy` into them.
use Prim.Native.Nat.{ℕ, ◌+◌, ◌-◌, ◌<◌}
use mathlib.Core.Path.{◌≡◌}
use mathlib.Core.Bool.{◌&&◌}
use bf_multiplayer.Prelude.Tests.{ltb, leb, if◌then◌else◌}

-- The bytes of an array, by offset. Its length is stated where it matters.
abbrev pub Memory : Type 0
Memory = ℕ → ℕ

-- `memcpy(dst + offset, src, size)`.
abbrev pub memcpy : Memory → ℕ → Memory → ℕ → Memory
memcpy dst offset src size i =
    if leb offset i && ltb i (offset + size) then src (i - offset) else dst i

-- `src + offset`, as an array.
abbrev pub shifted : Memory → ℕ → Memory
shifted src offset i = src (offset + i)

-- Two arrays agree on their first `size` bytes.
abbrev pub Agree : ℕ → Memory → Memory → Type 0
Agree size a b = (i : ℕ) → i < size → a i ≡ b i
