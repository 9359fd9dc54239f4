-- ===== src/Packet/ArrayPacket.antt =====
-- lib/penet/Include/pe/Enet/ArrayPacket.h: a packet that is an array of entries behind its length.
use bf_multiplayer.Prelude.{
  ℕ, zero, suc, ◌+◌, ◌*◌, ◌/◌, ◌%◌, ◌≤◌, ◌<◌, ◌≡◌, refl, ap, List, [], ◌∷◌, ◌++◌, Option, none,
  some, ltb, leb, arith, length, length-append, take, drop, Result, true, ok, err, abort, ◌>>=◌,
  overread, if◌then◌else◌,
}
use bf_multiplayer.Packet.DataPacket.{Layout, IsLayout}

-- `MaxSize`, the template's default.
abbrev pub max_size : ℕ
max_size = 32

-- A little-endian `u32`.
unfoldable pub u32_bytes : ℕ → List ℕ
u32_bytes n = n % 256 ∷ n / 256 % 256 ∷ n / 65536 % 256 ∷ n / 16777216 % 256 ∷ []

unfoldable pub read_u32 : List ℕ → Result ℕ
read_u32 (a ∷ b ∷ c ∷ d ∷ rest) = ok (a + 256 * b + 65536 * c + 16777216 * d)
read_u32 _ = err overread

pub read_u32-u32_bytes :
    (n : ℕ) (rest : List ℕ) → n < 4294967296 → read_u32 (u32_bytes n ++ rest) ≡ ok n
unfolding read_u32 u32_bytes
read_u32-u32_bytes n rest h = ap ok (omega arith)

take-append {ℓ} : {A : Type ℓ} (xs ys : List A) (n : ℕ) → length xs ≡ n → take n (xs ++ ys) ≡ xs
take-append [] ys zero h = refl
take-append [] ys (suc n) h = absurd (omega arith)
take-append (x ∷ xs) ys zero h = absurd (omega arith)
take-append (x ∷ xs) ys (suc n) h = ap (λ l. x ∷ l) (take-append xs ys n (omega arith))

drop-append {ℓ} : {A : Type ℓ} (xs ys : List A) (n : ℕ) → length xs ≡ n → drop n (xs ++ ys) ≡ ys
drop-append [] ys zero h = refl
drop-append [] ys (suc n) h = absurd (omega arith)
drop-append (x ∷ xs) ys zero h = absurd (omega arith)
drop-append (x ∷ xs) ys (suc n) h = drop-append xs ys n (omega arith)

-- One entry in front of the others, or the fault met at the others.
cons_entry : {T : Type 0} → T → Result (List T) → Result (List T)
cons_entry e (ok es) = ok (e ∷ es)
cons_entry e (err f) = err f

module _ {T : Type 0} (l : Layout T) where
  unfoldable pub calc_size : List T → ℕ
  calc_size entries = 4 + l.size * length entries

  -- The bytes that `memcpy` takes from the entries.
  pub entry_bytes : List T → List ℕ
  entry_bytes [] = []
  entry_bytes (e ∷ es) = l.image e ++ entry_bytes es

  -- `mEntries` is `none` when the pointer is null.
  unfoldable pub build : Option (List T) → Result (List ℕ)
  unfolding entry_bytes
  build none = err abort
  build (some entries) = ok (u32_bytes (length entries) ++ entry_bytes entries)

  -- The bytes that `memcpy` puts into `n` new entries. `read` does not look at `len`, so it can read
  -- past the end of what was received.
  entries_of : ℕ → List ℕ → Result (List T)
  unfolding cons_entry
  entries_of zero bytes = ok []
  entries_of (suc n) bytes =
      let rest = entries_of n (drop l.size bytes) in
      if leb l.size (length bytes)
      then cons_entry (l.object (take l.size bytes)) rest
      else err overread

  unfoldable pub read : List ℕ → Result (List T)
  unfolding entries_of
  read bytes = elim (read_u32 bytes) [
    | ok n ↦ if ltb max_size n then err abort else entries_of n (drop 4 bytes)
    | err f ↦ err f
  ]

  entries_of-entry_bytes :
      (es : List T) → IsLayout l → entries_of (length es) (entry_bytes es) ≡ ok es
  unfolding entries_of entry_bytes
  entries_of-entry_bytes [] h = refl
  entries_of-entry_bytes (e ∷ es) h =
      rw
        (
          take-append (l.image e) (entry_bytes es) l.size (h.length-image e),
          drop-append (l.image e) (entry_bytes es) l.size (h.length-image e),
          entries_of-entry_bytes es h,
          h.object-image e,
          fits,
        )
        refl
    where
      fits : leb l.size (length (l.image e ++ entry_bytes es)) ≡ true
      fits = ground (arith, length-append (l.image e) (entry_bytes es), h.length-image e)

  -- What `build` writes, `read` gives back, as long as the array has at most MaxSize entries and the
  -- bytes of an entry are of its size and give it back.
  pub read-build_entries :
      (es : List T) → IsLayout l → length es ≤ max_size → (build (some es) >>= read) ≡ ok es
  unfolding build read u32_bytes
  read-build_entries es h small =
      rw (read_u32-u32_bytes (length es) (entry_bytes es) (omega arith), read)
        (ground (arith, entries_of-entry_bytes es h))

  -- An array of more than MaxSize entries is built without complaint, and aborts its receiver.
  pub read-build_aborts :
      (es : List T)
      → max_size < length es
      → length es < 4294967296
      → (build (some es) >>= read) ≡ err abort
  unfolding build read
  read-build_aborts es large fits =
      rw (read_u32-u32_bytes (length es) (entry_bytes es) fits, read) (ground arith)
