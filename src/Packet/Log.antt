-- ===== src/Packet/Log.antt =====
-- lib/penet/Source/pe/Enet/Packets/Log.cpp: the log packet, a byte of type before a C string.
use bf_multiplayer.Prelude.{
  ℕ, suc, ◌+◌, ◌%◌, ◌<◌, ◌≢◌, ◌≡◌, refl, List, [], ◌∷◌, ◌++◌, Option, none, some, ◌==◌,
  if◌then◌else◌, arith, length, take, All, Result, ok, err, abort, overread, ◌>>=◌, ap,
}

-- A ToS_Log object: `msg` is `none` when `mData` is null.
pub record ToSLog : Type 0 where
  pub msg : Option (List ℕ)
  pub log_type : ℕ

-- What `read` leaves: the object, with the sizes of the string's allocation and of what `strncpy`
-- wrote into it.
pub record LogRead : Type 0 where
  pub log : ToSLog
  pub allocated : ℕ
  pub written : ℕ

-- `std::strlen`, which reads past the end when there is no terminator.
unfoldable pub strlen : List ℕ → Result ℕ
strlen [] = err overread
strlen (c ∷ cs) = let rest = strlen cs in if c == 0 then ok 0 else (rest >>= λ n. ok (suc n))

unfoldable pub calc_size : ToSLog → Result ℕ
calc_size l = elim l.msg [ none ↦ err abort | some m ↦ ok (length m + 2) ]

unfoldable pub build : ToSLog → Result (List ℕ)
build l = elim l.msg [ none ↦ err abort | some m ↦ ok (l.log_type % 256 ∷ m ++ 0 ∷ []) ]

-- `strncpy(newData, charData, len)` writes `len` bytes: the string, then zeros.
unfoldable pub read : List ℕ → ℕ → Result LogRead
unfolding strlen
read [] len = err overread
read (type ∷ chars) len = strlen chars >>= λ n. ok (record {
  log = record { msg = some (take n chars); log_type = type };
  allocated = n + 1;
  written = len;
})

strlen-append_zero :
    (m rest : List ℕ)
    → All (λ c. c ≢ 0) m
    → (strlen (m ++ 0 ∷ rest) ≡ ok (length m)) × (take (length m) (m ++ 0 ∷ rest) ≡ m)
unfolding strlen
strlen-append_zero [] rest h = (refl, refl)
strlen-append_zero (c ∷ m) rest h =
    let ih = strlen-append_zero m rest h.1 in (ground (arith, h.0, ih.0), ap (λ l. c ∷ l) ih.1)

-- A message without zero bytes survives the packet with its type, but `strncpy` writes the whole
-- packet's length, which is one byte more than `read` allocates.
pub read-build_overflows :
    (m : List ℕ) (t : ℕ)
    → All (λ c. c ≢ 0) m
    → t < 256
    → let l : ToSLog = record { msg = some m; log_type = t } in
      (bytes : List ℕ) × (len : ℕ) × (r : LogRead) × (build l ≡ ok bytes)
      × (calc_size l ≡ ok len)
      × (read bytes len ≡ ok r)
      × (r.log ≡ l)
      × (r.written ≡ r.allocated + 1)
unfolding build calc_size read
read-build_overflows m t h small =
    let (count, kept) = strlen-append_zero m [] h in
    (
      t % 256 ∷ m ++ 0 ∷ [],
      length m + 2,
      record {
        log = record { msg = some m; log_type = t % 256 };
        allocated = length m + 1;
        written = length m + 2;
      },
      refl,
      refl,
      rw (count, kept) refl,
      ground arith,
      omega arith,
    )
