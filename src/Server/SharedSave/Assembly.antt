-- ===== src/Server/SharedSave/Assembly.antt =====
-- The sizes and the acknowledgements of the chunks of a file.
use bf_multiplayer.Prelude.{
  ℕ, zero, suc, ◌+◌, ◌-◌, ◌*◌, ◌≤◌, ◌<◌, ◌≡◌, refl, subst, inl, inr, Bool, true, false, pos, Memory,
  Agree, shifted, Bool-cases, ◌==◌, if◌then◌else◌, arith,
}
use bf_multiplayer.Packet.{SaveDataChunk, save_data_chunk_size}
use bf_multiplayer.Server.SaveData.{shared_save_capacity}
use bf_multiplayer.Server.SharedSave.{chunk_size, is_empty, is_full, set_ack}

-- A file that seven full chunks and a last one can carry, and that the buffers can hold.
abbrev pub Fits : ℕ → Type 0
Fits total = (save_data_chunk_size * 7 ≤ total) × (total ≤ shared_save_capacity)

-- The packet is the chunk `i` of a file.
pub record IsChunk (total : ℕ) (file : Memory) (i : ℕ) (p : SaveDataChunk) : Type 0 where
  pub index : p.chunk_index ≡ pos i
  pub size : p.size ≡ chunk_size total i
  pub bytes : Agree (chunk_size total i) p.payload (shifted file (save_data_chunk_size * i))

-- The sizes of the chunks that have come, among the first `n`.
pub acked_size : ℕ → ℕ → (ℕ → Bool) → ℕ
acked_size total zero ack = 0
acked_size total (suc n) ack = (if ack n then chunk_size total n else 0) + acked_size total n ack

pub chunk_size-le : (total i : ℕ) → Fits total → chunk_size total i ≤ save_data_chunk_size
unfolding chunk_size
chunk_size-le total i h = ground arith

pub chunk_size_inner : (total i : ℕ) → i < 7 → chunk_size total i ≡ save_data_chunk_size
unfolding chunk_size
chunk_size_inner total i h = ground arith

pub chunk_size_last :
    (total : ℕ) → Fits total → chunk_size total 7 ≡ total - save_data_chunk_size * 7
unfolding chunk_size
chunk_size_last total h = omega arith

pub is_full-at : (n : ℕ) (ack : ℕ → Bool) (k : ℕ) → is_full n ack ≡ true → k < n → ack k ≡ true
unfolding is_full
is_full-at zero ack k f h = absurd (omega arith)
is_full-at (suc n) ack k f h = elim (Bool-cases (k == n)) [
  | inl last ↦ subst (λ m. ack m ≡ true) {x = n} (ground arith) (ground arith)
  | inr before ↦ is_full-at n ack k (ground arith) (ground arith)
]

pub is_full-of_all :
    (n : ℕ) (ack : ℕ → Bool) → ((k : ℕ) → k < n → ack k ≡ true) → is_full n ack ≡ true
unfolding is_full
is_full-of_all zero ack h = refl
is_full-of_all (suc n) ack h =
    rw (h n (omega arith)) (is_full-of_all n ack (λ k l. h k (omega arith)))

pub is_empty-at : (n : ℕ) (ack : ℕ → Bool) (k : ℕ) → is_empty n ack ≡ true → k < n → ack k ≡ false
unfolding is_empty
is_empty-at zero ack k f h = absurd (omega arith)
is_empty-at (suc n) ack k f h = elim (Bool-cases (k == n)) [
  | inl last ↦ subst (λ m. ack m ≡ false) {x = n} (ground arith) (ground arith)
  | inr before ↦ is_empty-at n ack k (ground arith) (ground arith)
]

pub acked_size_empty :
    (total n : ℕ) (ack : ℕ → Bool) → is_empty n ack ≡ true → acked_size total n ack ≡ 0
unfolding acked_size is_empty
acked_size_empty total zero ack h = refl
acked_size_empty total (suc n) ack h = ground (arith, acked_size_empty total n ack)

acked_size-set_above :
    (total n i : ℕ) (ack : ℕ → Bool)
    → n ≤ i
    → acked_size total n (set_ack ack i) ≡ acked_size total n ack
unfolding acked_size
acked_size-set_above total zero i ack h = refl
acked_size-set_above total (suc n) i ack h = ground (arith, acked_size-set_above total n i ack)

pub acked_size-set :
    (total n i : ℕ) (ack : ℕ → Bool)
    → i < n
    → acked_size total n (set_ack ack i)
      ≡ (if ack i then acked_size total n ack else acked_size total n ack + chunk_size total i)
unfolding acked_size
acked_size-set total zero i ack h = absurd (omega arith)
acked_size-set total (suc n) i ack h = elim (Bool-cases (n == i)) [
  | inl last ↦
      let e : n ≡ i = ground arith in
      subst
        (λ m. acked_size total (suc n) (set_ack ack m) ≡ (
          if ack m
          then acked_size total (suc n) ack
          else acked_size total (suc n) ack + chunk_size total m))
        e (ground (arith, acked_size-set_above total n n ack))
  | inr before ↦ ground (arith, acked_size-set total n i ack)
]

pub acked_size_full :
    (total : ℕ) (ack : ℕ → Bool)
    → Fits total
    → is_full 8 ack ≡ true
    → acked_size total 8 ack ≡ total
unfolding acked_size
acked_size_full total ack fits f =
    simp
      (
        is_full-at 8 ack 0 f (omega arith),
        is_full-at 8 ack 1 f (omega arith),
        is_full-at 8 ack 2 f (omega arith),
        is_full-at 8 ack 3 f (omega arith),
        is_full-at 8 ack 4 f (omega arith),
        is_full-at 8 ack 5 f (omega arith),
        is_full-at 8 ack 6 f (omega arith),
        is_full-at 8 ack 7 f (omega arith),
      )
      (omega (
        arith,
        chunk_size_last total fits,
        chunk_size_inner total 0,
        chunk_size_inner total 1,
        chunk_size_inner total 2,
        chunk_size_inner total 3,
        chunk_size_inner total 4,
        chunk_size_inner total 5,
        chunk_size_inner total 6,
      ))
