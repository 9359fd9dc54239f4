-- ===== src/Server/SharedSave/Delivery.antt =====
-- The chunks of one file, in any order and any number of times, become that file.
use bf_multiplayer.Prelude.{
  ℕ, ◌+◌, ◌-◌, ◌*◌, ◌/◌, ◌%◌, ◌≤◌, ◌<◌, ◌≡◌, ◌≢◌, refl, sym, subst, ◌∙◌, ◌⊎◌, inl, inr, true, false,
  ◌&&◌, pos, Memory, Agree, memcpy, shifted, some, Bool-cases, ltb, leb, ℕ_discrete, ◌==◌, arith,
  ok,
}
use bf_multiplayer.Packet.{SaveDataChunk, save_data_chunk_size}
use bf_multiplayer.Server.SaveData.{ServerSaveData, shared_save_capacity}
use bf_multiplayer.Server.State.{Server}
use bf_multiplayer.Server.SharedSave.{
  chunk_size, make_chunk, is_empty, is_full, set_ack, begin_upload, stored, store_chunk, committed,
  finish_upload,
}
use bf_multiplayer.Server.SharedSave.Assembly.{
  Fits, IsChunk, acked_size, chunk_size-le, chunk_size_inner, chunk_size_last, is_full-at,
  acked_size_empty, acked_size-set, acked_size_full,
}

-- The part of the file that the chunk `k` carries is in the buffer.
abbrev pub HasPart : ℕ → Memory → ℕ → Memory → Type 0
HasPart total file k work =
    Agree (chunk_size total k) (shifted work (save_data_chunk_size * k))
      (shifted file (save_data_chunk_size * k))

-- The server holds an upload of the file by the client, begun or not. The chunks that are
-- acknowledged are in the work buffer, and their sizes add up to its size.
pub record IsUploading (node total : ℕ) (file : Memory) (s : Server) : Type 0 where
  pub owner :
      (is_empty 8 s.save_data_ack ≡ true)
      ⊎ ((s.current_save_data_uploader ≡ some node)
          × (s.shared_save_work_buffer_size ≡ acked_size total 8 s.save_data_ack))
  pub parts :
      (k : ℕ) → k < 8 → s.save_data_ack k ≡ true → HasPart total file k s.shared_save_work_buffer
  pub partial : is_full 8 s.save_data_ack ≡ false

-- The shared save is the file.
pub record IsDelivered (total : ℕ) (file : Memory) (d : ServerSaveData) : Type 0 where
  pub size : d.shared_save_size ≡ total
  pub bytes : Agree total d.shared_save file

-- What a step keeps of an upload whose first block has run.
pub record IsBegun (node total : ℕ) (file : Memory) (s : Server) : Type 0 where
  pub uploader : s.current_save_data_uploader ≡ some node
  pub count : s.shared_save_work_buffer_size ≡ acked_size total 8 s.save_data_ack
  pub parts :
      (k : ℕ) → k < 8 → s.save_data_ack k ≡ true → HasPart total file k s.shared_save_work_buffer

pub begin_upload-IsBegun :
    (node total : ℕ) (file : Memory) (s : Server)
    → IsUploading node total file s
    → IsBegun node total file (begin_upload node s)
      × ((begin_upload node s).save_data ≡ s.save_data)
      × ((begin_upload node s).save_data_ack ≡ s.save_data_ack)
unfolding begin_upload
begin_upload-IsBegun node total file s u = elim (Bool-cases (is_empty 8 s.save_data_ack)) [
  | inl new ↦ rw new (
    record {
      uploader = refl;
      count = sym (acked_size_empty total 8 s.save_data_ack new);
      parts = u.parts;
    },
    refl,
    refl,
  )
  | inr old ↦ rw old (
    record { uploader = ground (arith, u.owner); count = ground (arith, u.owner); parts = u.parts },
    refl,
    refl,
  )
]

-- The bytes that a chunk brings, and those of the other chunks, are in place after the copy.
pub HasPart-memcpy_self :
    (total i : ℕ) (file work : Memory) (p : SaveDataChunk)
    → IsChunk total file i p
    → HasPart total file i (memcpy work (save_data_chunk_size * i) p.payload p.size)
HasPart-memcpy_self total i file work p c j h = rw (inside, sub) (c.bytes j h)
  where
    inside :
        (leb (save_data_chunk_size * i) (save_data_chunk_size * i + j)
          && ltb (save_data_chunk_size * i + j) (save_data_chunk_size * i + p.size))
        ≡ true
    inside = ground (arith, c.size)

    sub : save_data_chunk_size * i + j - save_data_chunk_size * i ≡ j
    sub = omega arith

pub HasPart-memcpy_other :
    (total i k : ℕ) (file work : Memory) (p : SaveDataChunk)
    → Fits total
    → IsChunk total file i p
    → k ≢ i
    → HasPart total file k work
    → HasPart total file k (memcpy work (save_data_chunk_size * i) p.payload p.size)
HasPart-memcpy_other total i k file work p fits c ne old j h = rw outside (old j h)
  where
    outside :
        (leb (save_data_chunk_size * i) (save_data_chunk_size * k + j)
          && ltb (save_data_chunk_size * k + j) (save_data_chunk_size * i + p.size))
        ≡ false
    outside = ground (arith, c.size, chunk_size-le total i fits, chunk_size-le total k fits)

pub chunk_end_le :
    (total i : ℕ)
    → Fits total
    → i < 8
    → save_data_chunk_size * i + chunk_size total i ≤ shared_save_capacity
chunk_end_le total i fits h = elim (Bool-cases (i == 7)) [
  | inl last ↦
      subst (λ m. save_data_chunk_size * m + chunk_size total m ≤ shared_save_capacity) {x = 7}
        (ground arith) (omega (arith, chunk_size_last total fits))
  | inr inner ↦ ground (arith, chunk_size_inner total i)
]

pub store_chunk-IsBegun :
    (node total i : ℕ) (file : Memory) (p : SaveDataChunk) (s : Server)
    → Fits total
    → i < 8
    → IsChunk total file i p
    → IsBegun node total file s
    → (t : Server) × (store_chunk i p s ≡ ok t)
      × IsBegun node total file t
      × (t.save_data ≡ s.save_data)
      × (t.save_data_ack ≡ set_ack s.save_data_ack i)
unfolding store_chunk
store_chunk-IsBegun node total i file p s fits h c b = (
  stored i p s,
  ground (arith, chunk_end_le total i fits h, c.size),
  record {
    uploader = b.uploader;
    count = ground (arith, b.count, c.size, acked_size-set total 8 i s.save_data_ack h);
    parts = λ k l a. part k l a;
  },
  refl,
  refl,
)
  where
    part :
        (k : ℕ)
        → k < 8
        → set_ack s.save_data_ack i k ≡ true
        → HasPart total file k
            (memcpy s.shared_save_work_buffer (save_data_chunk_size * i) p.payload p.size)
    part k l a = elim (ℕ_discrete k i) [
      | yes same ↦
          subst
            (λ m.
              HasPart total file m
                (memcpy s.shared_save_work_buffer (save_data_chunk_size * i) p.payload p.size))
            (sym same) (HasPart-memcpy_self total i file s.shared_save_work_buffer p c)
      | no other ↦
          HasPart-memcpy_other total i k file s.shared_save_work_buffer p fits c other
            (b.parts k l (ground arith))
    ]

-- A buffer that holds every part holds the file.
pub parts-Agree :
    (total : ℕ) (file work : Memory)
    → Fits total
    → ((k : ℕ) → k < 8 → HasPart total file k work)
    → Agree total work file
parts-Agree total file work fits parts i h =
    subst (λ (m : ℕ). work m ≡ file m) split
      (parts (i / save_data_chunk_size) (omega arith) (i % save_data_chunk_size) within)
  where
    split : save_data_chunk_size * (i / save_data_chunk_size) + i % save_data_chunk_size ≡ i
    split = omega arith

    last : i / save_data_chunk_size ≡ 7 → i % save_data_chunk_size < chunk_size total 7
    last e = omega (arith, chunk_size_last total fits)

    within : i % save_data_chunk_size < chunk_size total (i / save_data_chunk_size)
    within = elim (ℕ_discrete (i / save_data_chunk_size) 7) [
      | yes e ↦ subst (λ (m : ℕ). i % save_data_chunk_size < chunk_size total m) (sym e) (last e)
      | no inner ↦ omega (arith, chunk_size_inner total (i / save_data_chunk_size))
    ]

pub finish_upload-IsUploading :
    (node total : ℕ) (file : Memory) (s : Server)
    → Fits total
    → IsBegun node total file s
    → (t : Server) × (finish_upload s ≡ ok t)
      × IsUploading node total file t
      × (IsDelivered total file t.save_data
          ⊎ ((t.save_data ≡ s.save_data) × (t.save_data_ack ≡ s.save_data_ack)))
unfolding finish_upload is_empty
finish_upload-IsUploading node total file s fits b = elim (Bool-cases (is_full 8 s.save_data_ack)) [
  | inl full ↦ rw full (
    committed s,
    ground (arith, size full),
    record { owner = inl refl; parts = λ k l a. cc; partial = refl },
    inl (record {
      size = size full;
      bytes = λ i h. rw (covered full i h) (
          parts-Agree total file s.shared_save_work_buffer fits
            (λ k l. b.parts k l (is_full-at 8 s.save_data_ack k full l)) i h);
    }),
  )
  | inr open_ ↦ rw open_ (
    s,
    refl,
    record { owner = inr (b.uploader, b.count); parts = b.parts; partial = open_ },
    inr (refl, refl),
  )
]
  where
    size : is_full 8 s.save_data_ack ≡ true → s.shared_save_work_buffer_size ≡ total
    size full = b.count ∙ acked_size_full total s.save_data_ack fits full

    covered :
        is_full 8 s.save_data_ack ≡ true
        → (i : ℕ) → i < total
        → (committed s).save_data.shared_save i ≡ s.shared_save_work_buffer i
    covered full i h = ground (arith, size full)

-- What the sender of a file that fits makes: a chunk for each index, from any buffer that holds the
-- file and is at least as long as the server's.
pub make_chunk-IsChunk :
    (capacity total i : ℕ) (file : Memory)
    → Fits total
    → i < 8
    → shared_save_capacity ≤ capacity
    → (p : SaveDataChunk) × (make_chunk capacity total file i ≡ ok p) × IsChunk total file i p
unfolding make_chunk
make_chunk-IsChunk capacity total i file fits h large = (
  record {
    chunk_index = pos i;
    size = chunk_size total i;
    payload = memcpy (λ _. 0) 0 (shifted file (save_data_chunk_size * i)) (chunk_size total i);
  },
  ground (arith, chunk_size-le total i fits, chunk_end_le total i fits h),
  record { index = refl; size = refl; bytes = λ j l. ground arith },
)
