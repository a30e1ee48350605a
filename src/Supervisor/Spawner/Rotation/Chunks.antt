-- ===== src/Supervisor/Spawner/Rotation/Chunks.antt =====
-- Which bytes of the log each chunk holds.
use horust.Prelude.{
  ℕ, zero, suc, ◌+◌, ◌*◌, ◌-◌, ◌%◌, ◌<◌, ◌≤◌, ◌≡◌, ◌≢◌, refl, ◌∙◌, inl, inr, Bool, true, false,
  Option, some, List, arith,
}
use horust.Prelude.Tests.{ltb, String_eq, Bool-cases, beq_ne}
use horust.Prelude.Lists.{
  length, take, drop, length-drop, length-take_of_le, length-take_of_lt, drop-drop,
}
use horust.Prelude.HashMap.{get, insert, get-insert_self, get-insert_ne}
use horust.Prelude.Int.{u32_mod}
use horust.Prelude.Display.{Display}
use horust.Formats.Service.{Service, PathBuf, path}
use horust.Supervisor.Spawner.Rotation.{
  Disk, Files, Log, chunk_name, write_chunks, log_of, chunked_writer, write_to,
}
use horust.Supervisor.Spawner.Rotation.Names.{chunk_name_inj}

module _ (display : Display) (log : Log) where
  -- The chunks from one number on, and all other files.
  record Holds (first : ℕ) (input : List ℕ) (files files' : Files) : Type 0 where
    chunk :
        (i : ℕ)
        → i * log.rotate_size ≤ length input
        → get files' (chunk_name display log (first + i))
          ≡ some (take log.rotate_size (drop (i * log.rotate_size) input))
    other :
        (p : PathBuf)
        → ((j : ℕ) → first ≤ j → chunk_name display log j ≢ p)
        → get files' p ≡ get files p

  last-Holds :
      (first : ℕ) (input : List ℕ) (files : Files)
      → length input < log.rotate_size
      → Holds first input files
          (insert files (chunk_name display log first) (take log.rotate_size input))
  last-Holds first input files short = record { chunk = chunk; other = other }
    where
      file : PathBuf
      file = chunk_name display log first

      chunk :
          (i : ℕ)
          → i * log.rotate_size ≤ length input
          → get
              (insert files file (take log.rotate_size input))
              (chunk_name display log (first + i))
            ≡ some (take log.rotate_size (drop (i * log.rotate_size) input))
      chunk zero h =
          let e : first + 0 ≡ first = omega arith in
          let z : 0 * log.rotate_size ≡ 0 = omega arith in
          rw (e, z) (get-insert_self files file (take log.rotate_size input))
      chunk (suc i) h = absurd (grind arith)

      other :
          (p : PathBuf)
          → ((j : ℕ) → first ≤ j → chunk_name display log j ≢ p)
          → get (insert files file (take log.rotate_size input)) p ≡ get files p
      other p far = get-insert_ne files file p _ (beq_ne (far first (omega arith)))

  more-Holds :
      (first : ℕ) (input : List ℕ) (files files' : Files)
      → log.rotate_size ≤ length input
      → Holds
          (first + 1)
          (drop log.rotate_size input)
          (insert files (chunk_name display log first) (take log.rotate_size input))
          files'
      → Holds first input files files'
  more-Holds first input files files' long rest = record { chunk = chunk; other = other }
    where
      file : PathBuf
      file = chunk_name display log first

      chunk :
          (i : ℕ)
          → i * log.rotate_size ≤ length input
          → get files' (chunk_name display log (first + i))
            ≡ some (take log.rotate_size (drop (i * log.rotate_size) input))
      chunk zero h =
          let e : first + 0 ≡ first = omega arith in
          let z : 0 * log.rotate_size ≡ 0 = omega arith in
          rw (e, z)
            (rest.other file (λ j le q.
                let same : j ≡ first = chunk_name_inj display log j first q in omega arith)
              ∙ get-insert_self files file (take log.rotate_size input))
      chunk (suc i) h =
          let e : first + suc i ≡ first + 1 + i = omega arith in
          let z : suc i * log.rotate_size ≡ log.rotate_size + i * log.rotate_size = grind arith in
          rw (e, z)
            (rw (← drop-drop (i * log.rotate_size) log.rotate_size input)
              (rest.chunk i (omega (arith, length-drop log.rotate_size input))))

      other :
          (p : PathBuf)
          → ((j : ℕ) → first ≤ j → chunk_name display log j ≢ p)
          → get files' p ≡ get files p
      other p far =
          rest.other p (λ j le. far j (omega arith))
          ∙ get-insert_ne files file p _ (beq_ne (far first (omega arith)))

end_of_input : (n : ℕ) (xs : List ℕ) → ltb (length (take n xs)) n ≡ true → length xs < n
end_of_input n xs h = ground (arith, length-take_of_le n xs)

more_input : (n : ℕ) (xs : List ℕ) → ltb (length (take n xs)) n ≡ false → n ≤ length xs
more_input n xs h = ground (arith, length-take_of_lt n xs)

fits_rest : (len size left : ℕ) → size ≤ len → len < suc left * size → len - size < left * size
fits_rest len size left h k = grind arith

pos_of_fits : (len size left : ℕ) → len < left * size → 0 < left
pos_of_fits len size zero h = absurd (omega arith)
pos_of_fits len size (suc left) h = omega arith

module _ (display : Display) (disk : Disk) (log : Log) (opens : (p : PathBuf) → disk.opens p ≡ true)
    (copies : (p : PathBuf) (bytes : List ℕ) → (disk.copy p bytes).1 ≡ true) where
  copied : (p : PathBuf) (bytes : List ℕ) → (disk.copy p bytes).0 ≡ bytes
  copied p bytes = disk.copy_all p bytes (copies p bytes)

  module _ (fuel first : ℕ) (input : List ℕ) (files : Files) where
    file : PathBuf
    file = chunk_name display log first

    chunk : List ℕ
    chunk = take log.rotate_size input

    write_chunks-last :
        ltb (length chunk) log.rotate_size ≡ true
        → write_chunks display disk log (suc fuel) first input files
          ≡ some (insert files file chunk, true)
    unfolding write_chunks file chunk
    write_chunks-last end = rw (opens file, copies file chunk, copied file chunk, end) refl

    write_chunks-more :
        {r : Option (Files × Bool)}
        → ltb (length chunk) log.rotate_size ≡ false
        → (first + 1) % u32_mod ≡ first + 1
        → write_chunks display disk log fuel
            (first + 1)
            (drop log.rotate_size input)
            (insert files file chunk)
          ≡ r
        → write_chunks display disk log (suc fuel) first input files ≡ r
    unfolding write_chunks file chunk
    write_chunks-more go next rest =
        rw (opens file, copies file chunk, copied file chunk, go, next) rest

  -- Fuel above the length of the input is enough, while the number of a chunk fits a `u32`.
  write_chunks-Holds :
      (fuel first left : ℕ) (input : List ℕ) (files : Files)
      → 0 < log.rotate_size
      → length input < fuel
      → first + left ≡ u32_mod
      → length input < left * log.rotate_size
      → (files' : Files) × (write_chunks display disk log fuel first input files
          ≡ some (files', true))
        × Holds display log first input files files'
  unfolding file chunk
  write_chunks-Holds zero first left input files size h e b = absurd (omega arith)
  write_chunks-Holds (suc fuel) first zero input files size h e b = absurd (omega arith)
  write_chunks-Holds (suc fuel) first (suc left) input files size h e b =
      elim (Bool-cases (ltb (length (take log.rotate_size input)) log.rotate_size)) [
        | inl end ↦ (
          insert files (file fuel first input files) (chunk fuel first input files),
          write_chunks-last fuel first input files end,
          last-Holds display log first input files (end_of_input log.rotate_size input end),
        )
        | inr go ↦
            let long : log.rotate_size ≤ length input = more_input log.rotate_size input go in
            let fits : length (drop log.rotate_size input) < left * log.rotate_size =
              rw (length-drop log.rotate_size input)
                (fits_rest (length input) log.rotate_size left long b) in
            let more =
              pos_of_fits (length (drop log.rotate_size input)) log.rotate_size left fits in
            let next : (first + 1) % u32_mod ≡ first + 1 = omega arith in
            let (files', f, rest) =
              write_chunks-Holds fuel (first + 1) left (drop log.rotate_size input)
                (insert files (file fuel first input files) (chunk fuel first input files)) size
                (omega (arith, length-drop log.rotate_size input)) (omega arith) fits in
            (
              files',
              write_chunks-more fuel first input files go next f,
              more-Holds display log first input files files' long rest,
            )
      ]

-- When every file can be opened and written, the log of a service is cut into chunks without a loss:
-- chunk number i is a file of its own, and holds the bytes from i times the chunk size on, as many as the
-- chunk size or those that are left; the last chunk is shorter, and maybe empty. No other file changes.
-- This is for input of less than 2 ^ 32 chunks, the range of the chunk's number.
pub chunked_writer_lem :
    (display : Display) (disk : Disk) (service : Service) (timestamp : ℕ) (input : List ℕ)
    (files : Files) (base : PathBuf)
    → ((p : PathBuf) → disk.opens p ≡ true)
    → ((p : PathBuf) (bytes : List ℕ) → (disk.copy p bytes).1 ≡ true)
    → service.stdout ≡ path base
    → 0 < service.stdout_rotate_size
    → length input < u32_mod * service.stdout_rotate_size
    → let log = log_of service timestamp base in
      (files' : Files) × (chunked_writer display disk service timestamp input files
        ≡ some (files', true))
      × ((i : ℕ)
          → i * service.stdout_rotate_size ≤ length input
          → get files' (chunk_name display log i)
            ≡ some (take service.stdout_rotate_size (drop (i * service.stdout_rotate_size) input)))
      × ((p : PathBuf) → ((j : ℕ) → chunk_name display log j ≢ p) → get files' p ≡ get files p)
unfolding chunked_writer
chunked_writer_lem display disk service timestamp input files base opens copies out size b =
    let log = log_of service timestamp base in
    let (files', e, holds) =
      write_chunks-Holds display disk log opens copies (suc (length input)) 0 u32_mod input files
        size (omega arith) (omega arith) b in
    (
      files',
      rw (out, write_to) e,
      λ i h. let z : 0 + i ≡ i = omega arith in rw z at (holds.chunk i h),
      λ p far. holds.other p (λ j le. far j),
    )
