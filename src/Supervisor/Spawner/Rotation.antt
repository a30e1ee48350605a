-- ===== src/Supervisor/Spawner/Rotation.antt =====
-- The log of a service in chunks: open_next_chunk and chunked_writer of
-- horust/src/horust/supervisor/process_spawner.rs. The input is all that comes through the pipe.
pub mod Names
pub mod Chunks
use Prim.Native.String
use horust.Prelude.{
  ℕ, zero, suc, ◌+◌, ◌%◌, ◌≡◌, Bool, true, false, String, Option, none, some, List, [], ◌∷◌,
}
use horust.Prelude.Tests.{ltb, if◌then◌else◌, String_eq}
use horust.Prelude.Lists.{length, take, drop}
use horust.Prelude.HashMap.{HashMap, insert}
use horust.Prelude.Int.{u32_mod}
use horust.Prelude.Display.{Display}
use horust.Formats.Service.{Service, PathBuf, LogOutput, path}

infixr 66 ◌⊕◌
abbrev ◌⊕◌ : String → String → String
a ⊕ b = String.◌++◌ a b

-- The disk: whether a file can be created or emptied, and what a copy leaves in it, with whether it
-- succeeded. io::copy succeeds only if all is written.
pub record Disk : Type 0 where
  pub opens : PathBuf → Bool
  pub copy : PathBuf → List ℕ → List ℕ × Bool
  pub copy_all : (p : PathBuf) (bytes : List ℕ) → (copy p bytes).1 ≡ true → (copy p bytes).0 ≡ bytes

abbrev pub Files : Type 0
Files = HashMap PathBuf (List ℕ)

-- What the names of the chunks are made of.
pub record Log : Type 0 where
  pub base_path : PathBuf
  pub timestamp : ℕ
  pub should_append_timestamp : Bool
  pub rotate_size : ℕ

abbrev name_of : Display → Log → ℕ → Bool → Bool → PathBuf
name_of d log count true true = log.base_path ⊕ "." ⊕ d.show log.timestamp ⊕ "." ⊕ d.show count
name_of d log count true false = log.base_path ⊕ "." ⊕ d.show log.timestamp
name_of d log count false true = log.base_path ⊕ "." ⊕ d.show count
name_of d log count false false = log.base_path

-- The file that open_next_chunk opens.
unfoldable pub chunk_name : Display → Log → ℕ → PathBuf
chunk_name d log count = name_of d log count log.should_append_timestamp (ltb 0 count)

module _ (display : Display) (disk : Disk) (log : Log) where
  -- The loop of chunked_writer, with the files after it and whether it ended without an error. `none`
  -- stands for a loop that has not ended yet.
  unfoldable pub write_chunks : ℕ → ℕ → List ℕ → Files → Option (Files × Bool)
  write_chunks zero chunk input files = none
  write_chunks (suc fuel) chunk input files =
      let file = chunk_name display log chunk in
      let (copied, done) = disk.copy file (take log.rotate_size input) in
      let files' = insert files file copied in
      let rest = write_chunks fuel ((chunk + 1) % u32_mod) (drop log.rotate_size input) files' in
      if disk.opens file
      then if done
        then if ltb (length (take log.rotate_size input)) log.rotate_size
          then some (files', true)
          else rest
        else some (files', false)
      else some (files, false)

abbrev pub log_of : Service → ℕ → PathBuf → Log
log_of service timestamp p = record {
  base_path = p;
  timestamp = timestamp;
  should_append_timestamp = service.stdout_should_append_timestamp_to_filename;
  rotate_size = service.stdout_rotate_size;
}

write_to : Display → Disk → Service → ℕ → List ℕ → Files → LogOutput → Option (Files × Bool)
write_to display disk service timestamp input files (path p) =
    write_chunks display disk (log_of service timestamp p) (suc (length input)) 0 input files
write_to display disk service timestamp input files _ = some (files, false)

unfoldable pub chunked_writer :
    Display → Disk → Service → ℕ → List ℕ → Files → Option (Files × Bool)
unfolding write_to
chunked_writer display disk service timestamp input files =
    write_to display disk service timestamp input files service.stdout
