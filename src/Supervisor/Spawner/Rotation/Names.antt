-- ===== src/Supervisor/Spawner/Rotation/Names.antt =====
-- Different chunks are different files.
use Prim.Native.String
use text.Mathlib.TextLemmas.{append_cancel_left, append-nil, append_assoc, append-eq-nil_iff}
use horust.Prelude.{ℕ, zero, suc, ◌≡◌, ◌≢◌, refl, sym, ◌∙◌, Bool, true, false, String, arith}
use horust.Prelude.Tests.{ltb, String_eq}
use horust.Prelude.Display.{Display}
use horust.Formats.Service.{PathBuf}
use horust.Supervisor.Spawner.Rotation.{◌⊕◌, Log, name_of, chunk_name}

no_suffix : (s t : String) → s ≢ s ⊕ "." ⊕ t
no_suffix s t e =
    let cut : String.◌++◌ "." t ≡ "" =
      append_cancel_left s (String.◌++◌ "." t) "" (sym e ∙ sym (append-nil s)) in
    let dot : "." ≡ "" = (append-eq-nil_iff.0 cut).0 in cc dot

module _ (d : Display) (log : Log) where
  suffix_inj : (s : String) (a b : ℕ) → s ⊕ "." ⊕ d.show a ≡ s ⊕ "." ⊕ d.show b → a ≡ b
  suffix_inj s a b e =
      d.show_inj a b (append_cancel_left "." (d.show a) (d.show b) (append_cancel_left s _ _ e))

  -- What stands before the number of a chunk.
  stem : Bool → PathBuf
  stem true = log.base_path ⊕ "." ⊕ d.show log.timestamp
  stem false = log.base_path

  name_of-zero : (stamped : Bool) → name_of d log 0 stamped (ltb 0 0) ≡ stem stamped
  unfolding stem
  name_of-zero true = refl
  name_of-zero false = refl

  name_of-suc :
      (stamped : Bool) (a : ℕ)
      → name_of d log (suc a) stamped (ltb 0 (suc a)) ≡ stem stamped ⊕ "." ⊕ d.show (suc a)
  unfolding stem
  name_of-suc true a = let e : ltb 0 (suc a) ≡ true = ground arith in rw e (simp append_assoc)
  name_of-suc false a = let e : ltb 0 (suc a) ≡ true = ground arith in rw e refl

  -- Different chunks are different files.
  pub chunk_name_inj : (a b : ℕ) → chunk_name d log a ≡ chunk_name d log b → a ≡ b
  unfolding chunk_name
  chunk_name_inj zero zero e = refl
  chunk_name_inj zero (suc b) e = absurd (
      no_suffix _ _ (
        sym (name_of-zero log.should_append_timestamp)
        ∙ e
        ∙ name_of-suc log.should_append_timestamp b))
  chunk_name_inj (suc a) zero e = absurd (
      no_suffix _ _ (
        sym (name_of-zero log.should_append_timestamp)
        ∙ sym e
        ∙ name_of-suc log.should_append_timestamp a))
  chunk_name_inj (suc a) (suc b) e = suffix_inj (stem log.should_append_timestamp) (suc a) (suc b) (
      sym (name_of-suc log.should_append_timestamp a)
      ∙ e
      ∙ name_of-suc log.should_append_timestamp b)
