-- ===== src/Audit/Rotation/Laws.antt =====
-- A rotation without faults.
use Prim.Native.Nat.{pred}
use githost_mcp.Base.{
  true, ◌||◌, or_default, Bool, ◌+◌, [], ◌∷◌, ◌++◌, ◌∙◌, leb, ◌==◌, ap, refl, some, is_some, Text,
  List, zero, ltb, Option, none, if◌then◌else◌, arith, ◌≡◌, suc, ℕ, false,
}
use githost_mcp.Audit.Rotation.{
  rotate_if_needed, limits, Config, write_line, append_line, Files, Faults, set_file, replace_file,
  shift_backups, rotate,
}

abbrev pub no_faults : Faults
no_faults = record { remove_oldest = false; shift = λ i. false; final = false }

-- What the slots hold once the backups up to n are shifted up by one.
abbrev shifted : ℕ → Files → Files
shifted n files zero = files 0
shifted n files (suc zero) = if ltb 0 n then none else files 1
shifted n files (suc (suc k)) = if ltb k n then files (suc k) else files (suc (suc k))

abbrev moved : ℕ → Files → Files
moved n files = set_file (suc n) none (set_file (suc (suc n)) (files (suc n)) files)

shifted-moved :
    (n : ℕ) (files : Files) (m : ℕ) → shifted n (moved n files) m ≡ shifted (suc n) files m
shifted-moved n files zero = ground arith
shifted-moved n files (suc zero) = grind arith
shifted-moved n files (suc (suc k)) = grind arith

shift_step :
    (n : ℕ) (files : Files) (m : ℕ)
    → files (suc (suc n)) ≡ none
    → (x : Option (List Text)) → files (suc n) ≡ x
    → (if is_some x then replace_file false (suc n) (suc (suc n)) files else files) m
      ≡ moved n files m
shift_step n files m h none e = grind arith
shift_step n files m h (some l) e = refl

shift_backups_value :
    (n : ℕ) (files : Files)
    → files (suc n) ≡ none
    → (m : ℕ) → shift_backups (λ i. false) n files m ≡ shifted n files m
unfolding shift_backups
shift_backups_value zero files h zero = refl
shift_backups_value zero files h (suc zero) = refl
shift_backups_value zero files h (suc (suc k)) = ground arith
shift_backups_value (suc n) files h m =
    ap (λ g. shift_backups (λ i. false) n g m)
      (λ i k. shift_step n files k h (files (suc n)) refl i)
    ∙ (shift_backups_value n (moved n files) (ground arith) m ∙ shifted-moved n files m)

abbrev trimmed : ℕ → Files → Files
trimmed n files = set_file (suc n) none files

trimmed_value :
    (n : ℕ) (files : Files) (m : ℕ)
    → shift_backups (λ i. false) n (trimmed n files) m ≡ shifted n (trimmed n files) m
trimmed_value n files m = shift_backups_value n (trimmed n files) (ground arith) m

-- A rotation with n + 1 backups in which no step fails leaves no live file, the live lines as
-- backup 1, each further backup up to the limit as the one before it, and every file above the
-- limit as it was.
pub rotate-no_faults :
    (n : ℕ) (files : Files) (m : ℕ)
    → rotate no_faults n files m
      ≡ (if m == 0 then none else if leb m (suc n) then files (pred m) else files m)
unfolding rotate
rotate-no_faults n files zero = grind arith
rotate-no_faults n files (suc zero) = grind (arith, trimmed_value n files 0)
rotate-no_faults n files (suc (suc k)) = grind (arith, trimmed_value n files (suc (suc k)))

abbrev pub live_size : (List Text → ℕ) → Files → ℕ
live_size size files = size (or_default (files 0) [])

-- Within the limit, or no more than the new line alone.
unfoldable pub fits : ℕ → ℕ → ℕ → Bool
fits max_bytes incoming total = leb total max_bytes || total == incoming

fits-arith :
    (a b m : ℕ) (q : Bool)
    → q ≡ true
    → (a == 0 || leb (a + b) m) ≡ q
    → (leb (a + b) m || (a + b) == b) ≡ true
fits-arith a b m q p e = ground arith

fits_alone : (m b : ℕ) → (leb b m || b == b) ≡ true
fits_alone m b = ground arith

module _ (size : List Text → ℕ)
    (size-append : (lines : List Text) (line : Text)
      → size (lines ++ (line ∷ [])) ≡ size lines + size (line ∷ [])) where
  live_size-append_line :
      (line : Text) (files : Files) (content : Option (List Text))
      → files 0 ≡ content
      → live_size size (append_line size line files) ≡ size (or_default content [] ++ (line ∷ []))
  live_size-append_line line files content h = rw (h)

  rotated_live :
      (n : ℕ) (files : Files) (faults : Faults)
      → faults.final ≡ false
      → rotate faults n files 0 ≡ none
  unfolding rotate
  rotated_live n files faults f = rw (f)

  appended_fits :
      (max_bytes n : ℕ) (line : Text) (files : Files) (faults : Faults) (lines : List Text)
      → faults.final ≡ false
      → files 0 ≡ some lines
      → (full : Bool) → (size lines == 0 || leb (size lines + size (line ∷ [])) max_bytes) ≡ full
      → fits max_bytes
          (size (line ∷ []))
          (live_size size (append_line size line (if full then files else rotate faults n files)))
        ≡ true
  unfolding fits
  appended_fits max_bytes n line files faults lines f h true t = rw (
    live_size-append_line line files (some lines) h,
    size-append lines line,
    fits-arith (size lines) (size (line ∷ [])) max_bytes true refl t,
  )
  appended_fits max_bytes n line files faults lines f h false t = rw (
    live_size-append_line line (rotate faults n files) none (rotated_live n files faults f),
    fits_alone max_bytes (size (line ∷ [])),
  )

  -- The file store that a line is appended to, from what the live file holds.
  abbrev ready : ℕ → ℕ → Faults → ℕ → Files → Option (List Text) → Files
  ready max_bytes n faults incoming files none = files
  ready max_bytes n faults incoming files (some lines) =
      if size lines == 0 || leb (size lines + incoming) max_bytes
      then files
      else rotate faults n files

  rotate_if_needed-limits :
      (config : Config) (faults : Faults) (incoming : ℕ) (files : Files) (max_bytes n : ℕ)
      (content : Option (List Text))
      → limits config.audit_log_max_bytes config.audit_log_backup_count ≡ some (max_bytes, n)
      → files 0 ≡ content
      → rotate_if_needed size config faults incoming files
        ≡ ready max_bytes n faults incoming files content
  unfolding rotate_if_needed
  rotate_if_needed-limits config faults incoming files max_bytes n none h e =
      rw (h, e, rotate_if_needed)
  rotate_if_needed-limits config faults incoming files max_bytes n (some l) h e =
      rw (h, e, rotate_if_needed)

  ready-fits :
      (max_bytes n : ℕ) (line : Text) (files : Files) (faults : Faults)
      (content : Option (List Text))
      → faults.final ≡ false
      → files 0 ≡ content
      → fits max_bytes (size (line ∷ [])) (
          live_size size
            (append_line size line (ready max_bytes n faults (size (line ∷ [])) files content)))
        ≡ true
  unfolding fits
  ready-fits max_bytes n line files faults none f h =
      rw (live_size-append_line line files none h, fits_alone max_bytes (size (line ∷ [])))
  ready-fits max_bytes n line files faults (some lines) f h =
      appended_fits max_bytes n line files faults lines f h
        (size lines == 0 || leb (size lines + size (line ∷ [])) max_bytes) refl

  -- With rotation limits set, a size that adds up over appended lines and a final rename that does
  -- not fail, the live file after a line is written is within the limit or no larger than the new
  -- line alone.
  pub write_line-Fits :
      (config : Config) (faults : Faults) (line : Text) (files : Files) (max_bytes n : ℕ)
      → limits config.audit_log_max_bytes config.audit_log_backup_count ≡ some (max_bytes, n)
      → faults.final ≡ false
      → fits max_bytes
          (size (line ∷ []))
          (live_size size (write_line size config faults line files))
        ≡ true
  unfolding write_line
  write_line-Fits config faults line files max_bytes n h f = rw (
    rotate_if_needed-limits config faults (size (line ∷ [])) files max_bytes n (files 0) h refl,
    ready-fits max_bytes n line files faults (files 0) f refl,
  )
