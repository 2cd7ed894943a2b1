-- ===== src/Audit/Rotation.antt =====
-- audit_backup_paths(), _rotate_if_needed() and the append of write_audit_entry() of
-- src/githost_mcp/audit.py. The log and its backups are slots of a file store: slot 0 is the live
-- file, slot n the file `<path>.n`, each with the lines that it holds, or absent. The operating
-- system decides which steps fail.
pub mod Laws
use githost_mcp.Base.{
  ◌+◌, ◌++◌, ◌||◌, zero, or_default, [], ◌∷◌, ◌==◌, some, none, is_some, suc, if◌then◌else◌, Option,
  List, ℕ, Text, Bool, ltb, leb,
}
use githost_mcp.Config.System.{Config, ℤ}
use githost_mcp.Config.System

abbrev pub Files : Type 0
Files = ℕ → Option (List Text)

abbrev pub set_file : ℕ → Option (List Text) → Files → Files
set_file n content files m = if m == n then content else files m

-- `os.replace(src, dst)`, or no change where it raises.
abbrev pub replace_file : Bool → ℕ → ℕ → Files → Files
replace_file fails src dst files =
    if fails then files else set_file src none (set_file dst (files src) files)

-- Which steps raise OSError: the removal of the oldest backup, the shift of a backup, the final
-- rename.
pub record Faults : Type 0 where
  pub remove_oldest : Bool
  pub shift : ℕ → Bool
  pub final : Bool

-- The loop `for i in range(backup_count - 1, 0, -1)`.
unfoldable pub shift_backups : (ℕ → Bool) → ℕ → Files → Files
shift_backups fails zero files = files
shift_backups fails (suc i) files = shift_backups fails i (
    if is_some (files (suc i))
    then replace_file (fails (suc i)) (suc i) (suc (suc i)) files
    else files)

-- The steps of a rotation with `suc n` backups.
unfoldable pub rotate : Faults → ℕ → Files → Files
rotate faults n files =
    let removed = if faults.remove_oldest then files else set_file (suc n) none files in
    replace_file faults.final 0 1 (shift_backups faults.shift n removed)

-- `max_bytes <= 0 or backup_count <= 0`, the sizes being positive otherwise.
abbrev pub limits : ℤ → ℤ → Option (ℕ × ℕ)
limits (ℤ.pos (suc m)) (ℤ.pos (suc n)) = some (suc m, n)
limits _ _ = none

module _ (size : List Text → ℕ) where
  unfoldable pub rotate_if_needed : Config → Faults → ℕ → Files → Files
  rotate_if_needed config faults incoming files =
      elim (limits config.audit_log_max_bytes config.audit_log_backup_count) [
        | none ↦ files
        | some (max_bytes, n) ↦ elim (files 0) [
          | none ↦ files
          | some lines ↦
              if size lines == 0 || leb (size lines + incoming) max_bytes
              then files
              else rotate faults n files
        ]
      ]

  abbrev pub append_line : Text → Files → Files
  append_line line files = set_file 0 (some (or_default (files 0) [] ++ (line ∷ []))) files

  -- The locked part of write_audit_entry(): rotate if the line does not fit, then append it.
  unfoldable pub write_line : Config → Faults → Text → Files → Files
  write_line config faults line files =
      append_line line (rotate_if_needed config faults (size (line ∷ [])) files)
