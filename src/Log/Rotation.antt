-- ===== src/Log/Rotation.antt =====
-- What a rotation does to the files of the logger.
use connext_triad.Prelude.{
  ℕ, suc, ◌+◌, ◌-◌, ℤ, pos, negsuc, true, false, Option, none, some, is_some, Bool-cases, inl, inr,
  ◌≡◌, refl, ap, ◌∙◌, arith, leb, ◌==◌, nat_eq, if◌then◌else◌,
}
use connext_triad.Xml.Text.{Bytes}
use connext_triad.Log.{drop_backup, shift_backups, to_shift, rotate_logs}
use connext_triad.Log.Storage.{LogFile, agent_log, backup, Files, ◌>>◌, after_done}
use connext_triad.Log.Moves.{same_file, Renames, shifted, none_of_missing, shift_backups-shifted}

-- The files after a rotation with at most n backups.
abbrev pub rotated : ℕ → (LogFile → Option Bytes) → LogFile → Option Bytes
rotated n old agent_log = none
rotated n old (backup (negsuc i)) = old (backup (negsuc i))
rotated n old (backup (pos i)) =
    if i == 0
    then old (backup (pos 0))
    else if i == 1
    then old agent_log
    else if leb i n
    then old (backup (pos (i - 1)))
    else old (backup (pos i))

module _ {World : Type 0} (files : Files World) (content : World → LogFile → Option Bytes)
    (laws : Renames files content) where
  drop_backup_existing :
      (f : ℤ) (w : World)
      → is_some (content w (backup f)) ≡ true
      → drop_backup files f w ≡ files.remove (backup f) w
  unfolding drop_backup
  drop_backup_existing f w there = ground (arith, laws.exists_lem (backup f) w, there)

  drop_backup_missing :
      (f : ℤ) (w : World)
      → is_some (content w (backup f)) ≡ false
      → drop_backup files f w ≡ (some tt, w)
  unfolding drop_backup
  drop_backup_missing f w missing = ground (arith, laws.exists_lem (backup f) w, missing)

  undropped :
      (i : ℕ) (old : LogFile → Option Bytes) (f : LogFile)
      → old (backup (pos i)) ≡ none
      → old f ≡ (if same_file (backup (pos i)) f then none else old f)
  undropped i old agent_log e = refl
  undropped i old (backup (negsuc j)) e = refl
  undropped i old (backup (pos j)) e = ground (arith, e)

  drop_backup_lem :
      (i : ℕ) (w : World)
      → ((drop_backup files (pos i) w).0 ≡ some tt)
        × ((f : LogFile)
            → content (drop_backup files (pos i) w).1 f
              ≡ (if same_file (backup (pos i)) f then none else content w f))
  drop_backup_lem i w = elim (Bool-cases (is_some (content w (backup (pos i))))) [
    | inl there ↦
        rw (drop_backup_existing (pos i) w there) (
          laws.remove_done (backup (pos i)) w there,
          λ f. laws.remove_lem (backup (pos i)) f w there,
        )
    | inr missing ↦ rw (drop_backup_missing (pos i) w missing) (
      refl,
      λ f.
          undropped i (content w) f (none_of_missing files content laws (backup (pos i)) w missing),
    )
  ]

  rotated-shifted :
      (n : ℕ) (old mid new last : LogFile → Option Bytes) (f : LogFile)
      → ((g : LogFile) → mid g ≡ (if same_file (backup (pos (suc n))) g then none else old g))
      → ((g : LogFile) → new g ≡ shifted n mid g)
      → ((g : LogFile)
          → last g ≡ (
              if same_file (backup (pos 1)) g
              then new agent_log
              else if same_file agent_log g
              then none
              else new g))
      → last f ≡ rotated (suc n) old f
  rotated-shifted n old mid new last agent_log h1 h2 h3 = h3 agent_log
  rotated-shifted n old mid new last (backup (negsuc i)) h1 h2 h3 =
      h3 (backup (negsuc i)) ∙ h2 (backup (negsuc i)) ∙ h1 (backup (negsuc i))
  rotated-shifted n old mid new last (backup (pos i)) h1 h2 h3 = ground (
    arith,
    h3 (backup (pos i)),
    h2 (backup (pos i)),
    h2 agent_log,
    h1 agent_log,
    h1 (backup (pos 0)),
    h1 (backup (pos i)),
    h1 (backup (pos (i - 1))),
  )

  to_shift-suc : (n : ℕ) → to_shift files (pos (suc n)) ≡ n
  unfolding to_shift
  to_shift-suc n = omega arith

  rotate_steps :
      (n : ℕ) (w : World)
      → (drop_backup files (pos (suc n)) w).0 ≡ some tt
      → (shift_backups files n (drop_backup files (pos (suc n)) w).1).0 ≡ some tt
      → rotate_logs files (pos (suc n)) w
        ≡ files.rename agent_log
            (backup (pos 1))
            (shift_backups files n (drop_backup files (pos (suc n)) w).1).1
  unfolding rotate_logs
  rotate_steps n w dropped moved = rw to_shift-suc (
      after_done (drop_backup files (pos (suc n)))
        (shift_backups files n >> files.rename agent_log (backup (pos 1))) w dropped
      ∙ after_done (shift_backups files n) (files.rename agent_log (backup (pos 1)))
          (drop_backup files (pos (suc n)) w).1 moved)

  -- If the log exists and at least one backup is kept, a rotation succeeds: the log becomes backup
  -- 1, each backup below the greatest number moves up by one, the oldest is dropped, and no other
  -- file changes.
  pub rotate_logs-rotated :
      (n : ℕ) (w : World) (f : LogFile)
      → is_some (content w agent_log) ≡ true
      → ((rotate_logs files (pos (suc n)) w).0 ≡ some tt)
        × (content (rotate_logs files (pos (suc n)) w).1 f ≡ rotated (suc n) (content w) f)
  rotate_logs-rotated n w f there =
      let dropped = drop_backup_lem (suc n) w in
      let w1 : World = (drop_backup files (pos (suc n)) w).1 in
      let moved =
        shift_backups-shifted files content laws n w1
          (dropped.1 (backup (pos (n + 1))) ∙ ground arith) in
      let w2 : World = (shift_backups files n w1).1 in
      let still : is_some (content w2 agent_log) ≡ true =
        ap is_some (moved.1 agent_log ∙ dropped.1 agent_log) ∙ there in
      rw (rotate_steps n w dropped.0 moved.0) (
        laws.rename_done agent_log (backup (pos 1)) w2 still,
        rotated-shifted n (content w) (content w1) (content w2)
            (content (files.rename agent_log (backup (pos 1)) w2).1) f dropped.1 moved.1
            (λ g. laws.rename_lem agent_log (backup (pos 1)) g w2 still refl),
      )
