-- ===== src/Log/Moves.antt =====
-- What the moves of the backups do to the files of the logger.
use connext_triad.Prelude.{
  ℕ, zero, suc, ◌+◌, ◌-◌, pos, negsuc, Bool, true, false, Option, none, some, is_some, Bool-cases,
  inl, inr, ◌≡◌, refl, ◌∙◌, arith, leb, ◌==◌, nat_eq, if◌then◌else◌,
}
use connext_triad.Xml.Text.{Bytes}
use connext_triad.Log.{move_backup, shift_backups}
use connext_triad.Log.Storage.{LogFile, agent_log, backup, Files, after_done}

abbrev pub same_file : LogFile → LogFile → Bool
same_file agent_log agent_log = true
same_file agent_log (backup i) = false
same_file (backup i) agent_log = false
same_file (backup (pos i)) (backup (pos j)) = i == j
same_file (backup (pos i)) (backup (negsuc j)) = false
same_file (backup (negsuc i)) (backup (pos j)) = false
same_file (backup (negsuc i)) (backup (negsuc j)) = i == j

-- What POSIX says of the calls, as far as a rotation needs it, with the contents of the files in
-- view: existing files can be removed and renamed, and a renamed file replaces its target.
pub record Renames {World : Type 0} (files : Files World) (content : World → LogFile → Option Bytes)
    : Type 0 where
  pub exists_lem : (f : LogFile) (w : World) → files.exists f w ≡ (some (is_some (content w f)), w)
  pub remove_done :
      (f : LogFile) (w : World) → is_some (content w f) ≡ true → (files.remove f w).0 ≡ some tt
  pub remove_lem :
      (f g : LogFile) (w : World)
      → is_some (content w f) ≡ true
      → content (files.remove f w).1 g ≡ (if same_file f g then none else content w g)
  pub rename_done :
      (f g : LogFile) (w : World) → is_some (content w f) ≡ true → (files.rename f g w).0 ≡ some tt
  pub rename_lem :
      (f g h : LogFile) (w : World)
      → is_some (content w f) ≡ true
      → same_file f g ≡ false
      → content (files.rename f g w).1 h
        ≡ (if same_file g h then content w f else if same_file f h then none else content w h)

-- The files after the backups 1 to n have moved up by one.
abbrev pub shifted : ℕ → (LogFile → Option Bytes) → LogFile → Option Bytes
shifted n old agent_log = old agent_log
shifted n old (backup (negsuc i)) = old (backup (negsuc i))
shifted n old (backup (pos i)) =
    if i == 0
    then old (backup (pos 0))
    else if i == 1
    then none
    else if leb i (n + 1)
    then old (backup (pos (i - 1)))
    else old (backup (pos i))

module _ {World : Type 0} (files : Files World) (content : World → LogFile → Option Bytes)
    (laws : Renames files content) where
  move_backup_existing :
      (i : ℕ) (w : World)
      → is_some (content w (backup (pos i))) ≡ true
      → move_backup files i w ≡ files.rename (backup (pos i)) (backup (pos (i + 1))) w
  unfolding move_backup
  move_backup_existing i w there = ground (arith, laws.exists_lem (backup (pos i)) w, there)

  move_backup_missing :
      (i : ℕ) (w : World)
      → is_some (content w (backup (pos i))) ≡ false
      → move_backup files i w ≡ (some tt, w)
  unfolding move_backup
  move_backup_missing i w missing = ground (arith, laws.exists_lem (backup (pos i)) w, missing)

  pub none_of_missing :
      (f : LogFile) (w : World) → is_some (content w f) ≡ false → content w f ≡ none
  none_of_missing f w h = ground (arith, h)

  unmoved :
      (i : ℕ) (old : LogFile → Option Bytes) (f : LogFile)
      → old (backup (pos (i + 1))) ≡ none
      → old (backup (pos i)) ≡ none
      → old f ≡ (
          if same_file (backup (pos (i + 1))) f
          then old (backup (pos i))
          else if same_file (backup (pos i)) f
          then none
          else old f)
  unmoved i old agent_log top e = refl
  unmoved i old (backup (negsuc j)) top e = refl
  unmoved i old (backup (pos j)) top e = ground (arith, top, e)

  move_backup_lem :
      (i : ℕ) (w : World)
      → content w (backup (pos (i + 1))) ≡ none
      → ((move_backup files i w).0 ≡ some tt)
        × ((f : LogFile)
            → content (move_backup files i w).1 f ≡ (
                if same_file (backup (pos (i + 1))) f
                then content w (backup (pos i))
                else if same_file (backup (pos i)) f
                then none
                else content w f))
  move_backup_lem i w top = elim (Bool-cases (is_some (content w (backup (pos i))))) [
    | inl there ↦ rw (move_backup_existing i w there) (
      laws.rename_done (backup (pos i)) (backup (pos (i + 1))) w there,
      λ f. laws.rename_lem (backup (pos i)) (backup (pos (i + 1))) f w there (ground arith),
    )
    | inr missing ↦
        rw (move_backup_missing i w missing)
          (refl, λ f. unmoved i (content w) f top (none_of_missing (backup (pos i)) w missing))
  ]

  unshifted :
      (old : LogFile → Option Bytes) (f : LogFile)
      → old (backup (pos 1)) ≡ none
      → old f ≡ shifted 0 old f
  unshifted old agent_log top = refl
  unshifted old (backup (negsuc i)) top = refl
  unshifted old (backup (pos i)) top = ground (arith, top)

  -- A move of backup k + 1, and the moves of those below.
  shifted-suc :
      (k : ℕ) (old new : LogFile → Option Bytes) (f : LogFile)
      → ((g : LogFile)
          → new g ≡ (
              if same_file (backup (pos (suc k + 1))) g
              then old (backup (pos (suc k)))
              else if same_file (backup (pos (suc k))) g
              then none
              else old g))
      → shifted k new f ≡ shifted (suc k) old f
  shifted-suc k old new agent_log h = h agent_log
  shifted-suc k old new (backup (negsuc i)) h = h (backup (negsuc i))
  shifted-suc k old new (backup (pos i)) h =
      ground (arith, h (backup (pos 0)), h (backup (pos i)), h (backup (pos (i - 1))))

  pub shift_backups-shifted :
      (n : ℕ) (w : World)
      → content w (backup (pos (n + 1))) ≡ none
      → ((shift_backups files n w).0 ≡ some tt)
        × ((f : LogFile) → content (shift_backups files n w).1 f ≡ shifted n (content w) f)
  unfolding shift_backups
  shift_backups-shifted zero w top = (refl, λ f. unshifted (content w) f top)
  shift_backups-shifted (suc k) w top =
      let moved = move_backup_lem (suc k) w top in
      let rest =
        shift_backups-shifted k (move_backup files (suc k) w).1
          (moved.1 (backup (pos (k + 1))) ∙ ground arith) in
      rw (after_done (move_backup files (suc k)) (shift_backups files k) w moved.0) (
        rest.0,
        λ f.
            rest.1 f
            ∙ shifted-suc k (content w) (content (move_backup files (suc k) w).1) f moved.1,
      )
