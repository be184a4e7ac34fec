-- ===== src/Events/Rotation.antt =====
-- What a rotation of the event log does to the log and its backups, src/chute/events.py.
use chute.Events.{
  create_log_file, shift_entry, ℕ, put_entry, valid_entry, Directory, then_at, Option, Entry, none,
  suc, false, Outcome, rotate_locked, Result, true, some, refused, leb, and_then, done, file,
  check_backups, new_file, shift_backups, Place,
}
use chute.Prelude.{◌≡◌, if◌then◌else◌, ◌==◌, arith, ◌&&◌, ◌-◌, ◌∙◌, ap, ◌+◌, refl}
use chute.Events.Loops.{
  HasBackups, Leaves, Ends, check_backups_lem, shift_entry_lem, shift_backups_lem, and_then-Ends,
  Leaves-as, at_index,
}

-- A new log, and every log and backup one index up.
abbrev pub rotated_entries : Place → ℕ → Directory → ℕ → Option Entry
rotated_entries sys count d j =
    if j == 0 then some (file (new_file sys)) else if leb j count then d (j - 1) else d j

create_log_file_lem :
    (sys : Place) (m : sys.may_change ≡ true) (d : Directory)
    → d 0 ≡ none
    → Leaves (create_log_file sys d) (λ j. if j == 0 then some (file (new_file sys)) else d j)
unfolding create_log_file put_entry
create_log_file_lem sys m d h = (ground arith, λ j. ground arith)

-- A log that fails its test stays where it is, and nothing is created.
shift_entry-refused :
    (sys : Place) (o : Option Entry) (moved : Directory) (entries : ℕ → Option Entry)
    → valid_entry sys o ≡ false
    → ((j : ℕ) → moved j ≡ entries j)
    → Ends refused (and_then (shift_entry sys 0 o moved) (create_log_file sys)) entries
unfolding shift_entry valid_entry then_at
shift_entry-refused sys none moved entries h same = absurd (ground arith)
shift_entry-refused sys (some entry) moved entries h same =
    (ground arith, λ j. ground (arith, same j))

-- The entries before the log itself is moved: the backups one index up, and no backup 1.
abbrev pub with_room : ℕ → Directory → ℕ → Option Entry
with_room n d j = if j == 1 then none else if leb 2 j && leb j (suc n) then d (j - 1) else d j

module _ (sys : Place) (may : sys.may_change ≡ true) (n : ℕ) (d : Directory)
    (h : HasBackups sys (suc n) d) where
  room-Ends :
      (o : Outcome) (m : ℕ) (k : Directory → Result) (entries : ℕ → Option Entry)
      → m ≡ n
      → ((moved : Directory) → ((j : ℕ) → moved j ≡ with_room n d j) → Ends o (k moved) entries)
      → Ends o
          (and_then
            (check_backups sys (suc n) (suc n) d)
            (λ checked. and_then (shift_backups sys m checked) k))
          entries
  room-Ends o m k entries e go =
      let checked = (check_backups sys (suc n) (suc n) d).0 in
      let first = check_backups_lem sys may n d h in
      let second =
        shift_backups_lem sys may m checked
          (λ i a b.
            ap (valid_entry sys) (first.1 i ∙ ground (arith, b, e)) ∙ h i a (omega (arith, b, e)))
          (first.1 (m + 1) ∙ ground (arith, e)) in
      and_then-Ends o _ _ entries first.0 (
        and_then-Ends o _ k entries second.0 (
          go (shift_backups sys m checked).0
            (λ j. second.1 j ∙ ground (arith, e, first.1 j, first.1 (j - 1)))))

  -- In a directory that the user may change, where the log and the backups are absent or the
  -- user's alone, a rotation raises nothing, creates an empty log, moves the log and every backup
  -- but the last one index up, gaps included, and leaves all other entries alone.
  pub rotate_locked-shifts :
      valid_entry sys (d 0) ≡ true
      → Leaves (rotate_locked sys (suc n) d) (rotated_entries sys (suc n) d)
  unfolding rotate_locked
  rotate_locked-shifts valid = room-Ends done (suc n - 1) _ _ (omega arith) (λ moved same.
      let log : moved 0 ≡ d 0 = same 0 ∙ ground arith in
      let third =
        shift_entry_lem sys may 0 (moved 0) moved refl (same 1 ∙ ground arith)
          (ap (valid_entry sys) log ∙ valid) in
      let emptied = (shift_entry sys 0 (moved 0) moved).0 in
      let fourth = create_log_file_lem sys may emptied (third.1 0 ∙ ground arith) in
      and_then-Ends done _ _ _ third.0 (
        Leaves-as _ _ _ (λ j. ground (arith, third.1 j, same j, log, at_index d 0 (j - 1) refl))
          fourth))

  -- In a directory that the user may change, where the backups are absent or the user's alone and
  -- the log is not, a rotation is refused with the log in place, but every backup has gone one
  -- index up and the last one is lost.
  pub rotate_locked-refused :
      valid_entry sys (d 0) ≡ false → Ends refused (rotate_locked sys (suc n) d) (with_room n d)
  unfolding rotate_locked
  rotate_locked-refused invalid = room-Ends refused (suc n - 1) _ _ (omega arith) (λ moved same.
      shift_entry-refused sys (moved 0) moved (with_room n d)
        (ap (valid_entry sys) (same 0 ∙ ground arith) ∙ invalid) same)
