-- ===== src/Events/Written.antt =====
-- What a written event leaves in the log, src/chute/events.py.
use chute.Prelude.{
  ℕ, ◌≡◌, ◌++◌, ◌≤◌, arith, ==_iff, ◌⊎◌, max, ap, none, subst, ◌∙◌, sym, inl, inr, refl, if_cases,
  zero, ◌==◌, ◌||◌, ◌+◌, length-append, eq_of_some_eq,
}
use chute.Files.{is_regular, is_exposed}
use chute.Events.{
  LogFile, valid_log_stat, valid_entry, open_entry, append_line, Sink, Option, Bytes, new_file,
  valid_log_file, append_to, Directory, Entry, true, Stat, some, Result, put_entry,
  valid_log_parent, file, done, length, symlink, [], size_of, and_then, rotate_at, rotate_within,
  write_event, then_at, suc, leb, rotate_locked, Place,
}
use chute.Events.Rotation.{rotate_locked-shifts}

-- The log and its backups are absent or logs of this user alone.
abbrev pub IsLogDirectory : Place → Sink → Directory → Type 0
IsLogDirectory sys sink d = (i : ℕ) → i ≤ sink.backup_count → valid_entry sys (d i) ≡ true

-- The log that `os.open` opens or creates.
abbrev pub log_of : Place → Option Entry → LogFile
log_of sys none = new_file sys
log_of sys (some (file f)) = f
log_of sys (some (symlink target)) = new_file sys

abbrev pub appended : LogFile → Bytes → LogFile
appended f line = record f { content = f.content ++ line }

-- A write that does not raise leaves a log of this user alone, with the line behind what was there
-- or, after a rotation, alone; and within the limit, if there is one, or no longer than the line.
pub record IsLogged (sys : Place) (sink : Sink) (line : Bytes) (d : Directory) (r : Result)
    : Type 0 where
  pub ends : r.1 ≡ done
  pub log : LogFile
  pub log_there : r.0 0 ≡ some (file log)
  pub log_private : valid_log_stat sys log ≡ true
  pub line_kept :
      (log.content ≡ (log_of sys (d 0)).content ++ line) ⊎ ((log.content ≡ line) × (r.0 1 ≡ d 0))
  pub size_kept :
      (limit : ℕ)
      → sink.max_bytes ≡ some limit
      → 1 ≤ sink.backup_count
      → length log.content ≤ max limit (length line)

new_file-valid : (sys : Place) → valid_log_stat sys (new_file sys) ≡ true
unfolding valid_log_stat is_regular is_exposed
new_file-valid sys = ground (arith, ==_iff sys.euid sys.euid)

log_of-valid :
    (sys : Place) (o : Option Entry)
    → valid_entry sys o ≡ true
    → valid_log_stat sys (log_of sys o) ≡ true
unfolding valid_entry valid_log_file
log_of-valid sys none h = new_file-valid sys
log_of-valid sys (some (file f)) h = h
log_of-valid sys (some (symlink target)) h = new_file-valid sys

open_entry_lem :
    (sys : Place) (m : sys.may_change ≡ true) (o : Option Entry) (line : Bytes) (d : Directory)
    → valid_entry sys o ≡ true
    → (log_of sys o).is_writable ≡ true
    → open_entry sys o line d ≡ (put_entry 0 (some (file (appended (log_of sys o) line))) d, done)
unfolding open_entry append_to valid_entry valid_log_file
open_entry_lem sys m none line d h w = ground (arith, new_file-valid sys)
open_entry_lem sys m (some (file f)) line d h w = ground arith
open_entry_lem sys m (some (symlink target)) line d h w = absurd (ground arith)

append_line_lem :
    (sys : Place) (m : sys.may_change ≡ true) (parent : Option Stat) (line : Bytes) (d : Directory)
    → valid_log_parent sys parent ≡ true
    → valid_entry sys (d 0) ≡ true
    → (log_of sys (d 0)).is_writable ≡ true
    → append_line sys parent line d
      ≡ (put_entry 0 (some (file (appended (log_of sys (d 0)) line))) d, done)
unfolding append_line
append_line_lem sys m parent line d p h w = ground (arith, open_entry_lem sys m (d 0) line d h w)

-- The size that the rotation goes by.
abbrev size_or_0 : Option ℕ → ℕ
size_or_0 none = 0
size_or_0 (some n) = n

size_of_lem :
    (sys : Place) (o : Option Entry)
    → valid_entry sys o ≡ true
    → length (log_of sys o).content ≡ size_or_0 (size_of o)
unfolding size_of valid_entry valid_log_file
size_of_lem sys none h = refl
size_of_lem sys (some (file f)) h = refl
size_of_lem sys (some (symlink target)) h = absurd (ground arith)

module _ (sys : Place) (m : sys.may_change ≡ true) (sink : Sink) (parent : Option Stat)
    (line : Bytes) (d : Directory) where
  -- Without a rotation
  append_line-IsLogged :
      valid_log_parent sys parent ≡ true
      → valid_entry sys (d 0) ≡ true
      → (log_of sys (d 0)).is_writable ≡ true
      → ((limit : ℕ)
          → sink.max_bytes ≡ some limit
          → 1 ≤ sink.backup_count
          → length ((log_of sys (d 0)).content ++ line) ≤ max limit (length line))
      → IsLogged sys sink line d (append_line sys parent line d)
  unfolding put_entry valid_log_stat
  append_line-IsLogged p h w small =
      subst (IsLogged sys sink line d) (sym (append_line_lem sys m parent line d p h w)) (record {
        ends = refl;
        log = appended (log_of sys (d 0)) line;
        log_there = refl;
        log_private = log_of-valid sys (d 0) h;
        line_kept = inl refl;
        size_kept = small;
      })

  -- After a rotation
  rotated-IsLogged :
      (e : Directory)
      → valid_log_parent sys parent ≡ true
      → e 0 ≡ some (file (new_file sys))
      → e 1 ≡ d 0
      → IsLogged sys sink line d (append_line sys parent line e)
  unfolding put_entry valid_entry valid_log_file valid_log_stat
  rotated-IsLogged e p new old =
      let valid : valid_entry sys (e 0) ≡ true = ap (valid_entry sys) new ∙ new_file-valid sys in
      let content : (log_of sys (e 0)).content ≡ [] = ap (λ o. (log_of sys o).content) new in
      let alone : (log_of sys (e 0)).content ++ line ≡ line = ap (λ c. c ++ line) content in
      subst (IsLogged sys sink line d)
        (sym
          (append_line_lem sys m parent line e p valid (ap (λ o. (log_of sys o).is_writable) new)))
        (record {
          ends = refl;
          log = appended (log_of sys (e 0)) line;
          log_there = refl;
          log_private = log_of-valid sys (e 0) valid;
          line_kept = inr (alone, old);
          size_kept = λ limit m c. omega (arith, ap length alone);
        })

  abbrev Writes : Result → Type 0
  Writes r = IsLogged sys sink line d (and_then r (λ e. append_line sys parent line e))

  rotate_at-Writes :
      (limit count : ℕ) (size : Option ℕ)
      → valid_log_parent sys parent ≡ true
      → (log_of sys (d 0)).is_writable ≡ true
      → ((i : ℕ) → i ≤ suc count → valid_entry sys (d i) ≡ true)
      → sink.max_bytes ≡ some limit
      → size_of (d 0) ≡ size
      → Writes (rotate_at sys limit (suc count) (length line) size d)
  unfolding rotate_at then_at
  rotate_at-Writes limit count none p w h x s =
      append_line-IsLogged p (h 0 (omega arith)) w (λ l e c. omega (
        arith,
        length-append (log_of sys (d 0)).content line,
        size_of_lem sys (d 0) (h 0 (omega arith)),
        ap size_or_0 s,
      ))
  rotate_at-Writes limit count (some size) p w h x s =
      if_cases Writes ((size == 0) || leb (size + length line) limit) _ _
        (λ fits. append_line-IsLogged p (h 0 (omega arith)) w (λ l e c. ground (
          arith,
          fits,
          length-append (log_of sys (d 0)).content line,
          size_of_lem sys (d 0) (h 0 (omega arith)),
          ap size_or_0 s,
          eq_of_some_eq (sym x ∙ e),
        )))
        (λ full.
          let shifted = rotate_locked-shifts sys m count d (λ i a b. h i b) (h 0 (omega arith)) in
          subst
            (λ o.
              IsLogged sys sink line d (
                then_at o (rotate_locked sys (suc count) d).0 (λ e. append_line sys parent line e)))
            (sym shifted.0)
            (rotated-IsLogged (rotate_locked sys (suc count) d).0 p (shifted.1 0)
              (shifted.1 1 ∙ ground arith)))

  rotate_within-Writes :
      (m : Option ℕ) (count : ℕ)
      → valid_log_parent sys parent ≡ true
      → (log_of sys (d 0)).is_writable ≡ true
      → ((i : ℕ) → i ≤ count → valid_entry sys (d i) ≡ true)
      → sink.max_bytes ≡ m
      → sink.backup_count ≡ count
      → Writes (rotate_within sys m count (length line) d)
  unfolding rotate_within then_at
  rotate_within-Writes none count p w h x e =
      append_line-IsLogged p (h 0 (omega arith)) w (λ l f c. cc)
  rotate_within-Writes (some limit) zero p w h x e =
      append_line-IsLogged p (h 0 (omega arith)) w (λ l f c. absurd (omega (arith, c, e)))
  rotate_within-Writes (some limit) (suc count) p w h x e =
      if_cases Writes (suc count == 0) _ _ (λ z. absurd (ground (arith, z)))
        (λ z. rotate_at-Writes limit count (size_of (d 0)) p w h x refl)

  -- In a directory of the user alone that the user may change, whose log and backups are absent or
  -- the user's alone, and whose log, if there, the user may write, writing an event raises
  -- nothing. The log is then the user's alone and ends with the line, behind what was there or
  -- alone with the old log in backup 1; with a limit and a backup it is no longer than the limit
  -- or the line.
  pub write_event-IsLogged :
      valid_log_parent sys parent ≡ true
      → (log_of sys (d 0)).is_writable ≡ true
      → IsLogDirectory sys sink d
      → IsLogged sys sink line d (write_event sys sink parent line d)
  unfolding write_event
  write_event-IsLogged p w h = rotate_within-Writes sink.max_bytes sink.backup_count p w h refl refl
