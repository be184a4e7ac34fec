-- ===== src/Tests/Files.antt =====
-- Private files, src/chute/_files.py, and the event log of src/chute/events.py at concrete inputs.
use chute.Prelude.{ℕ, ◌≡◌, ◌≤◌, false, some, ◌∷◌, true, refl, [], none, suc, arith, zero, map}
use chute.Files.{
  regular, directory, is_regular, is_exposed, is_directory, is_link, is_shared_writable, System,
  Stat, Reading, read_private_text_file_snapshot, valid_parent, valid_lstat, valid_stat,
  validate_fstat, within, size_in, fingerprint_of,
}
use chute.Control.{PrivateTextFile}
use chute.Files.Private.{IsFaithful, read_private_text_file_snapshot-IsFaithful}
use chute.Prelude.Text.{Bytes, codes, text_beq}
use chute.Events.{
  Directory, valid_entry, write_event, valid_log_parent, LogFile, valid_log_file, Sink,
  rotate_within, rotate_locked, refused, valid_log_stat, rotate_at, size_of, check_backups,
  check_backup, shift_backups, shift_entry, replace, put_entry, create_log_file, then_at,
  append_line, open_entry, append_to, file, Place, unlink_at, os_error,
}
use chute.Events.Written.{IsLogged, write_event-IsLogged}
use chute.Events.Loops.{Leaves, Ends}
use chute.Control.Json.{success, value_error}
use chute.Events.Rotation.{rotated_entries, with_room, rotate_locked-shifts, rotate_locked-refused}

abbrev user : System
user = record { is_nt = false; euid = 1000 }

abbrev home : Stat
home = record {
  kind = directory;
  mode = 448;
  uid = 1000;
  device = 1;
  inode = 2;
  size = 4096;
  mtime = 10;
}

abbrev secret : Stat
secret = record {
  kind = regular;
  mode = 384;
  uid = 1000;
  device = 1;
  inode = 7;
  size = 2;
  mtime = 20;
}

abbrev secret_read : Reading
secret_read = record {
  parent = some home;
  entry = some secret;
  is_opened = true;
  before = some secret;
  text = success (codes "ok");
  after = some secret;
}

abbrev secret_text : PrivateTextFile
secret_text = record { fingerprint = 1 ∷ 7 ∷ 2 ∷ 20 ∷ 384 ∷ []; text = codes "ok" }

secret_run : read_private_text_file_snapshot user (some 10) secret_read ≡ success secret_text
unfolding read_private_text_file_snapshot valid_parent valid_lstat valid_stat validate_fstat
    is_regular is_exposed is_directory is_link is_shared_writable within size_in fingerprint_of
    text_beq
secret_run = refl

read_private_text_file_snapshot-IsFaithful_example :
    IsFaithful user (some 10) secret_read secret_text
read_private_text_file_snapshot-IsFaithful_example =
    read_private_text_file_snapshot-IsFaithful user (some 10) secret_read secret_text secret_run

-- A world-readable file is refused.
shared_run :
    read_private_text_file_snapshot user none
      (record secret_read { before = some (record secret { mode = 420 }) })
    ≡ value_error
unfolding read_private_text_file_snapshot valid_parent valid_lstat valid_stat validate_fstat
    is_regular is_exposed is_directory is_link is_shared_writable
shared_run = refl

abbrev place : Place
place = record { is_nt = false; euid = 1000; may_change = true }

abbrev log_with : Bytes → LogFile
log_with bytes = record {
  kind = regular;
  mode = 384;
  uid = 1000;
  is_writable = true;
  content = bytes;
}

-- A log of 3 bytes and one backup.
abbrev logs : Directory
logs zero = some (file (log_with (1 ∷ 2 ∷ 3 ∷ [])))
logs (suc zero) = some (file (log_with (9 ∷ [])))
logs (suc (suc i)) = none

logs_valid : (i : ℕ) → valid_entry place (logs i) ≡ true
unfolding valid_entry valid_log_file valid_log_stat is_regular is_exposed
logs_valid zero = refl
logs_valid (suc zero) = refl
logs_valid (suc (suc i)) = refl

abbrev sink : Sink
sink = record { max_bytes = some 4; backup_count = 2 }

write_run :
    map (write_event place sink (some home) (7 ∷ 8 ∷ []) logs).0 (0 ∷ 1 ∷ 2 ∷ 3 ∷ [])
    ≡ some (file (log_with (7 ∷ 8 ∷ []))) ∷ logs 0 ∷ logs 1 ∷ none ∷ []
unfolding write_event rotate_within rotate_at size_of rotate_locked check_backups check_backup
    unlink_at shift_backups shift_entry replace put_entry create_log_file then_at append_line
    valid_log_parent valid_entry valid_log_file valid_log_stat open_entry append_to is_regular
    is_exposed is_directory is_shared_writable
write_run = refl

home_valid : valid_log_parent place (some home) ≡ true
unfolding valid_log_parent is_directory is_shared_writable
home_valid = refl

write_event-IsLogged_example :
    IsLogged place sink (7 ∷ 8 ∷ []) logs (write_event place sink (some home) (7 ∷ 8 ∷ []) logs)
write_event-IsLogged_example =
    write_event-IsLogged place refl sink (some home) (7 ∷ 8 ∷ []) logs home_valid refl
      (λ i h. logs_valid i)

rotate_locked-shifts_example : Leaves (rotate_locked place 2 logs) (rotated_entries place 2 logs)
rotate_locked-shifts_example =
    rotate_locked-shifts place refl 1 logs (λ i a b. logs_valid i) (logs_valid 0)

-- The same logs, once the log itself has become readable to others.
abbrev exposed_logs : Directory
exposed_logs zero = some (file (record (log_with (1 ∷ 2 ∷ 3 ∷ [])) { mode = 420 }))
exposed_logs (suc i) = logs (suc i)

exposed_log : valid_entry place (exposed_logs 0) ≡ false
unfolding valid_entry valid_log_file valid_log_stat is_regular is_exposed
exposed_log = refl

exposed_backups : (i : ℕ) → 1 ≤ i → i ≤ 2 → valid_entry place (exposed_logs i) ≡ true
exposed_backups zero a b = absurd (omega (arith, a))
exposed_backups (suc i) a b = logs_valid (suc i)

rotate_locked-refused_example :
    Ends refused (rotate_locked place 2 exposed_logs) (with_room 1 exposed_logs)
rotate_locked-refused_example =
    rotate_locked-refused place refl 1 exposed_logs exposed_backups exposed_log

-- A log that its owner may not write stays as it is.
read_only_run :
    (write_event place sink (some home) (7 ∷ []) (
      put_entry 0
        (some (file (record (log_with (1 ∷ [])) { mode = 256; is_writable = false })))
        logs)).1
    ≡ os_error
unfolding write_event rotate_within rotate_at size_of then_at append_line valid_log_parent
    valid_entry valid_log_file valid_log_stat open_entry put_entry is_regular is_exposed
    is_directory is_shared_writable
read_only_run = refl
