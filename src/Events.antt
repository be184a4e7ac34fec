-- ===== src/Events.antt =====
-- `JsonlEventSink` of src/chute/events.py: an event log for its owner alone, rotated by size. A line
-- is the bytes of one event's JSON and its newline. The sink's lock makes one write at a time; that
-- no other process touches the directory during one is assumed here.
pub mod Loops
pub mod Rotation
pub mod Written
use chute.Files.{Stat, Kind, is_shared_writable, is_exposed, regular, is_regular, is_directory}
use chute.Prelude.{
  ℕ, Option, Bool, [], none, if◌then◌else◌, false, some, suc, ◌-◌, true, length, ◌==◌, ◌&&◌, zero,
  ◌+◌, ◌++◌, not, ◌||◌, leb,
}
use chute.Prelude.Text.{Bytes}

-- The process and the parent directory of the log: `os.name == "nt"`, `os.geteuid()`, and whether the
-- system lets this user add, rename and remove entries there. Looking entries up never fails, and
-- the disk has room.
pub record Place : Type 0 where
  pub is_nt : Bool
  pub euid : ℕ
  pub may_change : Bool

-- `is_writable` says whether the system lets this user open the file for writing, which a mode such
-- as 0o400 does not.
pub record LogFile : Type 0 where
  pub kind : Kind
  pub mode : ℕ
  pub uid : ℕ
  pub is_writable : Bool
  pub content : Bytes

-- A link stands with the file that it leads to, if there is one.
pub data Entry : Type 0 where
  file : LogFile → Entry
  symlink : Option LogFile → Entry

-- The log is entry 0 and `_rotated_path(index)` is entry `index`. `exists() or is_symlink()` says
-- that there is an entry.
abbrev pub Directory : Type 0
Directory = ℕ → Option Entry

-- `refused` is a `ValueError`, `os_error` an `OSError`.
pub data Outcome : Type 0 where
  done refused os_error : Outcome

-- What a call leaves behind, also when it raises.
abbrev pub Result : Type 0
Result = Directory × Outcome

unfoldable pub put_entry : ℕ → Option Entry → Directory → Directory
put_entry i entry d j = if j == i then entry else d j

-- `m; k` unless `m` raises.
unfoldable pub then_at : Outcome → Directory → (Directory → Result) → Result
then_at done d k = k d
then_at refused d k = (d, refused)
then_at os_error d k = (d, os_error)

abbrev pub and_then : Result → (Directory → Result) → Result
and_then m k = then_at m.1 m.0 k

-- `_validate_log_stat`
unfoldable pub valid_log_stat : Place → LogFile → Bool
valid_log_stat sys f =
    is_regular f.kind
    && (sys.is_nt || (f.uid == sys.euid))
    && (sys.is_nt || not (is_exposed f.mode))

-- `_validate_log_file` on an entry that is there
unfoldable pub valid_log_file : Place → Entry → Bool
valid_log_file sys (symlink target) = false
valid_log_file sys (file f) = valid_log_stat sys f

-- `_validate_parent_dir`, from what `stat` answers for the parent
unfoldable pub valid_log_parent : Place → Option Stat → Bool
valid_log_parent sys none = false
valid_log_parent sys (some st) =
    is_directory st.kind
    && (sys.is_nt || not (is_shared_writable st.mode))
    && (sys.is_nt || (st.uid == sys.euid))

-- A file that `os.open` creates with mode 0o600.
abbrev pub new_file : Place → LogFile
new_file sys = record {
  kind = regular;
  mode = 384;
  uid = sys.euid;
  is_writable = true;
  content = [];
}

-- `_create_log_file`: `O_EXCL` refuses any entry.
unfoldable pub create_log_file : Place → Directory → Result
create_log_file sys d = elim (d 0) [
  | none ↦
      if sys.may_change then (put_entry 0 (some (file (new_file sys))) d, done) else (d, os_error)
  | some entry ↦ (d, os_error)
]

-- `path.unlink()`
unfoldable pub unlink_at : Place → ℕ → Directory → Result
unlink_at sys index d = if sys.may_change then (put_entry index none d, done) else (d, os_error)

-- The first loop of `_rotate_locked` at one index: the last backup makes room.
unfoldable pub check_backup : Place → ℕ → ℕ → Option Entry → Directory → Result
check_backup sys count index none d = (d, done)
check_backup sys count index (some entry) d =
    if valid_log_file sys entry
    then (if index == count then unlink_at sys index d else (d, done))
    else (d, refused)

unfoldable pub check_backups : Place → ℕ → ℕ → Directory → Result
check_backups sys count zero d = (d, done)
check_backups sys count (suc n) d =
    and_then (check_backup sys count (suc n) (d (suc n)) d) (λ e. check_backups sys count n e)

-- `os.replace` of a regular file, onto no entry or another regular file.
unfoldable pub replace : Place → ℕ → ℕ → Entry → Directory → Result
replace sys source target entry d =
    if sys.may_change
    then (put_entry target (some entry) (put_entry source none d), done)
    else (d, os_error)

-- The entry at `index`, if there is one, is validated and goes to the next index.
unfoldable pub shift_entry : Place → ℕ → Option Entry → Directory → Result
shift_entry sys index none d = (d, done)
shift_entry sys index (some entry) d =
    if valid_log_file sys entry then replace sys index (index + 1) entry d else (d, refused)

-- The second loop of `_rotate_locked`
unfoldable pub shift_backups : Place → ℕ → Directory → Result
shift_backups sys zero d = (d, done)
shift_backups sys (suc n) d =
    and_then (shift_entry sys (suc n) (d (suc n)) d) (λ e. shift_backups sys n e)

-- `_rotate_locked`
unfoldable pub rotate_locked : Place → ℕ → Directory → Result
rotate_locked sys count d = and_then (check_backups sys count count d) (λ checked.
    and_then (shift_backups sys (count - 1) checked) (λ shifted.
      and_then (shift_entry sys 0 (shifted 0) shifted) (λ moved. create_log_file sys moved)))

-- `st_size` of `path.stat()`, which follows a link; `none` is `FileNotFoundError`.
unfoldable pub size_of : Option Entry → Option ℕ
size_of none = none
size_of (some (file f)) = some (length f.content)
size_of (some (symlink none)) = none
size_of (some (symlink (some f))) = some (length f.content)

pub record Sink : Type 0 where
  pub max_bytes : Option ℕ
  pub backup_count : ℕ

-- A limit of 0 is no limit.
unfoldable pub limit_bytes : Option ℕ → Option ℕ
limit_bytes none = none
limit_bytes (some zero) = none
limit_bytes (some (suc n)) = some (suc n)

unfoldable pub rotate_at : Place → ℕ → ℕ → ℕ → Option ℕ → Directory → Result
rotate_at sys limit count bytes none d = (d, done)
rotate_at sys limit count bytes (some size) d =
    if (size == 0) || leb (size + bytes) limit then (d, done) else rotate_locked sys count d

unfoldable pub new_sink : Option ℕ → ℕ → Sink
new_sink max_bytes count = record { max_bytes = limit_bytes max_bytes; backup_count = count }

unfoldable pub rotate_within : Place → Option ℕ → ℕ → ℕ → Directory → Result
rotate_within sys none count bytes d = (d, done)
rotate_within sys (some limit) count bytes d =
    if count == 0 then (d, done) else rotate_at sys limit count bytes (size_of (d 0)) d

-- `_rotate_if_needed`
abbrev pub rotate_if_needed : Place → Sink → ℕ → Directory → Result
rotate_if_needed sys sink bytes d = rotate_within sys sink.max_bytes sink.backup_count bytes d

-- The file is tested once more when it is open, and then written to.
unfoldable pub append_to : Place → LogFile → Bytes → Directory → Result
append_to sys f line d =
    if valid_log_stat sys f
    then (put_entry 0 (some (file (record f { content = f.content ++ line }))) d, done)
    else (d, refused)

-- What `os.open` opens: with `O_NOFOLLOW` a link is an `OSError`, and so is what the system does not
-- let this user do.
unfoldable pub open_entry : Place → Option Entry → Bytes → Directory → Result
open_entry sys none line d =
    if sys.may_change then append_to sys (new_file sys) line d else (d, os_error)
open_entry sys (some (file f)) line d =
    if f.is_writable then append_to sys f line d else (d, os_error)
open_entry sys (some (symlink target)) line d = (d, os_error)

-- `_validate_existing_log_file`, if there is an entry
unfoldable pub valid_entry : Place → Option Entry → Bool
valid_entry sys none = true
valid_entry sys (some entry) = valid_log_file sys entry

-- `_open_append_file`, and the write
unfoldable pub append_line : Place → Option Stat → Bytes → Directory → Result
append_line sys parent line d =
    if valid_log_parent sys parent && valid_entry sys (d 0)
    then open_entry sys (d 0) line d
    else (d, refused)

-- `_write_event_sync`
unfoldable pub write_event : Place → Sink → Option Stat → Bytes → Directory → Result
write_event sys sink parent line d =
    and_then (rotate_if_needed sys sink (length line) d) (λ e. append_line sys parent line e)

-- `_ensure_log_file`
unfoldable pub ensure_log_file : Place → Option Stat → Directory → Result
ensure_log_file sys parent d =
    if not (valid_log_parent sys parent) then (d, refused) else elim (d 0) [
      | none ↦ create_log_file sys d
      | some entry ↦ (d, if valid_log_file sys entry then done else refused)
    ]
