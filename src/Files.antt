-- ===== src/Files.antt =====
-- src/chute/_files.py: reading and writing files that only their owner may see. What each system
-- call answers is an argument, so that nothing is assumed of who changes the file between two of
-- them; `none` is an `OSError`. The messages of the errors are left out.
pub mod Private
use chute.Control.{PrivateTextFile, Fingerprint}
use chute.Control.Json.{Loaded, success, value_error, crash, ◌>>=◌, ◌>>◌, check}
use chute.Prelude.{
  ℕ, Bool, Option, ◌∷◌, if◌then◌else◌, true, ◌/◌, not, ◌&&◌, false, [], some, length, ◌++◌, ◌%◌,
  ◌||◌, none, leb, ◌==◌,
}
use chute.Prelude.Text.{Text, text_beq}

pub data Kind : Type 0 where
  regular directory link other : Kind

-- `os.stat_result`; `mode` is `S_IMODE(st_mode)`.
pub record Stat : Type 0 where
  pub kind : Kind
  pub mode : ℕ
  pub uid : ℕ
  pub device : ℕ
  pub inode : ℕ
  pub size : ℕ
  pub mtime : ℕ

-- `os.name == "nt"`, and `os.geteuid()`
pub record System : Type 0 where
  pub is_nt : Bool
  pub euid : ℕ

unfoldable pub is_regular : Kind → Bool
is_regular regular = true
is_regular _ = false

unfoldable pub is_directory : Kind → Bool
is_directory directory = true
is_directory _ = false

unfoldable pub is_link : Kind → Bool
is_link link = true
is_link _ = false

-- `mode & (S_IWGRP | S_IWOTH)`, the bits 0o020 and 0o002
unfoldable pub is_shared_writable : ℕ → Bool
is_shared_writable mode = ((mode / 16) % 2 == 1) || ((mode / 2) % 2 == 1)

-- `mode & 0o077`
unfoldable pub is_exposed : ℕ → Bool
is_exposed mode = not (mode % 64 == 0)

-- `_validate_stat`
unfoldable pub valid_stat : System → Stat → Bool
valid_stat sys st =
    is_regular st.kind
    && (sys.is_nt || (st.uid == sys.euid))
    && (sys.is_nt || not (is_exposed st.mode))

-- `_validate_parent`, from what `stat` answers for the parent
unfoldable pub valid_parent : System → Option Stat → Bool
valid_parent sys none = false
valid_parent sys (some st) =
    is_directory st.kind
    && (sys.is_nt || not (is_shared_writable st.mode))
    && (sys.is_nt || (st.uid == 0) || (st.uid == sys.euid))

-- `_validate_lstat`, from what `lstat` answers
unfoldable pub valid_lstat : System → Option Stat → Bool
valid_lstat sys none = false
valid_lstat sys (some st) = not (is_link st.kind) && valid_stat sys st

-- `_fingerprint`
unfoldable pub fingerprint_of : Stat → Fingerprint
fingerprint_of st = st.device ∷ st.inode ∷ st.size ∷ st.mtime ∷ st.mode ∷ []

-- `_validate_fstat`, from what `fstat` answers
unfoldable pub validate_fstat : System → Option Stat → Loaded Fingerprint
validate_fstat sys none = value_error
validate_fstat sys (some st) = do check (valid_stat sys st); success (fingerprint_of st)

unfoldable pub within : Option ℕ → ℕ → Bool
within none n = true
within (some max_bytes) n = leb n max_bytes

-- What the calls of one read answer; `text` is `crash` when `read` fails with an `OSError`, and
-- `value_error` when the bytes are not UTF-8.
pub record Reading : Type 0 where
  pub parent : Option Stat
  pub entry : Option Stat
  pub is_opened : Bool
  pub before : Option Stat
  pub text : Loaded Text
  pub after : Option Stat

-- The third element of the fingerprint
unfoldable pub size_in : Fingerprint → ℕ
size_in (device ∷ inode ∷ size ∷ rest) = size
size_in _ = 0

-- `read_private_text_file_snapshot`
unfoldable pub read_private_text_file_snapshot :
    System → Option ℕ → Reading → Loaded PrivateTextFile
read_private_text_file_snapshot sys max_bytes r = do
  check (valid_parent sys r.parent)
  check (valid_lstat sys r.entry)
  check r.is_opened
  first ← validate_fstat sys r.before
  check (within max_bytes (size_in first))
  text ← r.text
  check (within max_bytes (length text))
  second ← validate_fstat sys r.after
  check (text_beq second first)
  success (record { fingerprint = second; text = text })

-- What the calls of one write answer. A flush of the parent is skipped where the system does not
-- support it.
pub data Flushed : Type 0 where
  flushed unsupported failed : Flushed

pub record Writing : Type 0 where
  pub parent : Option Stat
  pub is_created : Bool
  pub created : Option Stat
  pub is_written : Bool
  pub parent_opened : Flushed
  pub parent_flushed : Flushed

unfoldable pub ends_with_newline : Text → Bool
ends_with_newline [] = false
ends_with_newline (c ∷ []) = c == 10
ends_with_newline (c ∷ d ∷ cs) = ends_with_newline (d ∷ cs)

unfoldable pub written_text : Text → Text
written_text text = if ends_with_newline text then text else text ++ (10 ∷ [])

unfoldable pub check_flush : Flushed → Loaded (Unit {0}) → Loaded (Unit {0})
check_flush flushed next = next
check_flush unsupported next = success tt
check_flush failed next = value_error

-- `_fsync_parent_dir`
unfoldable pub fsync_parent_dir : System → Flushed → Flushed → Loaded (Unit {0})
fsync_parent_dir sys opened synced =
    if sys.is_nt then success tt else check_flush opened (check_flush synced (success tt))

-- `write_new_private_text_file`, with the text that the file then holds
unfoldable pub write_new_private_text_file : System → Text → Writing → Loaded Text
write_new_private_text_file sys text w = do
  check (valid_parent sys w.parent)
  check w.is_created
  _ ← validate_fstat sys w.created
  check w.is_written
  fsync_parent_dir sys w.parent_opened w.parent_flushed
  success (written_text text)
