-- ===== src/Cli.antt =====
-- The readers of numbers and switches of src/chute/cli.py, for the environment and for arguments. A
-- text is ASCII; `none` is the `SystemExit` or `ArgumentTypeError` that the caller makes of a
-- `ValueError`. The readers of floats are left out.
use chute.Prelude.{
  ℕ, Bool, Option, List, leb, ◌∷◌, if◌then◌else◌, some, none, false, ◌&&◌, [], ◌*◌, ◌+◌, suc, ◌==◌,
  is_empty, ◌||◌, ◌-◌, zero, true,
}
use chute.Mux.Limits.{integer, negative, WindowValue, Checked, valid, invalid, validate_flow_window}
use chute.Prelude.Text.{Text, codes}
use chute.Server.Claims.{lower}
use chute.Server.Registry.{mem}

unfoldable pub is_space : ℕ → Bool
is_space c = (leb 9 c && leb c 13) || (leb 28 c && leb c 32)

unfoldable pub strip_front : Text → Text
strip_front [] = []
strip_front (c ∷ cs) = let rest = strip_front cs in if is_space c then rest else c ∷ cs

unfoldable pub strip_end : Text → Text
strip_end [] = []
strip_end (c ∷ cs) = let rest = strip_end cs in if is_space c && is_empty rest then [] else c ∷ rest

-- `str.strip`
unfoldable pub strip : Text → Text
strip s = strip_end (strip_front s)

unfoldable pub is_decimal : ℕ → Bool
is_decimal c = leb 48 c && leb c 57

-- The digits of `int`, with single underscores between two of them; `n` is their value so far, and
-- whether a digit came last.
unfoldable pub digits_from : ℕ → (after_digit : Bool) → Text → Option ℕ
digits_from n after_digit [] = if after_digit then some n else none
digits_from n after_digit (c ∷ cs) =
    let rest = digits_from (10 * n + (c - 48)) true cs in
    let skipped = digits_from n false cs in
    if is_decimal c then rest else if (c == 95) && after_digit then skipped else none

unfoldable pub count_digits : Text → ℕ
count_digits [] = 0
count_digits (c ∷ cs) = (if is_decimal c then 1 else 0) + count_digits cs

-- The limit of `int` on the digits of a text.
abbrev pub max_str_digits : ℕ
max_str_digits = 4300

unfoldable pub unsigned_of : Text → Option ℕ
unsigned_of s = if leb (count_digits s) max_str_digits then digits_from 0 false s else none

unfoldable pub negate : Option ℕ → Option WindowValue
negate none = none
negate (some zero) = some (integer zero)
negate (some (suc n)) = some (negative n)

unfoldable pub positive : Option ℕ → Option WindowValue
positive none = none
positive (some n) = some (integer n)

unfoldable pub signed_of : Text → Option WindowValue
signed_of [] = none
signed_of (c ∷ cs) =
    if c == 45
    then negate (unsigned_of cs)
    else if c == 43
    then positive (unsigned_of cs)
    else positive (unsigned_of (c ∷ cs))

-- `int(raw)`
abbrev pub int_of : Text → Option WindowValue
int_of raw = signed_of (strip raw)

-- A value that is unset or blank leaves the default.
unfoldable pub env_or {ℓ} : {A : Type ℓ} → A → (Text → Option A) → Option Text → Option A
env_or default parse none = some default
env_or default parse (some raw) = if is_empty (strip raw) then some default else parse raw

-- `_int_env`
abbrev pub int_env : WindowValue → Option Text → Option WindowValue
int_env default = env_or default int_of

unfoldable pub check_nonnegative : Option WindowValue → Option ℕ
check_nonnegative (some (integer n)) = some n
check_nonnegative _ = none

-- `_parse_nonnegative_int`
abbrev pub parse_nonnegative_int : Text → Option ℕ
parse_nonnegative_int raw = check_nonnegative (int_of raw)

abbrev pub nonnegative_int_arg : Text → Option ℕ
nonnegative_int_arg = parse_nonnegative_int

abbrev pub nonnegative_int_env : ℕ → Option Text → Option ℕ
nonnegative_int_env default = env_or default parse_nonnegative_int

unfoldable pub some_of {ℓ} : {A : Type ℓ} → Option A → Option (Option A)
some_of none = none
some_of (some a) = some (some a)

-- `_parse_optional_nonnegative_int`
unfoldable pub parse_optional_nonnegative_int : Text → Option (Option ℕ)
parse_optional_nonnegative_int raw =
    if mem (lower (strip raw)) ([] ∷ codes "none" ∷ codes "default" ∷ [])
    then some none
    else some_of (parse_nonnegative_int raw)

abbrev pub optional_nonnegative_int_arg : Text → Option (Option ℕ)
optional_nonnegative_int_arg = parse_optional_nonnegative_int

abbrev pub optional_nonnegative_int_env : Option Text → Option (Option ℕ)
optional_nonnegative_int_env = env_or none parse_optional_nonnegative_int

unfoldable pub check_positive : Option WindowValue → Option ℕ
check_positive (some (integer (suc n))) = some (suc n)
check_positive _ = none

abbrev pub off_words : List Text
off_words = codes "0" ∷ codes "none" ∷ codes "off" ∷ codes "false" ∷ codes "unlimited" ∷ []

-- `_parse_optional_positive_int`
unfoldable pub parse_optional_positive_int : Text → Option (Option ℕ)
parse_optional_positive_int raw =
    let value = lower (strip raw) in
    if mem value off_words then some none else some_of (check_positive (int_of value))

-- The three readers of such an argument differ in the message of the error.
abbrev pub optional_positive_int_arg : Text → Option (Option ℕ)
optional_positive_int_arg = parse_optional_positive_int

abbrev pub optional_positive_int_env : Option ℕ → Option Text → Option (Option ℕ)
optional_positive_int_env default = env_or default parse_optional_positive_int

unfoldable pub checked_window : Checked ℕ → Option ℕ
checked_window (valid n) = some n
checked_window (invalid e) = none

unfoldable pub validate_int : Option WindowValue → Option ℕ
validate_int none = none
validate_int (some v) = checked_window (validate_flow_window v)

-- `_parse_flow_window`
abbrev pub parse_flow_window : Text → Option ℕ
parse_flow_window raw = validate_int (int_of raw)

abbrev pub flow_window_arg : Text → Option ℕ
flow_window_arg = parse_flow_window

abbrev pub flow_window_env : ℕ → Option Text → Option ℕ
flow_window_env default = env_or default parse_flow_window

-- `_env_bool`
unfoldable pub env_bool : Option Text → Bool
env_bool none = false
env_bool (some raw) =
    mem (lower (strip raw)) (codes "1" ∷ codes "true" ∷ codes "yes" ∷ codes "on" ∷ [])
