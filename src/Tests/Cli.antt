-- ===== src/Tests/Cli.antt =====
-- The readers of src/chute/cli.py on a few texts.
use chute.Prelude.{◌≡◌, map, none, ◌∷◌, some, [], refl, false, true}
use chute.Mux.Limits.{integer, negative, validate_flow_window}
use chute.Cli.{
  strip, env_or, validate_int, env_bool, strip_front, parse_optional_positive_int, checked_window,
  strip_end, check_positive, is_space, some_of, signed_of, unsigned_of, count_digits, digits_from,
  is_decimal, negate, positive, int_of, optional_positive_int_env, parse_flow_window,
}
use chute.Server.Claims.{lower_char}
use chute.Server.Registry.{mem}
use chute.Prelude.Text.{text_beq, codes}

int_runs :
    map int_of
      (codes " 1_000\n" ∷ codes "-7" ∷ codes "+0" ∷ codes "1__0" ∷ codes "" ∷ codes "7x" ∷ [])
    ≡ some (integer 1000) ∷ some (negative 6) ∷ some (integer 0) ∷ none ∷ none ∷ none ∷ []
unfolding strip strip_front strip_end is_space signed_of unsigned_of count_digits digits_from
    is_decimal negate positive
int_runs = refl

visitors_runs :
    map (optional_positive_int_env (some 5)) (
      none
      ∷ some (codes "  ")
      ∷ some (codes " OFF ")
      ∷ some (codes "3")
      ∷ some (codes "-3")
      ∷ some (codes "00")
      ∷ [])
    ≡ some (some 5) ∷ some (some 5) ∷ some none ∷ some (some 3) ∷ none ∷ none ∷ []
unfolding env_or parse_optional_positive_int check_positive some_of strip strip_front strip_end
    is_space signed_of unsigned_of count_digits digits_from is_decimal negate positive lower_char
    mem text_beq
visitors_runs = refl

window_runs :
    map parse_flow_window (codes "65536" ∷ codes "0" ∷ codes "-1" ∷ [])
    ≡ some 65536 ∷ none ∷ none ∷ []
unfolding validate_int checked_window validate_flow_window strip strip_front strip_end is_space
    signed_of unsigned_of count_digits digits_from is_decimal negate positive
window_runs = refl

bool_runs :
    map env_bool (none ∷ some (codes " Yes") ∷ some (codes "2") ∷ []) ≡ false ∷ true ∷ false ∷ []
unfolding env_bool strip strip_front strip_end is_space lower_char mem text_beq
bool_runs = refl
