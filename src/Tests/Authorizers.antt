-- ===== src/Tests/Authorizers.antt =====
-- The static token of src/chute/auth.py on the right token, a wrong one, and one with a surrogate.
use chute.Prelude.{◌≡◌, refl, some, ◌∷◌, none, []}
use chute.Prelude.Text.{Text, text_beq, codes}
use chute.Control.Authorizers.{authenticate_static, AuthRequest, compare_digest, bootstrap_result}
use chute.Control.{encode_text, is_surrogate}

abbrev request_with : Text → AuthRequest
request_with token = record { token = token }

right_run :
    authenticate_static (codes "key") (request_with (codes "key")) ≡ some (some bootstrap_result)
unfolding authenticate_static compare_digest encode_text is_surrogate text_beq
right_run = refl

wrong_run : authenticate_static (codes "key") (request_with (codes "kez")) ≡ some none
unfolding authenticate_static compare_digest encode_text is_surrogate text_beq
wrong_run = refl

surrogate_run : authenticate_static (codes "key") (request_with (55296 ∷ [])) ≡ none
unfolding authenticate_static compare_digest encode_text is_surrogate
surrogate_run = refl
