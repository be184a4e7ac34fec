-- ===== src/Names.antt =====
-- src/chute/names.py: the rules of a subdomain label, and the generated labels.
mod Words
pub mod Rules
pub mod Phrase
pub use Words.{adjectives, nouns}
use chute.Prelude.{
  ℕ, zero, suc, List, [], ◌∷◌, ◌++◌, Bool, false, ◌&&◌, ◌||◌, Option, none, some, leb, ◌==◌,
  if◌then◌else◌,
}
use chute.Prelude.Text.{Text, text_beq}

-- [a-z0-9]
unfoldable pub is_alnum : ℕ → Bool
is_alnum c = (leb b'a' c && leb c b'z') || (leb b'0' c && leb c b'9')

-- [a-z0-9-]
unfoldable pub is_label_char : ℕ → Bool
unfolding is_alnum
is_label_char c = is_alnum c || c == b'-'

-- (?:[a-z0-9-]{0,n}[a-z0-9]), to the end of the text
unfoldable pub match_tail : ℕ → Text → Bool
match_tail n [] = false
match_tail n (c ∷ []) = is_alnum c
match_tail zero (c ∷ d ∷ cs) = false
match_tail (suc n) (c ∷ d ∷ cs) = is_label_char c && match_tail n (d ∷ cs)

-- `_LABEL_RE.fullmatch(label) is not None`
unfoldable pub valid_label : Text → Bool
valid_label [] = false
valid_label (c ∷ []) = is_alnum c
valid_label (c ∷ d ∷ cs) = is_alnum c && match_tail 61 (d ∷ cs)

-- `while second == first: second = secrets.choice(...)`, over the choices that `secrets` makes;
-- `none` when all of them are used up.
unfoldable pub choose_second : Text → List Text → Option Text
choose_second first [] = none
choose_second first (c ∷ cs) =
    let rest = choose_second first cs in if text_beq c first then rest else some c

unfoldable pub random_phrase : Text → List Text → Text → Option Text
unfolding choose_second
random_phrase first seconds noun = elim (choose_second first seconds) [
  | none ↦ none
  | some second ↦ some (first ++ (b'-' ∷ (second ++ (b'-' ∷ noun))))
]
