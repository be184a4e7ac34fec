-- ===== src/Names/Rules.antt =====
-- What `valid_label` of src/chute/names.py accepts.
use chute.Prelude.{
  ℕ, zero, suc, ◌+◌, ◌≡◌, [], ◌∷◌, Bool, true, false, ◌&&◌, arith, leb, length, all,
}
use chute.Prelude.Text.{Text}
use chute.Names.{is_alnum, is_label_char, match_tail, valid_label}

-- The first and the last character, where there is one.
abbrev pub ends_in : Text → Bool
ends_in [] = false
ends_in (c ∷ []) = is_alnum c
ends_in (c ∷ d ∷ cs) = ends_in (d ∷ cs)

abbrev pub starts_in : Text → Bool
starts_in [] = false
starts_in (c ∷ cs) = is_alnum c

-- One DNS label: 1 to 63 letters, digits and hyphens, with no hyphen at either end.
abbrev pub is_dns_label : Text → Bool
is_dns_label l = leb (length l) 63 && all is_label_char l && starts_in l && ends_in l

is_label_char_of_alnum : (c : ℕ) → is_alnum c ≡ true → is_label_char c ≡ true
unfolding is_label_char
is_label_char_of_alnum c h = ground arith

match_tail_lem :
    (n : ℕ) (l : Text)
    → match_tail n l ≡ (leb (length l) (n + 1) && all is_label_char l && ends_in l)
unfolding match_tail
match_tail_lem n [] = ground arith
match_tail_lem n (c ∷ []) = ground (arith, is_label_char_of_alnum c)
match_tail_lem zero (c ∷ d ∷ cs) = ground arith
match_tail_lem (suc n) (c ∷ d ∷ cs) = ground (arith, match_tail_lem n (d ∷ cs))

-- valid_label accepts exactly the texts of 1 to 63 characters from a-z, 0-9 and the hyphen that
-- neither begin nor end with a hyphen.
pub valid_label_lem : (l : Text) → valid_label l ≡ is_dns_label l
unfolding valid_label
valid_label_lem [] = ground arith
valid_label_lem (c ∷ []) = ground (arith, is_label_char_of_alnum c)
valid_label_lem (c ∷ d ∷ cs) = ground (arith, is_label_char_of_alnum c, match_tail_lem 61 (d ∷ cs))
