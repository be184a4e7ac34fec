-- ===== src/Tests/Names.antt =====
-- Labels of src/chute/names.py.
use chute.Prelude.{◌≡◌, refl, true, ◌∷◌, false, [], ◌++◌, some}
use chute.Names.{valid_label, random_phrase, match_tail, is_label_char}
use chute.Prelude.Text.{Text, text_beq, codes}
use chute.Names.Rules.{is_dns_label, valid_label_lem}
use chute.Names.Phrase.{random_phrase-valid_label}

labels_run :
    (valid_label (codes "swift-amber-otter") ≡ true)
    × (valid_label (codes "-amber") ≡ false)
    × (valid_label (codes "Amber") ≡ false)
unfolding valid_label match_tail is_label_char
labels_run = (refl, refl, refl)

valid_label_example : valid_label (codes "otter-") ≡ is_dns_label (codes "otter-")
valid_label_example = valid_label_lem (codes "otter-")

abbrev phrase : Text
phrase = codes "bold-calm-otter"

phrase_run :
    random_phrase (codes "bold") (codes "bold" ∷ codes "calm" ∷ []) (codes "otter") ≡ some phrase
unfolding random_phrase text_beq
phrase_run = refl

random_phrase-valid_label_example :
    (valid_label phrase ≡ true)
    × ((second : Text) × (text_beq second (codes "bold") ≡ false)
        × (phrase ≡ codes "bold" ++ (b'-' ∷ (second ++ (b'-' ∷ codes "otter")))))
unfolding text_beq
random_phrase-valid_label_example =
    random_phrase-valid_label (codes "bold") (codes "bold" ∷ codes "calm" ∷ []) (codes "otter")
      phrase refl refl refl phrase_run
