-- ===== src/Names/Phrase.antt =====
-- The generated labels of src/chute/names.py are valid.
use chute.Prelude.{
  ℕ, ◌≡◌, refl, sym, List, [], ◌∷◌, ◌++◌, Bool, true, false, ◌&&◌, some, arith, leb, length, all,
  any, length-append, all-append, all_mono, tests, leb→le, le→leb, eq_of_some_eq, Bool-cases,
  Option-cases, inl, inr,
}
use chute.Prelude.Text.{Text, text_beq, text_beq_iff}
use chute.Names.{
  adjectives, nouns, is_alnum, is_label_char, valid_label, choose_second, random_phrase,
}
use chute.Names.Rules.{starts_in, ends_in, is_dns_label, valid_label_lem}

abbrev pub is_in : List Text → Text → Bool
is_in words w = any (text_beq w) words

-- One to eight letters or digits.
abbrev is_word : Text → Bool
is_word w = leb 1 (length w) && leb (length w) 8 && all is_alnum w

is_word_of_in :
    (words : List Text) (w : Text)
    → all is_word words ≡ true
    → is_in words w ≡ true
    → is_word w ≡ true
is_word_of_in [] w h m = cc
is_word_of_in (v ∷ vs) w h m = elim (Bool-cases (text_beq w v)) [
  | inl e ↦ let same : w ≡ v = (text_beq_iff w v).0 e in ground arith
  | inr n ↦ is_word_of_in vs w (ground arith) (ground arith)
]

adjectives_are_words : all is_word adjectives ≡ true
unfolding is_alnum
adjectives_are_words = refl

nouns_are_words : all is_word nouns ≡ true
unfolding is_alnum
nouns_are_words = refl

all_alnum_label : (w : Text) → all is_alnum w ≡ true → all is_label_char w ≡ true
unfolding is_label_char
all_alnum_label w = all_mono is_alnum is_label_char w (λ c h. ground arith)

ends_in_word : (w : Text) → leb 1 (length w) ≡ true → all is_alnum w ≡ true → ends_in w ≡ true
ends_in_word [] h a = ground arith
ends_in_word (c ∷ []) h a = ground arith
ends_in_word (c ∷ d ∷ cs) h a = ends_in_word (d ∷ cs) (ground arith) (ground arith)

ends_in-append : (u : Text) (c : ℕ) (v : Text) → ends_in (u ++ (c ∷ v)) ≡ ends_in (c ∷ v)
ends_in-append [] c v = refl
ends_in-append (a ∷ []) c v = refl
ends_in-append (a ∷ b ∷ u) c v = ends_in-append (b ∷ u) c v

ends_in-cons : (c : ℕ) (w : Text) → leb 1 (length w) ≡ true → ends_in (c ∷ w) ≡ ends_in w
ends_in-cons c [] h = ground arith
ends_in-cons c (d ∷ w) h = refl

starts_in-append : (u v : Text) → leb 1 (length u) ≡ true → starts_in (u ++ v) ≡ starts_in u
starts_in-append [] v h = ground arith
starts_in-append (a ∷ u) v h = refl

starts_in_word : (w : Text) → leb 1 (length w) ≡ true → all is_alnum w ≡ true → starts_in w ≡ true
starts_in_word [] h a = ground arith
starts_in_word (c ∷ cs) h a = ground arith

word_parts :
    (w : Text)
    → is_word w ≡ true
    → (leb 1 (length w) ≡ true) × (leb (length w) 8 ≡ true) × (all is_alnum w ≡ true)
word_parts w h = ground arith

phrase_length :
    (a b n : Text)
    → leb (length a) 8 ≡ true
    → leb (length b) 8 ≡ true
    → leb (length n) 8 ≡ true
    → leb (length (a ++ (b'-' ∷ (b ++ (b'-' ∷ n))))) 63 ≡ true
phrase_length a b n ha hb hn = le→leb _ 63 (
    omega (
      tests,
      length-append a (b'-' ∷ (b ++ (b'-' ∷ n))),
      length-append b (b'-' ∷ n),
      leb→le (length a) 8 ha,
      leb→le (length b) 8 hb,
      leb→le (length n) 8 hn,
    ))

hyphen_is_label_char : is_label_char b'-' ≡ true
unfolding is_label_char
hyphen_is_label_char = refl

phrase_chars :
    (a b n : Text)
    → all is_alnum a ≡ true
    → all is_alnum b ≡ true
    → all is_alnum n ≡ true
    → all is_label_char (a ++ (b'-' ∷ (b ++ (b'-' ∷ n)))) ≡ true
phrase_chars a b n ha hb hn = simp (
  all-append,
  hyphen_is_label_char,
  all_alnum_label a ha,
  all_alnum_label b hb,
  all_alnum_label n hn,
)

phrase_valid :
    (a b n : Text)
    → is_word a ≡ true
    → is_word b ≡ true
    → is_word n ≡ true
    → is_dns_label (a ++ (b'-' ∷ (b ++ (b'-' ∷ n)))) ≡ true
phrase_valid a b n ha hb hn =
    let pa = word_parts a ha in
    let pb = word_parts b hb in
    let pn = word_parts n hn in
    rw (
      phrase_length a b n pa.1 pb.1 pn.1,
      phrase_chars a b n pa.2 pb.2 pn.2,
      starts_in-append a (b'-' ∷ (b ++ (b'-' ∷ n))) pa.0,
      starts_in_word a pa.0 pa.2,
      ends_in-append a b'-' (b ++ (b'-' ∷ n)),
      ends_in-append (b'-' ∷ b) b'-' n,
      ends_in-cons b'-' n pn.0,
      ends_in_word n pn.0 pn.2,
    )

choose_second_lem :
    (words : List Text) (first : Text) (cs : List Text) (s : Text)
    → all (is_in words) cs ≡ true
    → choose_second first cs ≡ some s
    → (is_in words s ≡ true) × (text_beq s first ≡ false)
unfolding choose_second
choose_second_lem words first [] s h e = cc
choose_second_lem words first (c ∷ cs) s h e = elim (Bool-cases (text_beq c first)) [
  | inl same ↦ choose_second_lem words first cs s (ground arith) (ground arith)
  | inr other ↦ ground arith
]

-- A phrase made of two words of the adjective list and one of the noun list is a valid label, is
-- spelled first-second-noun, and its second adjective differs from the first.
pub random_phrase-valid_label :
    (first : Text) (seconds : List Text) (noun l : Text)
    → is_in adjectives first ≡ true
    → all (is_in adjectives) seconds ≡ true
    → is_in nouns noun ≡ true
    → random_phrase first seconds noun ≡ some l
    → (valid_label l ≡ true)
      × ((second : Text) × (text_beq second first ≡ false)
          × (l ≡ first ++ (b'-' ∷ (second ++ (b'-' ∷ noun)))))
unfolding random_phrase
random_phrase-valid_label first seconds noun l hf hs hn e =
    elim (Option-cases (choose_second first seconds)) [
      | inl gone ↦ cc (rw (gone, random_phrase) at e)
      | inr (second, chosen) ↦
          let found = choose_second_lem adjectives first seconds second hs chosen in
          let spelled : first ++ (b'-' ∷ (second ++ (b'-' ∷ noun))) ≡ l =
            eq_of_some_eq (rw (chosen, random_phrase) at e) in
          (
            rw (← spelled, valid_label_lem)
                (phrase_valid first second noun
                  (is_word_of_in adjectives first adjectives_are_words hf)
                  (is_word_of_in adjectives second adjectives_are_words found.0)
                  (is_word_of_in nouns noun nouns_are_words hn)),
            (second, found.1, sym spelled),
          )
    ]
