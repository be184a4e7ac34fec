-- ===== src/Server/Registry/Sets.antt =====
-- Sets of labels and indexes of them: membership after each change.
use chute.Prelude.{
  List, Bool, none, some, true, false, [], ◌∷◌, ◌++◌, ◌≡◌, ◌&&◌, ◌||◌, not, arith, refl,
  if◌then◌else◌, is_empty, inl, inr, Option-cases, Option-cases, inl, inr,
}
use chute.Prelude.Text.{Text, text_eq, text_beq, text_beq_iff}
use chute.Prelude.Dict.{get, get-put, get-pop}
use chute.Server.Registry.{
  mem, add, Index, add_to, labels_of, discard_label, keep_labels, remove_from,
}

pub mem-append : (l x : Text) (xs : List Text) → mem l (xs ++ (x ∷ [])) ≡ (mem l xs || text_beq x l)
unfolding mem
mem-append l x [] = ground arith
mem-append l x (y ∷ xs) = ground (arith, mem-append l x xs)

pub mem-add : (l x : Text) (xs : List Text) → mem l (add x xs) ≡ (text_beq x l || mem l xs)
unfolding add
mem-add l x xs = ground (arith, mem-append l x xs, text_beq_iff x l)

pub mem-discard_label :
    (l x : Text) (xs : List Text) → mem l (discard_label x xs) ≡ (not (text_beq x l) && mem l xs)
unfolding mem discard_label
mem-discard_label l x [] = ground arith
mem-discard_label l x (y ∷ xs) =
    ground (arith, mem-discard_label l x xs, text_beq_iff y x, text_beq_iff y l, text_beq_iff x l)

mem-is_empty : (l : Text) (xs : List Text) → is_empty xs ≡ true → mem l xs ≡ false
unfolding mem
mem-is_empty l [] h = refl
mem-is_empty l (x ∷ xs) h = cc

-- Whether the index lists the label under the key.
unfoldable pub listed : Text → Text → Index → Bool
listed k l index = mem l (labels_of k index)

pub listed-add_to :
    (k j l x : Text) (index : Index)
    → listed j l (add_to k x index) ≡ ((text_beq k j && text_beq x l) || listed j l index)
unfolding listed add_to labels_of
listed-add_to k j l x index = ground (
  arith,
  get-put k j (add x (labels_of k index)) index,
  mem-add l x (labels_of k index),
  text_beq_iff k j,
)

listed-keep_labels :
    (k j l : Text) (left : List Text) (index : Index)
    → listed j l (keep_labels k left index)
      ≡ (if text_beq k j then mem l left else listed j l index)
unfolding listed labels_of keep_labels mem
listed-keep_labels k j l left index =
    ground (arith, get-put k j left index, get-pop k j index, mem-is_empty l left, text_beq_iff k j)

listed_of_none : (k l : Text) (index : Index) → get k index ≡ none → listed k l index ≡ false
unfolding listed labels_of mem
listed_of_none k l index e = ground arith

listed_of_some :
    (k l : Text) (labels : List Text) (index : Index)
    → get k index ≡ some labels
    → listed k l index ≡ mem l labels
unfolding listed labels_of
listed_of_some k l labels index e = ground arith

pub listed-remove_from :
    (k j l x : Text) (index : Index)
    → listed j l (remove_from k x index) ≡ (not (text_beq k j && text_beq x l) && listed j l index)
unfolding remove_from
listed-remove_from k j l x index = elim (Option-cases (get k index)) [
  | inl e ↦ rw (e, remove_from) (ground (arith, listed_of_none k l index e, text_beq_iff k j))
  | inr (labels, e) ↦
      rw (e, remove_from)
        (ground (
          arith,
          listed-keep_labels k j l (discard_label x labels) index,
          listed_of_some k l labels index e,
          mem-discard_label l x labels,
          text_beq_iff k j,
        ))
]
