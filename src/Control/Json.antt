-- ===== src/Control/Json.antt =====
-- What `json.loads` answers to src/chute/control.py: a value, a `ValueError`, or any other
-- exception. Reading the text is that library's work; here are its values and the chains of checks
-- on them.
use chute.Prelude.{ℕ, List, Bool, Option, none, some, true, false, [], ◌∷◌}
use chute.Prelude.Text.{Text, text_eq}
use chute.Prelude.Dict.{get}

-- A value is taken apart only down to the items and fields that the checks look at. An `int` that
-- is not below 0, one that is (-1 - n), and a `float` with the natural number that it equals.
mutual
  pub data Json : Type 0 where
    null : Json
    boolean : Bool → Json
    integer negative : ℕ → Json
    real : Option ℕ → Json
    string : Text → Json
    array : Items → Json
    object : Fields → Json

  pub data Items : Type 0 where
    no_items : Items
    item : Json → Items → Items

  -- The fields of a `dict`, whose keys are distinct.
  pub data Fields : Type 0 where
    no_fields : Fields
    field : Text → Json → Fields → Fields

abbrev pub item_list : Items → List Json
item_list no_items = []
item_list (item j js) = j ∷ item_list js

abbrev pub field_list : Fields → List (Text × Json)
field_list no_fields = []
field_list (field k j fs) = (k, j) ∷ field_list fs

-- A result, a `ValueError`, or an exception that is not one.
pub data Loaded {ℓ} (A : Type ℓ) : Type ℓ where
  success : A → Loaded A
  value_error crash : Loaded A

infixl 5 ◌>>=◌ ◌>>◌
abbrev pub ◌>>=◌ {ℓ κ} : {A : Type ℓ} {B : Type κ} → Loaded A → (A → Loaded B) → Loaded B
success a >>= f = f a
value_error >>= f = value_error
crash >>= f = crash

abbrev pub ◌>>◌ {ℓ} : {B : Type ℓ} → Loaded (Unit {0}) → Loaded B → Loaded B
m >> k = m >>= λ _. k

-- `if not b: raise ValueError`
abbrev pub check : Bool → Loaded (Unit {0})
check true = success tt
check false = value_error

-- `d.get(k)`, and `d.get(k, default)`
abbrev pub field_of : Text → List (Text × Json) → Json
field_of k d = elim (get k d) [ none ↦ null | some j ↦ j ]

abbrev pub field_or : Text → Json → List (Text × Json) → Json
field_or k default d = elim (get k d) [ none ↦ default | some j ↦ j ]
