-- ===== src/Registry.antt =====
-- The static registries that services/command/command.c and services/parameter/parameter.c share in
-- shape: groups with an id, a name and an array of descriptors, each with an id. `none` is NULL; a C
-- string is the list of its bytes before the terminator.
pub mod Unique
use embedded_library.Prelude.{
  elements, ℕ, zero, suc, Bool, true, false, ◌||◌, Option, none, some, List, [], ◌∷◌, ◌++◌, take,
  length, ◌==◌, if◌then◌else◌,
}

abbrev pub Text : Type 0
Text = Option (List ℕ)

-- `(name == NULL) || (name[0] == '\0')`
abbrev pub is_blank : Text → Bool
is_blank none = true
is_blank (some []) = true
is_blank (some (_ ∷ _)) = false

-- `strlen`, of a string that is not NULL.
abbrev pub text_length : Text → ℕ
text_length none = 0
text_length (some cs) = length cs

pub record Group (A : Type 0) : Type 0 where
  pub id : ℕ
  pub name : Text
  pub items : Option (List A)
  pub item_count : ℕ

module _ {A : Type 0} where
  -- The descriptors of a group, up to its count.
  abbrev pub entries : Group A → List A
  entries g = take g.item_count (elements g.items)

  -- The descriptors of the first `n` groups, in registration order.
  abbrev pub all_entries : ℕ → List (Group A) → List A
  all_entries zero groups = []
  all_entries (suc n) [] = []
  all_entries (suc n) (g ∷ groups) = entries g ++ all_entries n groups

  -- Whether one of the first `group_index` groups has the id.
  unfoldable pub group_id_exists : List (Group A) → ℕ → ℕ → Bool
  group_id_exists groups zero id = false
  group_id_exists [] (suc n) id = false
  group_id_exists (g ∷ groups) (suc n) id = g.id == id || group_id_exists groups n id

module _ {A : Type 0} (id_of : A → ℕ) where
  unfoldable pub find_entry : ℕ → List A → Option A
  find_entry id [] = none
  find_entry id (x ∷ xs) = if id_of x == id then some x else find_entry id xs

  -- The first descriptor with the id in the first `n` groups.
  unfoldable pub find_item : ℕ → ℕ → List (Group A) → Option A
  find_item id zero groups = none
  find_item id (suc n) [] = none
  find_item id (suc n) (g ∷ groups) = elim (find_entry id (entries g)) [
    | some x ↦ some x
    | none ↦ find_item id n groups
  ]

  unfoldable pub has_id : ℕ → List A → Bool
  has_id id [] = false
  has_id id (x ∷ xs) = id_of x == id || has_id id xs

  -- Whether a descriptor before the one at `item_index` of group `group_index` has the id.
  unfoldable pub id_exists : List (Group A) → ℕ → ℕ → ℕ → Bool
  id_exists [] group_index item_index id = false
  id_exists (g ∷ groups) zero item_index id = has_id id (take item_index (elements g.items))
  id_exists (g ∷ groups) (suc group_index) item_index id =
      has_id id (entries g) || id_exists groups group_index item_index id
