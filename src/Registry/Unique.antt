-- ===== src/Registry/Unique.antt =====
-- Distinct ids in a registry: what the check of earlier descriptors establishes, and what a search by
-- id finds.
use embedded_library.Prelude.{
  elements, ℕ, zero, suc, ◌≡◌, refl, sym, ◌∙◌, ap, subst, true, false, inl, inr, Bool-cases, ◌||◌,
  none, some, List, [], ◌∷◌, ◌++◌, append_assoc, append-nil, take, length, get_elem?, ◌==◌, arith,
}
use mathlib.Core.Option.{some-injective}
use embedded_library.Registry.{
  Group, entries, all_entries, find_entry, find_item, has_id, id_exists,
}

module _ {A : Type 0} where
  -- The descriptors before the one at `item_index` of group `group_index`.
  abbrev pub earlier : List (Group A) → ℕ → ℕ → List A
  earlier [] group_index item_index = []
  earlier (g ∷ groups) zero item_index = take item_index (elements g.items)
  earlier (g ∷ groups) (suc group_index) item_index =
      entries g ++ earlier groups group_index item_index

module _ {A : Type 0} (id_of : A → ℕ) where
  -- No two descriptors have the same id.
  abbrev pub IsUnique : List A → Type 0
  IsUnique [] = Unit
  IsUnique (x ∷ xs) = (has_id id_of (id_of x) xs ≡ false) × IsUnique xs

  pub has_id-append :
      (id : ℕ) (xs ys : List A)
      → has_id id_of id (xs ++ ys) ≡ (has_id id_of id xs || has_id id_of id ys)
  unfolding has_id
  has_id-append id [] ys = refl
  has_id-append id (x ∷ xs) ys = ground (arith, has_id-append id xs ys)

  pub IsUnique-snoc :
      (xs : List A) (y : A)
      → IsUnique xs
      → has_id id_of (id_of y) xs ≡ false
      → IsUnique (xs ++ y ∷ [])
  unfolding has_id
  IsUnique-snoc [] y u h = (refl, tt)
  IsUnique-snoc (x ∷ xs) y u h =
      (ground (arith, has_id-append (id_of x) xs (y ∷ [])), IsUnique-snoc xs y u.1 (ground arith))

  pub id_exists_lem :
      (groups : List (Group A)) (i j id : ℕ)
      → id_exists id_of groups i j id ≡ has_id id_of id (earlier groups i j)
  unfolding id_exists has_id
  id_exists_lem [] i j id = refl
  id_exists_lem (g ∷ groups) zero j id = refl
  id_exists_lem (g ∷ groups) (suc i) j id =
      ap (λ b. has_id id_of id (entries g) || b) (id_exists_lem groups i j id)
      ∙ sym (has_id-append id (entries g) (earlier groups i j))

  find_entry-append :
      (id : ℕ) (xs ys : List A)
      → find_entry id_of id (xs ++ ys)
        ≡ (elim (find_entry id_of id xs) [ some x ↦ some x | none ↦ find_entry id_of id ys ])
  unfolding find_entry
  find_entry-append id [] ys = refl
  find_entry-append id (x ∷ xs) ys = ground (arith, find_entry-append id xs ys)

  -- A search group by group is a search of all descriptors.
  pub find_item_lem :
      (id n : ℕ) (groups : List (Group A))
      → find_item id_of id n groups ≡ find_entry id_of id (all_entries n groups)
  unfolding find_item find_entry
  find_item_lem id zero groups = refl
  find_item_lem id (suc n) [] = refl
  find_item_lem id (suc n) (g ∷ groups) =
      ground
        (arith, find_item_lem id n groups, find_entry-append id (entries g) (all_entries n groups))

  has_id-at :
      (xs : List A) (i : ℕ) (x : A) → get_elem? xs i ≡ some x → has_id id_of (id_of x) xs ≡ true
  unfolding has_id
  has_id-at [] i x h = cc
  has_id-at (y ∷ xs) zero x h = ground arith
  has_id-at (y ∷ xs) (suc i) x h = ground (arith, has_id-at xs i x h)

  -- Among distinct ids a search returns the very descriptor.
  pub find_entry_unique :
      (xs : List A) (i : ℕ) (x : A)
      → IsUnique xs
      → get_elem? xs i ≡ some x
      → find_entry id_of (id_of x) xs ≡ some x
  unfolding find_entry
  find_entry_unique [] i x u h = cc
  find_entry_unique (y ∷ xs) zero x u h = ground arith
  find_entry_unique (y ∷ xs) (suc i) x u h =
      ground (arith, find_entry_unique xs i x u.1 h, has_id-at xs i x h, u.0)

  pub find_entry-none :
      (id : ℕ) (xs : List A) → has_id id_of id xs ≡ false → find_entry id_of id xs ≡ none
  unfolding find_entry has_id
  find_entry-none id [] h = refl
  find_entry-none id (x ∷ xs) h = ground (arith, find_entry-none id xs)

  -- What is found has the id, and stands in the registry.
  pub find_entry-some :
      (id : ℕ) (xs : List A) (x : A)
      → find_entry id_of id xs ≡ some x
      → (i : ℕ) × (get_elem? xs i ≡ some x) × (id_of x ≡ id)
  unfolding find_entry
  find_entry-some id [] x h = cc
  find_entry-some id (y ∷ xs) x h = elim (Bool-cases (id_of y == id)) [
    | inl e ↦ (0, ground arith, ground arith)
    | inr e ↦ let (i, p, q) = find_entry-some id xs x (ground arith) in (suc i, p, q)
  ]

module _ {A : Type 0} where
  take-append : (n : ℕ) (xs ys : List A) → length xs ≡ n → take n (xs ++ ys) ≡ xs
  take-append zero [] ys h = refl
  take-append zero (x ∷ xs) ys h = absurd (omega arith)
  take-append (suc n) [] ys h = absurd (omega arith)
  take-append (suc n) (x ∷ xs) ys h = ap (◌∷◌ x) (take-append n xs ys (omega arith))

  take-length-take : (n : ℕ) (xs : List A) → take (length (take n xs)) xs ≡ take n xs
  take-length-take zero xs = refl
  take-length-take (suc n) [] = refl
  take-length-take (suc n) (x ∷ xs) = ap (◌∷◌ x) (take-length-take n xs)

  -- One more descriptor of the group under check.
  pub earlier_step :
      (groups : List (Group A)) (i : ℕ) (g : Group A) (done : List A) (x : A) (rest : List A)
      → get_elem? groups i ≡ some g
      → elements g.items ≡ done ++ x ∷ rest
      → earlier groups i (length (done ++ x ∷ [])) ≡ earlier groups i (length done) ++ x ∷ []
  earlier_step [] i g done x rest h e = cc
  earlier_step (g' ∷ groups) zero g done x rest h e =
      let same : elements g'.items ≡ done ++ x ∷ rest =
        ap (λ (k : Group A). elements k.items) (some-injective _ _ h) ∙ e in
      rw (same, take-append (length done) done (x ∷ rest) refl)
        (ap (take (length (done ++ x ∷ []))) (sym (append_assoc done (x ∷ []) rest))
          ∙ take-append (length (done ++ x ∷ [])) (done ++ x ∷ []) rest refl)
  earlier_step (g' ∷ groups) (suc i) g done x rest h e =
      ap (λ l. entries g' ++ l) (earlier_step groups i g done x rest h e)
      ∙ sym (append_assoc (entries g') (earlier groups i (length done)) (x ∷ []))

  earlier-start : (groups : List (Group A)) → earlier groups 0 0 ≡ []
  earlier-start [] = refl
  earlier-start (g ∷ groups) = refl

  -- The group under check is done.
  pub earlier_next :
      (groups : List (Group A)) (i : ℕ) (g : Group A)
      → get_elem? groups i ≡ some g
      → earlier groups (suc i) 0 ≡ earlier groups i (length (entries g))
  earlier_next [] i g h = cc
  earlier_next (g' ∷ groups) zero g h =
      ap (λ l. entries g' ++ l) (earlier-start groups)
      ∙ append-nil (entries g')
      ∙ sym (take-length-take g'.item_count (elements g'.items))
      ∙ ap (λ k. take (length (entries k)) (elements g'.items)) (some-injective _ _ h)
  earlier_next (g' ∷ groups) (suc i) g h = ap (λ l. entries g' ++ l) (earlier_next groups i g h)

  pub earlier-all : (groups : List (Group A)) (n : ℕ) → earlier groups n 0 ≡ all_entries n groups
  earlier-all [] zero = refl
  earlier-all [] (suc n) = refl
  earlier-all (g ∷ groups) zero = refl
  earlier-all (g ∷ groups) (suc n) = ap (λ l. entries g ++ l) (earlier-all groups n)

  pub get_elem?-middle :
      (before : List (Group A)) (g : Group A) (rest : List (Group A))
      → get_elem? (before ++ g ∷ rest) (length before) ≡ some g
  get_elem?-middle [] g rest = refl
  get_elem?-middle (x ∷ before) g rest = get_elem?-middle before g rest

-- The descriptors of a group, checked one by one against the earlier ones, are distinct.
module _ {A : Type 0} (id_of : A → ℕ) (groups : List (Group A)) where
  pub IsUnique-start : IsUnique id_of (earlier groups 0 0)
  IsUnique-start = rw earlier-start tt

  pub IsUnique-step :
      (i : ℕ) (g : Group A) (done : List A) (x : A) (rest : List A)
      → get_elem? groups i ≡ some g
      → elements g.items ≡ done ++ x ∷ rest
      → IsUnique id_of (earlier groups i (length done))
      → id_exists id_of groups i (length done) (id_of x) ≡ false
      → IsUnique id_of (earlier groups i (length (done ++ x ∷ [])))
  IsUnique-step i g done x rest h e u fresh = rw (earlier_step groups i g done x rest h e) (
      IsUnique-snoc id_of (earlier groups i (length done)) x u
        (sym (id_exists_lem id_of groups i (length done) (id_of x)) ∙ fresh))

  pub IsUnique-next :
      (i : ℕ) (g : Group A)
      → get_elem? groups i ≡ some g
      → IsUnique id_of (earlier groups i (length (entries g)))
      → IsUnique id_of (earlier groups (suc i) 0)
  IsUnique-next i g h u = subst (IsUnique id_of) (sym (earlier_next groups i g h)) u

  pub IsUnique-all :
      (n : ℕ) → IsUnique id_of (earlier groups n 0) → IsUnique id_of (all_entries n groups)
  IsUnique-all n u = subst (IsUnique id_of) (earlier-all groups n) u
