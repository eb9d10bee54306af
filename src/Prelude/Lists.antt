-- ===== src/Prelude/Lists.antt =====
-- C arrays as lists with native indices: length, reads, writes, and lists given by their entries.
use Prim.Native.Nat.{ℕ, zero, suc, ◌+◌, ◌-◌, ◌≤◌, ◌<◌, min}
use mathlib.Core.Path.{◌≡◌, refl, sym, ap, ap₂, ◌∙◌}
use mathlib.Core.List.{List, [], ◌∷◌, ◌++◌}
use mathlib.Core.Option.{Option, none, some}
use native.Mathlib.Omega.{arith}
use embedded_library.Prelude.Tests.{◌==◌, if◌then◌else◌}

module _ {ℓ} {A : Type ℓ} where
  abbrev pub length : List A → ℕ
  length [] = 0
  length (_ ∷ xs) = suc (length xs)

  -- The elements behind an array pointer.
  abbrev pub elements : Option (List A) → List A
  elements none = []
  elements (some xs) = xs

  abbrev pub get_elem? : List A → ℕ → Option A
  get_elem? [] _ = none
  get_elem? (x ∷ _) zero = some x
  get_elem? (_ ∷ xs) (suc i) = get_elem? xs i

  abbrev pub get_or : List A → ℕ → A → A
  get_or [] _ d = d
  get_or (x ∷ _) zero _ = x
  get_or (_ ∷ xs) (suc i) d = get_or xs i d

  -- A write out of bounds changes nothing.
  abbrev pub set : List A → ℕ → A → List A
  set [] _ _ = []
  set (_ ∷ xs) zero v = v ∷ xs
  set (x ∷ xs) (suc i) v = x ∷ set xs i v

  abbrev pub take : ℕ → List A → List A
  take zero _ = []
  take (suc n) [] = []
  take (suc n) (x ∷ xs) = x ∷ take n xs

  abbrev pub drop : ℕ → List A → List A
  drop zero xs = xs
  drop (suc n) [] = []
  drop (suc n) (_ ∷ xs) = drop n xs

  abbrev pub tabulate : ℕ → (ℕ → A) → List A
  tabulate zero f = []
  tabulate (suc n) f = f 0 ∷ tabulate n (λ i. f (suc i))

  pub length-append : (xs ys : List A) → length (xs ++ ys) ≡ length xs + length ys
  length-append [] ys = omega arith
  length-append (x ∷ xs) ys = omega (arith, length-append xs ys)

  pub length-set : (xs : List A) (i : ℕ) (v : A) → length (set xs i v) ≡ length xs
  length-set [] i v = refl
  length-set (x ∷ xs) zero v = refl
  length-set (x ∷ xs) (suc i) v = ap suc (length-set xs i v)

  pub length-take : (n : ℕ) (xs : List A) → length (take n xs) ≡ min n (length xs)
  length-take zero xs = omega arith
  length-take (suc n) [] = omega arith
  length-take (suc n) (x ∷ xs) = omega (arith, length-take n xs)

  pub length-tabulate : (n : ℕ) (f : ℕ → A) → length (tabulate n f) ≡ n
  length-tabulate zero f = refl
  length-tabulate (suc n) f = ap suc (length-tabulate n (λ i. f (suc i)))

  pub get_or-set :
      (xs : List A) (i j : ℕ) (v d : A)
      → i < length xs
      → get_or (set xs i v) j d ≡ (if i == j then v else get_or xs j d)
  get_or-set [] i j v d h = absurd (omega arith)
  get_or-set (x ∷ xs) zero zero v d h = refl
  get_or-set (x ∷ xs) (suc i) (suc j) v d h = ground (arith, get_or-set xs i j v d)
  get_or-set (x ∷ xs) i j v d h = ground arith

  pub get_or-past : (xs : List A) (i : ℕ) (d : A) → length xs ≤ i → get_or xs i d ≡ d
  get_or-past [] i d h = refl
  get_or-past (x ∷ xs) zero d h = absurd (omega arith)
  get_or-past (x ∷ xs) (suc i) d h = get_or-past xs i d (omega arith)

  pub get_or-append_left :
      (xs ys : List A) (i : ℕ) (d : A) → i < length xs → get_or (xs ++ ys) i d ≡ get_or xs i d
  get_or-append_left [] ys i d h = absurd (omega arith)
  get_or-append_left (x ∷ xs) ys zero d h = refl
  get_or-append_left (x ∷ xs) ys (suc i) d h = get_or-append_left xs ys i d (omega arith)

  pub tabulate_ext :
      (n : ℕ) (f g : ℕ → A) → ((i : ℕ) → i < n → f i ≡ g i) → tabulate n f ≡ tabulate n g
  tabulate_ext zero f g h = refl
  tabulate_ext (suc n) f g h =
      ap₂ ◌∷◌ (h 0 (omega arith))
        (tabulate_ext n (λ i. f (suc i)) (λ i. g (suc i)) (λ i p. h (suc i) (omega arith)))

  pub tabulate-add :
      (m n : ℕ) (f : ℕ → A) → tabulate m f ++ tabulate n (λ i. f (m + i)) ≡ tabulate (m + n) f
  tabulate-add zero n f =
      tabulate_ext n (λ i. f (0 + i)) f (λ i _. let e : 0 + i ≡ i = omega arith in ap f e)
      ∙ (let e : n ≡ 0 + n = omega arith in ap (λ k. tabulate k f) e)
  tabulate-add (suc m) n f =
      ap (λ l. f 0 ∷ (tabulate m (λ i. f (suc i)) ++ l))
        (tabulate_ext n (λ i. f (suc m + i)) (λ i. f (suc (m + i)))
          (λ i _. let e : suc m + i ≡ suc (m + i) = omega arith in ap f e))
      ∙ ap (◌∷◌ (f 0)) (tabulate-add m n (λ i. f (suc i)))
      ∙ (let e : suc (m + n) ≡ suc m + n = omega arith in ap (λ k. tabulate k f) e)

  pub tabulate-get_or :
      (n : ℕ) (xs : List A) (d : A) → n ≤ length xs → tabulate n (λ i. get_or xs i d) ≡ take n xs
  tabulate-get_or zero xs d h = refl
  tabulate-get_or (suc n) [] d h = absurd (omega arith)
  tabulate-get_or (suc n) (x ∷ xs) d h = ap (◌∷◌ x) (tabulate-get_or n xs d (omega arith))

  pub take-length : (xs : List A) → take (length xs) xs ≡ xs
  take-length [] = refl
  take-length (x ∷ xs) = ap (◌∷◌ x) (take-length xs)

  pub tabulate-drop :
      (n : ℕ) (xs : List A) (d : A)
      → tabulate (length xs - n) (λ i. get_or xs (n + i) d) ≡ drop n xs
  tabulate-drop zero xs d =
      tabulate_ext (length xs - 0) (λ i. get_or xs (0 + i) d) (λ i. get_or xs i d)
        (λ i _. let e : 0 + i ≡ i = omega arith in ap (λ k. get_or xs k d) e)
      ∙ tabulate-get_or (length xs - 0) xs d (omega arith)
      ∙ (let e : length xs - 0 ≡ length xs = omega arith in ap (λ k. take k xs) e)
      ∙ take-length xs
  tabulate-drop (suc n) [] d = let e : 0 - suc n ≡ 0 = omega arith in rw e
  tabulate-drop (suc n) (x ∷ xs) d =
      (let e : length (x ∷ xs) - suc n ≡ length xs - n = omega arith in
        ap (λ k. tabulate k (λ i. get_or (x ∷ xs) (suc n + i) d)) e)
      ∙ tabulate_ext (length xs - n) (λ i. get_or (x ∷ xs) (suc n + i) d) (λ i. get_or xs (n + i) d)
          (λ i _. let e : suc n + i ≡ suc (n + i) = omega arith in ap (λ k. get_or (x ∷ xs) k d) e)
      ∙ tabulate-drop n xs d

  -- A list is given by two runs of its entries.
  pub split_entries :
      (n : ℕ) (xs : List A) (d : A)
      → n ≤ length xs
      → xs ≡ tabulate n (λ i. get_or xs i d) ++ tabulate (length xs - n) (λ i. get_or xs (n + i) d)
  split_entries n xs d h =
      sym (take-length xs)
      ∙ sym (tabulate-get_or (length xs) xs d (omega arith))
      ∙ (let e : length xs ≡ n + (length xs - n) = omega arith in
          ap (λ k. tabulate k (λ i. get_or xs i d)) e)
      ∙ sym (tabulate-add n (length xs - n) (λ i. get_or xs i d))

  pub take-tabulate : (n m : ℕ) (f : ℕ → A) → n ≤ m → take n (tabulate m f) ≡ tabulate n f
  take-tabulate zero m f h = refl
  take-tabulate (suc n) zero f h = absurd (omega arith)
  take-tabulate (suc n) (suc m) f h =
      ap (◌∷◌ (f 0)) (take-tabulate n m (λ i. f (suc i)) (omega arith))

  pub drop-tabulate :
      (n m : ℕ) (f : ℕ → A) → n ≤ m → drop n (tabulate m f) ≡ tabulate (m - n) (λ i. f (n + i))
  drop-tabulate zero m f h =
      (let e : m ≡ m - 0 = omega arith in ap (λ k. tabulate k f) e)
      ∙ tabulate_ext (m - 0) f (λ i. f (0 + i)) (λ i _. let e : i ≡ 0 + i = omega arith in ap f e)
  drop-tabulate (suc n) zero f h = absurd (omega arith)
  drop-tabulate (suc n) (suc m) f h =
      drop-tabulate n m (λ i. f (suc i)) (omega arith)
      ∙ tabulate_ext (m - n) (λ i. f (suc (n + i))) (λ i. f (suc n + i))
          (λ i _. let e : suc (n + i) ≡ suc n + i = omega arith in ap f e)
      ∙ (let e : m - n ≡ suc m - suc n = omega arith in ap (λ k. tabulate k (λ i. f (suc n + i))) e)

  pub take-append-drop : (n : ℕ) (xs : List A) → take n xs ++ drop n xs ≡ xs
  take-append-drop zero xs = refl
  take-append-drop (suc n) [] = refl
  take-append-drop (suc n) (x ∷ xs) = ap (◌∷◌ x) (take-append-drop n xs)
