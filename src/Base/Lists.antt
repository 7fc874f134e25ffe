-- ===== src/Base/Lists.antt =====
-- Lists as the program uses them: `filter`, `some`, `every`, `find` by a Boolean test, and tables
-- of rows that are updated in place.
use Prim.Native.Nat.{ℕ, suc, ◌+◌, ◌≤◌}
use mathlib.Core.Path.{◌≡◌, refl}
use mathlib.Core.Bool.{Bool, true, false, ◌&&◌, ◌||◌}
use mathlib.Core.Option.{Option, none, some}
use mathlib.Core.List.{List, [], ◌∷◌, ◌++◌}
use native.Mathlib.Omega.{arith}
use asima_backend.Base.Tests.{if◌then◌else◌}

module _ {ℓ} {A : Type ℓ} where
  abbrev pub length : List A → ℕ
  length [] = 0
  length (_ ∷ xs) = suc (length xs)

  abbrev pub filter : (A → Bool) → List A → List A
  filter p [] = []
  filter p (x ∷ xs) = if p x then x ∷ filter p xs else filter p xs

  abbrev pub any : (A → Bool) → List A → Bool
  any p [] = false
  any p (x ∷ xs) = p x || any p xs

  abbrev pub every : (A → Bool) → List A → Bool
  every p [] = true
  every p (x ∷ xs) = p x && every p xs

  abbrev pub find : (A → Bool) → List A → Option A
  find p [] = none
  find p (x ∷ xs) = if p x then some x else find p xs

  -- An UPDATE of the rows that a condition selects.
  abbrev pub update_where : (A → Bool) → (A → A) → List A → List A
  update_where p f [] = []
  update_where p f (x ∷ xs) = (if p x then f x else x) ∷ update_where p f xs

  -- SELECT SUM(f) over the rows that a condition selects.
  abbrev pub sum_where : (A → Bool) → (A → ℕ) → List A → ℕ
  sum_where p f [] = 0
  sum_where p f (x ∷ xs) = (if p x then f x else 0) + sum_where p f xs

module _ {ℓ κ} {A : Type ℓ} where
  abbrev pub All : (A → Type κ) → List A → Type κ
  All P [] = Unit
  All P (x ∷ xs) = P x × All P xs

module _ {ℓ} {A : Type ℓ} where
  pub any-append : (p : A → Bool) (xs ys : List A) → any p (xs ++ ys) ≡ (any p xs || any p ys)
  any-append p [] ys = refl
  any-append p (x ∷ xs) ys = ground (arith, any-append p xs ys)

  pub sum_where-append :
      (p : A → Bool) (f : A → ℕ) (xs ys : List A)
      → sum_where p f (xs ++ ys) ≡ sum_where p f xs + sum_where p f ys
  sum_where-append p f [] ys = omega arith
  sum_where-append p f (x ∷ xs) ys = omega (arith, sum_where-append p f xs ys)

  pub filter-nil_of_any : (p : A → Bool) (xs : List A) → filter p xs ≡ [] → any p xs ≡ false
  filter-nil_of_any p [] h = refl
  filter-nil_of_any p (x ∷ xs) h = ground (arith, filter-nil_of_any p xs)

  pub length-filter-le : (p : A → Bool) (xs : List A) → length (filter p xs) ≤ length xs
  length-filter-le p [] = omega arith
  length-filter-le p (x ∷ xs) = ground (arith, length-filter-le p xs)

  pub find_sound : (p : A → Bool) (xs : List A) (x : A) → find p xs ≡ some x → p x ≡ true
  find_sound p [] x h = cc
  find_sound p (y ∷ xs) x h = ground (arith, find_sound p xs x)

  pub length-append : (xs ys : List A) → length (xs ++ ys) ≡ length xs + length ys
  length-append [] ys = omega arith
  length-append (x ∷ xs) ys = omega (arith, length-append xs ys)

  pub length-snoc : (xs : List A) (x : A) → length (xs ++ x ∷ []) ≡ length xs + 1
  length-snoc xs x = omega (arith, length-append xs (x ∷ []))

  pub any_of_find-none : (p : A → Bool) (xs : List A) → find p xs ≡ none → any p xs ≡ false
  any_of_find-none p [] h = refl
  any_of_find-none p (x ∷ xs) h = ground (arith, any_of_find-none p xs)

module _ {ℓ} {A : Type ℓ} where
  -- What a `Map` built from the rows holds at a key: the last row with the key.
  abbrev pub find_last : (A → Bool) → List A → Option A
  find_last p [] = none
  find_last p (x ∷ xs) =
      let later = find_last p xs in
      elim later [ none ↦ if p x then some x else none | some y ↦ some y ]

  abbrev pub is_empty : List A → Bool
  is_empty [] = true
  is_empty (_ ∷ _) = false

module _ {ℓ} {A : Type ℓ} where
  -- `save` of the entity that a `findOne` by the same condition returned.
  abbrev pub update_first : (A → Bool) → (A → A) → List A → List A
  update_first p f [] = []
  update_first p f (x ∷ xs) = if p x then f x ∷ xs else x ∷ update_first p f xs

  pub find-update_first :
      (p : A → Bool) (f : A → A) (xs : List A) (x : A)
      → find p xs ≡ some x
      → p (f x) ≡ true
      → find p (update_first p f xs) ≡ some (f x)
  find-update_first p f [] x h k = cc
  find-update_first p f (y ∷ xs) x h k = ground (arith, find-update_first p f xs x)

  pub sum_where-update_first :
      (p : A → Bool) (f : A → A) (q : A → Bool) (g : A → ℕ) (xs : List A) (x : A)
      → find p xs ≡ some x
      → sum_where q g (update_first p f xs) + (if q x then g x else 0)
        ≡ sum_where q g xs + (if q (f x) then g (f x) else 0)
  sum_where-update_first p f q g [] x h = cc
  sum_where-update_first p f q g (y ∷ xs) x h = ground (arith, sum_where-update_first p f q g xs x)

  pub update_first-const :
      (p : A → Bool) (f : A → A) (xs : List A) (x : A)
      → find p xs ≡ some x
      → update_first p f xs ≡ update_first p (λ _. f x) xs
  update_first-const p f [] x h = cc
  update_first-const p f (y ∷ xs) x h = ground (arith, update_first-const p f xs x)
