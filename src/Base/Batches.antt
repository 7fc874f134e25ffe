-- ===== src/Base/Batches.antt =====
-- Writes of several rows of a table at once, by their ids.
use Prim.Native.Nat.{ℕ, ◌+◌, ◌≤◌}
use mathlib.Core.Path.{◌≡◌, refl}
use mathlib.Core.Logic.{inl, inr}
use mathlib.Core.Bool.{Bool, true, false, ◌&&◌, not}
use mathlib.Core.List.{List, [], ◌∷◌, map}
use native.Mathlib.Omega.{arith}
use asima_backend.Base.Tests.{◌==◌, if◌then◌else◌, Bool-cases}
use asima_backend.Base.Lists.{any, filter, All, update_where, sum_where}
use asima_backend.Base.Tables.{
  Member, HasDistinct, sum_where-others, sum_where-without, sum_where-Member,
}

module _ {A : Type 0} where
  pub sum_where-congr :
      (p q : A → Bool) (f : A → ℕ) (xs : List A)
      → ((x : A) → p x ≡ q x)
      → sum_where p f xs ≡ sum_where q f xs
  sum_where-congr p q f [] h = refl
  sum_where-congr p q f (x ∷ xs) h = ground (arith, h x, sum_where-congr p q f xs h)

  -- An update after which no updated row satisfies the test.
  pub sum_where-update_where :
      (p q : A → Bool) (f : A → A) (g : A → ℕ) (xs : List A)
      → ((x : A) → q (f x) ≡ false)
      → sum_where q g (update_where p f xs) ≡ sum_where (λ x. q x && not (p x)) g xs
  sum_where-update_where p q f g [] h = refl
  sum_where-update_where p q f g (x ∷ xs) h =
      ground (arith, h x, sum_where-update_where p q f g xs h)

  pub All-update_where :
      (P : A → Type 0) (p : A → Bool) (f : A → A) (xs : List A)
      → ((x : A) → P x → P (f x))
      → All P xs
      → All P (update_where p f xs)
  All-update_where P p f [] h a = tt
  All-update_where P p f (x ∷ xs) h (ax, a) = elim (Bool-cases (p x)) [
    | inl on ↦ rw on (h x ax, All-update_where P p f xs h a)
    | inr off ↦ rw off (ax, All-update_where P p f xs h a)
  ]

  pub sum_where-filter :
      (p q : A → Bool) (g : A → ℕ) (xs : List A)
      → sum_where q g (filter p xs) ≡ sum_where (λ x. p x && q x) g xs
  sum_where-filter p q g [] = refl
  sum_where-filter p q g (x ∷ xs) = ground (arith, sum_where-filter p q g xs)

  pub any-filter : (p q : A → Bool) (xs : List A) → any q xs ≡ false → any q (filter p xs) ≡ false
  any-filter p q [] h = refl
  any-filter p q (x ∷ xs) h = ground (arith, any-filter p q xs)

  pub filter-Member :
      (p : A → Bool) (xs : List A) → All (λ x. (p x ≡ true) × Member x xs) (filter p xs)
  filter-Member p xs = inside xs (λ x there. there)
    where
      inside :
          (ys : List A)
          → ((x : A) → Member x ys → Member x xs)
          → All (λ x. (p x ≡ true) × Member x xs) (filter p ys)
      inside [] h = tt
      inside (y ∷ ys) h = elim (Bool-cases (p y)) [
        | inl on ↦ rw on ((on, h y (inl refl)), inside ys (λ x there. h x (inr there)))
        | inr off ↦ rw off (inside ys (λ x there. h x (inr there)))
      ]

module _ {A : Type 0} (key : A → ℕ) where
  abbrev pub is_keyed : List ℕ → A → Bool
  is_keyed keys x = any (λ k. k == key x) keys

  any-update_where :
      (p : A → Bool) (f : A → A) (n : ℕ) (rows : List A)
      → ((x : A) → key (f x) ≡ key x)
      → any (λ x. key x == n) (update_where p f rows) ≡ any (λ x. key x == n) rows
  any-update_where p f n [] same = refl
  any-update_where p f n (x ∷ rows) same = ground (arith, any-update_where p f n rows same, same x)

  pub HasDistinct-update_where :
      (p : A → Bool) (f : A → A) (rows : List A)
      → ((x : A) → key (f x) ≡ key x)
      → HasDistinct key rows
      → HasDistinct key (update_where p f rows)
  HasDistinct-update_where p f [] same d = tt
  HasDistinct-update_where p f (r ∷ rows) same (dr, d) = elim (Bool-cases (p r)) [
    | inl on ↦
        rw (on, same r, any-update_where p f (key r) rows same)
          (dr, HasDistinct-update_where p f rows same d)
    | inr off ↦
        rw (off, any-update_where p f (key r) rows same)
          (dr, HasDistinct-update_where p f rows same d)
  ]

  pub HasDistinct-filter :
      (p : A → Bool) (rows : List A) → HasDistinct key rows → HasDistinct key (filter p rows)
  HasDistinct-filter p [] d = tt
  HasDistinct-filter p (r ∷ rows) (dr, d) = elim (Bool-cases (p r)) [
    | inl on ↦ rw on (any-filter p (λ x. key x == key r) rows dr, HasDistinct-filter p rows d)
    | inr off ↦ rw off (HasDistinct-filter p rows d)
  ]

  -- What is left of a sum without several rows, by their ids.
  pub sum_where-without_rows :
      (q : A → Bool) (g : A → ℕ) (rows xs : List A)
      → HasDistinct key rows
      → HasDistinct key xs
      → All (λ x. Member x rows) xs
      → sum_where (λ r. q r && not (is_keyed (map key xs) r)) g rows + sum_where q g xs
        ≡ sum_where q g rows
  sum_where-without_rows q g rows [] d dx inside =
      let same = sum_where-congr (λ r. q r && not false) q g rows (λ r. ground arith) in
      ground arith
  sum_where-without_rows q g rows (x ∷ xs) d (fresh, dx) (inside_x, inside) =
      let others : A → Bool = λ r. q r && not (key x == key r) in
      let rest = sum_where-without_rows others g rows xs d dx inside in
      let first = sum_where-without key q g rows x d inside_x in
      let unaffected = sum_where-others key q g (key x) xs fresh in
      let both =
        sum_where-congr (λ r. q r && not (is_keyed (map key (x ∷ xs)) r))
          (λ r. others r && not (is_keyed (map key xs) r)) g rows (λ r. ground arith) in
      ground arith

module _ {A : Type 0} where
  sum_where-narrow :
      (p q : A → Bool) (g : A → ℕ) (rows : List A)
      → sum_where q (λ _. 1) rows ≡ 0
      → sum_where (λ x. p x && q x) g rows ≡ 0
  sum_where-narrow p q g [] h = refl
  sum_where-narrow p q g (r ∷ rows) h = ground (arith, sum_where-narrow p q g rows)

  -- Where one row at most satisfies a test, a narrower test selects it or nothing.
  pub sum_where-both :
      (p q : A → Bool) (g : A → ℕ) (rows : List A) (x : A)
      → sum_where q (λ _. 1) rows ≤ 1
      → Member x rows
      → q x ≡ true
      → sum_where (λ r. p r && q r) g rows ≡ (if p x then g x else 0)
  sum_where-both p q g [] x one inside on = absurd inside
  sum_where-both p q g (r ∷ rows) x one (inl same) on =
      let idle = sum_where-narrow p q g rows in ground arith
  sum_where-both p q g (r ∷ rows) x one (inr there) on =
      let counts = sum_where-Member q (λ _. 1) rows x there on in
      ground (arith, sum_where-both p q g rows x)
