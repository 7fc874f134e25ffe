-- ===== src/Base/Tables.antt =====
-- Tables whose rows have ids: membership, distinct ids, and what a write of one row keeps.
use Prim.Native.Nat.{ℕ, ◌+◌, ◌≤◌, ◌<◌}
use mathlib.Core.Path.{◌≡◌, refl, sym, ◌∙◌}
use mathlib.Core.Logic.{◌⊎◌, inl, inr}
use mathlib.Core.Bool.{Bool, true, false, ◌&&◌, not}
use mathlib.Core.Option.{some}
use mathlib.Core.List.{List, [], ◌∷◌, ◌++◌}
use native.Mathlib.Omega.{arith}
use asima_backend.Base.Tests.{◌==◌, if◌then◌else◌, Bool-cases}
use asima_backend.Base.Lists.{any, find, All, update_first, sum_where, any-append}

module _ {A : Type 0} where
  abbrev pub Member : A → List A → Type 0
  Member x [] = ⊥
  Member x (y ∷ ys) = (y ≡ x) ⊎ Member x ys

  pub find-Member : (p : A → Bool) (xs : List A) (x : A) → find p xs ≡ some x → Member x xs
  find-Member p [] x h = absurd (ground arith)
  find-Member p (y ∷ xs) x h = elim (Bool-cases (p y)) [
    | inl here ↦ inl (ground arith)
    | inr there ↦ inr (find-Member p xs x (ground arith))
  ]

  pub All-Member : (P : A → Type 0) (xs : List A) (x : A) → All P xs → Member x xs → P x
  All-Member P [] x a h = absurd h
  All-Member P (y ∷ xs) x (ay, a) (inl same) = rw (sym same) ay
  All-Member P (y ∷ xs) x (ay, a) (inr there) = All-Member P xs x a there

  pub Member-snoc : (xs : List A) (x : A) → Member x (xs ++ x ∷ [])
  Member-snoc [] x = inl refl
  Member-snoc (y ∷ xs) x = inr (Member-snoc xs x)

  pub Member-append : (xs ys : List A) (x : A) → Member x xs → Member x (xs ++ ys)
  Member-append [] ys x h = absurd h
  Member-append (y ∷ xs) ys x (inl same) = inl same
  Member-append (y ∷ xs) ys x (inr there) = inr (Member-append xs ys x there)

  pub Member-update_first :
      (p : A → Bool) (f : A → A) (xs : List A) (x : A)
      → find p xs ≡ some x
      → Member (f x) (update_first p f xs)
  Member-update_first p f [] x h = absurd (ground arith)
  Member-update_first p f (y ∷ xs) x h = elim (Bool-cases (p y)) [
    | inl here ↦ let same : y ≡ x = ground arith in rw (here, same) (inl refl)
    | inr there ↦ rw there (inr (Member-update_first p f xs x (ground arith)))
  ]

  pub All-of_Member : (P : A → Type 0) (xs : List A) → ((x : A) → Member x xs → P x) → All P xs
  All-of_Member P [] f = tt
  All-of_Member P (y ∷ ys) f = (f y (inl refl), All-of_Member P ys (λ x there. f x (inr there)))

  pub sum_where-none :
      (p : A → Bool) (f : A → ℕ) (xs : List A) → All (λ x. p x ≡ false) xs → sum_where p f xs ≡ 0
  sum_where-none p f [] h = refl
  sum_where-none p f (x ∷ xs) (hx, h) = ground (arith, sum_where-none p f xs h)

  -- A row counts for itself.
  pub sum_where-Member :
      (p : A → Bool) (f : A → ℕ) (xs : List A) (x : A)
      → Member x xs
      → p x ≡ true
      → f x ≤ sum_where p f xs
  sum_where-Member p f [] x h k = absurd h
  sum_where-Member p f (y ∷ xs) x (inl same) k = ground arith
  sum_where-Member p f (y ∷ xs) x (inr there) k = ground (arith, sum_where-Member p f xs x there k)

  -- Where no row satisfies a test, the sum over those that do is empty.
  pub sum_where-idle :
      (p : A → Bool) (f : A → ℕ) (xs : List A) → sum_where p (λ _. 1) xs ≡ 0 → sum_where p f xs ≡ 0
  sum_where-idle p f [] h = refl
  sum_where-idle p f (x ∷ xs) h = ground (arith, sum_where-idle p f xs)

  -- Where one row at most satisfies a test, a row of the table that does gives the sum.
  pub sum_where-only :
      (p : A → Bool) (f : A → ℕ) (xs : List A) (x : A)
      → sum_where p (λ _. 1) xs ≤ 1
      → Member x xs
      → p x ≡ true
      → (sum_where p (λ _. 1) xs ≡ 1) × (sum_where p f xs ≡ f x)
  sum_where-only p f [] x one inside on = absurd inside
  sum_where-only p f (y ∷ xs) x one (inl same) on = ground (arith, sum_where-idle p f xs)
  sum_where-only p f (y ∷ xs) x one (inr there) on =
      let counts = sum_where-Member p (λ _. 1) xs x there on in
      ground (arith, sum_where-only p f xs x)

  pub All-append : (P : A → Type 0) (xs ys : List A) → All P xs → All P ys → All P (xs ++ ys)
  All-append P [] ys a b = b
  All-append P (x ∷ xs) ys (ax, a) b = (ax, All-append P xs ys a b)

  pub All-snoc : (P : A → Type 0) (xs : List A) (x : A) → All P xs → P x → All P (xs ++ x ∷ [])
  All-snoc P [] x h k = (k, tt)
  All-snoc P (y ∷ xs) x (hy, h) k = (hy, All-snoc P xs x h k)

  -- An update of the first row that a test selects.
  pub All-update_first :
      (P : A → Type 0) (p : A → Bool) (f : A → A) (xs : List A) (x : A)
      → find p xs ≡ some x
      → All P xs
      → P (f x)
      → All P (update_first p f xs)
  All-update_first P p f [] x h a k = tt
  All-update_first P p f (y ∷ xs) x h (ay, a) k = elim (Bool-cases (p y)) [
    | inl here ↦ let same : y ≡ x = ground arith in rw (here, same) (k, a)
    | inr there ↦ rw there (ay, All-update_first P p f xs x (ground arith) a k)
  ]

  pub All-map : (P Q : A → Type 0) (xs : List A) → ((x : A) → P x → Q x) → All P xs → All Q xs
  All-map P Q [] f h = tt
  All-map P Q (x ∷ xs) f (hx, h) = (f x hx, All-map P Q xs f h)

  pub sum_where_mono :
      (p q : A → Bool) (f : A → ℕ) (P : A → Type 0) (xs : List A)
      → ((x : A) → P x → p x ≡ true → q x ≡ true)
      → All P xs
      → sum_where p f xs ≤ sum_where q f xs
  sum_where_mono p q f P [] h a = omega arith
  sum_where_mono p q f P (x ∷ xs) h (ax, a) = ground (arith, h x ax, sum_where_mono p q f P xs h a)

module _ {A : Type 0} (key : A → ℕ) where
  abbrev pub HasDistinct : List A → Type 0
  HasDistinct [] = Unit
  HasDistinct (r ∷ rows) = (any (λ x. key x == key r) rows ≡ false) × HasDistinct rows

  pub unused_key :
      (rows : List A) (n : ℕ) → All (λ r. key r < n) rows → any (λ x. key x == n) rows ≡ false
  unused_key [] n h = refl
  unused_key (r ∷ rows) n (hr, h) = ground (arith, unused_key rows n h)

  pub HasDistinct-snoc :
      (rows : List A) (r : A)
      → HasDistinct rows
      → any (λ x. key x == key r) rows ≡ false
      → HasDistinct (rows ++ r ∷ [])
  HasDistinct-snoc [] r h k = (refl, tt)
  HasDistinct-snoc (x ∷ rows) r (hx, h) k = (
    ground (arith, any-append (λ y. key y == key x) rows (r ∷ [])),
    HasDistinct-snoc rows r h (ground arith),
  )

  any-update_first :
      (p : A → Bool) (f : A → A) (n : ℕ) (rows : List A)
      → ((x : A) → key (f x) ≡ key x)
      → any (λ x. key x == n) (update_first p f rows) ≡ any (λ x. key x == n) rows
  any-update_first p f n [] k = refl
  any-update_first p f n (x ∷ rows) k = ground (arith, any-update_first p f n rows k, k x)

  pub HasDistinct-update_first :
      (p : A → Bool) (f : A → A) (rows : List A)
      → ((x : A) → key (f x) ≡ key x)
      → HasDistinct rows
      → HasDistinct (update_first p f rows)
  HasDistinct-update_first p f [] k h = tt
  HasDistinct-update_first p f (x ∷ rows) k (hx, h) = elim (Bool-cases (p x)) [
    | inl here ↦ rw (here, k x) (hx, h)
    | inr there ↦
        rw (there, any-update_first p f (key x) rows k) (hx, HasDistinct-update_first p f rows k h)
  ]

  pub Member-key : (rows : List A) (x : A) → Member x rows → any (λ y. key y == key x) rows ≡ true
  Member-key [] x h = absurd h
  Member-key (y ∷ rows) x (inl same) = ground arith
  Member-key (y ∷ rows) x (inr there) = ground (arith, Member-key rows x there)

  -- Where ids are distinct, a live row of the table is the one that a search for its id finds.
  pub find-own_key :
      (live : A → Bool) (rows : List A) (x : A)
      → HasDistinct rows
      → Member x rows
      → live x ≡ true
      → find (λ r. key r == key x && live r) rows ≡ some x
  find-own_key live [] x d h k = absurd h
  find-own_key live (y ∷ rows) x (dy, d) (inl same) k = ground arith
  find-own_key live (y ∷ rows) x (dy, d) (inr there) k =
      ground (arith, find-own_key live rows x d there k, Member-key rows x there)

  pub Member-key_unique :
      (rows : List A) (x y : A)
      → HasDistinct rows
      → Member x rows
      → Member y rows
      → key x ≡ key y
      → x ≡ y
  Member-key_unique [] x y d hx hy same = absurd hx
  Member-key_unique (r ∷ rows) x y (dr, d) (inl hx) (inl hy) same = sym hx ∙ hy
  Member-key_unique (r ∷ rows) x y (dr, d) (inl hx) (inr hy) same =
      absurd (ground (arith, Member-key rows y hy))
  Member-key_unique (r ∷ rows) x y (dr, d) (inr hx) (inl hy) same =
      absurd (ground (arith, Member-key rows x hx))
  Member-key_unique (r ∷ rows) x y (dr, d) (inr hx) (inr hy) same =
      Member-key_unique rows x y d hx hy same

  pub sum_where-others :
      (q : A → Bool) (g : A → ℕ) (n : ℕ) (rows : List A)
      → any (λ r. key r == n) rows ≡ false
      → sum_where (λ r. q r && not (n == key r)) g rows ≡ sum_where q g rows
  sum_where-others q g n [] h = refl
  sum_where-others q g n (r ∷ rows) h = ground (arith, sum_where-others q g n rows)

  -- The sum without one row, by its id.
  pub sum_where-without :
      (q : A → Bool) (g : A → ℕ) (rows : List A) (x : A)
      → HasDistinct rows
      → Member x rows
      → sum_where (λ r. q r && not (key x == key r)) g rows + (if q x then g x else 0)
        ≡ sum_where q g rows
  sum_where-without q g [] x d h = absurd h
  sum_where-without q g (r ∷ rows) x (dr, d) (inl same) =
      let fresh : any (λ y. key y == key x) rows ≡ false = rw (sym same) dr in
      ground (arith, sum_where-others q g (key x) rows fresh)
  sum_where-without q g (r ∷ rows) x (dr, d) (inr there) =
      ground (arith, sum_where-without q g rows x d there, Member-key rows x there)
