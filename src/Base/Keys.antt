-- ===== src/Base/Keys.antt =====
-- Lists whose entries differ in a key: the UNIQUE and PRIMARY KEY constraints of a table.
use mathlib.Core.Logic.{◌≢◌, inl, inr}
use mathlib.Core.Path.{◌≡◌, refl, sym, ◌∙◌}
use mathlib.Core.List.Perm
use mathlib.Core.List.{foldr, Perm, List, [], ◌∷◌, ◌++◌, map}
use mathlib.Core.Bool.{Bool, true, false, ◌||◌}
use native.Mathlib.Omega.{arith}
use mo_t.Base.Lists.{All, All-append, All-select, select, any}
use mo_t.Base.Tests.{Bool-cases, or_left, or_right}

module _ {ℓ κ} {A : Type ℓ} {K : Type κ} (key : A → K) where
  abbrev pub Unique : List A → Type (ℓ ⊔ κ)
  Unique [] = Unit {ℓ ⊔ κ}
  Unique (x ∷ xs) = All (λ y. key x ≢ key y) xs × Unique xs

module _ {A K : Type 0} (key : A → K) where
  pub Unique-snoc :
      (xs : List A) (x : A)
      → Unique key xs
      → All (λ y. key y ≢ key x) xs
      → Unique key (xs ++ x ∷ [])
  Unique-snoc [] x u h = (tt, tt)
  Unique-snoc (y ∷ ys) x u h =
      (All-append (λ z. key y ≢ key z) ys (x ∷ []) u.0 (h.0, tt), Unique-snoc ys x u.1 h.1)

  pub Unique-select : (p : A → Bool) (xs : List A) → Unique key xs → Unique key (select p xs)
  Unique-select p [] u = tt
  Unique-select p (x ∷ xs) u = elim (Bool-cases (p x)) [
    | inl e ↦ rw e (All-select (λ y. key x ≢ key y) p xs u.0, Unique-select p xs u.1)
    | inr e ↦ rw e (Unique-select p xs u.1)
  ]

  All-key-map :
      (f : A → A) (k : K)
      → ((x : A) → key (f x) ≡ key x)
      → (xs : List A) → All (λ y. k ≢ key y) xs
      → All (λ y. k ≢ key y) (map f xs)
  All-key-map f k same [] h = tt
  All-key-map f k same (x ∷ xs) h = (λ e. h.0 (e ∙ same x), All-key-map f k same xs h.1)

  -- A change that leaves the key alone.
  pub Unique-map :
      (f : A → A)
      → ((x : A) → key (f x) ≡ key x)
      → (xs : List A) → Unique key xs
      → Unique key (map f xs)
  Unique-map f same [] u = tt
  Unique-map f same (x ∷ xs) u =
      (rw (same x) (All-key-map f (key x) same xs u.0), Unique-map f same xs u.1)

  -- A test that finds no entry with the key.
  pub All-ne-any :
      (test : A → Bool) (k : K)
      → ((x : A) → key x ≡ k → test x ≡ true)
      → (xs : List A) → any test xs ≡ false
      → All (λ y. key y ≢ k) xs
  All-ne-any test k finds [] h = tt
  All-ne-any test k finds (x ∷ xs) h = (
    λ e. cc (finds x e, or_left (test x) (any test xs) h),
    All-ne-any test k finds xs (or_right (test x) (any test xs) h),
  )

module _ {A : Type 0} where
  -- What a failed search says of each entry.
  pub any-false-All :
      (test : A → Bool) (xs : List A) → any test xs ≡ false → All (λ x. test x ≡ false) xs
  any-false-All test [] h = tt
  any-false-All test (x ∷ xs) h =
      (or_left (test x) (any test xs) h, any-false-All test xs (or_right (test x) (any test xs) h))

  pub All-both : (P Q : A → Type 0) (xs : List A) → All P xs → All Q xs → All (λ x. P x × Q x) xs
  All-both P Q [] hp hq = tt
  All-both P Q (x ∷ xs) hp hq = ((hp.0, hq.0), All-both P Q xs hp.1 hq.1)

  -- A predicate that a change establishes from another.
  pub All-image :
      (P Q : A → Type 0) (f : A → A)
      → ((x : A) → P x → Q (f x))
      → (xs : List A) → All P xs
      → All Q (map f xs)
  All-image P Q f h [] a = tt
  All-image P Q f h (x ∷ xs) a = (h x a.0, All-image P Q f h xs a.1)

  pub map-All_same : (f : A → A) (xs : List A) → All (λ x. f x ≡ x) xs → map f xs ≡ xs
  map-All_same f [] h = refl
  map-All_same f (x ∷ xs) h = cc (h.0, map-All_same f xs h.1)

  -- The other way round.
  pub All-any : (test : A → Bool) (xs : List A) → All (λ x. test x ≡ false) xs → any test xs ≡ false
  All-any test [] h = refl
  All-any test (x ∷ xs) h = ground (arith, All-any test xs h.1)

  any-foldr :
      (test : A → Bool) (xs : List A) → any test xs ≡ foldr (λ x found. test x || found) false xs
  any-foldr test [] = refl
  any-foldr test (x ∷ xs) = ground (arith, any-foldr test xs)

  -- The order does not matter to a search.
  pub any-Perm : (test : A → Bool) (xs ys : List A) → Perm xs ys → any test xs ≡ any test ys
  any-Perm test xs ys p =
      let step : A → Bool → Bool = λ x found. test x || found in
      let swap : (x y : A) (found : Bool) → step x (step y found) ≡ step y (step x found) =
        λ x y found. ground arith in
      any-foldr test xs
      ∙ Perm.foldr-eq {A = A} {B = Bool} (hlevel) step swap p false
      ∙ sym (any-foldr test ys)
