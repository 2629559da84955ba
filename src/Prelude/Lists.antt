-- ===== src/Prelude/Lists.antt =====
-- Lists: lengths in native numbers, tests by Boolean predicates, predicates by recursion.
use Prim.Native.Nat.{ℕ, suc, ◌+◌, ◌≤◌}
use mathlib.Core.Path.{◌≡◌, refl, sym, ap, subst, ◌∙◌}
use mathlib.Core.Logic.{◌⊎◌, ◌↔◌, inl, inr}
use mathlib.Core.Bool.{Bool, true, false, ◌||◌}
use mathlib.Core.List.{List, [], ◌∷◌, ◌++◌, map}
use mathlib.Core.Option.{Option, none, some}
use native.Mathlib.Omega.{arith}
use combine_trade.Prelude.Tests.{if◌then◌else◌}

-- Membership, with its place, by recursion.
abbrev pub IsIn : {A : Type 0} → A → List A → Type 0
IsIn a [] = ⊥
IsIn a (x ∷ xs) = (a ≡ x) ⊎ IsIn a xs

module _ {ℓ} {A : Type ℓ} where
  abbrev pub length : List A → ℕ
  length [] = 0
  length (x ∷ xs) = suc (length xs)

  pub length-append : (xs ys : List A) → length (xs ++ ys) ≡ length xs + length ys
  length-append [] ys = omega arith
  length-append (x ∷ xs) ys = omega (arith, length-append xs ys)

  -- Array.prototype.filter, find and some.
  abbrev pub filter : (A → Bool) → List A → List A
  filter p [] = []
  filter p (x ∷ xs) = if p x then x ∷ filter p xs else filter p xs

  abbrev pub find : (A → Bool) → List A → Option A
  find p [] = none
  find p (x ∷ xs) = if p x then some x else find p xs

  abbrev pub any : (A → Bool) → List A → Bool
  any p [] = false
  any p (x ∷ xs) = p x || any p xs

  -- UPDATE … WHERE: the rows that pass the test are rewritten.
  abbrev pub update_where : (A → Bool) → (A → A) → List A → List A
  update_where p f [] = []
  update_where p f (x ∷ xs) = (if p x then f x else x) ∷ update_where p f xs

  abbrev pub All {κ} : (A → Type κ) → List A → Type κ
  All P [] = Unit
  All P (x ∷ xs) = P x × All P xs

  pub length-filter-le : (p : A → Bool) (xs : List A) → length (filter p xs) ≤ length xs
  length-filter-le p [] = omega arith
  length-filter-le p (x ∷ xs) = ground (arith, length-filter-le p xs)

  -- Where a rewrite keeps the test, what is found is the rewritten element.
  pub find-update_where :
      (p : A → Bool) (f : A → A) (xs : List A) (found : A)
      → ((x : A) → p (f x) ≡ p x)
      → find p xs ≡ some found
      → find p (update_where p f xs) ≡ some (f found)
  find-update_where p f [] found keep h = cc
  find-update_where p f (x ∷ xs) found keep h =
      ground (arith, keep x, find-update_where p f xs found keep)

  pub All-append {κ} : (P : A → Type κ) (xs ys : List A) → All P xs → All P ys → All P (xs ++ ys)
  All-append P [] ys h k = k
  All-append P (x ∷ xs) ys (h, hs) k = (h, All-append P xs ys hs k)

module _ {A : Type 0} where
  pub IsIn-append : (a : A) (xs ys : List A) → IsIn a (xs ++ ys) ↔ (IsIn a xs ⊎ IsIn a ys)
  IsIn-append a [] ys = (inr, λ h. ground arith)
  IsIn-append a (x ∷ xs) ys = ground (arith, IsIn-append a xs ys)

  pub IsIn-filter :
      (a : A) (p : A → Bool) (xs : List A) → IsIn a (filter p xs) ↔ (IsIn a xs × (p a ≡ true))
  IsIn-filter a p [] = ground arith
  IsIn-filter a p (x ∷ xs) = ground (arith, IsIn-filter a p xs)

  pub All-IsIn {κ} : (P : A → Type κ) (xs : List A) (a : A) → All P xs → IsIn a xs → P a
  All-IsIn P (x ∷ xs) a (h, hs) (inl e) = subst P (sym e) h
  All-IsIn P (x ∷ xs) a (h, hs) (inr m) = All-IsIn P xs a hs m
  All-IsIn P [] a h m = elim m [ ]

  pub All-intro {κ} : (P : A → Type κ) (xs : List A) → ((a : A) → IsIn a xs → P a) → All P xs
  All-intro P [] h = tt
  All-intro P (x ∷ xs) h = (h x (inl refl), All-intro P xs (λ a m. h a (inr m)))

  pub All-map {κ ι} :
      (P : A → Type κ) (Q : A → Type ι) (xs : List A) → ((a : A) → P a → Q a) → All P xs → All Q xs
  All-map P Q [] f h = tt
  All-map P Q (x ∷ xs) f (h, hs) = (f x h, All-map P Q xs f hs)

  pub filter-nil : (p : A → Bool) (xs : List A) → (filter p xs ≡ []) ↔ All (λ x. p x ≡ false) xs
  filter-nil p [] = ground arith
  filter-nil p (x ∷ xs) = ground (arith, filter-nil p xs)

pub IsIn-map :
    {A B : Type 0} (f : A → B) (b : B) (xs : List A)
    → IsIn b (map f xs) ↔ ((a : A) × IsIn a xs × (b ≡ f a))
IsIn-map f b [] = ground arith
IsIn-map f b (x ∷ xs) = (
  elim [
    | inl e ↦ (x, inl refl, e)
    | inr m ↦ let (a, i, e) = (IsIn-map f b xs).0 m in (a, inr i, e)
  ],
  λ (a, i, e). elim i [ inl d ↦ inl (e ∙ ap f d) | inr m ↦ inr ((IsIn-map f b xs).1 (a, m, e)) ],
)
