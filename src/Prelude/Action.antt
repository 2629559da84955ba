-- ===== src/Prelude/Action.antt =====
-- Asynchronous code that may throw: a state passed on, with a result or the message of an exception.
use combine_trade.Prelude.{
  Bool, true, false, Option, none, some, Text, Result, ok, err, ◌≡◌, ◌∙◌, ◌⊎◌, refl, ap, sym, inl,
  inr, if◌then◌else◌,
}

abbrev pub Action : Type 0 → Type 0 → Type 0
Action X A = X → Result Text A × X

abbrev pub pure : {X A : Type 0} → A → Action X A
pure a x = (ok a, x)

abbrev pub after : {X A B : Type 0} → (A → Action X B) → Result Text A → Action X B
after f (ok a) x = f a x
after f (err message) x = (err message, x)

infixl 5 ◌>>=◌ ◌>>◌
unfoldable pub ◌>>=◌ : {X A B : Type 0} → Action X A → (A → Action X B) → Action X B
◌>>=◌ m f x = let (answer, x') = m x in after f answer x'

unfoldable pub ◌>>◌ : {X A B : Type 0} → Action X A → Action X B → Action X B
unfolding ◌>>=◌
m >> n = m >>= (λ a. n)

-- try … catch: an exception becomes a value.
abbrev pub attempt : {X A : Type 0} → Action X A → Action X (Result Text A)
attempt m x = let (answer, x') = m x in (ok answer, x')

-- A statement in an if without an else, and one for a value that is not null.
unfoldable pub when : {X : Type 0} → Bool → Action X (Unit {0}) → Action X (Unit {0})
when true m = m
when false m = pure tt

unfoldable pub when_some :
    {X A : Type 0} → Option A → (A → Action X (Unit {0})) → Action X (Unit {0})
when_some none f = pure tt
when_some (some a) f = f a

-- From the state the action returns a value, and `G` holds of it and of the state then.
abbrev pub Then : {X A : Type 0} → Action X A → (A → X → Type 0) → X → Type 0
Then {X} {A} m G x = (a : A) × (x' : X) × (m x ≡ (ok a, x')) × G a x'

-- What an action may do to an observation of the state: nothing at all, or something only from a state
-- of which `G` holds.
module _ {X O : Type 0} (see : X → O) where
  abbrev pub IsQuiet : {A : Type 0} → Action X A → Type 0
  IsQuiet m = (x : X) → see (m x).1 ≡ see x

  pub record ActsOnlyIf (G : X → Type 0) {A : Type 0} (m : Action X A) : Type 0 where
    pub acts : (x : X) → (see (m x).1 ≡ see x) ⊎ G x

  pub quiet-ActsOnlyIf : (G : X → Type 0) {A : Type 0} (m : Action X A) → IsQuiet m → ActsOnlyIf G m
  quiet-ActsOnlyIf G m q = record { acts = λ x. inl (q x) }

  pub >>=-ActsOnlyIf :
      {A B : Type 0} (m : Action X A) (f : A → Action X B) (G : A → X → Type 0)
      → IsQuiet m
      → ((a : A) → ActsOnlyIf (G a) (f a))
      → ActsOnlyIf (Then m G) (m >>= f)
  unfolding ◌>>=◌
  >>=-ActsOnlyIf {A} m f G q k = record { acts = λ x. settled x (m x).0 (m x).1 refl }
    where
      settled :
          (x : X) (answer : Result Text A) (x' : X)
          → m x ≡ (answer, x')
          → (see (after f answer x').1 ≡ see x) ⊎ Then m G x
      settled x (ok a) x' e = elim ((k a).acts x') [
        | inl h ↦ inl (h ∙ (ap (λ (r : Result Text A × X). see r.1) (sym e) ∙ q x))
        | inr g ↦ inr (a, x', e, g)
      ]
      settled x (err message) x' e = inl (ap (λ (r : Result Text A × X). see r.1) (sym e) ∙ q x)

  pub when-ActsOnlyIf :
      (b : Bool) (m : Action X (Unit {0})) (G : X → Type 0)
      → ActsOnlyIf G m
      → ActsOnlyIf (λ x. (b ≡ true) × G x) (when b m)
  unfolding when
  when-ActsOnlyIf true m G k = record {
    acts = λ x. elim (k.acts x) [ inl q ↦ inl q | inr g ↦ inr (refl, g) ];
  }
  when-ActsOnlyIf false m G k = record { acts = λ x. inl refl }

  pub when_some-ActsOnlyIf :
      {A : Type 0} (o : Option A) (f : A → Action X (Unit {0})) (G : A → X → Type 0)
      → ((a : A) → ActsOnlyIf (G a) (f a))
      → ActsOnlyIf (λ x. (a : A) × (o ≡ some a) × G a x) (when_some o f)
  unfolding when_some
  when_some-ActsOnlyIf none f G k = record { acts = λ x. inl refl }
  when_some-ActsOnlyIf (some a) f G k = record {
    acts = λ x. elim ((k a).acts x) [ inl q ↦ inl q | inr g ↦ inr (a, refl, g) ];
  }

  pub if-ActsOnlyIf :
      {A : Type 0} (b : Bool) (m n : Action X A) (G : X → Type 0)
      → IsQuiet m
      → ActsOnlyIf G n
      → ActsOnlyIf (λ x. (b ≡ false) × G x) (if b then m else n)
  if-ActsOnlyIf true m n G q k = record { acts = λ x. inl (q x) }
  if-ActsOnlyIf false m n G q k = record {
    acts = λ x. elim (k.acts x) [ inl q ↦ inl q | inr g ↦ inr (refl, g) ];
  }

  pub widen-ActsOnlyIf :
      (G H : X → Type 0) {A : Type 0} (m : Action X A)
      → ((x : X) → G x → H x)
      → ActsOnlyIf G m
      → ActsOnlyIf H m
  widen-ActsOnlyIf G H m f k = record {
    acts = λ x. elim (k.acts x) [ inl q ↦ inl q | inr g ↦ inr (f x g) ];
  }

  pub >>=-IsQuiet :
      {A B : Type 0} (m : Action X A) (f : A → Action X B)
      → IsQuiet m
      → ((a : A) → IsQuiet (f a))
      → IsQuiet (m >>= f)
  unfolding ◌>>=◌
  >>=-IsQuiet {A} m f q k x = settled (m x).0 (m x).1 (q x)
    where
      settled :
          (answer : Result Text A) (x' : X) → see x' ≡ see x → see (after f answer x').1 ≡ see x
      settled (ok a) x' h = k a x' ∙ h
      settled (err message) x' h = h

  pub when-IsQuiet : (b : Bool) (m : Action X (Unit {0})) → IsQuiet m → IsQuiet (when b m)
  unfolding when
  when-IsQuiet true m q x = q x
  when-IsQuiet false m q x = refl

  pub when_some-IsQuiet :
      {A : Type 0} (o : Option A) (f : A → Action X (Unit {0}))
      → ((a : A) → IsQuiet (f a))
      → IsQuiet (when_some o f)
  unfolding when_some
  when_some-IsQuiet none f k x = refl
  when_some-IsQuiet (some a) f k x = k a x
