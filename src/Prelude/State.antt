-- ===== src/Prelude/State.antt =====
-- A computation that reads and changes a world.
abbrev pub State : Type 0 → Type 0 → Type 0
State X A = X → A × X

abbrev pub pure : {X A : Type 0} → A → State X A
pure a x = (a, x)

infixl 5 ◌>>=◌
abbrev pub ◌>>=◌ : {X A B : Type 0} → State X A → (A → State X B) → State X B
◌>>=◌ m f x = let (a, x') = m x in f a x'
