-- ===== src/Reconciliation/Comparator/Keys.antt =====
-- The text keys tell markets and directions apart, also where a symbol holds a colon.
use mathlib.Core.List.{append_cancel_right}
use combine_trade.Prelude.{ℕ, [], ◌∷◌, ◌++◌, Text, codes, ◌≡◌, refl, sym, ap, ◌∙◌, arith}
use combine_trade.Core.Types.{Exchange, Direction}
use combine_trade.Reconciliation.Comparator.{exchange_name, direction_name, position_key, dir_key}

last_or : ℕ → Text → ℕ
last_or d [] = d
last_or d (x ∷ xs) = last_or x xs

last_or-append : (d : ℕ) (xs ys : Text) → last_or d (xs ++ ys) ≡ last_or (last_or d xs) ys
unfolding last_or
last_or-append d [] ys = refl
last_or-append d (x ∷ xs) ys = last_or-append x xs ys

abbrev exchange_suffix : Exchange → Text
exchange_suffix e = codes ":" ++ exchange_name e

abbrev direction_suffix : Direction → Text
direction_suffix d = codes ":" ++ direction_name d

exchange_of_last :
    (m n : ℕ) (e f : Exchange)
    → last_or m (exchange_suffix e) ≡ last_or n (exchange_suffix f)
    → e ≡ f
unfolding last_or
exchange_of_last m n e f h = ground arith

direction_of_last :
    (m n : ℕ) (d c : Direction)
    → last_or m (direction_suffix d) ≡ last_or n (direction_suffix c)
    → d ≡ c
unfolding last_or
direction_of_last m n d c h = ground arith

same_last : (s t u v : Text) → s ++ u ≡ t ++ v → last_or (last_or 0 s) u ≡ last_or (last_or 0 t) v
same_last s t u v h = sym (last_or-append 0 s u) ∙ (ap (last_or 0) h ∙ last_or-append 0 t v)

pub position_key_injective :
    (s t : Text) (e f : Exchange) → position_key s e ≡ position_key t f → (s ≡ t) × (e ≡ f)
unfolding position_key
position_key_injective s t e f h =
    let same = exchange_of_last _ _ e f (same_last s t (exchange_suffix e) (exchange_suffix f) h) in
    (append_cancel_right s t (exchange_suffix f) (rw (← same) (rw (← same) at h)), same)

pub dir_key_injective :
    (s t : Text) (e f : Exchange) (d c : Direction)
    → dir_key s e d ≡ dir_key t f c
    → (s ≡ t) × (e ≡ f) × (d ≡ c)
unfolding dir_key
dir_key_injective s t e f d c h =
    let same = direction_of_last _ _ d c (
      same_last (position_key s e) (position_key t f) (direction_suffix d) (direction_suffix c)
        h) in
    let (symbols, exchanges) = position_key_injective s t e f (
      append_cancel_right (position_key s e) (position_key t f) (direction_suffix c)
        (rw (← same) (rw (← same) at h))) in
    (symbols, exchanges, same)
