-- ===== src/Core/CommonCode.antt =====
-- The common_code table of db/schema.ts, from which the code reads its settings, and the numbers in
-- its values. A JSON number that is no integer is `fraction`; JSON of other kinds is `other`.
use combine_trade.Prelude.{
  ℕ, ◌+◌, ◌-◌, ◌*◌, Bool, ◌&&◌, ◌||◌, List, [], ◌∷◌, Option, none, some, Text, eq_text, find,
  if◌then◌else◌, leb, ◌==◌,
}
use combine_trade.Prelude.Int.{ℤ, pos, sub_ℕ}

pub data CommonCodeValue : Type 0 where
  integer : ℤ → CommonCodeValue
  fraction other : CommonCodeValue
  text : Text → CommonCodeValue

pub record CommonCodeRow : Type 0 where
  pub group_code : Text
  pub code : Text
  pub value : CommonCodeValue
  pub is_active : Bool

-- `group_code = … and code = … and is_active = true`, limit 1.
unfoldable pub active_code : Text → Text → List CommonCodeRow → Option CommonCodeRow
active_code group code =
    find (λ (r : CommonCodeRow). eq_text r.group_code group && eq_text r.code code && r.is_active)

-- White space and line ends of ECMAScript.
is_space : ℕ → Bool
is_space c =
    (leb 9 c && leb c 13)
    || c == 32
    || c == 160
    || c == 5_760
    || (leb 8_192 c && leb c 8_202)
    || c == 8_232
    || c == 8_233
    || c == 8_239
    || c == 8_287
    || c == 12_288
    || c == 65_279

skip_spaces : Text → Text
unfolding is_space
skip_spaces [] = []
skip_spaces (c ∷ s) = if is_space c then skip_spaces s else c ∷ s

is_digit : ℕ → Bool
is_digit c = leb 48 c && leb c 57

-- The value of the digits in front, behind a value that has been read.
digits_from : ℕ → Text → ℕ
unfolding is_digit
digits_from read [] = read
digits_from read (c ∷ s) = if is_digit c then digits_from (read * 10 + (c - 48)) s else read

leading_digits : Text → Option ℕ
unfolding is_digit digits_from
leading_digits [] = none
leading_digits (c ∷ s) = if is_digit c then some (digits_from (c - 48) s) else none

negated : Option ℕ → Option ℤ
negated none = none
negated (some n) = some (sub_ℕ 0 n)

unsigned : Option ℕ → Option ℤ
unsigned none = none
unsigned (some n) = some (pos n)

signed_digits : Text → Option ℤ
unfolding leading_digits negated unsigned
signed_digits [] = none
signed_digits (c ∷ s) =
    if c == 45
    then negated (leading_digits s)
    else if c == 43
    then unsigned (leading_digits s)
    else unsigned (leading_digits (c ∷ s))

-- parseInt(s, 10); `none` is NaN. Digits beyond the doubles' precision are kept here.
unfoldable pub parse_int : Text → Option ℤ
unfolding skip_spaces signed_digits
parse_int s = signed_digits (skip_spaces s)
