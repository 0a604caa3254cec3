-- ===== src/Text/Samples.antt =====
-- StrVal at concrete inputs.
use gobinace_qaggr_qrecv.Prelude.{ℕ, pos, ◌≡◌, refl, [], ◌∷◌}
use gobinace_qaggr_qrecv.Text.StrVal.{Any, int8, uint, string, Formats, str_val}

-- The type of the floats and of the other values is ℕ.
abbrev formats : Formats ℕ ℕ
formats = record { format_float = λ x. []; marshal = λ a. [] }

abbrev seven : Any ℕ ℕ
seven = int8 (pos 7)

abbrev also_seven : Any ℕ ℕ
also_seven = uint 7

-- The same number of two types has the same text.
str_val-same : str_val formats seven ≡ str_val formats also_seven
unfolding str_val gobinace_qaggr_qrecv.Text.StrVal.int_of_uint
str_val-same = refl

str_val-text : str_val formats (string (b'x' ∷ [])) ≡ b'x' ∷ []
unfolding str_val
str_val-text = refl
