-- ===== src/Symbols/Listed.antt =====
-- What the exchange tells of a symbol. Of futures.Symbol the model keeps the fields that are read; the
-- filters are maps from texts to values of the type interface{}.
use gobinace_qaggr_qrecv.Prelude.{ℤ, String, List}

-- What a value of the type interface{} holds.
pub data Value : Type 0 where
  of_string : String → Value
  of_float64 : ℤ → Value
  of_int64 : ℤ → Value
  of_int : ℤ → Value
  other : Value

abbrev pub Entry : Type 0
Entry = List (String × Value)

pub record Symbol : Type 0 where
  pub symbol : String
  pub pair : String
  pub status : String
  pub filters : List Entry
