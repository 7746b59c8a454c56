-- ===== src/Preprocess.antt =====
-- src/typesense/preprocess.py: how the parameters of a request are printed. A value of a type other than
-- `str`, `int`, `bool` and `list` is any other JSON value.
pub mod Split
use typesense_python.Base.{
  ltb, if◌then◌else◌, nat_eq, Str, codes, text_eq, ℕ, zero, suc, ◌+◌, ◌/◌, ◌%◌, true, false, List,
  [], ◌∷◌, ◌++◌,
}
use typesense_python.Base.Dict.{Dict, put}
use typesense_python.Base.Result.{Result, ok, raise, ◌>>=◌}
use typesense_python.Base.Result.Error.{invalid_parameter}
use typesense_python.Schemas.{ℤ, Value, Items}
use typesense_python.Schemas.ℤ.{pos, negsuc}
use typesense_python.Schemas.Value.{boolean, integer, text, array}
use typesense_python.Schemas.Items.{nil, cons}

-- The decimal digits; a number has fewer of them than the fuel `suc n`.
unfoldable pub digits : ℕ → ℕ → Str
digits zero n = []
digits (suc fuel) n =
    let front = digits fuel (n / 10) in
    if ltb n 10 then (48 + n) ∷ [] else front ++ ((48 + n % 10) ∷ [])

-- str(n)
unfoldable pub str_of_int : ℤ → Str
str_of_int (pos n) = digits (suc n) n
str_of_int (negsuc n) = 45 ∷ digits (suc (suc n)) (suc n)

-- `str(argument).lower()` prints a Boolean in small letters.
unfoldable pub stringify : Value → Result Str
stringify (text s) = ok s
stringify (boolean true) = ok (codes "true")
stringify (boolean false) = ok (codes "false")
stringify (integer n) = ok (str_of_int n)
stringify _ = raise invalid_parameter

unfoldable pub stringify_items : Items → Result (List Str)
stringify_items nil = ok []
stringify_items (cons v vs) = stringify v >>= λ s. stringify_items vs >>= λ rest. ok (s ∷ rest)

-- ",".join(parts)
unfoldable pub join_commas : List Str → Str
join_commas [] = []
join_commas (p ∷ []) = p
join_commas (p ∷ q ∷ ps) = p ++ 44 ∷ join_commas (q ∷ ps)

unfoldable pub process_param_list : Items → Result Str
process_param_list parameters = stringify_items parameters >>= λ parts. ok (join_commas parts)

unfoldable pub stringify_param : Value → Result Str
stringify_param (array vs) = process_param_list vs
stringify_param v = stringify v

-- The loop, with what has been printed so far.
unfoldable pub stringify_params : Dict Str Str → Dict Str Value → Result (Dict Str Str)
stringify_params done [] = ok done
stringify_params done ((key, v) ∷ params) =
    stringify_param v >>= λ s. stringify_params (put done key s) params

unfoldable pub stringify_search_params : Dict Str Value → Result (Dict Str Str)
stringify_search_params params = stringify_params [] params
