-- ===== src/Tokenizer.antt =====
-- src/typesense_lite/tokenizer.py. `finditer` reads TOKEN_PATTERN: a match is a maximal run of ASCII
-- letters and digits, or one of Chinese characters.
pub mod Join
use typesense_python.Base.{
  leb, if◌then◌else◌, all, Str, ℕ, ◌+◌, Bool, true, false, ◌&&◌, ◌||◌, List, [], ◌∷◌, ◌++◌, map,
}

abbrev in_range : ℕ → ℕ → ℕ → Bool
in_range a b c = leb a c && leb c b

pub data CharClass : Type 0 where
  word chinese separator : CharClass

abbrev pub is_chinese_char : ℕ → Bool
is_chinese_char c = in_range 19968 40959 c

abbrev is_word_char : ℕ → Bool
is_word_char c = in_range 65 90 c || (in_range 97 122 c || in_range 48 57 c)

abbrev pub class_of : ℕ → CharClass
class_of c = if is_word_char c then word else (if is_chinese_char c then chinese else separator)

abbrev pub same_class : CharClass → CharClass → Bool
same_class word word = true
same_class chinese chinese = true
same_class separator separator = true
same_class _ _ = false

-- The match that ends here.
abbrev pub matched : CharClass → Str → List Str
matched separator run = []
matched word run = run ∷ []
matched chinese run = run ∷ []

-- TOKEN_PATTERN.finditer(text), with the run that is being read and its class.
unfoldable pub finditer : CharClass → Str → Str → List Str
finditer k run [] = matched k run
finditer k run (c ∷ s) = elim (same_class k (class_of c)) [
  | true ↦ finditer k (run ++ (c ∷ [])) s
  | false ↦ matched k run ++ finditer (class_of c) (c ∷ []) s
]

abbrev pub lower : Str → Str
lower s = map (λ c. if in_range 65 90 c then c + 32 else c) s

abbrev pub is_chinese : Str → Bool
is_chinese value = all is_chinese_char value

unfoldable pub bigrams : Str → List Str
bigrams (a ∷ b ∷ s) = (a ∷ b ∷ []) ∷ bigrams (b ∷ s)
bigrams _ = []

unfoldable pub chinese_tokens : Str → List Str
chinese_tokens (a ∷ []) = (a ∷ []) ∷ []
chinese_tokens value = bigrams value

unfoldable pub run_tokens : Str → List Str
run_tokens value = if is_chinese value then chinese_tokens value else lower value ∷ []

unfoldable pub tokens_of : List Str → List Str
tokens_of [] = []
tokens_of (m ∷ ms) = run_tokens m ++ tokens_of ms

unfoldable pub tokenize : Str → List Str
tokenize text = tokens_of (finditer separator [] text)
