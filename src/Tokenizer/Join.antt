-- ===== src/Tokenizer/Join.antt =====
-- src/typesense_lite/tokenizer.py: a blank between two texts keeps their tokens apart.
use typesense_python.Base.{
  nat_eq, Str, text_eq, ◌≡◌, refl, sym, ap, true, false, List, [], ◌∷◌, ◌++◌, append_assoc,
}
use typesense_python.Tokenizer.{
  CharClass, class_of, same_class, finditer, matched, tokens_of, tokenize, run_tokens,
}
use typesense_python.Tokenizer.CharClass.{word, chinese, separator}

tokens_of-append : (xs ys : List Str) → tokens_of (xs ++ ys) ≡ tokens_of xs ++ tokens_of ys
unfolding tokens_of
tokens_of-append [] ys = refl
tokens_of-append (x ∷ xs) ys =
    rw (tokens_of-append xs ys) (sym (append_assoc (run_tokens x) (tokens_of xs) (tokens_of ys)))

-- What has been skipped does not matter.
finditer_skipped : (run run' t : Str) → finditer separator run t ≡ finditer separator run' t
unfolding finditer
finditer_skipped run run' [] = refl
finditer_skipped run run' (c ∷ t) =
    elim (same_class separator (class_of c))
      as (λ b.
        elim b [
          | true ↦ finditer separator (run ++ (c ∷ [])) t
          | false ↦ finditer (class_of c) (c ∷ []) t
        ]
        ≡ elim b [
          | true ↦ finditer separator (run' ++ (c ∷ [])) t
          | false ↦ finditer (class_of c) (c ∷ []) t
        ]) [ true ↦ finditer_skipped (run ++ (c ∷ [])) (run' ++ (c ∷ [])) t | false ↦ refl ]

finditer_blank :
    (k : CharClass) (run t : Str)
    → finditer k run (32 ∷ t) ≡ matched k run ++ finditer separator [] t
unfolding finditer
finditer_blank separator run t = finditer_skipped (run ++ (32 ∷ [])) [] t
finditer_blank word run t = ap (λ ms. run ∷ ms) (finditer_skipped (32 ∷ []) [] t)
finditer_blank chinese run t = ap (λ ms. run ∷ ms) (finditer_skipped (32 ∷ []) [] t)

finditer-append :
    (k : CharClass) (run s t : Str)
    → finditer k run (s ++ 32 ∷ t) ≡ finditer k run s ++ finditer separator [] t
unfolding finditer
finditer-append k run [] t = finditer_blank k run t
finditer-append k run (c ∷ s) t =
    elim (same_class k (class_of c))
      as (λ b.
        elim b [
          | true ↦ finditer k (run ++ (c ∷ [])) (s ++ 32 ∷ t)
          | false ↦ matched k run ++ finditer (class_of c) (c ∷ []) (s ++ 32 ∷ t)
        ]
        ≡ elim b [
          | true ↦ finditer k (run ++ (c ∷ [])) s
          | false ↦ matched k run ++ finditer (class_of c) (c ∷ []) s
        ]
          ++ finditer separator [] t) [
            | true ↦ finditer-append k (run ++ (c ∷ [])) s t
            | false ↦ rw (finditer-append (class_of c) (c ∷ []) s t) (
                sym (
                  append_assoc (matched k run) (finditer (class_of c) (c ∷ []) s)
                    (finditer separator [] t)))
          ]

-- The tokens of two texts with a blank between them are the tokens of the one and then those of
-- the other.
pub tokenize-join : (s t : Str) → tokenize (s ++ 32 ∷ t) ≡ tokenize s ++ tokenize t
unfolding tokenize
tokenize-join s t =
    rw (finditer-append separator [] s t)
      (tokens_of-append (finditer separator [] s) (finditer separator [] t))
