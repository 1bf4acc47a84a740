-- ===== src/Examples/Chunks.antt =====
-- Chunks of a short text, and the chain for a stretch of nine halves.
use ziguijia_translate_ml.Common.{◌≡◌, refl, some, [], ◌∷◌, arith}
use ziguijia_translate_ml.Split.{Text, is_space, split_text}
use ziguijia_translate_ml.Split.Laws.{Chunks, split_text-Chunks}
use ziguijia_translate_ml.Pipeline.Tempo.{
  Ratio, build_atempo_filter, Chain, build_atempo_filter-Chain,
}

-- "ab. cd ef"
abbrev two_sentences : Text
two_sentences = 97 ∷ 98 ∷ 46 ∷ 32 ∷ 99 ∷ 100 ∷ 32 ∷ 101 ∷ 102 ∷ []

two_sentences_cut :
    split_text 4 two_sentences
    ≡ some ((97 ∷ 98 ∷ 46 ∷ []) ∷ (99 ∷ 100 ∷ []) ∷ (101 ∷ 102 ∷ []) ∷ [])
unfolding split_text is_space
two_sentences_cut = refl

split_text-Chunks_example : Chunks 4 two_sentences (split_text 4 two_sentences)
split_text-Chunks_example = split_text-Chunks 4 two_sentences (omega arith)

abbrev nine_halves : Ratio
nine_halves = record { num = 9; den = 2 }

nine_halves_chain :
    build_atempo_filter nine_halves
    ≡ some (
        record { num = 2; den = 1 }
        ∷ record { num = 2; den = 1 }
        ∷ record { num = 9; den = 8 }
        ∷ [])
unfolding build_atempo_filter
nine_halves_chain = refl

build_atempo_filter-Chain_example : Chain nine_halves (build_atempo_filter nine_halves)
build_atempo_filter-Chain_example =
    build_atempo_filter-Chain nine_halves (omega arith) (omega arith)
