-- ===== src/StringPiece/Samples.antt =====
-- Concrete pieces for the theorem about networker/base/StringPiece.h.
use network_program_base_fra.Prelude.{[], ◌∷◌, arith}
use network_program_base_fra.StringPiece.{StringPiece, as_string}
use network_program_base_fra.StringPiece.Order.{order, Compares, compare_lem}

abbrev ab : StringPiece
ab = record { memory = 97 ∷ 98 ∷ 99 ∷ []; size = 2 }

abbrev abd : StringPiece
abd = record { memory = 97 ∷ 98 ∷ 100 ∷ 0 ∷ []; size = 3 }

compare_lem_example : Compares ab abd (order (97 ∷ 98 ∷ []) (97 ∷ 98 ∷ 100 ∷ []))
unfolding as_string
compare_lem_example = compare_lem ab abd (omega arith) (omega arith)
