-- ===== src/Examples/Chunks.antt =====
-- One document in chunks.
use enterprise_data_copilot.Prelude.{◌≡◌, refl, List, [], ◌∷◌, codes, arith}
use enterprise_data_copilot.Prelude.Result.{ok}
use enterprise_data_copilot.Retrieval.Chunks.{DocumentSection, chunk_sections, numbered, windows}
use enterprise_data_copilot.Retrieval.Tiling.{IsChunked, chunk_sections-IsCut}

abbrev revenue : DocumentSection
revenue = record {
  section_key = codes "metrics#revenue";
  title = codes "Revenue";
  source_locator = codes "lines=1-3";
  content = codes "Once. Two three";
}

revenue_windows : windows 6 2 revenue.content 16 0 ≡ ok ((0, 5) ∷ (3, 9) ∷ (7, 13) ∷ (11, 15) ∷ [])
unfolding windows
revenue_windows = refl

chunk_sections-IsCut_example :
    (cs : List DocumentSection) × (chunk_sections 6 2 (revenue ∷ []) ≡ ok (numbered 0 cs))
    × IsChunked 6 2 (revenue ∷ []) cs
chunk_sections-IsCut_example = chunk_sections-IsCut 6 2 (revenue ∷ []) (omega arith) (omega arith)
