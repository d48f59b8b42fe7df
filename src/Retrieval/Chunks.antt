-- ===== src/Retrieval/Chunks.antt =====
-- `chunk_sections` of agent-service/app/retrieval/parsing.py; a bound is a number that is not negative.
use enterprise_data_copilot.Prelude.{
  ℕ, zero, suc, ◌+◌, ◌-◌, ◌/◌, min, max, Text, not, ◌||◌, List, [], ◌∷◌, ◌++◌, map, codes, length,
  take, drop, keep, ltb, leb, if◌then◌else◌,
}
use enterprise_data_copilot.Prelude.Strings.{is_empty, strip, starts_with}
use enterprise_data_copilot.Prelude.Result.{Result, ok, err, ◌>>=◌, ◌>>◌, raise_if}

pub record DocumentSection : Type 0 where
  pub section_key : Text
  pub title : Text
  pub source_locator : Text
  pub content : Text

-- The `ValueError` of the bounds. The program never runs out of rounds.
pub data ChunkError : Type 0 where
  invalid_bounds out_of_rounds : ChunkError

-- `s.rfind(needle) + 1`, and 0 where the needle does not occur.
unfoldable pub after_last : Text → Text → ℕ
after_last needle [] = 0
after_last needle (c ∷ s) =
    let rest = after_last needle s in
    if ltb 0 rest then suc rest else if starts_with needle (c ∷ s) then 1 else 0

-- `content[start:end]`
abbrev pub slice : Text → ℕ → ℕ → Text
slice content start end = take (end - start) (drop start content)

module _ (max_characters overlap_characters : ℕ) (content : Text) where
  -- One more than `content.rfind(needle, start, end)`, which is -1 or at least `start`.
  abbrev pub boundary_of : Text → ℕ → ℕ → ℕ
  boundary_of needle start end =
      let found = after_last needle (slice content start end) in
      if ltb 0 found then start + found else 0

  -- One more than `boundary`.
  abbrev pub boundary : ℕ → ℕ → ℕ
  boundary start end =
      max (max (boundary_of (10 ∷ []) start end) (boundary_of (codes "。") start end))
        (boundary_of (codes ". ") start end)

  -- `end`, from the value that it has first.
  abbrev pub cut : ℕ → ℕ → ℕ
  cut start end =
      if ltb end (length content)
      then if ltb (start + max_characters / 2 + 1) (boundary start end)
        then boundary start end
        else end
      else end

  unfoldable pub end_of : ℕ → ℕ
  unfolding after_last
  end_of start = cut start (min (length content) (start + max_characters))

  -- The `while` loop: the values of `start` and `end` in its rounds.
  unfoldable pub windows : ℕ → ℕ → Result ChunkError (List (ℕ × ℕ))
  unfolding end_of
  windows zero start = err out_of_rounds
  windows (suc rounds) start =
      let end = end_of start in
      let rest = windows rounds (max (start + 1) (end - overlap_characters)) in
      if leb (length content) start
      then ok []
      else if leb (length content) end
      then ok ((start, end) ∷ [])
      else do ws ← rest; ok ((start, end) ∷ ws)

-- The texts that a section appends: the windows that are not blank.
abbrev pub texts_of : Text → List (ℕ × ℕ) → List Text
texts_of content ws =
    keep (λ text. not (is_empty text)) (map (λ w. strip (slice content w.0 w.1)) ws)

-- `ordinal` is the number of chunks appended so far.
abbrev pub numbered : ℕ → List DocumentSection → List (DocumentSection × ℕ)
numbered ordinal [] = []
numbered ordinal (section ∷ sections) = (section, ordinal) ∷ numbered (ordinal + 1) sections

module _ (max_characters overlap_characters : ℕ) where
  abbrev pub section_chunks : DocumentSection → Result ChunkError (List DocumentSection)
  section_chunks section = do
    ws ← windows max_characters overlap_characters section.content (length section.content + 1) 0
    ok (map (λ text. record section { content = text }) (texts_of section.content ws))

  unfoldable pub all_chunks : List DocumentSection → Result ChunkError (List DocumentSection)
  unfolding windows
  all_chunks [] = ok []
  all_chunks (section ∷ sections) = do
    chunks ← section_chunks section
    others ← all_chunks sections
    ok (chunks ++ others)

  unfoldable pub chunk_sections :
      List DocumentSection → Result ChunkError (List (DocumentSection × ℕ))
  unfolding all_chunks
  chunk_sections sections = do
    raise_if (ltb max_characters 1 || leb max_characters overlap_characters) invalid_bounds
    chunks ← all_chunks sections
    ok (numbered 0 chunks)
