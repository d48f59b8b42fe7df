-- ===== src/Retrieval/Tiling.antt =====
-- The windows that `chunk_sections` cuts a section into.
use enterprise_data_copilot.Prelude.{
  ◌++◌, map, ltb, ◌||◌, ℕ, zero, suc, min, max, ◌+◌, ◌-◌, ◌≤◌, ◌<◌, ◌≡◌, refl, sym, subst, Text,
  Bool, true, false, List, [], ◌∷◌, codes, length, drop, length-take-le, leb, leb→le, leb-eq-false,
  if◌then◌else◌, arith,
}
use enterprise_data_copilot.Prelude.Result.{Result, ok, err, ◌>>=◌, ◌>>◌, raise_if, ok-injective}
use enterprise_data_copilot.Retrieval.Chunks.{
  DocumentSection, texts_of, all_chunks, chunk_sections, numbered, ChunkError, invalid_bounds,
  after_last, slice, boundary_of, boundary, cut, end_of, windows,
}

after_last-le : (needle s : Text) → after_last needle s ≤ length s
unfolding after_last
after_last-le needle [] = omega arith
after_last-le needle (c ∷ s) = ground (arith, after_last-le needle s)

module _ (m o : ℕ) (content : Text) where
  slice-le : (start end : ℕ) → length (slice content start end) ≤ end - start
  slice-le start end = length-take-le (end - start) (drop start content)

  boundary_of-le :
      (needle : Text) (start end : ℕ) → start ≤ end → boundary_of m o content needle start end ≤ end
  boundary_of-le needle start end h =
      ground (arith, after_last-le needle (slice content start end), slice-le start end)

  boundary-le : (start end : ℕ) → start ≤ end → boundary m o content start end ≤ end
  boundary-le start end h = omega (
    arith,
    boundary_of-le (10 ∷ []) start end h,
    boundary_of-le (codes "。") start end h,
    boundary_of-le (codes ". ") start end h,
  )

  cut-bounds :
      (start end : ℕ)
      → start < end
      → (start < cut m o content start end) × (cut m o content start end ≤ end)
  cut-bounds start end h =
      (ground (arith, boundary-le start end _), ground (arith, boundary-le start end _))

  -- The windows follow one another without a gap to the end of the content: each is not empty, no
  -- longer than `max_characters`, inside the content, and the next starts in it.
  abbrev pub IsTiling : ℕ → List (ℕ × ℕ) → Type 0
  IsTiling start [] = length content ≤ start
  IsTiling start ((a, b) ∷ ws) =
      (a ≡ start)
      × (a < b)
      × (b ≤ a + m)
      × (b ≤ length content)
      × (next : ℕ) × (a < next)
      × (next ≤ b)
      × IsTiling next ws

  abbrev pub IsInside : ℕ → ℕ → Type 0
  IsInside start end = (start < end) × (end ≤ start + m) × (end ≤ length content)

  end_of-bounds :
      (start : ℕ) → 0 < m → start < length content → IsInside start (end_of m o content start)
  unfolding end_of
  end_of-bounds start h l =
      let bounds = cut-bounds start (min (length content) (start + m)) (omega arith) in
      (bounds.0, omega (arith, bounds.1), omega (arith, bounds.1))

  abbrev pub IsCut : ℕ → Result ChunkError (List (ℕ × ℕ)) → Type 0
  IsCut start r = (ws : List (ℕ × ℕ)) × (r ≡ ok ws) × IsTiling start ws

  before-IsTiling :
      (start end next : ℕ) (ws : List (ℕ × ℕ))
      → IsInside start end
      → start < next
      → next ≤ end
      → IsTiling next ws
      → IsTiling start ((start, end) ∷ ws)
  before-IsTiling start end next ws (l, k, n) p q t = (refl, l, k, n, next, p, q, t)

  more-IsCut :
      (start end : ℕ) (rest : Result ChunkError (List (ℕ × ℕ)))
      → IsInside start end
      → IsCut (max (start + 1) (end - o)) rest
      → IsCut start (rest >>= λ ws. ok ((start, end) ∷ ws))
  more-IsCut start end (ok ws) i (vs, e, t) =
      let known = subst (IsTiling (max (start + 1) (end - o))) (sym (ok-injective e)) t in
      let tiling =
        before-IsTiling start end (max (start + 1) (end - o)) ws i (omega arith)
          (omega (arith, i.0)) known in
      ((start, end) ∷ ws, refl, tiling)
  more-IsCut start end (err x) i (vs, e, t) = cc

  round-IsCut :
      (start end : ℕ) (late last : Bool) (rest : Result ChunkError (List (ℕ × ℕ)))
      → leb (length content) start ≡ late
      → leb (length content) end ≡ last
      → (start < length content → IsInside start end)
      → (start < length content → IsCut (max (start + 1) (end - o)) rest)
      → IsCut start (
          if late
          then ok []
          else if last
          then ok ((start, end) ∷ [])
          else rest >>= λ ws. ok ((start, end) ∷ ws))
  round-IsCut start end true last rest h k i r = ([], refl, leb→le _ _ h)
  round-IsCut start end false true rest h k i r =
      let (l, b, n) = i (leb-eq-false _ _ h) in
      ((start, end) ∷ [], refl, (refl, l, b, n, end, l, omega arith, leb→le _ _ k))
  round-IsCut start end false false rest h k i r =
      more-IsCut start end rest (i (leb-eq-false _ _ h)) (r (leb-eq-false _ _ h))

  windows-IsCut :
      (rounds start : ℕ)
      → 0 < m
      → length content - start < rounds
      → IsCut start (windows m o content rounds start)
  unfolding windows
  windows-IsCut zero start h l = absurd (omega arith)
  windows-IsCut (suc rounds) start h l =
      round-IsCut start (end_of m o content start) _ _ _ refl refl (end_of-bounds start h)
        (λ k. windows-IsCut rounds _ h (omega arith))

module _ (m o : ℕ) where
  -- Each section is cut into windows, whose texts follow those of the sections before it.
  abbrev pub IsChunked : List DocumentSection → List DocumentSection → Type 0
  IsChunked [] cs = cs ≡ []
  IsChunked (s ∷ sections) cs =
      (ws : List (ℕ × ℕ)) × IsTiling m o s.content 0 ws
      × (others : List DocumentSection) × (cs
          ≡ map (λ text. record s { content = text }) (texts_of s.content ws) ++ others)
      × IsChunked sections others

  AreChunks : List DocumentSection → Result ChunkError (List DocumentSection) → Type 0
  AreChunks sections r = (cs : List DocumentSection) × (r ≡ ok cs) × IsChunked sections cs

  both-AreChunks :
      (s : DocumentSection) (sections : List DocumentSection) (r : Result ChunkError (List (ℕ × ℕ)))
      (others : Result ChunkError (List DocumentSection))
      → IsCut m o s.content 0 r
      → AreChunks sections others
      → AreChunks (s ∷ sections) (
          (r >>= λ ws. ok (map (λ text. record s { content = text }) (texts_of s.content ws)))
          >>= λ chunks. others >>= λ rest. ok (chunks ++ rest))
  unfolding AreChunks
  both-AreChunks s sections r others (ws, e, t) (cs, k, c) = (
    map (λ text. record s { content = text }) (texts_of s.content ws) ++ cs,
    cc,
    (ws, t, cs, refl, c),
  )

  all_chunks-AreChunks :
      0 < m → (sections : List DocumentSection) → AreChunks sections (all_chunks m o sections)
  unfolding all_chunks AreChunks
  all_chunks-AreChunks h [] = ([], refl, refl)
  all_chunks-AreChunks h (s ∷ sections) =
      both-AreChunks s sections _ _
        (windows-IsCut m o s.content (length s.content + 1) 0 h (omega arith))
        (all_chunks-AreChunks h sections)

  valid-eq :
      {A B E : Type 0} (e : E) (p q : Bool) (r : Result E A) (f : A → B) (a : A)
      → p ≡ false
      → q ≡ false
      → r ≡ ok a
      → (raise_if (p || q) e >> (r >>= λ x. ok (f x))) ≡ ok (f a)
  valid-eq e true q r f a h k l = cc
  valid-eq e false true r f a h k l = cc
  valid-eq e false false r f a h k l = cc

  lt-eq-ltb-false : (a : ℕ) → 0 < a → ltb a 1 ≡ false
  lt-eq-ltb-false a h = ground arith

  lt-eq-leb-false : (a b : ℕ) → a < b → leb b a ≡ false
  lt-eq-leb-false a b h = ground arith

  -- Where the bounds are valid, the loops end with the chunks of the sections in their order, numbered
  -- from 0: the windows of each section follow one another without a gap from its start to its end,
  -- none empty or longer than max_characters, and the chunks are the stripped texts of the windows that
  -- are not blank.
  pub chunk_sections-IsCut :
      (sections : List DocumentSection)
      → 0 < m
      → o < m
      → (cs : List DocumentSection) × (chunk_sections m o sections ≡ ok (numbered 0 cs))
        × IsChunked sections cs
  unfolding chunk_sections AreChunks
  chunk_sections-IsCut sections h k =
      let (cs, e, c) = all_chunks-AreChunks h sections in
      (
        cs,
        valid-eq invalid_bounds (ltb m 1) (leb m o) (all_chunks m o sections) (numbered 0) cs
            (lt-eq-ltb-false m h) (lt-eq-leb-false o m k) e,
        c,
      )
