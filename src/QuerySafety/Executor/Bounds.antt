-- ===== src/QuerySafety/Executor/Bounds.antt =====
-- The bounds of a result: its bytes, its rows, and that nothing is left out silently.
use enterprise_data_copilot.Prelude.{
  ℕ, ◌+◌, ◌≤◌, ◌≡◌, refl, ap, subst, ◌∙◌, Text, true, false, List, [], ◌∷◌, ◌++◌, map, Option, none,
  some, codes, length, take, length-take-le, length-take-le_length, take-take, take-all,
  is_none_left, ltb, arith, inl, inr, if◌then◌else◌, Bool-cases, Option-cases, length-append,
}
use enterprise_data_copilot.Prelude.Strings.{join, text_eq}
use enterprise_data_copilot.Prelude.Dict.{Dict}
use enterprise_data_copilot.Prelude.Result.{raise_if, ok, >>=-eq-ok, ok-injective, raise_if-eq-ok}
use mathlib.Core.List.{append_assoc, append-nil, map-append}
use enterprise_data_copilot.QuerySafety.Errors.{safety, result_limit}
use enterprise_data_copilot.QuerySafety.Policy.Model.{QueryPolicy}
use enterprise_data_copilot.QuerySafety.Result.{QueryExecutionResult}
use enterprise_data_copilot.QuerySafety.Executor.Codec.{Codec}
use enterprise_data_copilot.QuerySafety.Executor.Run.{
  start, result_of, Taken, zip_strict, added_size, take_row, take_rows, bounded_result,
}

length-join-snoc :
    (sep e : Text) (es : List Text)
    → length (join sep (es ++ e ∷ []))
      ≡ length (join sep es) + (length e + (if is_none_left es then 0 else length sep))
length-join-snoc sep e [] = omega arith
length-join-snoc sep e (d ∷ []) = ground (arith, length-append d (sep ++ e), length-append sep e)
length-join-snoc sep e (d ∷ f ∷ es) = omega (
  arith,
  length-append {0} d (sep ++ join sep (f ∷ (es ++ e ∷ []))),
  length-append {0} sep (join sep (f ∷ (es ++ e ∷ []))),
  length-append {0} d (sep ++ join sep (f ∷ es)),
  length-append {0} sep (join sep (f ∷ es)),
  length-join-snoc sep e (f ∷ es),
)

module _ {Raw V : Type 0} (codec : Codec Raw V) (columns : List Text) (p : QueryPolicy) where
  -- The encoded rows, each a dict from the columns to the values of the row.
  pub encodings : List (List Raw) → Option (List (List ℕ))
  encodings [] = some []
  encodings (raw ∷ raws) =
      let rest = encodings raws in
      elim (zip_strict columns raw) [
        | none ↦ none
        | some row ↦ elim rest [ none ↦ none | some es ↦ some (codec.encode_row row ∷ es) ]
      ]

  encodings-cons :
      (raw : List Raw) (raws : List (List Raw)) (row : Dict Text Raw) (es : List (List ℕ))
      → zip_strict columns raw ≡ some row
      → encodings raws ≡ some es
      → encodings (raw ∷ raws) ≡ some (codec.encode_row row ∷ es)
  unfolding encodings
  encodings-cons raw raws row es z h = ground arith

  length-encodings :
      (raws : List (List Raw)) (es : List (List ℕ))
      → encodings raws ≡ some es
      → length es ≡ length raws
  unfolding encodings
  length-encodings [] es h = ground arith
  length-encodings (raw ∷ raws) es h = elim (Option-cases (encodings raws)) [
    | inl missing ↦ ground arith
    | inr (rest, found) ↦ ground (arith, length-encodings raws rest found)
  ]

  abbrev pub decoded : List (List ℕ) → List (Dict Text V)
  decoded = map codec.decode_row

  -- The bytes of the JSON array's content: the encoded rows with a comma between two.
  abbrev pub rows_size : List (List ℕ) → ℕ
  rows_size es = length (join (codes ",") es)

  module _ (base : ℕ) where
    -- The loop's variables after the encoded rows `es`.
    record Holds (es : List (List ℕ)) (t : Taken V) : Type 0 where
      rows : t.rows ≡ decoded es
      bytes : t.serialized_bytes ≡ base + rows_size es
      bounded : t.serialized_bytes ≤ p.max_result_bytes

    -- The loop ended having added the encoded rows `more`, the first of `raws`.
    record Ends (es more : List (List ℕ)) (raws : List (List Raw)) (s t : Taken V) : Type 0 where
      holds : Holds (es ++ more) t
      prefix : encodings (take (length more) raws) ≡ some more
      complete : t.truncated ≡ false → (length more ≡ length raws) × (s.truncated ≡ false)

    is_none_left-decoded : (es : List (List ℕ)) → is_none_left (decoded es) ≡ is_none_left es
    is_none_left-decoded [] = refl
    is_none_left-decoded (e ∷ es) = refl

    take_row-Holds :
        (e : List ℕ) (es : List (List ℕ)) (t : Taken V)
        → Holds es t
        → ltb p.max_result_bytes (t.serialized_bytes + added_size codec columns p e t) ≡ false
        → Holds (es ++ e ∷ []) (take_row codec columns p e t)
    take_row-Holds e es t h fits = record {
      rows = rw (h.rows, map-append) refl;
      bytes = ground (
        arith,
        length-join-snoc (codes ",") e es,
        is_none_left-decoded es,
        ap is_none_left h.rows,
      );
      bounded = ground arith;
    }

    -- One round, from what the rest of the loop does.
    take_row-Ends :
        (raw : List Raw) (raws : List (List Raw)) (es : List (List ℕ)) (s t : Taken V)
        → Holds es s
        → (row : Dict Text Raw) → zip_strict columns raw ≡ some row
        → (if ltb p.max_result_bytes
              (s.serialized_bytes + added_size codec columns p (codec.encode_row row) s)
            then ok (record s { truncated = true })
            else take_rows codec columns p raws (take_row codec columns p (codec.encode_row row) s))
          ≡ ok t
        → ((es' : List (List ℕ)) (s' t' : Taken V)
            → Holds es' s'
            → take_rows codec columns p raws s' ≡ ok t'
            → (more : List (List ℕ)) × Ends es' more raws s' t')
        → (more : List (List ℕ)) × Ends es more (raw ∷ raws) s t
    unfolding encodings
    take_row-Ends raw raws es s t h row zipped e ih =
        let enc = codec.encode_row row in
        elim (Bool-cases
          (ltb p.max_result_bytes (s.serialized_bytes + added_size codec columns p enc s))) [
            | inl over ↦
                let same = ok-injective (rw over at e) in
                (
                  [],
                  record {
                    holds = subst (Holds (es ++ [])) same (
                        rw append-nil
                          (record { rows = h.rows; bytes = h.bytes; bounded = h.bounded }));
                    prefix = refl;
                    complete = λ whole. ground (arith, same);
                  },
                )
            | inr fits ↦
                let (more, ends) =
                  ih (es ++ enc ∷ []) (take_row codec columns p enc s) t
                    (take_row-Holds enc es s h fits) (rw fits at e) in
                (
                  enc ∷ more,
                  record {
                    holds = rw append_assoc at ends.holds;
                    prefix =
                        encodings-cons raw (take (length more) raws) row more zipped ends.prefix;
                    complete = λ whole. ground (arith, ends.complete whole);
                  },
                )
          ]

    take_rows-Ends :
        (raws : List (List Raw)) (es : List (List ℕ)) (s t : Taken V)
        → Holds es s
        → take_rows codec columns p raws s ≡ ok t
        → (more : List (List ℕ)) × Ends es more raws s t
    unfolding take_rows encodings
    take_rows-Ends [] es s t h e = (
      [],
      record {
        holds = subst (Holds (es ++ [])) (ok-injective e) (rw append-nil h);
        prefix = refl;
        complete = λ whole. (refl, ground (arith, ok-injective e));
      },
    )
    take_rows-Ends (raw ∷ raws) es s t h e = elim (Option-cases (zip_strict columns raw)) [
      | inl unequal ↦ cc (rw (unequal, take_rows) at e)
      | inr (row, zipped) ↦
          take_row-Ends raw raws es s t h row zipped (rw (zipped, take_rows) at e)
            (take_rows-Ends raws)
    ]

  -- What a result promises: its rows are the first rows of the cursor, decoded; its bytes are those
  -- of the JSON document that holds them, within the policy; there are no more rows than the policy
  -- allows; and a result that is not marked as truncated holds every row.
  pub record IsBounded (raws : List (List Raw)) (r : QueryExecutionResult V) : Type 0 where
    pub encoded : List (List ℕ)
    pub prefix : encodings (take (length encoded) raws) ≡ some encoded
    pub rows : r.rows ≡ decoded encoded
    pub counted : r.returned_row_count ≡ length r.rows
    pub bytes : r.serialized_bytes ≡ length (codec.encode_header columns) + rows_size encoded
    pub within_bytes : r.serialized_bytes ≤ p.max_result_bytes
    pub within_rows : r.returned_row_count ≤ p.max_rows
    pub complete : r.truncated ≡ false → length encoded ≡ length raws

  abbrev base_of : ℕ
  base_of = length (codec.encode_header columns)

  length-decoded : (es : List (List ℕ)) → length (decoded es) ≡ length es
  length-decoded [] = refl
  length-decoded (e ∷ es) = cc (length-decoded es)

  result_of-IsBounded :
      (raws : List (List Raw)) (t : Taken V) (encoded : List (List ℕ))
      → Ends base_of [] encoded (take p.max_rows raws) (start codec columns p raws) t
      → IsBounded raws (result_of codec columns p t)
  result_of-IsBounded raws t encoded ends =
      let few = length-encodings _ encoded ends.prefix in
      let short : length encoded ≤ p.max_rows = omega (
        arith,
        few,
        length-take-le_length (length encoded) (take p.max_rows raws),
        length-take-le p.max_rows raws,
      ) in
      record {
        encoded = encoded;
        prefix = rw (take-take (length encoded) p.max_rows raws short) at ends.prefix;
        rows = ends.holds.rows;
        counted = refl;
        bytes = ends.holds.bytes;
        within_bytes = ends.holds.bounded;
        within_rows = omega (arith, short, ap length ends.holds.rows, length-decoded encoded);
        complete = λ whole.
            let (all_taken, fits) = ends.complete whole in
            all_taken ∙ ap length (take-all p.max_rows raws (ground arith));
      }

  -- Every result that `_bounded_result` returns keeps this promise.
  pub bounded_result-IsBounded :
      (raws : List (List Raw)) (r : QueryExecutionResult V)
      → bounded_result codec columns p raws ≡ ok r
      → IsBounded raws r
  unfolding bounded_result
  bounded_result-IsBounded raws r h =
      let (_, fits, h₁) =
        >>=-eq-ok (raise_if (ltb p.max_result_bytes base_of) (safety result_limit)) _ h in
      let under = raise_if-eq-ok _ (safety result_limit) fits in
      let (t, looped, h₂) =
        >>=-eq-ok (take_rows codec columns p (take p.max_rows raws) (start codec columns p raws)) _
          h₁ in
      let (encoded, ends) =
        take_rows-Ends base_of (take p.max_rows raws) [] (start codec columns p raws) t
          (record { rows = refl; bytes = omega arith; bounded = ground arith }) looped in
      subst (IsBounded raws) (ok-injective h₂) (result_of-IsBounded raws t encoded ends)
