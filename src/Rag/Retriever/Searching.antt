-- ===== src/Rag/Retriever/Searching.antt =====
-- What src/athenai/rag/retriever.py's `search` returns.
use mathlib.Core.Bool.{false≢true}
use athena_ai.Prelude.{
  ℕ, ◌≡◌, refl, sym, ◌∙◌, Bool, true, false, Option, none, some, List, [], ◌∷◌, ◌⊎◌, inl, inr, map,
  select, Bool-cases,
}
use athena_ai.Prelude.Dict.{Dict, get_or}
use athena_ai.Prelude.Floats.{Floats, FloatLaws}
use athena_ai.Prelude.Sorting.{IsBestOf, take-IsBestOf}
use athena_ai.Core.Json.{Json, null}
use athena_ai.Rag.Reranker.{RetrievedChunk}
use athena_ai.Rag.Retriever.{Row, all_match, is_wanted, retrieved, nearest, search}

-- the entries of the filter are those of the metadata
abbrev pub HasEntries : (Json → Json → Bool) → Dict Json → Dict Json → Type 0
HasEntries same meta [] = Unit
HasEntries same meta ((k, v) ∷ rest) =
    (same (get_or k null meta) v ≡ true) × HasEntries same meta rest

abbrev pub Matches : (Json → Json → Bool) → Option (Dict Json) → Dict Json → Type 0
Matches same none meta = Unit
Matches same (some entries) meta = HasEntries same meta entries

all_match-HasEntries :
    (same : Json → Json → Bool) (meta entries : Dict Json)
    → (all_match same meta entries ≡ true → HasEntries same meta entries)
      × (HasEntries same meta entries → all_match same meta entries ≡ true)
all_match-HasEntries same meta [] = (λ _. tt, λ _. refl)
all_match-HasEntries same meta ((k, v) ∷ rest) =
    let ih = all_match-HasEntries same meta rest in
    elim (Bool-cases (same (get_or k null meta) v)) [
      | inl e ↦ (λ h. (e, ih.0 (rw e at h)), λ h. rw e (ih.1 h.1))
      | inr e ↦ (
        λ h. let h' : false ≡ true = (rw e at h) in absurd (false≢true h'),
        λ h. absurd (false≢true (sym e ∙ h.0)),
      )
    ]

is_wanted-Matches :
    (same : Json → Json → Bool) (o : Option (Dict Json)) (meta : Dict Json)
    → (is_wanted same o meta ≡ true → Matches same o meta)
      × (Matches same o meta → is_wanted same o meta ≡ true)
is_wanted-Matches same none meta = (λ _. tt, λ _. refl)
is_wanted-Matches same (some entries) meta = all_match-HasEntries same meta entries

module _ (R : Floats) (laws : FloatLaws R) (distance : List R.Float → List R.Float → R.Float)
    (visited : List R.Float → List (Row R.Float) → List (Row R.Float)) where
  abbrev nearer : R.Float → R.Float → Bool
  nearer a b = R.le b a

  abbrev pub nearer-total : (a b : R.Float) → (nearer a b ≡ true) ⊎ (nearer b a ≡ true)
  nearer-total a b = laws.le_total b a

  abbrev pub nearer-trans :
      (a b c : R.Float) → nearer a b ≡ true → nearer b c ≡ true → nearer a c ≡ true
  nearer-trans a b c p q = laws.le_trans c b a q p

  -- the fields of a row, with the cosine similarity
  pub record IsResult (query : List R.Float) (row : Row R.Float) (r : RetrievedChunk R.Float)
      : Type 0 where
    pub same_id : r.chunk_id ≡ row.id
    pub same_document : r.document_id ≡ row.document_id
    pub same_content : r.content ≡ row.content
    pub same_index : r.chunk_index ≡ row.chunk_index
    pub similar : r.score ≡ R.sub (R.of_ℕ 1) (distance row.embedding query)
    pub same_metadata : r.metadata ≡ row.metadata

  -- the results are the rows that match, in their order
  pub data AreFound (same : Json → Json → Bool) (metadata_filter : Option (Dict Json))
      (query : List R.Float) : List (Row R.Float) → List (RetrievedChunk R.Float) → Type 0 where
    nothing : AreFound same metadata_filter query [] []
    found :
        (row : Row R.Float) (rows : List (Row R.Float)) (r : RetrievedChunk R.Float)
        (rs : List (RetrievedChunk R.Float))
        → Matches same metadata_filter row.metadata
        → IsResult query row r
        → AreFound same metadata_filter query rows rs
        → AreFound same metadata_filter query (row ∷ rows) (r ∷ rs)
    passed :
        (row : Row R.Float) (rows : List (Row R.Float)) (rs : List (RetrievedChunk R.Float))
        → ¬ Matches same metadata_filter row.metadata
        → AreFound same metadata_filter query rows rs
        → AreFound same metadata_filter query (row ∷ rows) rs

  retrieved-AreFound :
      (same : Json → Json → Bool) (metadata_filter : Option (Dict Json)) (query : List R.Float)
      (rows : List (Row R.Float))
      → AreFound same metadata_filter query rows (
          map
            (retrieved R distance visited query)
            (select (λ row. is_wanted same metadata_filter row.metadata) rows))
  retrieved-AreFound same metadata_filter query [] = nothing
  retrieved-AreFound same metadata_filter query (row ∷ rows) =
      let rest = retrieved-AreFound same metadata_filter query rows in
      let decided = is_wanted-Matches same metadata_filter row.metadata in
      elim (Bool-cases (is_wanted same metadata_filter row.metadata)) [
        | inl e ↦ rw e (
            found row rows (retrieved R distance visited query row) _ (decided.0 e)
              (record {
                same_id = refl;
                same_document = refl;
                same_content = refl;
                same_index = refl;
                similar = refl;
                same_metadata = refl;
              })
              rest)
        | inr e ↦ rw e (passed row rows _ (λ m. absurd (false≢true (sym e ∙ decided.1 m))) rest)
      ]

  -- On floats with the laws of finite doubles: with the k rows of smallest distance among those
  -- that the scan of the database comes to, in ascending order, the results are one for each of
  -- these rows whose metadata have every entry of the filter, if there is one, and none for the
  -- others, in their order, each with the fields of its row and with 1 less the distance for its
  -- score. So the filter is applied after the limit.
  pub search-nearest :
      (same : Json → Json → Bool) (query : List R.Float) (k : ℕ)
      (metadata_filter : Option (Dict Json)) (rows : List (Row R.Float))
      → (best : List (Row R.Float)) × IsBestOf nearer
          (λ (row : Row R.Float). distance row.embedding query)
          nearer-total
          nearer-trans
          k
          (visited query rows)
          best
        × AreFound same metadata_filter query best
            (search R distance visited same query k metadata_filter rows)
  unfolding search nearest
  search-nearest same query k metadata_filter rows =
      let best = nearest R distance visited query k rows in
      (
        best,
        take-IsBestOf nearer (λ (row : Row R.Float). distance row.embedding query) nearer-total
            nearer-trans k (visited query rows),
        retrieved-AreFound same metadata_filter query best,
      )
