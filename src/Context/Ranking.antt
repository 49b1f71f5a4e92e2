-- ===== src/Context/Ranking.antt =====
-- src/athenai/context/ranking.py. numpy is a parameter; a candidate's dict is read for its content
-- and its embedding, and the other entries are passed on.
use mathlib.Core.List.Perm
use athena_ai.Prelude.{
  ℕ, ◌≡◌, refl, true, length, All, Bool-cases, inl, inr, Text, false, arith, Option, none, some,
  List, [], ◌∷◌, map, take, if◌then◌else◌,
}
use athena_ai.Core.Errors.{Result, ok, err, is_ok, ◌>>=◌}
use athena_ai.Prelude.Dict.{Dict}
use athena_ai.Prelude.Floats.{Floats, FloatLaws, is_zero}
use athena_ai.Prelude.Sorting.{sorted_desc, IsBestOf, take-IsBestOf}

pub record Candidate (Float : Type 0) : Type 0 where
  pub content : Option Text
  pub embedding : Option (List Float)
  pub metadata : Dict Text

pub record RankedChunk (Float : Type 0) : Type 0 where
  pub content : Text
  pub score : Float
  pub metadata : Dict Text

-- `np.linalg.norm`, the division of an array by a number, and `np.dot`, which raises ValueError for
-- arrays of different lengths
pub record Numpy (Float : Type 0) : Type 0 where
  pub norm : List Float → Float
  pub divide : List Float → Float → List Float
  pub dot : List Float → List Float → Result Float

-- `str(c.get("content", ""))`
content_of : Option Text → Text
content_of none = []
content_of (some t) = t

module _ (R : Floats) (np : Numpy R.Float) where
  open R use {Float, le}
  open np use {norm, divide, dot}

  unfoldable pub similarity : List Float → Option (List Float) → Result Float
  similarity q_unit none = ok (R.of_ℕ 0)
  similarity q_unit (some v) =
      let v_norm = norm v in
      if is_zero R v_norm then ok (R.of_ℕ 0) else dot q_unit (divide v v_norm)

  unfoldable pub ranked_at : Float → Candidate Float → RankedChunk Float
  unfolding content_of
  ranked_at s c = record { content = content_of c.content; score = s; metadata = c.metadata }

  -- the loop over the chunks
  unfoldable pub scored : List Float → List (Candidate Float) → Result (List (RankedChunk Float))
  unfolding ranked_at similarity
  scored q_unit [] = ok []
  scored q_unit (c ∷ cs) = do
    score ← similarity q_unit c.embedding
    rest ← scored q_unit cs
    ok (ranked_at score c ∷ rest)

  -- `scored.sort(key=lambda c: c.score, reverse=True)`, and `scored[:top_k]`
  best_of : ℕ → List (RankedChunk Float) → List (RankedChunk Float)
  best_of top_k rs = take top_k (sorted_desc le (λ r. r.score) rs)

  unfoldable pub rank : List Float → List (Candidate Float) → ℕ → Result (List (RankedChunk Float))
  unfolding scored best_of
  rank query [] top_k = ok []
  rank query (c ∷ cs) top_k =
      let q_norm = norm query in
      if is_zero R q_norm
      then ok (map (ranked_at (R.of_ℕ 0)) (take top_k (c ∷ cs)))
      else do rs ← scored (divide query q_norm) (c ∷ cs); ok (best_of top_k rs)

  -- the cosine of the query and an embedding, or 0 where one has no direction
  pub data IsCosine (query : List Float) : Option (List Float) → Float → Type 0 where
    no_embedding : IsCosine query none (R.of_ℕ 0)
    no_direction : (v : List Float) → is_zero R (norm v) ≡ true → IsCosine query (some v) (R.of_ℕ 0)
    cosine :
        (v : List Float) (s : Float)
        → is_zero R (norm v) ≡ false
        → dot (divide query (norm query)) (divide v (norm v)) ≡ ok s
        → IsCosine query (some v) s

  -- the text of a candidate, which is empty where it has none
  abbrev text_of : Candidate Float → Text
  text_of c = elim c.content [ none ↦ [] | some t ↦ t ]

  -- the candidates, each with its cosine
  pub data AreScored (query : List Float)
      : List (Candidate Float) → List (RankedChunk Float) → Type 0 where
    none_left : AreScored query [] []
    one_more :
        (c : Candidate Float) (cs : List (Candidate Float)) (r : RankedChunk Float)
        (rs : List (RankedChunk Float))
        → r.content ≡ text_of c
        → r.metadata ≡ c.metadata
        → IsCosine query c.embedding r.score
        → AreScored query cs rs
        → AreScored query (c ∷ cs) (r ∷ rs)

  -- numpy takes arrays of one length, and a division keeps it
  pub record NumpyLaws : Type 0 where
    pub dot-ok : (u v : List Float) → length u ≡ length v → is_ok (dot u v) ≡ true
    pub length-divide : (v : List Float) (s : Float) → length (divide v s) ≡ length v

  -- an embedding, if there is one, has the length of the query
  abbrev pub Matches : List Float → Candidate Float → Type 0
  Matches query c = (v : List Float) → c.embedding ≡ some v → length v ≡ length query

  is_ok-eq-ok : {A : Type 0} (m : Result A) → is_ok m ≡ true → (a : A) × (m ≡ ok a)
  is_ok-eq-ok (ok a) h = (a, refl)
  is_ok-eq-ok (err e) h = cc

  similarity-IsCosine :
      (np_laws : NumpyLaws) (query : List Float) (o : Option (List Float))
      → ((v : List Float) → o ≡ some v → length v ≡ length query)
      → (s : Float) × (similarity (divide query (norm query)) o ≡ ok s) × IsCosine query o s
  unfolding similarity
  similarity-IsCosine np_laws query none h = (R.of_ℕ 0, refl, no_embedding)
  similarity-IsCosine np_laws query (some v) h = elim (Bool-cases (is_zero R (norm v))) [
    | inl e ↦ rw (e, similarity) (R.of_ℕ 0, refl, no_direction v e)
    | inr e ↦
        let same : length (divide query (norm query)) ≡ length (divide v (norm v)) = omega (
          arith,
          np_laws.length-divide query (norm query),
          np_laws.length-divide v (norm v),
          h v refl,
        ) in
        let (s, d) = is_ok-eq-ok _ (np_laws.dot-ok _ _ same) in
        rw (e, similarity) (s, d, cosine v s e d)
  ]

  scored-AreScored :
      (np_laws : NumpyLaws) (query : List Float) (cs : List (Candidate Float))
      → All (Matches query) cs
      → (rs : List (RankedChunk Float)) × (scored (divide query (norm query)) cs ≡ ok rs)
        × AreScored query cs rs
  unfolding scored ranked_at content_of
  scored-AreScored np_laws query [] h = ([], refl, none_left)
  scored-AreScored np_laws query (c ∷ cs) h =
      let (s, e, is_cosine) = similarity-IsCosine np_laws query c.embedding h.0 in
      let (rs, e', are_scored) = scored-AreScored np_laws query cs h.1 in
      let same_text : (ranked_at s c).content ≡ text_of c =
        elim c.content as (λ o. content_of o ≡ (elim o as (λ _. Text) [ none ↦ [] | some t ↦ t ])) [
          | none ↦ refl
          | some t ↦ refl
        ] in
      (
        ranked_at s c ∷ rs,
        rw (e, e') refl,
        one_more c cs (ranked_at s c) rs same_text refl is_cosine are_scored,
      )

  -- On floats with the laws of finite doubles, for a query with a direction and embeddings of its
  -- length, where np.dot takes arrays of one length and a division keeps it: rank returns. With
  -- each candidate scored by the dot product of its embedding and the query, both divided by their
  -- norms, or by 0 where it has no embedding or one of norm 0, the result is a best part of them,
  -- in descending order and as many as top_k allows: no candidate left out has a greater score than
  -- one returned.
  pub rank-IsBestOf :
      (laws : FloatLaws R) (np_laws : NumpyLaws) (query : List Float) (cs : List (Candidate Float))
      (top_k : ℕ)
      → is_zero R (norm query) ≡ false
      → All (Matches query) cs
      → (rs : List (RankedChunk Float)) × (result : List (RankedChunk Float)) × (rank query cs top_k
          ≡ ok result)
        × AreScored query cs rs
        × IsBestOf le
            (λ (r : RankedChunk Float). r.score)
            laws.le_total
            laws.le_trans
            top_k
            rs
            result
  unfolding rank best_of
  rank-IsBestOf laws np_laws query [] top_k nonzero matching = (
    [],
    [],
    refl,
    none_left,
    record { rest = []; reordered = Perm.refl []; descending = tt; sized = omega arith },
  )
  rank-IsBestOf laws np_laws query (c ∷ cs) top_k nonzero matching =
      let (rs, e, are_scored) = scored-AreScored np_laws query (c ∷ cs) matching in
      (
        rs,
        best_of top_k rs,
        rw (nonzero, e) refl,
        are_scored,
        take-IsBestOf le (λ (r : RankedChunk Float). r.score) laws.le_total laws.le_trans top_k rs,
      )
