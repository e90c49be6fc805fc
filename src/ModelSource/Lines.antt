-- ===== src/ModelSource/Lines.antt =====
-- `render` in tools/model_source.py: which lines a property of a table decides.
use dbwarden_harness.Base.{
  ℕ, ◌+◌, ◌*◌, String, ◌<>◌, not, Option, none, some, List, [], ◌∷◌, ◌++◌, map, ◌≡◌, refl, arith,
  string_eq, contains, select, length, length-append, length-map,
}
use dbwarden_harness.Base.Dict
use dbwarden_harness.Base.Dict.{Dict}
use dbwarden_harness.ModelSource.{
  Column, ClickHouseTable, Change, replace, with_, head_lines, render_column, meta_lines,
  comment_lines, column_comment_lines, ch_line, lines,
}

-- The arguments of `ch_table`.
abbrev pub IsArgument : Change → Type 0
IsArgument (Change.engine v) = Unit
IsArgument (Change.order_by v) = Unit
IsArgument (Change.primary_key v) = Unit
IsArgument (Change.partition_by v) = Unit
IsArgument (Change.sample_by v) = Unit
IsArgument (Change.ttl v) = Unit
IsArgument (Change.settings v) = Unit
IsArgument (Change.indexes v) = Unit
IsArgument (Change.projections v) = Unit
IsArgument (Change.zookeeper_path v) = Unit
IsArgument (Change.replica_name v) = Unit
IsArgument _ = ⊥

-- The texts differ at most in the line after `before`.
abbrev pub DifferAt : ℕ → List String → List String → Type 0
DifferAt n xs ys =
    (before after : List String) × (x y : String) × (length before ≡ n)
    × (xs ≡ before ++ (x ∷ after))
    × (ys ≡ before ++ (y ∷ after))

length-head_lines :
    (class_name base name : String) (columns : List Column) (meta_base : String)
    → length (head_lines class_name base name columns meta_base) ≡ 4 + length columns
unfolding head_lines
length-head_lines class_name base name columns meta_base = omega (
  arith,
  length-append (map render_column columns) ("" ∷ ("    class Meta(" <> meta_base <> "):") ∷ []),
  length-map render_column columns,
)

module _ (repr : String → String) where
  rest_of : ClickHouseTable → List String
  rest_of t =
      comment_lines repr t.comment
      ++ (meta_lines t.column_meta
          ++ column_comment_lines repr (Dict.keys t.column_meta) t.column_comments)

  head_of : ClickHouseTable → List String
  head_of t = head_lines t.class_name t.base t.name t.columns t.meta_base

  at_ch_line :
      (t u : ClickHouseTable)
      → head_of u ≡ head_of t
      → rest_of u ≡ rest_of t
      → DifferAt (4 + length t.columns) (lines repr t) (lines repr u)
  unfolding lines head_of rest_of
  at_ch_line t u h r = (
    head_of t,
    rest_of t,
    ch_line repr t,
    ch_line repr u,
    length-head_lines t.class_name t.base t.name t.columns t.meta_base,
    refl,
    cc,
  )

  -- A change of one argument of `ch_table` leaves every line of the rendered table as it was but
  -- the one after the head of `Meta`.
  pub with_-argument :
      (c : Change) (t : ClickHouseTable)
      → IsArgument c
      → DifferAt (4 + length t.columns) (lines repr t) (lines repr (with_ (c ∷ []) t))
  unfolding with_ replace head_of rest_of
  with_-argument (Change.name v) t h = absurd h
  with_-argument (Change.class_name v) t h = absurd h
  with_-argument (Change.base v) t h = absurd h
  with_-argument (Change.meta_base v) t h = absurd h
  with_-argument (Change.columns v) t h = absurd h
  with_-argument (Change.comment v) t h = absurd h
  with_-argument (Change.raw_meta v) t h = absurd h
  with_-argument (Change.column_meta v) t h = absurd h
  with_-argument (Change.column_comments v) t h = absurd h
  with_-argument (Change.engine v) t h = at_ch_line t (replace (Change.engine v) t) refl refl
  with_-argument (Change.order_by v) t h = at_ch_line t (replace (Change.order_by v) t) refl refl
  with_-argument (Change.primary_key v) t h =
      at_ch_line t (replace (Change.primary_key v) t) refl refl
  with_-argument (Change.partition_by v) t h =
      at_ch_line t (replace (Change.partition_by v) t) refl refl
  with_-argument (Change.sample_by v) t h = at_ch_line t (replace (Change.sample_by v) t) refl refl
  with_-argument (Change.ttl v) t h = at_ch_line t (replace (Change.ttl v) t) refl refl
  with_-argument (Change.settings v) t h = at_ch_line t (replace (Change.settings v) t) refl refl
  with_-argument (Change.indexes v) t h = at_ch_line t (replace (Change.indexes v) t) refl refl
  with_-argument (Change.projections v) t h =
      at_ch_line t (replace (Change.projections v) t) refl refl
  with_-argument (Change.zookeeper_path v) t h =
      at_ch_line t (replace (Change.zookeeper_path v) t) refl refl
  with_-argument (Change.replica_name v) t h =
      at_ch_line t (replace (Change.replica_name v) t) refl refl

  length-meta_lines : (d : Dict String String) → length (meta_lines d) ≡ 2 * length d
  unfolding meta_lines
  length-meta_lines [] = refl
  length-meta_lines (_ ∷ d) = omega (arith, length-meta_lines d)

  length-column_comment_lines :
      (known : List String) (d : Dict String String)
      → length (column_comment_lines repr known d)
        ≡ 2 * length (select (λ k. not (contains known k)) (Dict.keys d))
  unfolding column_comment_lines
  length-column_comment_lines known [] = refl
  length-column_comment_lines known (_ ∷ d) = ground (arith, length-column_comment_lines known d)

  abbrev pub comment_count : Option String → ℕ
  comment_count none = 0
  comment_count (some _) = 1

  length-comment_lines : (o : Option String) → length (comment_lines repr o) ≡ comment_count o
  unfolding comment_lines
  length-comment_lines none = refl
  length-comment_lines (some _) = refl

  -- A rendered table has five lines, one for each column and for a comment, and two for each
  -- column specification and for each comment of a column without one.
  pub length-lines :
      (t : ClickHouseTable)
      → length (lines repr t)
        ≡ 5
          + length t.columns
          + comment_count t.comment
          + 2 * length t.column_meta
          + 2
            * length (
                select
                  (λ k. not (contains (Dict.keys t.column_meta) k))
                  (Dict.keys t.column_comments))
  unfolding lines head_of
  length-lines t =
      let known = Dict.keys t.column_meta in
      let comments = column_comment_lines repr known t.column_comments in
      let metas = meta_lines t.column_meta in
      let after = comment_lines repr t.comment ++ (metas ++ comments) in
      omega (
        arith,
        length-append (head_of t) (ch_line repr t ∷ after),
        length-append (comment_lines repr t.comment) (metas ++ comments),
        length-append metas comments,
        length-head_lines t.class_name t.base t.name t.columns t.meta_base,
        length-comment_lines t.comment,
        length-meta_lines t.column_meta,
        length-column_comment_lines known t.column_comments,
      )
