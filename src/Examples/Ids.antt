-- ===== src/Examples/Ids.antt =====
-- A source of new ids for the examples: the ids that are there, one after the other, and a letter.
use yt_trending_pipeline.Prelude.{
  ◌<◌, ◌≡◌, ap, ◌∙◌, none, List, [], ◌∷◌, ◌++◌, Str, length, length-append, same→eq, find, arith,
  Bool-cases, inl, inr, refl,
}
use yt_trending_pipeline.Backend.{World, JobRow}
use yt_trending_pipeline.Backend.Database.{has_id}
use yt_trending_pipeline.Backend.Database.Rows.{find_miss}

joined : List JobRow → Str
joined [] = []
joined (row ∷ rows) = row.job_id ++ joined rows

unfoldable pub next_id : World → Str
unfolding joined
next_id w = b'x' ∷ joined w.jobs

find_longer :
    (id : Str) (rows : List JobRow)
    → length (joined rows) < length id
    → find (has_id id) rows ≡ none
unfolding joined
find_longer id [] h = refl
find_longer id (row ∷ rows) h = elim (Bool-cases (has_id id row)) [
  | inl e ↦
      absurd
        (omega (arith, ap length (same→eq row.job_id id e), length-append row.job_id (joined rows)))
  | inr e ↦
      find_miss (has_id id) row rows e
      ∙ find_longer id rows (omega (arith, length-append row.job_id (joined rows)))
]

pub next_id-new : (w : World) → find (has_id (next_id w)) w.jobs ≡ none
unfolding next_id
next_id-new w = find_longer (b'x' ∷ joined w.jobs) w.jobs (omega arith)
