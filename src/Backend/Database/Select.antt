-- ===== src/Backend/Database/Select.antt =====
-- backend/db/db.go: the rows that the queries for analytics select. The order of rows that a query
-- leaves open (videos with equally many views, snapshots of one time) is here that of the table.
use yt_trending_pipeline.Prelude.{
  ℕ, Option, none, some, Bool, true, false, ◌&&◌, ◌||◌, List, [], ◌∷◌, Str, same, truthy, keep,
  take, drop, ltb, ◌==◌, sort_by, ℤ, pos, negsuc, not, if◌then◌else◌,
}
use yt_trending_pipeline.Backend.{VideoRow}

abbrev pub same_int : ℤ → ℤ → Bool
same_int (pos m) (pos n) = m == n
same_int (negsuc m) (negsuc n) = m == n
same_int _ _ = false

abbrev pub less : ℤ → ℤ → Bool
less (pos m) (pos n) = ltb m n
less (pos m) (negsuc n) = false
less (negsuc m) (pos n) = true
less (negsuc m) (negsuc n) = ltb n m

abbrev pub later_than : Option ℕ → ℕ → Bool
later_than none time = true
later_than (some bound) time = ltb bound time

abbrev pub earlier_than : Option ℕ → ℕ → Bool
earlier_than none time = true
earlier_than (some bound) time = ltb time bound

-- the conditions of `GetVideos`; a time is none if it is the zero time
unfoldable pub fits : Str → ℤ → Option ℕ → Option ℕ → VideoRow → Bool
fits region category_id fetched_after fetched_before v =
    (not (truthy region) || same v.region region)
    && (same_int category_id (pos 0) || same_int v.category_id category_id)
    && later_than fetched_after v.fetched_at
    && earlier_than fetched_before v.fetched_at

-- a row joins those that `DISTINCT ON (video_id)` keeps, which have the last time of their video
unfoldable pub join : VideoRow → List VideoRow → List VideoRow
join v [] = v ∷ []
join v (u ∷ us) =
    let rest = join v us in
    if same v.video_id u.video_id
    then (if ltb v.fetched_at u.fetched_at then u else v) ∷ us
    else u ∷ rest

unfoldable pub latest : List VideoRow → List VideoRow
unfolding join
latest [] = []
latest (v ∷ vs) = join v (latest vs)

-- `ORDER BY view_count DESC`
abbrev pub more_views : VideoRow → VideoRow → Bool
more_views v w = less w.view_count v.view_count

-- all the rows of the query, before its limit
unfoldable pub all_videos : Str → ℤ → Option ℕ → Option ℕ → List VideoRow → List VideoRow
unfolding fits latest sort_by
all_videos region category_id fetched_after fetched_before rows =
    sort_by more_views (latest (keep (fits region category_id fetched_after fetched_before) rows))

-- `LIMIT` and `OFFSET`, which may not be negative
unfoldable pub page_of : ℤ → ℤ → List VideoRow → Option (List VideoRow)
page_of (pos limit) (pos offset) rows = some (take limit (drop offset rows))
page_of _ _ rows = none

-- `GetVideos`; an error is none
unfoldable pub select_videos :
    Str → ℤ → Option ℕ → Option ℕ → ℤ → ℤ → List VideoRow → Option (List VideoRow)
unfolding all_videos page_of
select_videos region category_id fetched_after fetched_before limit offset rows =
    page_of limit offset (all_videos region category_id fetched_after fetched_before rows)
