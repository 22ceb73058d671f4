-- ===== src/Backend/Database/Totals.antt =====
-- backend/db/db.go: GetVideoCount, GetTrackedRegions and GetVideoTrend. The order of the regions, which
-- depends on the collation of the database, and that of snapshots of one time is that of the table.
use mathlib.Core.List.{Perm}
use yt_trending_pipeline.Prelude.{
  ℕ, ◌≡◌, refl, Bool, true, false, ◌||◌, List, [], ◌∷◌, Str, same, same_refl, keep, length, ltb,
  sort_by, sort_by-perm, sort_by-IsSorted, IsSorted, any, All, All-map, if◌then◌else◌, if_cases,
  arith,
}
use yt_trending_pipeline.Backend.{VideoRow}

-- `COUNT(*)`
unfoldable pub count_videos : List VideoRow → ℕ
count_videos rows = length rows

-- `array_agg(DISTINCT region)`
unfoldable pub distinct_regions : List VideoRow → List Str
distinct_regions [] = []
distinct_regions (v ∷ vs) =
    let rest = distinct_regions vs in if any (same v.region) rest then rest else v.region ∷ rest

-- `GetTrackedRegions`
unfoldable pub tracked_regions : List VideoRow → ℕ × List Str
unfolding distinct_regions
tracked_regions rows = (length (distinct_regions rows), distinct_regions rows)

abbrev earlier : VideoRow → VideoRow → Bool
earlier v w = ltb v.fetched_at w.fetched_at

-- `GetVideoTrend`, of whose rows the answer has the time and the counts
unfoldable pub select_trend : Str → List VideoRow → List VideoRow
unfolding sort_by
select_trend video_id rows = sort_by earlier (keep (λ v. same v.video_id video_id) rows)

-- no region twice
abbrev IsDistinct : List Str → Type 0
IsDistinct [] = Unit
IsDistinct (r ∷ rs) = (any (same r) rs ≡ false) × IsDistinct rs

or_here : (a b : Bool) → a ≡ true → (a || b) ≡ true
or_here true b h = refl
or_here false b h = absurd (ground arith)

or_there : (a b : Bool) → b ≡ true → (a || b) ≡ true
or_there true b h = refl
or_there false b h = h

distinct_regions-IsDistinct : (rows : List VideoRow) → IsDistinct (distinct_regions rows)
unfolding distinct_regions
distinct_regions-IsDistinct [] = tt
distinct_regions-IsDistinct (v ∷ vs) =
    let rest = distinct_regions vs in
    if_cases IsDistinct (any (same v.region) rest) rest (v.region ∷ rest)
      (λ e. distinct_regions-IsDistinct vs) (λ e. (e, distinct_regions-IsDistinct vs))

pub distinct_regions_complete :
    (rows : List VideoRow) → All (λ v. any (same v.region) (distinct_regions rows) ≡ true) rows
unfolding distinct_regions
distinct_regions_complete [] = tt
distinct_regions_complete (v ∷ vs) =
    let rest = distinct_regions vs in
    if_cases (λ rs. All (λ u. any (same u.region) rs ≡ true) (v ∷ vs)) (any (same v.region) rest)
      rest (v.region ∷ rest) (λ e. (e, distinct_regions_complete vs))
      (λ e. (
        or_here (same v.region v.region) _ (same_refl v.region),
        All-map vs (λ u h. or_there (same u.region v.region) _ h) (distinct_regions_complete vs),
      ))

-- The regions are counted, none is there twice, and each row has its region there.
tracked_regions_lem :
    (rows : List VideoRow)
    → let (count, regions) = tracked_regions rows in
      (count ≡ length regions)
      × IsDistinct regions
      × All (λ v. any (same v.region) regions ≡ true) rows
unfolding tracked_regions
tracked_regions_lem rows = (refl, distinct_regions-IsDistinct rows, distinct_regions_complete rows)

-- The trend of a video has exactly its snapshots, the earlier ones first.
select_trend-IsSorted :
    (video_id : Str) (rows : List VideoRow)
    → Perm (select_trend video_id rows) (keep (λ v. same v.video_id video_id) rows)
      × IsSorted earlier (select_trend video_id rows)
unfolding select_trend
select_trend-IsSorted video_id rows =
    let found = keep (λ v. same v.video_id video_id) rows in
    (
      sort_by-perm earlier found,
      sort_by-IsSorted earlier (λ v w h. ground arith) (λ u v w h k. ground arith) found,
    )
