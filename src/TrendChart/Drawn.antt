-- ===== src/TrendChart/Drawn.antt =====
-- frontend/components/video-trend-chart.tsx: what a reader sees on the page of a video.
use mathlib.Core.List.{Memᴰ}
use yt_trending_pipeline.Prelude.{
  inl, inr, Bool-cases, if◌then◌else◌, ◌≤◌, ◌+◌, ◌*◌, sym, subst, ℕ, ◌≡◌, refl, ap, All, All-map,
  arith, same_iff, Option, none, some, false, List, [], ◌∷◌, map, Str, text, find, same, JsNum,
  or_else,
}
use yt_trending_pipeline.Types.{Video, TrendPoint}
use yt_trending_pipeline.Api.{fulfilled}
use yt_trending_pipeline.TrendChart.{Chart, begin_load, end_load}
use yt_trending_pipeline.TrendChart.Lines.{
  Field, label, number, field, floor, LineChart, chart_point, chart_data, views_chart, likes_chart,
  comments_chart,
}
use yt_trending_pipeline.TrendChart.View.{charts, Content, loaded, content_of, video_trend_chart}

-- The video that is found is one of the list.
find-Memᴰ :
    (video_id : Str) (videos : List Video) (v : Video)
    → find (λ w. same w.video_id video_id) videos ≡ some v
    → Memᴰ v videos
find-Memᴰ video_id [] v h = cc
find-Memᴰ video_id (w ∷ ws) v h = elim (Bool-cases (same w.video_id video_id)) [
  | inl e ↦
      let k : some w ≡ some v =
        subst (λ b. (if b then some w else find (λ u. same u.video_id video_id) ws) ≡ some v) e h in
      Memᴰ.head (ap (λ o. elim o [ none ↦ v | some x ↦ x ]) (sym k))
  | inr e ↦
      let k : find (λ u. same u.video_id video_id) ws ≡ some v =
        subst (λ b. (if b then some w else find (λ u. same u.video_id video_id) ws) ≡ some v) e h in
      Memᴰ.tail (find-Memᴰ video_id ws v k)
]

-- The video whose page it is.
find-video_id :
    (video_id : Str) (videos : List Video) (v : Video)
    → find (λ w. same w.video_id video_id) videos ≡ some v
    → v.video_id ≡ video_id
find-video_id video_id [] v h = cc
find-video_id video_id (w ∷ ws) v h =
    ground (arith, find-video_id video_id ws v, same_iff w.video_id video_id)

find-absent :
    (video_id : Str) (videos : List Video)
    → find (λ w. same w.video_id video_id) videos ≡ none
    → All (λ w. same w.video_id video_id ≡ false) videos
find-absent video_id [] h = tt
find-absent video_id (w ∷ ws) h = ground (arith, find-absent video_id ws)

-- what holds of the video that the page has found among those that were answered
abbrev pub IsFound : Str → List Video → Option Video → Type 0
IsFound video_id videos none = All (λ w. same w.video_id video_id ≡ false) videos
IsFound video_id videos (some v) = Memᴰ v videos × (v.video_id ≡ video_id)

found_lem :
    (video_id : Str) (videos : List Video) (found : Option Video)
    → find (λ w. same w.video_id video_id) videos ≡ found
    → IsFound video_id videos found
found_lem video_id videos none h = find-absent video_id videos h
found_lem video_id videos (some v) h =
    (find-Memᴰ video_id videos v h, find-video_id video_id videos v h)

-- what recharts draws of a chart: for each point its place on the axis and its value
abbrev pub drawn : LineChart → List (Field × Field)
drawn c = map (λ p. (field c.x_key p, field c.line_key p)) c.points

-- the three charts of a page, if it shows any
abbrev pub shown : Content → List LineChart
shown (loaded card (charts a b c)) = a ∷ b ∷ c ∷ []
shown _ = []

abbrev pub counts : (TrendPoint → JsNum) → (Str → Str) → List TrendPoint → List (Field × Field)
counts count format_date = map (λ p. (label (format_date p.fetched_at), number (count p)))

-- the three lists of values that a trend has, if it has a point
abbrev pub expected : (Str → Str) → List TrendPoint → List (List (Field × Field))
expected format_date [] = []
expected format_date (p ∷ ps) =
    counts (λ q. q.view_count) format_date (p ∷ ps)
    ∷ counts (λ q. q.like_count) format_date (p ∷ ps)
    ∷ counts (λ q. some (or_else q.comment_count 0)) format_date (p ∷ ps)
    ∷ []

-- the counts among the values that are drawn
abbrev pub numbers : List (Field × Field) → List ℕ
numbers [] = []
numbers ((place, number (some n)) ∷ values) = n ∷ numbers values
numbers ((place, _) ∷ values) = numbers values

-- No count of a chart lies below its lower end, which is at least nine tenths of the lowest count,
-- less one. `lowest` is what recharts passes as dataMin.
abbrev pub IsInDomain : (List ℕ → ℕ) → LineChart → Type 0
IsInDomain lowest c =
    let low = lowest (numbers (drawn c)) in
    (9 * low ≤ 10 * (c.domain_start low + 1))
    × All (λ n. c.domain_start low ≤ n) (numbers (drawn c))

-- The product of a count and the double next to 0.95, rounded to a double, is off by at most two
-- units for each one of the count.
abbrev pub IsNearProduct : (ℕ → ℕ) → ℕ → Type 0
IsNearProduct times_095 n =
    (20 * times_095 n ≤ 19 * (n * 9007199254740992) + 40 * n)
    × (19 * (n * 9007199254740992) ≤ 20 * times_095 n + 40 * n)

module _ (format_date : Str → Str) (tenths : ℕ → ℕ → ℕ) (times_095 : ℕ → ℕ) where
  drawn-views_chart :
      (trend : List TrendPoint)
      → drawn (views_chart format_date tenths times_095 trend)
        ≡ counts (λ p. p.view_count) format_date trend
  unfolding views_chart chart_data chart_point field text same
  drawn-views_chart [] = refl
  drawn-views_chart (p ∷ ps) =
      ap (◌∷◌ (label (format_date p.fetched_at), number p.view_count)) (drawn-views_chart ps)

  drawn-likes_chart :
      (trend : List TrendPoint)
      → drawn (likes_chart format_date tenths times_095 trend)
        ≡ counts (λ p. p.like_count) format_date trend
  unfolding likes_chart chart_data chart_point field text same
  drawn-likes_chart [] = refl
  drawn-likes_chart (p ∷ ps) =
      ap (◌∷◌ (label (format_date p.fetched_at), number p.like_count)) (drawn-likes_chart ps)

  drawn-comments_chart :
      (trend : List TrendPoint)
      → drawn (comments_chart format_date tenths times_095 trend)
        ≡ counts (λ p. some (or_else p.comment_count 0)) format_date trend
  unfolding comments_chart chart_data chart_point field text same
  drawn-comments_chart [] = refl
  drawn-comments_chart (p ∷ ps) =
      ap (◌∷◌ (label (format_date p.fetched_at), number (some (or_else p.comment_count 0))))
        (drawn-comments_chart ps)

  module _ (near : (n : ℕ) → IsNearProduct times_095 n) (lowest : List ℕ → ℕ)
      (lowest_lem : (ns : List ℕ) → All (λ n. lowest ns ≤ n) ns) where
    floor_below : (n : ℕ) → floor (times_095 n) ≤ n
    floor_below n = omega (arith, near n)

    floor_above : (n : ℕ) → 9 * n ≤ 10 * (floor (times_095 n) + 1)
    floor_above n = omega (arith, near n)

    line_chart-IsInDomain :
        (c : LineChart) → c.domain_start ≡ (λ n. floor (times_095 n)) → IsInDomain lowest c
    line_chart-IsInDomain c e =
        let low = lowest (numbers (drawn c)) in
        let start = subst (λ f. f low ≤ low) (sym e) (floor_below low) in
        let above = subst (λ f. 9 * low ≤ 10 * (f low + 1)) (sym e) (floor_above low) in
        (above, All-map (numbers (drawn c)) (λ k le. omega arith) (lowest_lem (numbers (drawn c))))

    charts-IsInDomain :
        (trend : List TrendPoint)
        → All (IsInDomain lowest) (
            views_chart format_date tenths times_095 trend
            ∷ likes_chart format_date tenths times_095 trend
            ∷ comments_chart format_date tenths times_095 trend
            ∷ [])
    unfolding views_chart likes_chart comments_chart
    charts-IsInDomain trend = (
      line_chart-IsInDomain (views_chart format_date tenths times_095 trend) refl,
      (
        line_chart-IsInDomain (likes_chart format_date tenths times_095 trend) refl,
        (line_chart-IsInDomain (comments_chart format_date tenths times_095 trend) refl, tt),
      ),
    )

    -- After both answers the page shows no spinner and no error: it has three charts, of the views,
    -- the likes and the comments, with a value for each point of the trend in its order, and none
    -- if the trend is empty; a missing number of comments is drawn as zero. No chart starts above a
    -- count that it draws, nor below nine tenths of the lowest one by more than one, if recharts
    -- passes the lowest of them and the product with 0.95 is as near as doubles make it. The video
    -- of the page is one of those that were answered, and has the id of the page; where it has none,
    -- none of those that were answered has that id.
    pub end_load-shown :
        (video_id : Str) (trend : List TrendPoint) (videos : List Video) (s : Chart)
        → let after = end_load video_id (fulfilled (some trend, some videos)) (begin_load s) in
          let page = video_trend_chart format_date tenths times_095 video_id after in
          (map drawn (shown page.content) ≡ expected format_date trend)
          × All (IsInDomain lowest) (shown page.content)
          × IsFound video_id videos after.video
          × (after.loading ≡ false)
          × (after.error ≡ none)
    unfolding end_load begin_load video_trend_chart content_of
    end_load-shown video_id [] videos s = (refl, tt, found_lem video_id videos _ refl, refl, refl)
    end_load-shown video_id (p ∷ ps) videos s = (
      rw (drawn-views_chart (p ∷ ps), drawn-likes_chart (p ∷ ps), drawn-comments_chart (p ∷ ps))
          refl,
      charts-IsInDomain (p ∷ ps),
      found_lem video_id videos _ refl,
      refl,
      refl,
    )
