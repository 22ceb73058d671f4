-- ===== src/Dashboard/Charts.antt =====
-- frontend/components/analytics-dashboard.tsx: the most viewed video and the entries of the charts.
use yt_trending_pipeline.Prelude.{
  ℕ, ◌≤◌, ◌<◌, ◌≡◌, refl, Option, none, some, true, false, List, [], ◌∷◌, ◌++◌, Str, text, take,
  length, length-take, length-append, All, is_some, JsNum, num_gt, ltb, leb, arith, if◌then◌else◌,
  or_else, Bool-cases, inl, inr,
}
use mathlib.Core.List.{Memᴰ}
use yt_trending_pipeline.Types.{TopChannel, Video}

-- one round of the `reduce`
abbrev better : Option Video → Video → Option Video
better none v = some v
better (some best) v = if num_gt v.view_count best.view_count then some v else some best

reduce : Option Video → List Video → Option Video
reduce best [] = best
reduce best (v ∷ vs) = reduce (better best v) vs

unfoldable pub most_viewed : List Video → Option Video
unfolding reduce
most_viewed = reduce none

pub record ChartEntry : Type 0 where
  pub name : Str
  pub full_name : Str
  pub appearances : JsNum
  pub total_views : JsNum

unfoldable pub short_name : Str → Str
short_name title = if ltb 18 (length title) then take 17 title ++ text "…" else title

unfoldable pub to_chart_entry : TopChannel → ChartEntry
unfolding short_name
to_chart_entry c = record {
  name = short_name c.channel_title;
  full_name = c.channel_title;
  appearances = c.appear_count;
  total_views = c.view_count;
}

short_name_cut : (title : Str) → length (take 17 title ++ text "…") ≤ 18
unfolding text
short_name_cut title = omega (arith, length-append (take 17 title) (text "…"), length-take 17 title)

-- A name on the axis has at most 18 characters. A title of at most 18 is the name; a longer one
-- gives its first 17 and an ellipsis. The full title and the counts of the channel are kept.
to_chart_entry_lem :
    (c : TopChannel)
    → let e = to_chart_entry c in
      (length e.name ≤ 18)
      × (e.name ≡ (
          if leb (length c.channel_title) 18
          then c.channel_title
          else take 17 c.channel_title ++ text "…"))
      × (e.full_name ≡ c.channel_title)
      × (e.appearances ≡ c.appear_count)
      × (e.total_views ≡ c.view_count)
unfolding to_chart_entry
to_chart_entry_lem c =
    (ground (arith, short_name_cut c.channel_title), ground arith, refl, refl, refl)

abbrev pub views : Video → ℕ
views v = or_else v.view_count 0

abbrev pub IsCounted : Video → Type 0
IsCounted v = is_some v.view_count ≡ true

-- what the best of a video and a list is
pub record IsBest (b : Video) (vs : List Video) (v : Video) : Type 0 where
  pub counted : IsCounted v
  pub first : views b ≤ views v
  pub others : All (λ w. views w ≤ views v) vs
  pub among : Memᴰ v (b ∷ vs)

num_gt-true : (a b : JsNum) → num_gt a b ≡ true → or_else b 0 < or_else a 0
num_gt-true none b h = cc
num_gt-true (some a) none h = cc
num_gt-true (some a) (some b) h = ground arith

num_gt-false : (a b : JsNum) → is_some b ≡ true → num_gt a b ≡ false → or_else a 0 ≤ or_else b 0
num_gt-false none b c h = omega arith
num_gt-false (some a) none c h = cc
num_gt-false (some a) (some b) c h = ground arith

Memᴰ-skip : {v b : Video} (w : Video) (ws : List Video) → Memᴰ v (b ∷ ws) → Memᴰ v (b ∷ w ∷ ws)
Memᴰ-skip w ws (Memᴰ.head e) = Memᴰ.head e
Memᴰ-skip w ws (Memᴰ.tail m) = Memᴰ.tail (Memᴰ.tail m)

reduce-some :
    (b : Video) (vs : List Video)
    → IsCounted b
    → All IsCounted vs
    → (v : Video) × (reduce (some b) vs ≡ some v) × IsBest b vs v
unfolding reduce
reduce-some b [] cb cvs =
    (b, refl, record { counted = cb; first = omega arith; others = tt; among = Memᴰ.head refl })
reduce-some b (w ∷ ws) cb cvs = elim (Bool-cases (num_gt w.view_count b.view_count)) [
  | inl more ↦
      let (v, e, h) = reduce-some w ws cvs.0 cvs.1 in
      (
        v,
        rw more e,
        record {
          counted = h.counted;
          first = omega (arith, num_gt-true w.view_count b.view_count more, h.first);
          others = (h.first, h.others);
          among = Memᴰ.tail h.among;
        },
      )
  | inr less ↦
      let (v, e, h) = reduce-some b ws cb cvs.1 in
      (
        v,
        rw less e,
        record {
          counted = h.counted;
          first = h.first;
          others =
              (omega (arith, num_gt-false w.view_count b.view_count cb less, h.first), h.others);
          among = Memᴰ-skip w ws h.among;
        },
      )
]

-- Among some videos that all have a view count, the most viewed one is one of them, and none of
-- them has more views.
pub most_viewed_lem :
    (b : Video) (vs : List Video)
    → All IsCounted (b ∷ vs)
    → (v : Video) × (most_viewed (b ∷ vs) ≡ some v) × IsBest b vs v
unfolding most_viewed
most_viewed_lem b vs c = reduce-some b vs c.0 c.1
