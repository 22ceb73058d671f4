-- ===== src/Backend/Gateway/Counted.antt =====
-- backend/db/db.go, backend/api/server.go, frontend/lib/api.ts and
-- frontend/components/videos-summary-card.tsx: the counts of the first page on their way from the table.
use yt_trending_pipeline.Prelude.{
  ℕ, zero, suc, ◌<◌, ◌≡◌, refl, ◌∙◌, Option, none, some, Bool, true, false, List, [], ◌∷◌, Str,
  text, length, any, same, ℤ, pos, arith,
}
use yt_trending_pipeline.Api
use yt_trending_pipeline.Api.{Settled, fulfilled, TrackedRegions}
use yt_trending_pipeline.SummaryCard
use yt_trending_pipeline.SummaryCard.{
  SummaryView, shown, counted, tracked, figure, videos_summary_card,
}
use yt_trending_pipeline.Backend.{VideoRow}
use yt_trending_pipeline.Backend.Analytics
use yt_trending_pipeline.Backend.Analytics.{RegionsResponse}
use yt_trending_pipeline.Backend.Database.Totals.{
  count_videos, distinct_regions, tracked_regions, distinct_regions_complete,
}
use yt_trending_pipeline.Backend.Gateway.Handlers.{
  handle_get_video_count, handle_get_tracked_regions,
}
use yt_trending_pipeline.Backend.Gateway.Settled.{fetched}

-- what the two figures say
abbrev pub figures : Str → Str → SummaryView
figures videos regions = record {
  videos_ingested = shown videos;
  regions_tracked = shown regions;
  browse_href = text "/videos";
}

pub any-positive : (p : Str → Bool) (rs : List Str) → any p rs ≡ true → 0 < length rs
any-positive p [] h = absurd (ground arith)
any-positive p (r ∷ rs) h = omega arith

module _ (to_locale_string : ℕ → Str) (read_count : ℤ → Option ℕ)
    (read_regions : RegionsResponse → TrackedRegions) where
  -- the answers to the two calls
  abbrev pub count_answer : List VideoRow → Settled (Option ℕ)
  count_answer rows = Api.get_video_count (
      fetched read_count
        (handle_get_video_count (Analytics.get_videos_count (some (pos (count_videos rows))))))

  abbrev pub regions_answer : List VideoRow → Settled TrackedRegions
  regions_answer rows =
      let (count, regions) = tracked_regions rows in
      Api.get_tracked_regions (
        fetched read_regions
          (handle_get_tracked_regions (Analytics.get_tracked_regions (some (pos count, regions)))))

  -- the card after both answers, that of the count first or last
  abbrev pub card : Bool → List VideoRow → SummaryView
  card true rows = videos_summary_card to_locale_string (
      SummaryCard.step (tracked (regions_answer rows))
        (SummaryCard.step (counted (count_answer rows)) SummaryCard.initial))
  card false rows = videos_summary_card to_locale_string (
      SummaryCard.step (counted (count_answer rows))
        (SummaryCard.step (tracked (regions_answer rows)) SummaryCard.initial))

  module _ (left_out : read_count (pos 0) ≡ none)
      (kept : (n : ℕ) → read_count (pos (suc n)) ≡ some (suc n))
      (regions_count : (r : RegionsResponse) → (read_regions r).count ≡ read_count r.count) where
    read_positive : (n : ℕ) → 0 < n → read_count (pos n) ≡ some n
    read_positive zero h = absurd (omega arith)
    read_positive (suc n) h = kept n

    card_read :
        (first : Bool) (rows : List VideoRow)
        → card first rows ≡ record {
          videos_ingested = figure to_locale_string false (read_count (pos (length rows)));
          regions_tracked =
              figure to_locale_string false (read_count (pos (length (distinct_regions rows))));
          browse_href = text "/videos";
        }
    unfolding videos_summary_card SummaryCard.step SummaryCard.initial Api.get_video_count
        Api.get_tracked_regions handle_get_video_count handle_get_tracked_regions count_videos
        tracked_regions Analytics.get_videos_count Analytics.get_tracked_regions
    card_read true rows = rw (regions_count _) refl
    card_read false rows = rw (regions_count _) refl

    -- In whichever order the two answers come: with videos in the table, the card shows how many rows
    -- it has, and how many regions are in them; with none, it shows a dash for both, as the gateway
    -- leaves out a zero, and the dashboard reads the other counts as they are.
    pub card_lem :
        (first : Bool) (v : VideoRow) (vs : List VideoRow)
        → (card first (v ∷ vs)
            ≡ figures
                (to_locale_string (length (v ∷ vs)))
                (to_locale_string (length (distinct_regions (v ∷ vs)))))
          × (card first [] ≡ figures (text "—") (text "—"))
    unfolding figure distinct_regions
    card_lem first v vs =
        let rows : List VideoRow = v ∷ vs in
        let some_region =
          any-positive (same v.region) (distinct_regions rows) (distinct_regions_complete rows).0 in
        (
          card_read first rows
              ∙ rw (read_positive (length (distinct_regions rows)) some_region, kept (length vs))
                  refl,
          card_read first [] ∙ rw left_out refl,
        )
