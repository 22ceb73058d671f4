-- ===== src/SummaryCard.antt =====
-- frontend/components/videos-summary-card.tsx: the two counts on the first page. The number format
-- of the browser is a parameter.
use yt_trending_pipeline.Prelude.{ℕ, none, some, Bool, true, false, ◌≡◌, refl, Str, text, JsNum}
use yt_trending_pipeline.Api.{Settled, fulfilled, rejected, TrackedRegions}

pub record Summary : Type 0 where
  pub count : JsNum
  pub region_count : JsNum
  pub loading_count : Bool
  pub loading_regions : Bool

unfoldable pub initial : Summary
initial = record { count = none; region_count = none; loading_count = true; loading_regions = true }

pub data Event : Type 0 where
  counted : Settled JsNum → Event
  tracked : Settled TrackedRegions → Event

unfoldable pub step : Event → Summary → Summary
step (counted (fulfilled n)) s = record s { count = n; loading_count = false }
step (counted (rejected message)) s = record s { count = none; loading_count = false }
step (tracked (fulfilled d)) s = record s { region_count = d.count; loading_regions = false }
step (tracked (rejected message)) s = record s { region_count = none; loading_regions = false }

pub data Figure : Type 0 where
  spinner : Figure
  shown : Str → Figure

pub record SummaryView : Type 0 where
  pub videos_ingested : Figure
  pub regions_tracked : Figure
  pub browse_href : Str

module _ (to_locale_string : ℕ → Str) where
  -- `loading ? … : n != null ? n.toLocaleString() : "—"`
  unfoldable pub figure : Bool → JsNum → Figure
  figure true n = spinner
  figure false none = shown (text "—")
  figure false (some n) = shown (to_locale_string n)

  unfoldable pub videos_summary_card : Summary → SummaryView
  unfolding figure
  videos_summary_card s = record {
    videos_ingested = figure s.loading_count s.count;
    regions_tracked = figure s.loading_regions s.region_count;
    browse_href = text "/videos";
  }

  -- The two answers may come in either order: each figure shows its own answer, and a failed call
  -- shows a dash.
  videos_summary_card_either_order :
      (a : Settled JsNum) (b : Settled TrackedRegions)
      → (videos_summary_card (step (tracked b) (step (counted a) initial))
          ≡ videos_summary_card (step (counted a) (step (tracked b) initial)))
        × (videos_summary_card (step (tracked b) (step (counted a) initial)) ≡ record {
          videos_ingested = figure false (elim a [ fulfilled n ↦ n | rejected m ↦ none ]);
          regions_tracked = figure false (elim b [ fulfilled d ↦ d.count | rejected m ↦ none ]);
          browse_href = text "/videos";
        })
  unfolding videos_summary_card step initial
  videos_summary_card_either_order (fulfilled n) (fulfilled d) = (refl, refl)
  videos_summary_card_either_order (fulfilled n) (rejected m) = (refl, refl)
  videos_summary_card_either_order (rejected m) (fulfilled d) = (refl, refl)
  videos_summary_card_either_order (rejected m) (rejected k) = (refl, refl)
