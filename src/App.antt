-- ===== src/App.antt =====
-- frontend/app: the layout, the pages and the addresses that they have. A page is what it mounts; its
-- address is the folder of its file, where `[id]` takes any segment that is not empty.
pub mod Links
use yt_trending_pipeline.Prelude.{
  Option, none, some, true, false, Bool, ◌&&◌, List, [], ◌∷◌, Str, text, truthy, path_of, segments,
  is_slug, if◌then◌else◌,
}

pub data Component : Type 0 where
  job_form jobs_list videos_summary_card analytics_dashboard videos_table : Component
  job_detail video_trend_chart : Str → Component

pub record Heading : Type 0 where
  pub title : Str
  pub subtitle : Str

pub record Page : Type 0 where
  pub heading : Option Heading
  pub components : List Component

unfoldable pub dashboard_page : Page
dashboard_page = record {
  heading = some (record {
    title = text "Dashboard";
    subtitle = text "Submit jobs to fetch trending YouTube videos and monitor their progress.";
  });
  components = videos_summary_card ∷ job_form ∷ jobs_list ∷ [];
}

unfoldable pub analytics_page : Page
analytics_page = record {
  heading = some (record {
    title = text "Analytics";
    subtitle = text "Top channels and aggregate stats across ingested trending data.";
  });
  components = analytics_dashboard ∷ [];
}

unfoldable pub videos_page : Page
videos_page = record {
  heading = some (record {
    title = text "Videos";
    subtitle = text "Browse trending videos ingested by the pipeline.";
  });
  components = videos_table ∷ [];
}

unfoldable pub job_detail_page : Str → Page
job_detail_page id = record { heading = none; components = job_detail id ∷ [] }

unfoldable pub video_trend_page : Str → Page
video_trend_page id = record { heading = none; components = video_trend_chart id ∷ [] }

-- the files `page.tsx`, by the segments of a path
unfoldable pub page_at : List Str → Option Page
page_at ([] ∷ a ∷ []) =
    if is_slug a ""
    then some dashboard_page
    else if is_slug a "videos"
    then some videos_page
    else if is_slug a "analytics"
    then some analytics_page
    else none
page_at ([] ∷ a ∷ b ∷ []) = if is_slug a "jobs" && truthy b then some (job_detail_page b) else none
page_at ([] ∷ a ∷ b ∷ c ∷ []) =
    if is_slug a "videos" && (truthy b && is_slug c "trend")
    then some (video_trend_page b)
    else none
page_at _ = none

unfoldable pub page_of : Str → Option Page
unfolding page_at path_of segments
page_of href = page_at (segments (path_of href))

pub record Link : Type 0 where
  pub href : Str
  pub label : Str

-- `metadata`, the header with its links, and the page
pub record Layout : Type 0 where
  pub title : Str
  pub description : Str
  pub brand : Link
  pub nav : List Link
  pub main : Page

unfoldable pub root_layout : Page → Layout
root_layout children = record {
  title = text "YouTube Analytics";
  description = text "Dashboard for the YouTube Trending Data ETL Pipeline";
  brand = record { href = text "/"; label = text "YouTube Analytics" };
  nav =
      record { href = text "/"; label = text "Dashboard" }
      ∷ record { href = text "/videos"; label = text "Videos" }
      ∷ record { href = text "/analytics"; label = text "Analytics" }
      ∷ [];
  main = children;
}
