-- ===== src/TrendChart/View.antt =====
-- frontend/components/video-trend-chart.tsx: what the page of a video shows.
use yt_trending_pipeline.Prelude.{
  ℕ, Option, none, some, List, [], ◌∷◌, ◌++◌, Str, text, truthy, or_else, if◌then◌else◌,
}
use yt_trending_pipeline.Types.{Video, TrendPoint}
use yt_trending_pipeline.Format.{format_count}
use yt_trending_pipeline.TrendChart.{Chart}
use yt_trending_pipeline.TrendChart.Lines.{LineChart, views_chart, likes_chart, comments_chart}

pub record VideoCard : Type 0 where
  pub href : Str
  pub title : Str
  pub channel : Str
  pub views : Str
  pub likes : Str
  pub comments : Str

pub data Charts : Type 0 where
  no_data : Charts
  charts : LineChart → LineChart → LineChart → Charts

pub data Content : Type 0 where
  loading_trend : Content
  failed : Str → Content
  loaded : Option VideoCard → Charts → Content

pub record ChartView : Type 0 where
  pub back_href : Str
  pub content : Content

module _ (format_date : Str → Str) (tenths : ℕ → ℕ → ℕ) (times_095 : ℕ → ℕ) where
  unfoldable pub video_card : Str → Video → VideoCard
  video_card video_id v = record {
    href = text "https://youtube.com/watch?v=" ++ video_id;
    title = v.title;
    channel = v.channel_title;
    views = format_count tenths v.view_count;
    likes = format_count tenths v.like_count;
    comments = format_count tenths (some (or_else v.comment_count 0));
  }

  abbrev charts_of : List TrendPoint → Charts
  charts_of [] = no_data
  charts_of (p ∷ ps) =
      charts (views_chart format_date tenths times_095 (p ∷ ps))
        (likes_chart format_date tenths times_095 (p ∷ ps))
        (comments_chart format_date tenths times_095 (p ∷ ps))

  abbrev card_of : Str → Option Video → Option VideoCard
  card_of video_id none = none
  card_of video_id (some v) = some (video_card video_id v)

  abbrev loaded_content : Str → Chart → Content
  loaded_content video_id s = loaded (card_of video_id s.video) (charts_of s.trend)

  unfoldable pub content_of : Str → Chart → Content
  unfolding video_card
  content_of video_id s =
      if s.loading
      then loading_trend
      else if truthy (or_else s.error [])
      then failed (or_else s.error [])
      else loaded_content video_id s

  unfoldable pub video_trend_chart : Str → Chart → ChartView
  unfolding content_of
  video_trend_chart video_id s = record {
    back_href = text "/videos";
    content = content_of video_id s;
  }
