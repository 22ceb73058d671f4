-- ===== src/Examples/Pages.antt =====
-- The theorem about the links, at a concrete input.
use yt_trending_pipeline.Prelude.{Str, text}
use yt_trending_pipeline.JobForm
use yt_trending_pipeline.JobsList
use yt_trending_pipeline.JobDetail
use yt_trending_pipeline.JobDetail.View
use yt_trending_pipeline.SummaryCard
use yt_trending_pipeline.TrendChart

abbrev j1 : Str
j1 = text "j1"
