-- ===== src/App/Links.antt =====
-- frontend/app and frontend/components: every link within the dashboard leads to a page.
use yt_trending_pipeline.Prelude.{
  ◌≡◌, refl, ap, ◌∙◌, Option, none, some, true, [], ◌∷◌, ◌++◌, Str, text, same, truthy, All,
  path_of, segments, IsPlain, path_of-id, segments-plain,
}
use yt_trending_pipeline.JobsList
use yt_trending_pipeline.JobDetail
use yt_trending_pipeline.JobDetail.View
use yt_trending_pipeline.SummaryCard
use yt_trending_pipeline.TrendChart
use yt_trending_pipeline.App.{Page, job_detail_page, page_at, page_of}

abbrev pub at_route : Option Str → Option Page
at_route none = none
at_route (some href) = page_of href

jobs_path :
    (rest : Str)
    → segments (path_of (text "/jobs/" ++ rest)) ≡ [] ∷ text "jobs" ∷ segments (path_of rest)
unfolding segments path_of text
jobs_path rest = refl

module _ (id : Str) (h : All IsPlain id) (t : truthy id ≡ true) where
  page_at-job : page_at ([] ∷ text "jobs" ∷ id ∷ []) ≡ some (job_detail_page id)
  unfolding page_at text same
  page_at-job = rw t refl

  pub page_of-job : page_of (text "/jobs/" ++ id) ≡ some (job_detail_page id)
  unfolding page_of
  page_of-job =
      ap page_at (
        jobs_path id
        ∙ ap (λ l. [] ∷ text "jobs" ∷ l) (ap segments (path_of-id id h) ∙ segments-plain id h))
      ∙ page_at-job
