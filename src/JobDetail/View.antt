-- ===== src/JobDetail/View.antt =====
-- frontend/components/job-detail.tsx: what the page of a job shows. Styling is left out.
use yt_trending_pipeline.Prelude.{
  ℕ, ◌+◌, ◌≡◌, refl, Option, none, some, Bool, true, false, not, List, [], ◌∷◌, ◌++◌, map, Str,
  text, truthy, JsNum, or_else, decimal, if◌then◌else◌,
}
use yt_trending_pipeline.Types.{ProtoTimestamp, JobStatus, JobUpdate}
use yt_trending_pipeline.Jobs.{Badge, job_status_badge, is_terminal_state}
use yt_trending_pipeline.Jobs.Time.{JsDate, format_timestamp}
use yt_trending_pipeline.Jobs.Catalog.{get_category_label, as_id}
use yt_trending_pipeline.JobDetail.{Detail}
use yt_trending_pipeline.JobDetail.Progress.{bars}

pub record StatRow : Type 0 where
  pub label : Str
  pub value : Str

pub data Connection : Type 0 where
  live connecting finished : Connection

pub data Bar : Type 0 where
  waiting : Bar
  filled : ℕ → Bar

pub record UpdateView : Type 0 where
  pub status : Badge
  pub time : Str
  pub message : Option Str
  pub counts : Str

pub record Page : Type 0 where
  pub back_href : Str
  pub title : Str
  pub status : Badge
  pub connection : Connection
  pub rows : List StatRow
  pub error : Option Str
  pub fetched : Str
  pub fetched_bar : Bar
  pub inserted : Str
  pub inserted_bar : Bar
  pub updates : List UpdateView

-- `failed` has its message and its link.
pub data DetailView : Type 0 where
  loading_job : DetailView
  failed : Str → Str → DetailView
  page : Page → DetailView

-- the link of both views
abbrev pub back_link : Str
back_link = text "/"

abbrev stat_row : Str → Str → StatRow
stat_row label value = record { label = label; value = value }

-- `${value}` of a number
abbrev undefined_text : JsNum → Str
undefined_text none = text "undefined"
undefined_text (some n) = decimal n

-- `{value}` of a number: React shows nothing for `undefined`
abbrev child : JsNum → Str
child none = []
child (some n) = decimal n

-- `fetchedPct === null && isActive ? … : <Progress value={fetchedPct ?? 100} />`
abbrev bar : Option ℕ → Bool → Bar
bar none true = waiting
bar none false = filled 100
bar (some percent) active = filled percent

abbrev non_empty : Option Str → Option Str
non_empty none = none
non_empty (some s) = if truthy s then some s else none

module _ (to_locale_string : JsDate → Str) (round_percent : ℕ → ℕ → ℕ) where
  abbrev next_retry : Option ProtoTimestamp → List StatRow
  next_retry none = []
  next_retry (some ts) =
      stat_row (text "Next Retry") (format_timestamp to_locale_string (some ts)) ∷ []

  unfoldable pub update_view : JobUpdate → UpdateView
  update_view u = record {
    status = job_status_badge u.state;
    time = format_timestamp to_locale_string u.occurred_at;
    message = non_empty u.message;
    counts =
        text "fetched "
        ++ (child u.videos_fetched ++ (text " · inserted " ++ child u.videos_inserted));
  }

  unfoldable pub stat_rows : JobStatus → List StatRow
  stat_rows job =
      stat_row (text "Region") job.region
      ∷ stat_row (text "Category") (
          get_category_label (as_id job.category_id)
          ++ (text " (" ++ (undefined_text job.category_id ++ text ")")))
      ∷ stat_row (text "Attempt") (
          decimal (or_else job.attempt 0 + 1)
          ++ (text " / " ++ decimal (or_else job.max_attempts 0)))
      ∷ stat_row (text "Created") (format_timestamp to_locale_string job.created_at)
      ∷ stat_row (text "Started") (format_timestamp to_locale_string job.started_at)
      ∷ stat_row (text "Completed") (format_timestamp to_locale_string job.completed_at)
      ∷ next_retry job.next_retry_at

  unfoldable pub page_of : JobStatus → Detail → Page
  unfolding stat_rows update_view
  page_of job s =
      let active = not (is_terminal_state job.state) in
      let percents = bars round_percent job in
      let f = decimal (or_else job.videos_fetched 0) in
      record {
        back_href = back_link;
        title = job.job_id;
        status = job_status_badge job.state;
        connection = if active then (if s.live_connected then live else connecting) else finished;
        rows = stat_rows job;
        error = non_empty job.error_message;
        fetched = f;
        fetched_bar = bar percents.fetched active;
        inserted = decimal (or_else job.videos_inserted 0) ++ (text " / " ++ f);
        inserted_bar = bar percents.inserted active;
        updates = map update_view s.updates;
      }

  -- `if (error || !job)`
  detail_or_error : Option Str → Option JobStatus → Detail → DetailView
  unfolding page_of
  detail_or_error error none s = failed (or_else error (text "Job not found")) back_link
  detail_or_error none (some job) s = page (page_of job s)
  detail_or_error (some message) (some job) s =
      if truthy message then failed message back_link else page (page_of job s)

  unfoldable pub job_detail : Detail → DetailView
  unfolding detail_or_error
  job_detail s = if s.loading then loading_job else detail_or_error s.error s.job s

bars_of_nothing :
    (round_percent : ℕ → ℕ → ℕ) (job : JobStatus)
    → or_else job.videos_fetched 0 ≡ 0
    → or_else job.videos_inserted 0 ≡ 0
    → ((bars round_percent job).fetched ≡ none) × ((bars round_percent job).inserted ≡ none)
unfolding bars
bars_of_nothing round_percent job f i = rw (bars, f, i) (refl, refl)

-- A job that ended with no video, a dead one included, is shown with both bars full, under the
-- counts "0" and "0 / 0".
page_of_ended_empty :
    (to_locale_string : JsDate → Str) (round_percent : ℕ → ℕ → ℕ) (job : JobStatus) (s : Detail)
    → is_terminal_state job.state ≡ true
    → or_else job.videos_fetched 0 ≡ 0
    → or_else job.videos_inserted 0 ≡ 0
    → let shown = page_of to_locale_string round_percent job s in
      (shown.fetched_bar ≡ filled 100)
      × (shown.inserted_bar ≡ filled 100)
      × (shown.fetched ≡ decimal 0)
      × (shown.inserted ≡ decimal 0 ++ (text " / " ++ decimal 0))
      × (shown.connection ≡ finished)
unfolding page_of
page_of_ended_empty to_locale_string round_percent job s ended f i =
    let b = bars_of_nothing round_percent job f i in
    rw (ended, b.0, b.1, f, i) (refl, refl, refl, refl, refl)
