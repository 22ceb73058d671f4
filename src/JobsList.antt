-- ===== src/JobsList.antt =====
-- frontend/components/jobs-list.tsx: the list of recent jobs. `fetchJobs` awaits the answers, so it
-- is two steps; refreshes may overlap, and each step works on the state that it finds.
pub mod Refresh
use yt_trending_pipeline.Prelude.{
  ℕ, Option, none, some, Bool, true, false, List, [], ◌∷◌, ◌++◌, map, Str, text, take, or_else,
  decimal, if◌then◌else◌,
}
use yt_trending_pipeline.Types.{JobStatus}
use yt_trending_pipeline.Jobs.{Badge, job_status_badge}
use yt_trending_pipeline.Jobs.Time.{JsDate, format_relative_time}
use yt_trending_pipeline.Jobs.Catalog.{get_category_label, as_id}
use yt_trending_pipeline.Api.{Reply, Settled, fulfilled, rejected, get_job_status}
use yt_trending_pipeline.Storage.{Host, get_stored_job_ids}

pub record Jobs : Type 0 where
  pub jobs : List JobStatus
  pub loading : Bool
  pub refreshing : Bool
  pub last_updated : Option ℕ

unfoldable pub initial : Jobs
initial = record { jobs = []; loading = true; refreshing = false; last_updated = none }

-- Mounting and the button refresh visibly; the interval of five seconds and the event
-- `job_submitted` do not.
pub data Trigger : Type 0 where
  mounted clicked interval job_submitted : Trigger

abbrev pub silent : Trigger → Bool
silent mounted = false
silent clicked = false
silent interval = true
silent job_submitted = true

-- `fetchJobs` up to the `await`, on the stored ids: the new state and the ids that are asked for
unfoldable pub begin_ids : Bool → List Str → Jobs → Jobs × List Str
begin_ids silent [] s =
    let started = if silent then s else record s { refreshing = true } in
    (record started { jobs = []; loading = false; refreshing = false }, [])
begin_ids silent (id ∷ ids) s = (if silent then s else record s { refreshing = true }, id ∷ ids)

unfoldable pub begin_fetch : Bool → Host → Jobs → Jobs × List Str
unfolding begin_ids
begin_fetch silent host s = begin_ids silent (get_stored_job_ids host) s

-- the loop over the results of `Promise.allSettled`
unfoldable pub fetched : List (Settled JobStatus) → List JobStatus
fetched [] = []
fetched (fulfilled job ∷ results) = job ∷ fetched results
fetched (rejected message ∷ results) = fetched results

-- from the `await` on
unfoldable pub end_fetch : ℕ → List (Settled JobStatus) → Jobs → Jobs
end_fetch now results s = record s {
  jobs = fetched results;
  last_updated = some now;
  loading = false;
  refreshing = false;
}

-- from the `await` on, if there was one
resume : ℕ → (Str → Reply JobStatus) → Jobs × List Str → Jobs
unfolding end_fetch
resume now gateway (started, []) = started
resume now gateway (started, id ∷ ids) =
    end_fetch now (map (λ asked. get_job_status (gateway asked)) (id ∷ ids)) started

-- A refresh with nothing in between, against a gateway that answers by id.
unfoldable pub fetch_jobs : ℕ → (Str → Reply JobStatus) → Trigger → Host → Jobs → Jobs
unfolding begin_fetch resume
fetch_jobs now gateway trigger host s = resume now gateway (begin_fetch (silent trigger) host s)

pub record Row : Type 0 where
  pub key : Str
  pub href : Str
  pub short_id : Str
  pub region : Str
  pub category : Str
  pub status : Badge
  pub videos : Str
  pub created : Str

pub data Content : Type 0 where
  loading_jobs no_jobs : Content
  table : List Row → Content

pub record ListView : Type 0 where
  pub description : Str
  pub refresh_disabled : Bool
  pub spinning : Bool
  pub content : Content

module _ (to_locale_string : JsDate → Str) (to_locale_time_string : ℕ → Str) (now : ℕ) where
  unfoldable pub row : JobStatus → Row
  row job = record {
    key = job.job_id;
    href = text "/jobs/" ++ job.job_id;
    short_id = take 8 job.job_id ++ text "…";
    region = job.region;
    category = get_category_label (as_id job.category_id);
    status = job_status_badge job.state;
    videos =
        decimal (or_else job.videos_inserted 0)
        ++ (text "/" ++ decimal (or_else job.videos_fetched 0));
    created = format_relative_time to_locale_string now job.created_at;
  }

  unfoldable pub content : Jobs → Content
  unfolding row
  content s =
      if s.loading
      then loading_jobs
      else elim s.jobs [ [] ↦ no_jobs | job ∷ jobs ↦ table (row job ∷ map row jobs) ]

  unfoldable pub jobs_list : Jobs → ListView
  unfolding content
  jobs_list s = record {
    description = elim s.last_updated [
      | none ↦ text "Auto-refreshes every 5 seconds"
      | some time ↦ text "Last updated " ++ to_locale_time_string time
    ];
    refresh_disabled = s.refreshing;
    spinning = s.refreshing;
    content = content s;
  }
