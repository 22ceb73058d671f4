-- ===== src/Storage.antt =====
-- frontend/components/jobs-list.tsx: the job ids and their settings that the browser keeps. Each
-- key of `localStorage` holds JSON that only these functions write, so it is taken as the value
-- that it parses to.
pub mod Recent
use yt_trending_pipeline.Prelude.{
  ℕ, Option, none, some, List, [], ◌∷◌, Str, same, take, keep, not, or_else, ℤ, if◌then◌else◌,
}

-- `Record<string, { maxResults: number }>`; a `NaN` is written as `null`, hence `none`.
abbrev pub Meta : Type 0
Meta = List (Str × Option ℤ)

-- `none` is a key that was never set.
pub record Storage : Type 0 where
  pub job_ids : Option (List Str)
  pub job_meta : Option Meta

-- `typeof window === "undefined"` on the server
pub data Host : Type 0 where
  server : Host
  browser : Storage → Host

abbrev pub max_stored : ℕ
max_stored = 20

unfoldable pub remember : Str → List Str → List Str
remember job_id existing = take max_stored (job_id ∷ keep (λ id. not (same id job_id)) existing)

unfoldable pub store_job_id : Str → Host → Host
unfolding remember
store_job_id job_id server = server
store_job_id job_id (browser s) =
    browser (record s { job_ids = some (remember job_id (or_else s.job_ids [])) })

-- `meta[jobId] = { maxResults }`
unfoldable pub put : Str → Option ℤ → Meta → Meta
put job_id max_results [] = (job_id, max_results) ∷ []
put job_id max_results ((id, old) ∷ meta) =
    if same id job_id then (id, max_results) ∷ meta else (id, old) ∷ put job_id max_results meta

-- `meta[jobId]?.maxResults ?? null`
unfoldable pub max_results_of : Str → Meta → Option ℤ
max_results_of job_id [] = none
max_results_of job_id ((id, max_results) ∷ meta) =
    if same id job_id then max_results else max_results_of job_id meta

unfoldable pub store_job_meta : Str → Option ℤ → Host → Host
unfolding put
store_job_meta job_id max_results server = server
store_job_meta job_id max_results (browser s) =
    browser (record s { job_meta = some (put job_id max_results (or_else s.job_meta [])) })

unfoldable pub get_job_max_results : Str → Host → Option ℤ
unfolding max_results_of
get_job_max_results job_id server = none
get_job_max_results job_id (browser s) = max_results_of job_id (or_else s.job_meta [])

unfoldable pub get_stored_job_ids : Host → List Str
get_stored_job_ids server = []
get_stored_job_ids (browser s) = or_else s.job_ids []
