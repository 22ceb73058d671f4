-- ===== src/Backend/Gateway/Submitted.antt =====
-- frontend/components/job-form.tsx, frontend/lib/api.ts, backend/api/server.go and backend/etl/server.go:
-- a submit on its way from the form to the table of jobs, and back to the page of its job.
use yt_trending_pipeline.Prelude.{
  or_else, pos, ℕ, suc, ◌≡◌, refl, ap, sym, subst, ◌∙◌, Option, none, some, true, List, [], ◌∷◌,
  ◌++◌, Str, text, truthy, find, All, IsPlain,
}
use yt_trending_pipeline.Types.{SubmitJobRequest, JobResponse}
use yt_trending_pipeline.Api
use yt_trending_pipeline.Storage.{Storage, browser, remember, get_stored_job_ids}
use yt_trending_pipeline.JobForm.{Form, Submitted, begin_submit, submitted, end_submit}
use yt_trending_pipeline.JobForm.Submit.{end_submit-fulfilled}
use yt_trending_pipeline.App.{job_detail_page}
use yt_trending_pipeline.App.Links.{at_route, page_of-job}
use yt_trending_pipeline.Backend.{World, JobRow, JobRequest}
use yt_trending_pipeline.Backend.Database.{Outcome, confirmed, has_id, has_key, new_row}
use yt_trending_pipeline.Backend.Etl
use yt_trending_pipeline.Backend.Etl.{created, process_job, respond, enqueue, after_lookup}
use yt_trending_pipeline.Backend.Etl.Resubmit.{to_lookup, process_job_looks, after_lookup_new}
use yt_trending_pipeline.Backend.Gateway.Handlers
use yt_trending_pipeline.Backend.Gateway.Handlers.{Response, handle_submit_job}
use yt_trending_pipeline.Backend.Gateway.Settled.{fetched}

-- the world after the lookup of the key
abbrev pub looked : World → World
looked w = record w { calls = suc w.calls }

-- the answer of the gateway to the answer of the service
abbrev answer_of : Option Etl.JobResponse × World → Response Str × World
answer_of = Handlers.submitted

handle_submit_job_lem :
    (submit : JobRequest → World → Option Etl.JobResponse × World) (req : JobRequest) (w : World)
    → handle_submit_job submit (some req) w ≡ answer_of (submit req w)
unfolding handle_submit_job
handle_submit_job_lem submit req w = refl

-- What gin binds of the JSON of a submit: the texts as they are, and the numbers, where `NaN` is
-- sent as null and leaves a zero. There is no metadata.
pub record IsBound (sent : SubmitJobRequest) (req : JobRequest) : Type 0 where
  pub region : req.region ≡ sent.region
  pub category_id : req.category_id ≡ or_else sent.category_id (pos 0)
  pub max_results : req.max_results ≡ or_else sent.max_results (pos 0)
  pub idempotency_key : req.idempotency_key ≡ sent.idempotency_key
  pub metadata : req.metadata ≡ none

-- a job that waits, with what was sent
pub record IsQueued (id : Str) (time : ℕ) (sent : SubmitJobRequest) (row : JobRow) : Type 0 where
  pub job_id : row.job_id ≡ id
  pub idempotency_key : row.idempotency_key ≡ sent.idempotency_key
  pub state : row.state ≡ text "queued"
  pub region : row.region ≡ sent.region
  pub category_id : row.category_id ≡ or_else sent.category_id (pos 0)
  pub max_results : row.max_results ≡ or_else sent.max_results (pos 0)
  pub attempts : (row.attempt ≡ 0) × (row.max_attempts ≡ 3)
  pub videos : (row.videos_fetched ≡ pos 0) × (row.videos_inserted ≡ pos 0)
  pub no_error : row.error_message ≡ none
  pub times :
      (row.created_at ≡ time)
      × (row.started_at ≡ none)
      × (row.completed_at ≡ none)
      × (row.next_retry_at ≡ none)
  pub metadata : row.metadata ≡ []

new_row-IsQueued :
    (id : Str) (time : ℕ) (sent : SubmitJobRequest) (req : JobRequest)
    → IsBound sent req
    → IsQueued id time sent (new_row id time req)
unfolding new_row
new_row-IsQueued id time sent req b = record {
  job_id = refl;
  idempotency_key = b.idempotency_key;
  state = refl;
  region = b.region;
  category_id = b.category_id;
  max_results = b.max_results;
  attempts = (refl, refl);
  videos = (refl, refl);
  no_error = refl;
  times = (refl, refl, refl, refl);
  metadata = ap (λ m. or_else m []) b.metadata;
}

-- What a submit of the form has left, in the backend and in the browser: one row more, and the job
-- with what gin has bound at the end of the channel; the id in the storage, and the page of the job.
pub record IsSubmitted (sent : SubmitJobRequest) (id : Str) (time : ℕ) (req : JobRequest)
    (w after : World) (s : Storage) (left : Submitted) : Type 0 where
  pub row : JobRow
  pub jobs : after.jobs ≡ w.jobs ++ (row ∷ [])
  pub queued : IsQueued id time sent row
  pub queue : after.queue ≡ w.queue ++ (record { id = id; req = req } ∷ [])
  pub bound : IsBound sent req
  pub stored : get_stored_job_ids left.host ≡ remember id (get_stored_job_ids (browser s))
  pub page : at_route left.route ≡ some (job_detail_page id)

module _ (answers : ℕ → Outcome) (uuid : World → Str) (now : World → ℕ)
    (confirms : (n : ℕ) → answers n ≡ confirmed)
    (fresh : (w : World) → find (has_id (uuid w)) w.jobs ≡ none)
    (bind : SubmitJobRequest → Option JobRequest)
    (bind_lem : (sent : SubmitJobRequest) (req : JobRequest)
      → bind sent ≡ some req
      → IsBound sent req)
    (read_job : Str → JobResponse) (read_job_id : (id : Str) → (read_job id).job_id ≡ id) where
  submit_job_new :
      (req : JobRequest) (w : World)
      → find (has_key req.idempotency_key) w.jobs ≡ none
      → let v = looked w in
        Etl.submit_job answers uuid now req w
        ≡ respond answers uuid now req (
          created (uuid v),
          record v { jobs = v.jobs ++ (new_row (uuid v) (now v) req ∷ []); calls = suc v.calls },
        )
  unfolding Etl.submit_job
  submit_job_new req w e = ap (respond answers uuid now req) (
      process_job_looks answers uuid now confirms fresh req w
      ∙ ap (λ o. after_lookup answers uuid now req (to_lookup o, looked w)) e
      ∙ after_lookup_new answers uuid now confirms fresh req (looked w) e)

  route_lem :
      (id : Str) (form : Form) (s : Storage)
      → All IsPlain id
      → truthy id ≡ true
      → let left = end_submit form (Api.fulfilled (read_job id)) (begin_submit form) (browser s) in
        (get_stored_job_ids left.host ≡ remember id (get_stored_job_ids (browser s)))
        × (at_route left.route ≡ some (job_detail_page id))
  route_lem id form s h t =
      let stored = end_submit-fulfilled form (begin_submit form) (read_job id) s in
      (
        stored.0 ∙ ap (λ i. remember i (get_stored_job_ids (browser s))) (read_job_id id),
        ap at_route (stored.2 ∙ ap (λ i. some (text "/jobs/" ++ i)) (read_job_id id))
            ∙ page_of-job id h t,
      )

  created-IsSubmitted :
      (sent : SubmitJobRequest) (form : Form) (s : Storage) (req : JobRequest) (w : World)
      → let v = looked w in
        IsBound sent req
        → All IsPlain (uuid v)
        → truthy (uuid v) ≡ true
        → let (response, after) = answer_of (
            respond answers uuid now req (
              created (uuid v),
              record v {
                jobs = v.jobs ++ (new_row (uuid v) (now v) req ∷ []);
                calls = suc v.calls;
              },
            )) in
          IsSubmitted sent (uuid v) (now v) req w after s (
            end_submit form
              (Api.submit_job (fetched read_job response))
              (begin_submit form)
              (browser s))
  unfolding respond enqueue Api.submit_job
  created-IsSubmitted sent form s req w b h t =
      let v = looked w in
      let left = route_lem (uuid v) form s h t in
      record {
        row = new_row (uuid v) (now v) req;
        jobs = refl;
        queued = new_row-IsQueued (uuid v) (now v) sent req b;
        queue = refl;
        bound = b;
        stored = left.0;
        page = left.1;
      }

  -- A submit of the form whose key is new, if the gateway can bind it and the database confirms its
  -- calls: the table has one row more, queued under a new id with the region, the category, the
  -- number of results and the key that the form sends, and nothing fetched; the job is at the end of
  -- the channel with the same; its id heads the ids in the browser's storage; and the form goes on to
  -- the page of that job. gin binds the fields of a body as they are, new ids are new, not empty, and
  -- of letters, digits, dashes and underscores, and the dashboard reads the id of the answer.
  pub submit_job-IsSubmitted :
      (sha256 : Str → List ℕ) (time : ℕ) (form : Form) (s : Storage) (req : JobRequest) (w : World)
      → bind (submitted sha256 time form) ≡ some req
      → find (has_key req.idempotency_key) w.jobs ≡ none
      → All IsPlain (uuid (looked w))
      → truthy (uuid (looked w)) ≡ true
      → let (response, after) =
          handle_submit_job
            (Etl.submit_job answers uuid now)
            (bind (submitted sha256 time form))
            w in
        IsSubmitted (submitted sha256 time form) (uuid (looked w)) (now (looked w)) req w after s (
          end_submit form
            (Api.submit_job (fetched read_job response))
            (begin_submit form)
            (browser s))
  submit_job-IsSubmitted sha256 time form s req w b e h t =
      subst
        (λ r.
          IsSubmitted (submitted sha256 time form) (uuid (looked w)) (now (looked w)) req w r.1 s (
            end_submit form (Api.submit_job (fetched read_job r.0)) (begin_submit form)
              (browser s)))
        (sym (
          ap (λ o. handle_submit_job (Etl.submit_job answers uuid now) o w) b
          ∙ handle_submit_job_lem (Etl.submit_job answers uuid now) req w
          ∙ ap answer_of (submit_job_new req w e)))
        (created-IsSubmitted (submitted sha256 time form) form s req w
          (bind_lem (submitted sha256 time form) req b) h t)
