-- ===== src/JobsList/Refresh.antt =====
-- frontend/components/jobs-list.tsx: what a refresh shows.
use yt_trending_pipeline.Prelude.{
  ℕ, ◌≡◌, refl, Bool, true, false, List, [], ◌∷◌, map, Str, same, keep, All-keep, arith,
  if◌then◌else◌,
}
use yt_trending_pipeline.Types.{JobStatus}
use yt_trending_pipeline.Api.{Reply, Settled, fulfilled, rejected, get_job_status}
use yt_trending_pipeline.Storage.{Host, get_stored_job_ids}
use yt_trending_pipeline.Storage.Recent.{IsDistinct}
use yt_trending_pipeline.JobsList.{Jobs, Trigger, silent, fetched, begin_ids, resume, fetch_jobs}

abbrev pub is_fulfilled : {A : Type 0} → Settled A → Bool
is_fulfilled (fulfilled a) = true
is_fulfilled (rejected message) = false

-- the ids that the gateway has an answer for
abbrev pub answers : (Str → Reply JobStatus) → Str → Bool
answers gateway id = is_fulfilled (get_job_status (gateway id))

abbrev pub ids_of : List JobStatus → List Str
ids_of = map (λ job. job.job_id)

-- The gateway answers with the job that was asked for.
abbrev pub IsHonest : (Str → Reply JobStatus) → Type 0
IsHonest gateway =
    (id : Str) (job : JobStatus) → get_job_status (gateway id) ≡ fulfilled job → job.job_id ≡ id

fetched_step :
    (id : Str) (r : Settled JobStatus) (results : List (Settled JobStatus)) (rest : List Str)
    → ((job : JobStatus) → r ≡ fulfilled job → job.job_id ≡ id)
    → ids_of (fetched results) ≡ rest
    → ids_of (fetched (r ∷ results)) ≡ (if is_fulfilled r then id ∷ rest else rest)
unfolding fetched
fetched_step id (fulfilled job) results rest honest h = cc (honest job refl, h)
fetched_step id (rejected message) results rest honest h = h

ids_of-fetched :
    (gateway : Str → Reply JobStatus) (ids : List Str)
    → IsHonest gateway
    → ids_of (fetched (map (λ asked. get_job_status (gateway asked)) ids))
      ≡ keep (answers gateway) ids
unfolding fetched
ids_of-fetched gateway [] honest = refl
ids_of-fetched gateway (id ∷ ids) honest =
    fetched_step id (get_job_status (gateway id)) _ _ (honest id)
      (ids_of-fetched gateway ids honest)

IsDistinct-keep : (p : Str → Bool) (ids : List Str) → IsDistinct ids → IsDistinct (keep p ids)
IsDistinct-keep p [] h = tt
IsDistinct-keep p (id ∷ ids) h =
    ground (arith, IsDistinct-keep p ids h.1, All-keep (λ other. same other id ≡ false) p ids h.0)

module _ (now : ℕ) (gateway : Str → Reply JobStatus) (trigger : Trigger) (s : Jobs) where
  fetch_ids :
      (ids : List Str)
      → IsHonest gateway
      → let after = resume now gateway (begin_ids (silent trigger) ids s) in
        (ids_of after.jobs ≡ keep (answers gateway) ids)
        × (after.loading ≡ false)
        × (after.refreshing ≡ false)
  unfolding resume begin_ids
  fetch_ids [] honest = (refl, refl, refl)
  fetch_ids (id ∷ ids) honest = (ids_of-fetched gateway (id ∷ ids) honest, refl, refl)

  -- Whatever triggers it, a refresh ends with no spinner and shows, in the stored order, exactly the
  -- jobs that the gateway answers for; distinct stored ids give distinct rows.
  pub fetch_jobs_lem :
      (host : Host)
      → IsHonest gateway
      → IsDistinct (get_stored_job_ids host)
      → let after = fetch_jobs now gateway trigger host s in
        (ids_of after.jobs ≡ keep (answers gateway) (get_stored_job_ids host))
        × (after.loading ≡ false)
        × (after.refreshing ≡ false)
        × IsDistinct (ids_of after.jobs)
  unfolding fetch_jobs
  fetch_jobs_lem host honest distinct =
      let (shown, loaded, quiet) = fetch_ids (get_stored_job_ids host) honest in
      (
        shown,
        loaded,
        quiet,
        rw shown (IsDistinct-keep (answers gateway) (get_stored_job_ids host) distinct),
      )
