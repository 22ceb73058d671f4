-- ===== src/Backend/System/Shown.antt =====
-- backend/worker/worker.go and backend/db/db.go: the videos that a job fetched are those that
-- `GetVideos` selects.
use yt_trending_pipeline.Prelude.{
  ℕ, ◌+◌, ◌≤◌, ◌<◌, ◌≡◌, refl, ap, ◌∙◌, subst, Option, none, some, Bool, true, List, [], ◌∷◌, ◌++◌,
  Str, keep, any, All, All-map, find, length, take_all, pos, ℤ, Bool-cases, inl, inr,
}
use yt_trending_pipeline.Backend.{World, JobRow, VideoRow, Job}
use yt_trending_pipeline.Backend.Database.{Outcome, confirmed, has_id}
use yt_trending_pipeline.Backend.Database.Select.{fits, all_videos, select_videos, page_of}
use yt_trending_pipeline.Backend.Database.Latest.{same_id}
use yt_trending_pipeline.Backend.Database.Newest.{IsNewest}
use yt_trending_pipeline.Backend.Database.Selected.{all_videos-IsNewest, all_videos_complete}
use yt_trending_pipeline.Backend.Worker.{max_attempts, process_job}
use yt_trending_pipeline.Backend.Worker.Complete.{IsNew}
use yt_trending_pipeline.Backend.Worker.Result.{process_job-IsDone}

keep-append :
    (p : VideoRow → Bool) (xs ys : List VideoRow) → keep p (xs ++ ys) ≡ keep p xs ++ keep p ys
keep-append p [] ys = refl
keep-append p (x ∷ xs) ys = elim (Bool-cases (p x)) [
  | inl e ↦ rw e (ap (◌∷◌ x) (keep-append p xs ys))
  | inr e ↦ rw e (keep-append p xs ys)
]

All-append_right : (P : VideoRow → Type 0) (xs ys : List VideoRow) → All P (xs ++ ys) → All P ys
All-append_right P [] ys h = h
All-append_right P (x ∷ xs) ys h = All-append_right P xs ys h.1

-- The page has each of the videos, and none of its rows is older than theirs.
pub record IsShown (videos page : List VideoRow) : Type 0 where
  pub all_there : All (λ v. any (same_id v.video_id) page ≡ true) videos
  pub newest : All (IsNewest videos) page

stored-IsShown :
    (region : Str) (category_id : ℤ) (fetched_after fetched_before : Option ℕ)
    (before vs rows : List VideoRow)
    → rows ≡ before ++ vs
    → let p = fits region category_id fetched_after fetched_before in
      IsShown (keep p vs) (all_videos region category_id fetched_after fetched_before rows)
stored-IsShown region category_id fetched_after fetched_before before vs rows e =
    let p = fits region category_id fetched_after fetched_before in
    let all = all_videos region category_id fetched_after fetched_before rows in
    let split = ap (keep p) e ∙ keep-append p before vs in
    record {
      all_there = All-append_right _ (keep p before) (keep p vs) (
          subst (All (λ x. any (same_id x.video_id) all ≡ true)) split
            (all_videos_complete region category_id fetched_after fetched_before rows));
      newest =
          All-map all (λ w. All-append_right _ (keep p before) (keep p vs))
            (subst (λ found. All (IsNewest found) all) split
              (all_videos-IsNewest region category_id fetched_after fetched_before rows));
    }

module _ (answers : ℕ → Outcome) (now : World → ℕ) (h : (n : ℕ) → answers n ≡ confirmed) where
  -- Let a job fetch its videos after fewer than three failures, let the database confirm its calls
  -- and the job have a row, and let the videos carry its id and have new keys. Then a query for
  -- videos from the first on, whose limit is not less than the number of videos that it finds,
  -- shows each of the fetched videos that fit it, and no older snapshot of one of them.
  pub process_job-IsShown :
      (fetch : ℕ → Option (List VideoRow)) (job : Job) (w : World) (row : JobRow)
      (vs : List VideoRow) (failures : ℕ) (region : Str) (category_id : ℤ)
      (fetched_after fetched_before : Option ℕ) (limit : ℕ)
      → failures < max_attempts
      → ((i : ℕ) → i < failures → fetch (1 + i) ≡ none)
      → fetch (1 + failures) ≡ some vs
      → IsNew vs w.videos
      → All (λ v. v.job_id ≡ job.id) vs
      → find (has_id job.id) w.jobs ≡ some row
      → length (
          all_videos region category_id fetched_after fetched_before
            (process_job answers now fetch job w).videos)
        ≤ limit
      → (page : List VideoRow) × (select_videos region category_id fetched_after fetched_before
            (pos limit)
            (pos 0)
            (process_job answers now fetch job w).videos
          ≡ some page)
        × IsShown (keep (fits region category_id fetched_after fetched_before) vs) page
  unfolding select_videos page_of
  process_job-IsShown fetch job w row vs failures region category_id fetched_after fetched_before
        limit lt no_fetch ends new own there few =
      let rows = (process_job answers now fetch job w).videos in
      let done =
        process_job-IsDone answers now h fetch job w row vs failures lt no_fetch ends new own
          there in
      (
        all_videos region category_id fetched_after fetched_before rows,
        ap some (take_all limit _ few),
        stored-IsShown region category_id fetched_after fetched_before w.videos vs rows done.videos,
      )
