-- ===== src/Backend/Youtube/Stored.antt =====
-- backend/youtube/client.go and backend/worker/worker.go: what an answer of the YouTube API becomes.
use yt_trending_pipeline.Prelude.{
  ℕ, suc, ◌≡◌, refl, ap, sym, subst, if◌then◌else◌, ◌∙◌, Option, some, Bool, true, false, ◌&&◌,
  List, [], ◌∷◌, ◌++◌, map, Str, same, find, All, All-append, arith, length,
}
use yt_trending_pipeline.Storage.Recent.{IsDistinct}
use yt_trending_pipeline.Backend.{World, JobRow, JobRequest, VideoRow, Job}
use yt_trending_pipeline.Backend.Database.{Outcome, confirmed, has_id, same_video}
use yt_trending_pipeline.Backend.Worker.{process_job}
use yt_trending_pipeline.Backend.Worker.Complete.{IsNew, IsDone}
use yt_trending_pipeline.Backend.Worker.Result.{process_job-IsDone}
use yt_trending_pipeline.Backend.Youtube.{
  Item, decoded, panicked, fetched, is_negative, read_answer, to_video, to_videos, fetch_trending,
}

and_false_right : (a b : Bool) → b ≡ false → a && b ≡ false
and_false_right true b h = h
and_false_right false b h = refl

-- New for the stored videos, and with ids that differ from one another.
IsNew-of :
    (vs stored : List VideoRow)
    → All (λ v. All (λ u. same_video v u ≡ false) stored) vs
    → IsDistinct (map (λ v. v.video_id) vs)
    → IsNew vs stored
IsNew-of [] stored a d = tt
IsNew-of (v ∷ vs) stored a d = (a.0, IsNew-of vs (stored ++ (v ∷ [])) (grow vs a.1 d.0) d.1)
  where
    grow :
        (us : List VideoRow)
        → All (λ u. All (λ t. same_video u t ≡ false) stored) us
        → All (λ id. same id v.video_id ≡ false) (map (λ u. u.video_id) us)
        → All (λ u. All (λ t. same_video u t ≡ false) (stored ++ (v ∷ []))) us
    grow [] b e = tt
    grow (u ∷ us) b e = (
      All-append (λ t. same_video u t ≡ false) stored (v ∷ []) b.0 (rw e.0 refl, tt),
      grow us b.1 e.1,
    )

module _ (parse_time : Str → ℕ) (clock : ℕ → ℕ) (req : JobRequest) (id : Str) where
  own_lem :
      (i : ℕ) (items : List Item)
      → All (λ v. v.job_id ≡ id) (to_videos parse_time clock req id i items)
  unfolding to_videos to_video
  own_lem i [] = tt
  own_lem i (item ∷ items) = (refl, own_lem (suc i) items)

  ids_lem :
      (i : ℕ) (items : List Item)
      → map (λ v. v.video_id) (to_videos parse_time clock req id i items)
        ≡ map (λ item. item.id) items
  unfolding to_videos to_video
  ids_lem i [] = refl
  ids_lem i (item ∷ items) = ap (◌∷◌ item.id) (ids_lem (suc i) items)

  length_lem :
      (i : ℕ) (items : List Item)
      → length (to_videos parse_time clock req id i items) ≡ length items
  unfolding to_videos
  length_lem i [] = refl
  length_lem i (item ∷ items) = omega (arith, length_lem (suc i) items)

  new_lem :
      (i : ℕ) (items : List Item) (stored : List VideoRow)
      → All (λ u. same id u.job_id ≡ false) stored
      → All
          (λ v. All (λ u. same_video v u ≡ false) stored)
          (to_videos parse_time clock req id i items)
  unfolding to_videos to_video
  new_lem i [] stored a = tt
  new_lem i (item ∷ items) stored a = (each stored a, new_lem (suc i) items stored a)
    where
      each :
          (us : List VideoRow)
          → All (λ u. same id u.job_id ≡ false) us
          → All (λ u. same_video (to_video parse_time clock req id i item) u ≡ false) us
      each [] b = tt
      each (u ∷ us) b = (
        and_false_right (same item.id u.video_id) _
            (and_false_right (same req.region u.region) _ b.0),
        each us b.1,
      )

returned_lem :
    (negative : Bool) (made vs : List VideoRow)
    → (if negative then panicked else fetched made) ≡ fetched vs
    → made ≡ vs
returned_lem true made vs e = absurd (ground arith)
returned_lem false made vs e = ground arith

module _ (answers : ℕ → Outcome) (now : World → ℕ) (h : (n : ℕ) → answers n ≡ confirmed)
    (parse_time : Str → ℕ) (clock : ℕ → ℕ) where
  -- Let the first answer of the YouTube API decode to items with different ids, whatever its
  -- status, and let `FetchTrending` return. Then the job ends as done with one stored video for
  -- each item, if the database confirms its calls, the job has a row and no stored video is of the
  -- job. A body without items ends so too, with no video.
  pub process_job-fetch_trending :
      (job : Job) (w : World) (row : JobRow) (status : ℕ) (items : List Item)
      (fetch : ℕ → Option (List VideoRow)) (vs : List VideoRow)
      → fetch_trending parse_time clock job.req job.id (decoded status items) ≡ fetched vs
      → fetch 1 ≡ some vs
      → IsDistinct (map (λ item. item.id) items)
      → All (λ u. same job.id u.job_id ≡ false) w.videos
      → find (has_id job.id) w.jobs ≡ some row
      → IsDone job.id row.attempt row.error_message vs w.videos
          (process_job answers now fetch job w)
        × (length vs ≡ length items)
  unfolding fetch_trending read_answer
  process_job-fetch_trending job w row status items fetch vs returns first d other there =
      let req = job.req in
      let id = job.id in
      let made = to_videos parse_time clock req id 0 items in
      let same_videos = returned_lem (is_negative req.max_results) made vs returns in
      let first_made : fetch 1 ≡ some made = first ∙ ap some (sym same_videos) in
      let new =
        IsNew-of made w.videos (new_lem parse_time clock req id 0 items w.videos other)
          (subst IsDistinct (sym (ids_lem parse_time clock req id 0 items)) d) in
      let ended =
        process_job-IsDone answers now h fetch job w row made 0 (omega arith)
          (λ i l. absurd (omega arith)) first_made new (own_lem parse_time clock req id 0 items)
          there in
      (
        subst
            (λ us.
              IsDone id row.attempt row.error_message us w.videos
                (process_job answers now fetch job w))
            same_videos ended,
        ap length (sym same_videos) ∙ length_lem parse_time clock req id 0 items,
      )
