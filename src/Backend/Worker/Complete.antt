-- ===== src/Backend/Worker/Complete.antt =====
-- backend/worker/worker.go: what follows a fetch that returned videos, while the database confirms
-- its calls.
use yt_trending_pipeline.Prelude.{
  ℕ, suc, ◌+◌, ◌≡◌, refl, ap, sym, ◌∙◌, subst, Option, none, some, Bool, true, false, List, [], ◌∷◌,
  ◌++◌, append_assoc, append-nil, Str, text, arith, length, find, is_some, All,
}
use yt_trending_pipeline.Backend.{World, JobRow, VideoRow, int32}
use yt_trending_pipeline.Backend.Database.{
  Outcome, confirmed, has_id, same_video, accepts_video, update_where, exec, update_job_completed,
  insert_video, set_completed,
}
use yt_trending_pipeline.Backend.Database.Rows.{find-update_where, find_miss}
use yt_trending_pipeline.Backend.Worker.{insert_videos, complete}

-- No video has the key of a stored one or of one before it.
abbrev pub IsNew : List VideoRow → List VideoRow → Type 0
IsNew [] stored = Unit
IsNew (v ∷ vs) stored = All (λ u. same_video v u ≡ false) stored × IsNew vs (stored ++ (v ∷ []))

find-none :
    (v : VideoRow) (stored : List VideoRow)
    → All (λ u. same_video v u ≡ false) stored
    → find (same_video v) stored ≡ none
find-none v [] h = refl
find-none v (u ∷ stored) (p, h) = find_miss (same_video v) u stored p ∙ find-none v stored h

accepts_video_new :
    (v : VideoRow) (id : Str) (w : World)
    → All (λ u. same_video v u ≡ false) w.videos
    → v.job_id ≡ id
    → is_some (find (has_id id) w.jobs) ≡ true
    → accepts_video v w ≡ true
unfolding accepts_video
accepts_video_new v id w new e there = rw (find-none v w.videos new, e, there) refl

-- The job is done with the videos of the attempt after `failures` failed ones.
pub record IsDone (id : Str) (attempt : ℕ) (message : Option Str) (vs before : List VideoRow)
    (final : World) : Type 0 where
  pub row : JobRow
  pub stored : find (has_id id) final.jobs ≡ some row
  pub state : row.state ≡ text "done"
  pub same_attempt : row.attempt ≡ attempt
  pub same_error : row.error_message ≡ message
  pub fetched : row.videos_fetched ≡ int32 (length vs)
  pub inserted : row.videos_inserted ≡ int32 (length vs)
  pub no_retry : row.next_retry_at ≡ none
  pub videos : final.videos ≡ before ++ vs

-- All the videos are stored, after `k` earlier ones.
record AllStored (vs : List VideoRow) (k : ℕ) (w : World) (r : Bool × (ℕ × World)) : Type 0 where
  ok : r.0 ≡ true
  count : r.1.0 ≡ length vs + k
  jobs : r.1.1.jobs ≡ w.jobs
  videos : r.1.1.videos ≡ w.videos ++ vs

module _ (answers : ℕ → Outcome) (now : World → ℕ) (h : (n : ℕ) → answers n ≡ confirmed) where
  pub exec_ok : (f : List JobRow → List JobRow) (w : World) → (exec answers f w).0 ≡ true
  unfolding exec
  exec_ok f w = rw (h w.calls) refl

  pub exec-jobs : (f : List JobRow → List JobRow) (w : World) → (exec answers f w).1.jobs ≡ f w.jobs
  unfolding exec
  exec-jobs f w = rw (h w.calls) refl

  -- what an update makes of the job's row
  pub exec-find :
      (id : Str) (set : JobRow → JobRow) (w : World) (row : JobRow)
      → ((old : JobRow)
          → ((set old).job_id ≡ old.job_id) × ((set old).idempotency_key ≡ old.idempotency_key))
      → find (has_id id) w.jobs ≡ some row
      → find (has_id id) (exec answers (update_where id set) w).1.jobs ≡ some (set row)
  exec-find id set w row keeps e =
      ap (find (has_id id)) (exec-jobs (update_where id set) w)
      ∙ find-update_where id set keeps w.jobs row e

  insert_videos_go_on :
      (v : VideoRow) (vs : List VideoRow) (k : ℕ) (w : World)
      → accepts_video v w ≡ true
      → insert_videos answers now (v ∷ vs) k w
        ≡ insert_videos answers now vs (suc k) (insert_video answers v w).1
  unfolding insert_videos insert_video
  insert_videos_go_on v vs k w e = rw (h w.calls, e) refl

  insert_video-videos :
      (v : VideoRow) (w : World)
      → accepts_video v w ≡ true
      → (insert_video answers v w).1.videos ≡ w.videos ++ (v ∷ [])
  unfolding insert_video
  insert_video-videos v w e = rw (h w.calls, e) refl

  insert_videos_new :
      (id : Str) (vs : List VideoRow) (k : ℕ) (w : World)
      → IsNew vs w.videos
      → All (λ v. v.job_id ≡ id) vs
      → is_some (find (has_id id) w.jobs) ≡ true
      → AllStored vs k w (insert_videos answers now vs k w)
  unfolding insert_videos insert_video
  insert_videos_new id [] k w new own there = record {
    ok = refl;
    count = omega arith;
    jobs = refl;
    videos = sym (append-nil w.videos);
  }
  insert_videos_new id (v ∷ vs) k w (fresh, new) (mine, own) there =
      let accepted = accepts_video_new v id w fresh mine there in
      let next = (insert_video answers v w).1 in
      let grown = insert_video-videos v w accepted in
      let rest =
        insert_videos_new id vs (suc k) next (subst (IsNew vs) (sym grown) new) own there in
      subst (AllStored (v ∷ vs) k w) (sym (insert_videos_go_on v vs k w accepted)) (record {
        ok = rest.ok;
        count = rest.count ∙ omega arith;
        jobs = rest.jobs;
        videos =
            rest.videos ∙ ap (λ stored. stored ++ vs) grown ∙ append_assoc w.videos (v ∷ []) vs;
      })

  complete_ok :
      (id : Str) (vs : List VideoRow) (w : World)
      → (insert_videos answers now vs 0 w).0 ≡ true
      → let (inserted, after) = (insert_videos answers now vs 0 w).1 in
        complete answers now id vs w
        ≡ (exec answers
            (update_where id (set_completed (now after) (int32 (length vs)) (int32 inserted)))
            after).1
  unfolding complete update_job_completed
  complete_ok id vs w e = rw e refl

  pub complete-IsDone :
      (id : Str) (row : JobRow) (vs : List VideoRow) (w : World)
      → IsNew vs w.videos
      → All (λ v. v.job_id ≡ id) vs
      → find (has_id id) w.jobs ≡ some row
      → IsDone id row.attempt row.error_message vs w.videos (complete answers now id vs w)
  unfolding set_completed exec
  complete-IsDone id row vs w new own there =
      let s = insert_videos_new id vs 0 w new own (ap is_some there) in
      let (inserted, after) = (insert_videos answers now vs 0 w).1 in
      let set = set_completed (now after) (int32 (length vs)) (int32 inserted) in
      subst (IsDone id row.attempt row.error_message vs w.videos) (sym (complete_ok id vs w s.ok))
        (record {
          row = set row;
          stored =
              exec-find id set after row (λ old. (refl, refl))
                (ap (find (has_id id)) s.jobs ∙ there);
          state = refl;
          same_attempt = refl;
          same_error = refl;
          fetched = refl;
          inserted = ap int32 (s.count ∙ omega arith);
          no_retry = refl;
          videos = s.videos;
        })
