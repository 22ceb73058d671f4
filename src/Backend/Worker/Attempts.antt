-- ===== src/Backend/Worker/Attempts.antt =====
-- backend/worker/worker.go: the loop of attempts, while the database confirms its calls.
use yt_trending_pipeline.Prelude.{
  ℕ, zero, suc, ◌+◌, ◌*◌, ◌^◌, ◌<◌, ◌≡◌, refl, ap, sym, ◌∙◌, subst, Option, none, some, true, List,
  Str, text, arith, if◌then◌else◌, find, All, ◌==◌,
}
use yt_trending_pipeline.Backend.{World, JobRow, VideoRow}
use yt_trending_pipeline.Backend.Database.{
  Outcome, confirmed, has_id, update_where, exec, update_job_retrying, update_job_dead,
  set_retrying, set_dead,
}
use yt_trending_pipeline.Backend.Database.Rows.{find-update_where}
use yt_trending_pipeline.Backend.Worker.{give_up, retry, attempts}
use yt_trending_pipeline.Backend.Worker.Complete.{
  IsNew, IsDone, exec_ok, exec-jobs, exec-find, complete-IsDone,
}

abbrev pub fetch_error : Str
fetch_error = text "Error fetching data from YouTube API."

-- the column `attempt` after `failures` failed attempts from number `attempt` on
abbrev pub last_failed : ℕ → ℕ → ℕ → ℕ
last_failed zero attempt old = old
last_failed (suc failures) attempt old = last_failed failures (suc attempt) attempt

abbrev pub last_error : ℕ → Option Str → Option Str
last_error zero old = old
last_error (suc failures) old = last_error failures (some fetch_error)

abbrev pub gave_up : Str
gave_up = text "Max retry attempts reached."

last_failed_lem :
    (failures attempt old : ℕ)
    → last_failed failures (suc attempt) old ≡ (if failures == 0 then old else failures + attempt)
last_failed_lem zero attempt old = refl
last_failed_lem (suc failures) attempt old =
    ground (arith, last_failed_lem failures (suc attempt) (suc attempt))

pub last_failed_first :
    (failures old : ℕ) → last_failed failures 1 old ≡ (if failures == 0 then old else failures)
last_failed_first failures old = ground (arith, last_failed_lem failures 0 old)

pub last_error_lem :
    (failures : ℕ) (old : Option Str)
    → last_error failures old ≡ (if failures == 0 then old else some fetch_error)
last_error_lem zero old = refl
last_error_lem (suc failures) old = ground (arith, last_error_lem failures (some fetch_error))

pub record IsDead (id : Str) (attempt : ℕ) (message : Str) (before : List VideoRow) (final : World)
    : Type 0 where
  pub row : JobRow
  pub stored : find (has_id id) final.jobs ≡ some row
  pub state : row.state ≡ text "dead"
  pub same_attempt : row.attempt ≡ attempt
  pub error_message : row.error_message ≡ some message
  pub no_retry : row.next_retry_at ≡ none
  pub videos : final.videos ≡ before

pub IsDone-same :
    {id : Str} {a b : ℕ} {m n : Option Str} {vs before : List VideoRow} {w : World}
    → a ≡ b
    → m ≡ n
    → IsDone id a m vs before w
    → IsDone id b n vs before w
IsDone-same e f d = record {
  row = d.row;
  stored = d.stored;
  state = d.state;
  same_attempt = d.same_attempt ∙ e;
  same_error = d.same_error ∙ f;
  fetched = d.fetched;
  inserted = d.inserted;
  no_retry = d.no_retry;
  videos = d.videos;
}

module _ (answers : ℕ → Outcome) (now : World → ℕ) (h : (n : ℕ) → answers n ≡ confirmed) where
  pub retry_ok : (id : Str) (attempt : ℕ) (w : World) → (retry answers now id attempt w).0 ≡ true
  unfolding retry update_job_retrying
  retry_ok id attempt w =
      rw
        (exec_ok answers now h
          (update_where id (set_retrying fetch_error attempt (now w + 1000 * 2 ^ attempt))) w)
        refl

  retry-jobs :
      (id : Str) (attempt : ℕ) (w : World)
      → (retry answers now id attempt w).1.jobs
        ≡ update_where id (set_retrying fetch_error attempt (now w + 1000 * 2 ^ attempt)) w.jobs
  unfolding retry update_job_retrying
  retry-jobs id attempt w =
      let f = update_where id (set_retrying fetch_error attempt (now w + 1000 * 2 ^ attempt)) in
      rw (exec_ok answers now h f w) (exec-jobs answers now h f w)

  pub retry-find :
      (id : Str) (attempt : ℕ) (w : World) (row : JobRow)
      → find (has_id id) w.jobs ≡ some row
      → find (has_id id) (retry answers now id attempt w).1.jobs
        ≡ some (set_retrying fetch_error attempt (now w + 1000 * 2 ^ attempt) row)
  unfolding set_retrying
  retry-find id attempt w row there =
      let set = set_retrying fetch_error attempt (now w + 1000 * 2 ^ attempt) in
      ap (find (has_id id)) (retry-jobs id attempt w)
      ∙ find-update_where id set (λ old. (refl, refl)) w.jobs row there

  retry-videos :
      (id : Str) (attempt : ℕ) (w : World) → (retry answers now id attempt w).1.videos ≡ w.videos
  unfolding retry update_job_retrying exec
  retry-videos id attempt w = rw (h w.calls) refl

  pub attempts-IsDone :
      (id : Str) (fetch : ℕ → Option (List VideoRow)) (vs : List VideoRow)
      (failures left attempt : ℕ) (w : World) (row : JobRow)
      → failures < left
      → ((i : ℕ) → i < failures → fetch (attempt + i) ≡ none)
      → fetch (attempt + failures) ≡ some vs
      → IsNew vs w.videos
      → All (λ v. v.job_id ≡ id) vs
      → find (has_id id) w.jobs ≡ some row
      → IsDone id
          (last_failed failures attempt row.attempt)
          (last_error failures row.error_message)
          vs
          w.videos
          (attempts answers now id fetch left attempt w)
  unfolding attempts set_retrying
  attempts-IsDone id fetch vs failures zero attempt w row lt none_before ends new own there =
      absurd (omega arith)
  attempts-IsDone id fetch vs zero (suc left) attempt w row lt none_before ends new own there =
      let e : fetch attempt ≡ some vs = ap fetch (omega arith) ∙ ends in
      rw (attempts, e) (complete-IsDone answers now h id row vs w new own there)
  attempts-IsDone id fetch vs (suc failures) (suc left) attempt w row lt none_before ends new own
        there =
      let next = (retry answers now id attempt w).1 in
      let same_videos = retry-videos id attempt w in
      let e : fetch attempt ≡ none = ap fetch (omega arith) ∙ none_before 0 (omega arith) in
      let rest =
        attempts-IsDone id fetch vs failures left (suc attempt) next
          (set_retrying fetch_error attempt (now w + 1000 * 2 ^ attempt) row) (omega arith)
          (λ i l. ap fetch (omega arith) ∙ none_before (suc i) (omega arith))
          (ap fetch (omega arith) ∙ ends) (subst (IsNew vs) (sym same_videos) new) own
          (retry-find id attempt w row there) in
      rw (attempts, e, retry_ok id attempt w)
        (subst
          (λ before.
            IsDone id (last_failed failures (suc attempt) attempt)
              (last_error failures (some fetch_error)) vs before
              (attempts answers now id fetch left (suc attempt) next))
          same_videos rest)

  pub give_up-IsDead :
      (id message : Str) (w : World) (row : JobRow)
      → find (has_id id) w.jobs ≡ some row
      → IsDead id row.attempt message w.videos (give_up answers now id message w)
  unfolding give_up update_job_dead set_dead exec
  give_up-IsDead id message w row there = record {
    row = set_dead message row;
    stored = exec-find answers now h id (set_dead message) w row (λ old. (refl, refl)) there;
    state = refl;
    same_attempt = refl;
    error_message = refl;
    no_retry = refl;
    videos = refl;
  }

  pub attempts-IsDead :
      (id : Str) (fetch : ℕ → Option (List VideoRow)) (left attempt : ℕ) (w : World) (row : JobRow)
      → ((i : ℕ) → i < left → fetch (attempt + i) ≡ none)
      → find (has_id id) w.jobs ≡ some row
      → IsDead id
          (last_failed left attempt row.attempt)
          gave_up
          w.videos
          (attempts answers now id fetch left attempt w)
  unfolding attempts set_retrying
  attempts-IsDead id fetch zero attempt w row no_fetch there = give_up-IsDead id gave_up w row there
  attempts-IsDead id fetch (suc left) attempt w row no_fetch there =
      let next = (retry answers now id attempt w).1 in
      let e : fetch attempt ≡ none = ap fetch (omega arith) ∙ no_fetch 0 (omega arith) in
      let rest =
        attempts-IsDead id fetch left (suc attempt) next
          (set_retrying fetch_error attempt (now w + 1000 * 2 ^ attempt) row)
          (λ i l. ap fetch (omega arith) ∙ no_fetch (suc i) (omega arith))
          (retry-find id attempt w row there) in
      rw (attempts, e, retry_ok id attempt w)
        (subst
          (λ before.
            IsDead id (last_failed left (suc attempt) attempt) gave_up before
              (attempts answers now id fetch left (suc attempt) next))
          (retry-videos id attempt w) rest)
