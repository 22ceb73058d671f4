-- ===== src/Backend/Etl/Submit.antt =====
-- backend/etl/server.go: what a batch of jobs comes to.
use yt_trending_pipeline.Prelude.{
  ℕ, ◌+◌, ◌≤◌, ◌≡◌, refl, ap, ◌∙◌, none, some, Bool, true, false, List, [], ◌∷◌, ◌++◌, length,
  length-append, Str, text, arith, if◌then◌else◌, ◌&&◌,
}
use yt_trending_pipeline.Backend.{World, JobRow, JobRequest, int32}
use yt_trending_pipeline.Backend.Database.{
  Outcome, confirmed, lost, refused, Lookup, row_found, no_rows, broken, carried_out, is_confirmed,
  accepts_job, new_row, insert_job, select_job, get_job_by_idempotency_key,
}
use yt_trending_pipeline.Backend.Etl.{
  Processed, refused_request, existing, created, BatchResponse, Tally, no_tally, batch_result,
  batch_response, enqueue, after_lookup, process_job, take_request, batch_loop, submit_batch,
}

abbrev exists_text : Str
exists_text = text "Job already exists with the same idempotency key."

abbrev done_text : Str
done_text = text "Job processed successfully."

-- Every request is counted once; each accepted one has a new row and is queued.
pub record IsCounted (reqs : List JobRequest) (b : Tally) (w : World) (c : Tally) (after : World)
    : Type 0 where
  pub accepted : ℕ
  pub rejected : ℕ
  pub all : accepted + rejected ≡ length reqs
  pub received_sum : c.received ≡ b.received + length reqs
  pub accepted_sum : c.accepted ≡ b.accepted + accepted
  pub rejected_sum : c.rejected ≡ b.rejected + rejected
  pub queue_grows : length after.queue ≡ length w.queue + accepted
  pub jobs_grow : length w.jobs + accepted ≤ length after.jobs
  pub answered : length b.results + accepted ≤ length c.results
  pub answers_bounded : length c.results ≤ length b.results + length reqs

pub record IsSummary (reqs : List JobRequest) (w : World) (b : BatchResponse) (after : World)
    : Type 0 where
  pub accepted : ℕ
  pub rejected : ℕ
  pub all : accepted + rejected ≡ length reqs
  pub total_received : b.total_received ≡ int32 (length reqs)
  pub total_accepted : b.total_accepted ≡ int32 accepted
  pub total_rejected : b.total_rejected ≡ int32 rejected
  pub queue_grows : length after.queue ≡ length w.queue + accepted
  pub jobs_grow : length w.jobs + accepted ≤ length after.jobs
  pub answered : accepted ≤ length b.results
  pub answers_bounded : length b.results ≤ length reqs

IsCounted-then :
    {req : JobRequest} {reqs : List JobRequest} {b c d : Tally} {w v u : World}
    → IsCounted (req ∷ []) b w c v
    → IsCounted reqs c v d u
    → IsCounted (req ∷ reqs) b w d u
IsCounted-then h k = record {
  accepted = h.accepted + k.accepted;
  rejected = h.rejected + k.rejected;
  all = omega (arith, h.all, k.all);
  received_sum = omega (arith, h.received_sum, k.received_sum);
  accepted_sum = omega (arith, h.accepted_sum, k.accepted_sum);
  rejected_sum = omega (arith, h.rejected_sum, k.rejected_sum);
  queue_grows = omega (arith, h.queue_grows, k.queue_grows);
  jobs_grow = omega (arith, h.jobs_grow, k.jobs_grow);
  answered = omega (arith, h.answered, k.answered);
  answers_bounded = omega (arith, h.answers_bounded, k.answers_bounded);
}

module _ (answers : ℕ → Outcome) (uuid : World → Str) (now : World → ℕ) where
  take_request-IsCounted :
      (req : JobRequest) (b : Tally) (w v : World) (p : Processed)
      → v.queue ≡ w.queue
      → length w.jobs ≤ length v.jobs
      → ((id : Str) → p ≡ created id → length w.jobs + 1 ≤ length v.jobs)
      → let r = take_request answers uuid now req b (p, v) in IsCounted (req ∷ []) b w r.0 r.1
  unfolding take_request enqueue
  take_request-IsCounted req b w v refused_request q le new = record {
    accepted = 0;
    rejected = 1;
    all = omega arith;
    received_sum = omega arith;
    accepted_sum = omega arith;
    rejected_sum = omega arith;
    queue_grows = ap length q ∙ omega arith;
    jobs_grow = omega arith;
    answered = omega arith;
    answers_bounded = omega arith;
  }
  take_request-IsCounted req b w v (existing id) q le new = record {
    accepted = 0;
    rejected = 1;
    all = omega arith;
    received_sum = omega arith;
    accepted_sum = omega arith;
    rejected_sum = omega arith;
    queue_grows = ap length q ∙ omega arith;
    jobs_grow = omega arith;
    answered =
        omega
          (arith, length-append b.results (batch_result id req.idempotency_key exists_text ∷ []));
    answers_bounded =
        omega
          (arith, length-append b.results (batch_result id req.idempotency_key exists_text ∷ []));
  }
  take_request-IsCounted req b w v (created id) q le new = record {
    accepted = 1;
    rejected = 0;
    all = omega arith;
    received_sum = omega arith;
    accepted_sum = omega arith;
    rejected_sum = omega arith;
    queue_grows =
        length-append v.queue (record { id = id; req = req } ∷ []) ∙ ap (λ n. n + 1) (ap length q);
    jobs_grow = new id refl;
    answered =
        omega (arith, length-append b.results (batch_result id req.idempotency_key done_text ∷ []));
    answers_bounded =
        omega (arith, length-append b.results (batch_result id req.idempotency_key done_text ∷ []));
  }

  insert_cases :
      (o : Outcome) (fits : Bool) (rows : List JobRow) (row : JobRow) (id : Str)
      → let after = if carried_out o && fits then rows ++ (row ∷ []) else rows in
        let given = if is_confirmed o && fits then some id else none in
        (length rows ≤ length after)
        × ((new : Str)
            → elim given [ none ↦ refused_request | some n ↦ created n ] ≡ created new
            → length rows + 1 ≤ length after)
  insert_cases confirmed true rows row id = (
    omega (arith, length-append rows (row ∷ [])),
    λ new e. omega (arith, length-append rows (row ∷ [])),
  )
  insert_cases confirmed false rows row id = (omega arith, λ new e. ground arith)
  insert_cases lost true rows row id =
      (omega (arith, length-append rows (row ∷ [])), λ new e. ground arith)
  insert_cases lost false rows row id = (omega arith, λ new e. ground arith)
  insert_cases refused fits rows row id = (omega arith, λ new e. ground arith)

  abbrev Grows : World → Processed × World → Type 0
  Grows w r =
      (r.1.queue ≡ w.queue)
      × (length w.jobs ≤ length r.1.jobs)
      × ((id : Str) → r.0 ≡ created id → length w.jobs + 1 ≤ length r.1.jobs)

  after_lookup-Grows :
      (req : JobRequest) (l : Lookup) (w : World)
      → Grows w (after_lookup answers uuid now req (l, w))
  unfolding after_lookup insert_job
  after_lookup-Grows req (row_found row) w = (refl, omega arith, λ id e. ground arith)
  after_lookup-Grows req broken w = (refl, omega arith, λ id e. ground arith)
  after_lookup-Grows req no_rows w =
      let row = new_row (uuid w) (now w) req in
      let fits = accepts_job (uuid w) req.idempotency_key w.jobs in
      let grown = insert_cases (answers w.calls) fits w.jobs row (uuid w) in
      (refl, grown.0, grown.1)

  process_job-Grows : (req : JobRequest) (w : World) → Grows w (process_job answers uuid now req w)
  unfolding process_job get_job_by_idempotency_key select_job
  process_job-Grows req w =
      let (l, v) = get_job_by_idempotency_key answers req.idempotency_key w in
      after_lookup-Grows req l v

  pub batch_loop-IsCounted :
      (reqs : List JobRequest) (b : Tally) (w : World)
      → let r = batch_loop answers uuid now reqs (b, w) in IsCounted reqs b w r.0 r.1
  unfolding batch_loop
  batch_loop-IsCounted [] b w = record {
    accepted = 0;
    rejected = 0;
    all = omega arith;
    received_sum = omega arith;
    accepted_sum = omega arith;
    rejected_sum = omega arith;
    queue_grows = omega arith;
    jobs_grow = omega arith;
    answered = omega arith;
    answers_bounded = omega arith;
  }
  batch_loop-IsCounted (req ∷ reqs) b w =
      let (p, v) = process_job answers uuid now req w in
      let grown = process_job-Grows req w in
      let (c, after) = take_request answers uuid now req b (p, v) in
      IsCounted-then (take_request-IsCounted req b w v p grown.0 grown.1 grown.2)
        (batch_loop-IsCounted reqs c after)

  -- Whatever the database answers, the counts of a batch, as `int32` numbers, are those of its
  -- requests: all received ones are accepted or rejected; the channel grows by the number of
  -- accepted ones, and the jobs by at least as many; there is a result for at least as many, and
  -- for no more than were received.
  pub submit_batch-IsSummary :
      (reqs : List JobRequest) (w : World)
      → let r = submit_batch answers uuid now reqs w in IsSummary reqs w r.0 r.1
  unfolding submit_batch batch_response
  submit_batch-IsSummary reqs w =
      let c = batch_loop-IsCounted reqs no_tally w in
      record {
        accepted = c.accepted;
        rejected = c.rejected;
        all = c.all;
        total_received = ap int32 c.received_sum ∙ ap int32 (omega arith);
        total_accepted = ap int32 (c.accepted_sum ∙ omega arith);
        total_rejected = ap int32 (c.rejected_sum ∙ omega arith);
        queue_grows = c.queue_grows;
        jobs_grow = c.jobs_grow;
        answered = omega (arith, c.answered);
        answers_bounded = omega (arith, c.answers_bounded);
      }
