-- ===== src/Backend/Etl/Resubmit.antt =====
-- backend/etl/server.go: a batch that is submitted again changes nothing.
use yt_trending_pipeline.Prelude.{
  ℕ, suc, ◌≡◌, refl, ap, sym, ◌∙◌, subst, Option, none, some, Bool, true, false, List, [], ◌∷◌,
  ◌++◌, Str, find, is_some, All, arith, Bool-cases, inl, inr, same_refl, pos,
}
use yt_trending_pipeline.Backend.{World, JobRow, JobRequest, int32}
use yt_trending_pipeline.Backend.Database.{
  Outcome, confirmed, Lookup, row_found, no_rows, has_id, has_key, accepts_job, new_row, insert_job,
  select_job, get_job_by_idempotency_key,
}
use yt_trending_pipeline.Backend.Database.Rows.{find_hit, find_miss}
use yt_trending_pipeline.Backend.Etl.{
  Tally, no_tally, created, batch_response, enqueue, after_lookup, process_job, take_request,
  batch_loop, submit_batch,
}

-- A job has the key.
abbrev pub known : List JobRow → Str → Bool
known rows key = is_some (find (has_key key) rows)

find-append :
    (key : Str) (rows more : List JobRow) → known rows key ≡ true → known (rows ++ more) key ≡ true
find-append key [] more h = cc
find-append key (row ∷ rows) more h = elim (Bool-cases (has_key key row)) [
  | inl e ↦ ap is_some (find_hit (has_key key) row (rows ++ more) e)
  | inr e ↦
      ap is_some (find_miss (has_key key) row (rows ++ more) e)
      ∙ find-append key rows more (ap is_some (sym (find_miss (has_key key) row rows e)) ∙ h)
]

find-append_new :
    (key : Str) (rows : List JobRow) (row : JobRow)
    → has_key key row ≡ true
    → known (rows ++ (row ∷ [])) key ≡ true
find-append_new key [] row h = ap is_some (find_hit (has_key key) row [] h)
find-append_new key (first ∷ rows) row h = elim (Bool-cases (has_key key first)) [
  | inl e ↦ ap is_some (find_hit (has_key key) first (rows ++ (row ∷ [])) e)
  | inr e ↦
      ap is_some (find_miss (has_key key) first (rows ++ (row ∷ [])) e)
      ∙ find-append_new key rows row h
]

not_known :
    (key : Str) (rows : List JobRow) → find (has_key key) rows ≡ none → known rows key ≡ true → ⊥
not_known key rows e k = let clash : false ≡ true = sym (ap is_some e) ∙ k in ground arith

abbrev pub to_lookup : Option JobRow → Lookup
to_lookup o = elim o [ none ↦ no_rows | some row ↦ row_found row ]

module _ (answers : ℕ → Outcome) (uuid : World → Str) (now : World → ℕ)
    (h : (n : ℕ) → answers n ≡ confirmed)
    (fresh : (w : World) → find (has_id (uuid w)) w.jobs ≡ none) where
  pub process_job_looks :
      (req : JobRequest) (w : World)
      → process_job answers uuid now req w
        ≡ after_lookup answers uuid now req (
          to_lookup (find (has_key req.idempotency_key) w.jobs),
          record w { calls = suc w.calls },
        )
  unfolding process_job get_job_by_idempotency_key select_job
  process_job_looks req w = rw (h w.calls) refl

  -- A turn of the loop keeps the keys and adds that of its request; it changes nothing if the key
  -- was known.
  record Turn (req : JobRequest) (b : Tally) (w : World) (c : Tally) (after : World) : Type 0 where
    has_new : known after.jobs req.idempotency_key ≡ true
    keeps : (key : Str) → known w.jobs key ≡ true → known after.jobs key ≡ true
    same_jobs : known w.jobs req.idempotency_key ≡ true → after.jobs ≡ w.jobs
    same_queue : known w.jobs req.idempotency_key ≡ true → after.queue ≡ w.queue
    same_accepted : known w.jobs req.idempotency_key ≡ true → c.accepted ≡ b.accepted

  accepts_job_new :
      (req : JobRequest) (v : World)
      → find (has_key req.idempotency_key) v.jobs ≡ none
      → accepts_job (uuid v) req.idempotency_key v.jobs ≡ true
  unfolding accepts_job
  accepts_job_new req v e = rw (fresh v, e) refl

  pub after_lookup_new :
      (req : JobRequest) (v : World)
      → find (has_key req.idempotency_key) v.jobs ≡ none
      → after_lookup answers uuid now req (no_rows, v) ≡ (
        created (uuid v),
        record v { jobs = v.jobs ++ (new_row (uuid v) (now v) req ∷ []); calls = suc v.calls },
      )
  unfolding after_lookup insert_job
  after_lookup_new req v e = rw (h v.calls, accepts_job_new req v e) refl

  -- The call of the lookup changes no table.
  called-Turn :
      (req : JobRequest) (b : Tally) (w : World) {c : Tally} {after : World}
      → Turn req b (record w { calls = suc w.calls }) c after
      → Turn req b w c after
  called-Turn req b w t = record {
    has_new = t.has_new;
    keeps = t.keeps;
    same_jobs = t.same_jobs;
    same_queue = t.same_queue;
    same_accepted = t.same_accepted;
  }

  lookup-Turn :
      (req : JobRequest) (b : Tally) (v : World) (o : Option JobRow)
      → find (has_key req.idempotency_key) v.jobs ≡ o
      → let r =
          take_request answers uuid now req b
            (after_lookup answers uuid now req (to_lookup o, v)) in
        Turn req b v r.0 r.1
  unfolding take_request after_lookup enqueue insert_job accepts_job new_row
  lookup-Turn req b v (some row) e = record {
    has_new = ap is_some e;
    keeps = λ key k. k;
    same_jobs = λ k. refl;
    same_queue = λ k. refl;
    same_accepted = λ k. refl;
  }
  lookup-Turn req b v none e =
      let row = new_row (uuid v) (now v) req in
      let key = req.idempotency_key in
      let grown = record v { jobs = v.jobs ++ (row ∷ []); calls = suc v.calls } in
      subst (λ r. let t = take_request answers uuid now req b r in Turn req b v t.0 t.1)
        (sym (after_lookup_new req v e))
        (record {
          has_new = find-append_new key v.jobs row (same_refl key);
          keeps = λ other k. find-append other v.jobs (row ∷ []) k;
          same_jobs = λ k. absurd (not_known key v.jobs e k);
          same_queue = λ k. absurd (not_known key v.jobs e k);
          same_accepted = λ k. absurd (not_known key v.jobs e k);
        })

  process_job-Turn :
      (req : JobRequest) (b : Tally) (w : World)
      → let r = take_request answers uuid now req b (process_job answers uuid now req w) in
        Turn req b w r.0 r.1
  process_job-Turn req b w =
      subst (λ p. let r = take_request answers uuid now req b p in Turn req b w r.0 r.1)
        (sym (process_job_looks req w))
        (called-Turn req b w (lookup-Turn req b (record w { calls = suc w.calls }) _ refl))

  -- after the batch every key of it is known
  pub batch_loop-known :
      (reqs : List JobRequest) (b : Tally) (w : World)
      → let after = (batch_loop answers uuid now reqs (b, w)).1 in
        ((key : Str) → known w.jobs key ≡ true → known after.jobs key ≡ true)
        × All (λ req. known after.jobs req.idempotency_key ≡ true) reqs
  unfolding batch_loop
  batch_loop-known [] b w = (λ key k. k, tt)
  batch_loop-known (req ∷ reqs) b w =
      let t = process_job-Turn req b w in
      let (c, v) = take_request answers uuid now req b (process_job answers uuid now req w) in
      let rest = batch_loop-known reqs c v in
      (λ key k. rest.0 key (t.keeps key k), (rest.0 req.idempotency_key t.has_new, rest.1))

  pub batch_loop_again :
      (reqs : List JobRequest) (b : Tally) (w : World)
      → All (λ req. known w.jobs req.idempotency_key ≡ true) reqs
      → let r = batch_loop answers uuid now reqs (b, w) in
        (r.1.jobs ≡ w.jobs) × (r.1.queue ≡ w.queue) × (r.0.accepted ≡ b.accepted)
  unfolding batch_loop
  batch_loop_again [] b w k = (refl, refl, refl)
  batch_loop_again (req ∷ reqs) b w (k, ks) =
      let t = process_job-Turn req b w in
      let (c, v) = take_request answers uuid now req b (process_job answers uuid now req w) in
      let same = t.same_jobs k in
      let rest =
        batch_loop_again reqs c v
          (subst (λ rows. All (λ req. known rows req.idempotency_key ≡ true) reqs) (sym same) ks) in
      (rest.0 ∙ same, rest.1 ∙ t.same_queue k, rest.2 ∙ t.same_accepted k)

  -- A batch that is submitted a second time is rejected as a whole, if the database confirms its
  -- calls and new ids are new: it accepts nothing, and the jobs and the channel stay as they are.
  submit_batch_again :
      (reqs : List JobRequest) (w : World)
      → let v = (submit_batch answers uuid now reqs w).1 in
        let again = submit_batch answers uuid now reqs v in
        (again.0.total_accepted ≡ pos 0) × (again.1.jobs ≡ v.jobs) × (again.1.queue ≡ v.queue)
  unfolding submit_batch batch_response
  submit_batch_again reqs w =
      let v = (batch_loop answers uuid now reqs (no_tally, w)).1 in
      let again = batch_loop_again reqs no_tally v (batch_loop-known reqs no_tally w).1 in
      (ap int32 again.2, again.0, again.1)
