-- ===== src/Backend/Etl/Resent.antt =====
-- backend/etl/server.go: a batch whose stream breaks, and the same batch sent again.
use yt_trending_pipeline.Prelude.{
  ℕ, ◌+◌, ◌≤◌, ◌≡◌, refl, ap, ◌∙◌, Option, none, some, List, [], ◌∷◌, ◌++◌, map, Str, find, length,
  arith,
}
use yt_trending_pipeline.Backend.{World, JobRequest, int32}
use yt_trending_pipeline.Backend.Database.{Outcome, confirmed, has_id}
use yt_trending_pipeline.Backend.Etl.{
  BatchResponse, Tally, no_tally, Processed, refused_request, existing, created, batch_response,
  process_job, take_request, batch_loop, submit_batch,
}
use yt_trending_pipeline.Backend.Etl.BatchStream.{stream_loop, submit_stream}
use yt_trending_pipeline.Backend.Etl.Resubmit.{batch_loop_again, batch_loop-known}
use yt_trending_pipeline.Backend.Etl.Submit.{batch_loop-IsCounted}

module _ (answers : ℕ → Outcome) (uuid : World → Str) (now : World → ℕ) where
  -- The first stream, of `reqs`, has no answer. The second one, of `reqs` and `more`, is answered:
  -- all are received, and no more are accepted than there are in `more`. It comes to a batch of
  -- `more` alone, in a world that has the jobs and the channel that the first stream left.
  pub record IsResent (reqs more : List JobRequest) (first again : Option BatchResponse × World)
      : Type 0 where
    pub accepted : ℕ
    pub response : BatchResponse
    pub no_answer : first.0 ≡ none
    pub answer : again.0 ≡ some response
    pub total_received : response.total_received ≡ int32 (length reqs + length more)
    pub total_accepted : response.total_accepted ≡ int32 accepted
    pub few : accepted ≤ length more
    pub queue_grows : length again.1.queue ≡ length first.1.queue + accepted
    pub between : World
    pub same_jobs : between.jobs ≡ first.1.jobs
    pub same_queue : between.queue ≡ first.1.queue
    pub rest_alone : again.1 ≡ (submit_batch answers uuid now more between).1

  take_request_world :
      (req : JobRequest) (b c : Tally) (p : Processed × World)
      → (take_request answers uuid now req b p).1 ≡ (take_request answers uuid now req c p).1
  unfolding take_request
  take_request_world req b c (refused_request, w) = refl
  take_request_world req b c (existing id, w) = refl
  take_request_world req b c (created id, w) = refl

  -- the world that a batch leaves does not depend on its counts
  batch_loop_world :
      (reqs : List JobRequest) (b c : Tally) (w : World)
      → (batch_loop answers uuid now reqs (b, w)).1 ≡ (batch_loop answers uuid now reqs (c, w)).1
  unfolding batch_loop
  batch_loop_world [] b c w = refl
  batch_loop_world (req ∷ reqs) b c w =
      let p = process_job answers uuid now req w in
      let (d, v) = take_request answers uuid now req b p in
      let (e, u) = take_request answers uuid now req c p in
      ap (λ x. (batch_loop answers uuid now reqs (d, x)).1) (take_request_world req b c p)
      ∙ batch_loop_world reqs d e u

  stream_loop-ended :
      (reqs : List JobRequest) (b : Tally) (w : World)
      → let r = batch_loop answers uuid now reqs (b, w) in
        stream_loop answers uuid now (map some reqs) (b, w) ≡ (some (batch_response r.0), r.1)
  unfolding stream_loop batch_loop
  stream_loop-ended [] b w = refl
  stream_loop-ended (req ∷ reqs) b w =
      let (c, v) = take_request answers uuid now req b (process_job answers uuid now req w) in
      stream_loop-ended reqs c v

  stream_loop-broken :
      (reqs : List JobRequest) (later : List (Option JobRequest)) (b : Tally) (w : World)
      → stream_loop answers uuid now (map some reqs ++ (none ∷ later)) (b, w)
        ≡ (none, (batch_loop answers uuid now reqs (b, w)).1)
  unfolding stream_loop batch_loop
  stream_loop-broken [] later b w = refl
  stream_loop-broken (req ∷ reqs) later b w =
      let (c, v) = take_request answers uuid now req b (process_job answers uuid now req w) in
      stream_loop-broken reqs later c v

  batch_loop-append :
      (reqs more : List JobRequest) (b : Tally) (w : World)
      → batch_loop answers uuid now (reqs ++ more) (b, w)
        ≡ batch_loop answers uuid now more (batch_loop answers uuid now reqs (b, w))
  unfolding batch_loop
  batch_loop-append [] more b w = refl
  batch_loop-append (req ∷ reqs) more b w =
      let (c, v) = take_request answers uuid now req b (process_job answers uuid now req w) in
      batch_loop-append reqs more c v

  -- A stream that ends is the batch of its requests.
  pub submit_stream-ended :
      (reqs : List JobRequest) (w : World)
      → let r = submit_batch answers uuid now reqs w in
        submit_stream answers uuid now (map some reqs) w ≡ (some r.0, r.1)
  unfolding submit_stream submit_batch
  submit_stream-ended reqs w = stream_loop-ended reqs no_tally w

module _ (answers : ℕ → Outcome) (uuid : World → Str) (now : World → ℕ)
    (confirms : (n : ℕ) → answers n ≡ confirmed)
    (fresh : (w : World) → find (has_id (uuid w)) w.jobs ≡ none) where
  -- The stream of a batch breaks after the requests `reqs`: there is no answer. The batch is sent
  -- again, `reqs` and then `more`, and its stream ends: all its requests count as received, but no
  -- more are accepted than there are in `more`, and the channel grows by the accepted ones. The jobs
  -- and the channel are then as if only `more` had been sent. The database confirms its calls, and
  -- new ids are new.
  pub submit_stream-IsResent :
      (reqs more : List JobRequest) (later : List (Option JobRequest)) (w : World)
      → let first = submit_stream answers uuid now (map some reqs ++ (none ∷ later)) w in
        IsResent answers uuid now reqs more first
          (submit_stream answers uuid now (map some (reqs ++ more)) first.1)
  unfolding submit_stream submit_batch batch_response
  submit_stream-IsResent reqs more later w =
      let v = (batch_loop answers uuid now reqs (no_tally, w)).1 in
      let (b, u) = batch_loop answers uuid now reqs (no_tally, v) in
      let known = (batch_loop-known answers uuid now confirms fresh reqs no_tally w).1 in
      let again = batch_loop_again answers uuid now confirms fresh reqs no_tally v known in
      let counts = batch_loop-IsCounted answers uuid now reqs no_tally v in
      let rest = batch_loop-IsCounted answers uuid now more b u in
      let c = batch_loop answers uuid now more (b, u) in
      let broke = stream_loop-broken answers uuid now reqs later no_tally w in
      let ended =
        stream_loop-ended answers uuid now (reqs ++ more) no_tally v
        ∙ ap (λ r. (some (batch_response r.0), r.1))
            (batch_loop-append answers uuid now reqs more no_tally v) in
      rw broke (
        rw ended (record {
          accepted = rest.accepted;
          response = batch_response c.0;
          no_answer = refl;
          answer = refl;
          total_received = ap int32 (omega (arith, counts.received_sum, rest.received_sum));
          total_accepted = ap int32 (omega (arith, rest.accepted_sum, again.2));
          few = omega (arith, rest.all);
          queue_grows = rest.queue_grows ∙ ap (λ q. length q + rest.accepted) again.1;
          between = u;
          same_jobs = again.0;
          same_queue = again.1;
          rest_alone = batch_loop_world answers uuid now more b no_tally u;
        }))
