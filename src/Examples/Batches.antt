-- ===== src/Examples/Batches.antt =====
-- The theorems about batches of jobs, at concrete inputs.
use yt_trending_pipeline.Prelude.{
  ℕ, zero, suc, ◌≡◌, refl, ◌⊎◌, none, some, Bool, true, false, List, [], ◌∷◌, ◌++◌, map, Str, text,
  take, arith,
}
use yt_trending_pipeline.Types
use yt_trending_pipeline.Api
use yt_trending_pipeline.Backend.{JobRequest}
use yt_trending_pipeline.Backend.Etl.{BatchResponse, submit_batch}
use yt_trending_pipeline.Backend.Etl.BatchStream.{submit_stream}
use yt_trending_pipeline.Backend.Etl.Resent.{IsResent, submit_stream-IsResent}
use yt_trending_pipeline.Backend.Gateway.Handlers.{BatchClient, handle_submit_batch}
use yt_trending_pipeline.Backend.Gateway.Settled.{fetched}
use yt_trending_pipeline.Backend.Gateway.Batched.{IsLinked, handle_submit_batch-settled}
use yt_trending_pipeline.Examples.Ids.{next_id, next_id-new}
use yt_trending_pipeline.Examples.Worlds.{always, clock, request, one_job}

abbrev first_two : List JobRequest
first_two = request (text "k1") ∷ request (text "k2") ∷ []

abbrev third : List JobRequest
third = request (text "k3") ∷ []

submit_stream-IsResent_example :
    let first = submit_stream always next_id clock (map some first_two ++ (none ∷ [])) one_job in
    IsResent always next_id clock first_two third first
      (submit_stream always next_id clock (map some (first_two ++ third)) first.1)
submit_stream-IsResent_example =
    submit_stream-IsResent always next_id clock (λ n. refl) next_id-new first_two third [] one_job

-- a link that breaks after some messages, with those that were sent
abbrev Wire : Type 0
Wire = ℕ × List JobRequest

abbrev sent : Wire → List JobRequest
sent wire = wire.1

abbrev send_one : JobRequest → Wire → Bool × Wire
send_one req (zero, reqs) = (false, (zero, reqs))
send_one req (suc n, reqs) = (true, (n, reqs ++ (req ∷ [])))

abbrev wired : BatchClient Wire
wired = record {
  open_stream = λ wire. (true, (wire.0, []));
  send = send_one;
  close_and_recv = λ wire. ((submit_stream always next_id clock (map some wire.1) one_job).0, wire);
}

send_one-sends :
    (req : JobRequest) (wire : Wire)
    → (send_one req wire).0 ≡ true
    → sent (send_one req wire).1 ≡ sent wire ++ (req ∷ [])
send_one-sends req (zero, reqs) e = absurd (ground arith)
send_one-sends req (suc n, reqs) e = refl

send_one-loses :
    (req : JobRequest) (wire : Wire)
    → (send_one req wire).0 ≡ false
    → sent (send_one req wire).1 ≡ sent wire
send_one-loses req (zero, reqs) e = refl
send_one-loses req (suc n, reqs) e = absurd (ground arith)

wired-IsLinked : IsLinked wired sent (λ recvs. (submit_stream always next_id clock recvs one_job).0)
wired-IsLinked = record {
  opens = λ wire. refl;
  sends = send_one-sends;
  loses = send_one-loses;
  closes = λ wire. refl;
  answers = λ wire resp e. e;
}

abbrev no_counts : BatchResponse → Types.BatchResponse
no_counts resp = record {
  total_received = none;
  total_accepted = none;
  total_rejected = none;
  results = [];
}

handle_submit_batch-settled_example :
    let r = handle_submit_batch wired (some first_two) (5, []) in
    ((Api.submit_batch (fetched no_counts r.0)
        ≡ Api.fulfilled (no_counts (submit_batch always next_id clock first_two one_job).0))
      × (sent r.1 ≡ first_two))
    ⊎ ((message : Str) × (k : ℕ) × (Api.submit_batch (fetched no_counts r.0) ≡ Api.rejected message)
        × (sent r.1 ≡ take k first_two))
handle_submit_batch-settled_example =
    handle_submit_batch-settled always next_id clock one_job wired sent wired-IsLinked no_counts
      first_two (5, [])
