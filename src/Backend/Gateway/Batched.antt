-- ===== src/Backend/Gateway/Batched.antt =====
-- frontend/lib/api.ts, backend/api/server.go and backend/etl/server.go: a batch on its way from the
-- dashboard through the gateway to the service. What the stream of gRPC does is a parameter with laws.
use yt_trending_pipeline.Prelude.{
  ℕ, suc, ◌≡◌, refl, ap, sym, ◌∙◌, subst, ◌⊎◌, inl, inr, Option, none, some, true, false, List, [],
  ◌∷◌, ◌++◌, map, append_assoc, append-nil, Str, text, take, if_cases,
}
use yt_trending_pipeline.Types
use yt_trending_pipeline.Api
use yt_trending_pipeline.Backend.{World, JobRequest}
use yt_trending_pipeline.Backend.Database.{Outcome}
use yt_trending_pipeline.Backend.Etl
use yt_trending_pipeline.Backend.Etl.{BatchResponse}
use yt_trending_pipeline.Backend.Etl.BatchStream.{submit_stream}
use yt_trending_pipeline.Backend.Etl.Resent.{submit_stream-ended}
use yt_trending_pipeline.Backend.Gateway.Handlers.{
  Response, json, error, BatchClient, received, send_all, handle_submit_batch,
}
use yt_trending_pipeline.Backend.Gateway.Settled.{fetched}

-- What the client side of a stream does: the requests that were sent are kept in order, and an
-- answer is that of the service to all of them.
pub record IsLinked {S : Type 0} (client : BatchClient S) (sent : S → List JobRequest)
    (service : List (Option JobRequest) → Option BatchResponse) : Type 0 where
  pub opens : (s : S) → sent (client.open_stream s).1 ≡ []
  pub sends :
      (req : JobRequest) (s : S)
      → (client.send req s).0 ≡ true
      → sent (client.send req s).1 ≡ sent s ++ (req ∷ [])
  pub loses :
      (req : JobRequest) (s : S)
      → (client.send req s).0 ≡ false
      → sent (client.send req s).1 ≡ sent s
  pub closes : (s : S) → sent (client.close_and_recv s).1 ≡ sent s
  pub answers :
      (s : S) (resp : BatchResponse)
      → (client.close_and_recv s).0 ≡ some resp
      → service (map some (sent s)) ≡ some resp

module _ {S : Type 0} (client : BatchClient S) (sent : S → List JobRequest)
    (service : List (Option JobRequest) → Option BatchResponse)
    (link : IsLinked client sent service) where
  -- how a handler ends that had sent `before` and was to send `reqs`
  data Sent (before reqs : List JobRequest) : Response BatchResponse × S → Type 0 where
    whole :
        (resp : BatchResponse) (s : S)
        → service (map some (before ++ reqs)) ≡ some resp
        → sent s ≡ before ++ reqs
        → Sent before reqs (json 200 resp, s)
    part :
        (message : Str) (k : ℕ) (s : S)
        → sent s ≡ before ++ take k reqs
        → Sent before reqs (error 500 message, s)

  received-Sent :
      (before : List JobRequest) (r : Option BatchResponse × S)
      → ((resp : BatchResponse) → r.0 ≡ some resp → service (map some before) ≡ some resp)
      → sent r.1 ≡ before
      → Sent before [] (received client r)
  received-Sent before (none, s) f e =
      part (text "failed to receive batch response") 0 s (e ∙ sym (append-nil before))
  received-Sent before (some resp, s) f e =
      whole resp s
        (subst (λ l. service (map some l) ≡ some resp) (sym (append-nil before)) (f resp refl))
        (e ∙ sym (append-nil before))

  -- one request sent more
  Sent-next :
      (before reqs : List JobRequest) (req : JobRequest) (r : Response BatchResponse × S)
      → Sent (before ++ (req ∷ [])) reqs r
      → Sent before (req ∷ reqs) r
  Sent-next before reqs req r (whole resp s e f) =
      let split = append_assoc before (req ∷ []) reqs in
      whole resp s (subst (λ l. service (map some l) ≡ some resp) split e) (f ∙ split)
  Sent-next before reqs req r (part message k s f) =
      part message (suc k) s (f ∙ append_assoc before (req ∷ []) (take k reqs))

  send_all-Sent : (reqs : List JobRequest) (s : S) → Sent (sent s) reqs (send_all client reqs s)
  unfolding send_all
  send_all-Sent [] s =
      received-Sent (sent s) (client.close_and_recv s) (link.answers s) (link.closes s)
  send_all-Sent (req ∷ reqs) s =
      let next = (client.send req s).1 in
      if_cases (Sent (sent s) (req ∷ reqs)) (client.send req s).0 (send_all client reqs next)
        (error 500 (text "failed to send job to stream"), next)
        (λ e. Sent-next (sent s) reqs req _ (
          subst (λ l. Sent l reqs (send_all client reqs next)) (link.sends req s e)
            (send_all-Sent reqs next)))
        (λ e.
          part (text "failed to send job to stream") 0 next
            (link.loses req s e ∙ sym (append-nil (sent s))))

  handle_submit_batch-Sent :
      (reqs : List JobRequest) (s : S) → Sent [] reqs (handle_submit_batch client (some reqs) s)
  unfolding handle_submit_batch
  handle_submit_batch-Sent reqs s =
      let next = (client.open_stream s).1 in
      if_cases (Sent [] reqs) (client.open_stream s).0 (send_all client reqs next)
        (error 500 (text "failed to submit batch job"), next)
        (λ e.
          subst (λ l. Sent l reqs (send_all client reqs next)) (link.opens s)
            (send_all-Sent reqs next))
        (λ e. part (text "failed to submit batch job") 0 next (link.opens s))

  settled-Sent :
      (read : BatchResponse → Types.BatchResponse) (reqs : List JobRequest)
      (r : Response BatchResponse × S) (resp : BatchResponse)
      → service (map some reqs) ≡ some resp
      → Sent [] reqs r
      → ((Api.submit_batch (fetched read r.0) ≡ Api.fulfilled (read resp)) × (sent r.1 ≡ reqs))
        ⊎ ((message : Str) × (k : ℕ) × (Api.submit_batch (fetched read r.0) ≡ Api.rejected message)
            × (sent r.1 ≡ take k reqs))
  unfolding Api.submit_batch
  settled-Sent read reqs r resp e (whole found s f g) =
      inl (ap (λ b. Api.fulfilled (read b)) (some_same (sym f ∙ e)), g)
    where
      some_same : {a b : BatchResponse} → some a ≡ some b → a ≡ b
      some_same {a} h = ap (λ o. elim o [ none ↦ a | some x ↦ x ]) h
  settled-Sent read reqs r resp e (part message k s g) = inr (message, k, refl, g)

module _ {S : Type 0} (answers : ℕ → Outcome) (uuid : World → Str) (now : World → ℕ) (w : World)
    (client : BatchClient S) (sent : S → List JobRequest)
    (link : IsLinked client sent (λ recvs. (submit_stream answers uuid now recvs w).0)) where
  -- A batch of the dashboard, over a stream that keeps the order of what is sent: either the
  -- dashboard gets what the service answers to the batch, and all its requests were sent, in order;
  -- or it gets an error, and the first ones of them were sent, or none.
  pub handle_submit_batch-settled :
      (read : BatchResponse → Types.BatchResponse) (reqs : List JobRequest) (s : S)
      → let r = handle_submit_batch client (some reqs) s in
        ((Api.submit_batch (fetched read r.0)
            ≡ Api.fulfilled (read (Etl.submit_batch answers uuid now reqs w).0))
          × (sent r.1 ≡ reqs))
        ⊎ ((message : Str) × (k : ℕ) × (Api.submit_batch (fetched read r.0) ≡ Api.rejected message)
            × (sent r.1 ≡ take k reqs))
  handle_submit_batch-settled read reqs s =
      let service =
        λ (recvs : List (Option JobRequest)). (submit_stream answers uuid now recvs w).0 in
      settled-Sent client sent service link read reqs (handle_submit_batch client (some reqs) s) _
        (ap (λ r. r.0) (submit_stream-ended answers uuid now reqs w))
        (handle_submit_batch-Sent client sent service link reqs s)
