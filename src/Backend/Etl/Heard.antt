-- ===== src/Backend/Etl/Heard.antt =====
-- backend/etl/server.go: what the turns of the loop of `WatchJob` find, apart from the loop: the
-- statuses that are heard, the changes among them, and the changes that are sent.
use yt_trending_pipeline.Prelude.{
  ℕ, ◌≡◌, refl, Bool, true, false, List, [], ◌∷◌, Bool-cases, inl, inr, if◌then◌else◌,
}
use yt_trending_pipeline.Backend.{JobState}
use yt_trending_pipeline.Backend.Etl.{is_terminal, same_state}
use yt_trending_pipeline.Backend.Etl.Status.{JobStatus}
use yt_trending_pipeline.Backend.Etl.Watch.{terminal_same}
use yt_trending_pipeline.Backend.Etl.Stream.{
  Turn, context_done, lookup_failed, answered, JobUpdate, End, polling, returned, cancelled,
  failed_lookup, failed_send, update_of, watch_stream,
}

-- a status that was read, whether its update could be sent, and the time
pub record Hearing : Type 0 where
  pub status : JobStatus
  pub sendable : Bool
  pub time : ℕ

-- what is read up to the first terminal state or the first turn that fails
abbrev pub heard : List Turn → List Hearing
heard [] = []
heard (context_done ∷ turns) = []
heard (lookup_failed ∷ turns) = []
heard (answered status sent now ∷ turns) =
    record { status = status; sendable = sent; time = now }
    ∷ (if is_terminal status.state then [] else heard turns)

-- why nothing more is read
abbrev pub stop : List Turn → End
stop [] = polling
stop (context_done ∷ turns) = cancelled
stop (lookup_failed ∷ turns) = failed_lookup
stop (answered status sent now ∷ turns) = if is_terminal status.state then returned else stop turns

-- the hearings whose state is not that of the one before
abbrev pub changes : JobState → List Hearing → List Hearing
changes before [] = []
changes before (h ∷ hs) =
    if same_state h.status.state before
    then changes h.status.state hs
    else h ∷ changes h.status.state hs

-- the updates before the first one that cannot be sent
abbrev pub delivered : List Hearing → List JobUpdate
delivered [] = []
delivered (h ∷ hs) = if h.sendable then update_of h.status h.time ∷ delivered hs else []

abbrev pub all_sendable : List Hearing → Bool
all_sendable [] = true
all_sendable (h ∷ hs) = if h.sendable then all_sendable hs else false

-- The updates are those of the changes, up to the first that cannot be sent, and the stream ends
-- with that one, or for the reason why nothing more is read.
pub record IsHeard (last : JobState) (turns : List Turn) (updates : List JobUpdate) (end : End)
    : Type 0 where
  pub carried : updates ≡ delivered (changes last (heard turns))
  pub stopped :
      end ≡ (if all_sendable (changes last (heard turns)) then stop turns else failed_send)

module _ (last : JobState) (status : JobStatus) (sent : Bool) (now : ℕ) (turns : List Turn) where
  same-IsHeard :
      (updates : List JobUpdate) (end : End)
      → is_terminal status.state ≡ false
      → same_state status.state last ≡ true
      → IsHeard status.state turns updates end
      → IsHeard last (answered status sent now ∷ turns) updates end
  same-IsHeard updates end t e h = record {
    carried = rw (t, e) h.carried;
    stopped = rw (t, e) h.stopped;
  }

new-IsHeard :
    (last : JobState) (status : JobStatus) (now : ℕ) (turns : List Turn) (updates : List JobUpdate)
    (end : End)
    → is_terminal status.state ≡ false
    → same_state status.state last ≡ false
    → IsHeard status.state turns updates end
    → IsHeard last (answered status true now ∷ turns) (update_of status now ∷ updates) end
new-IsHeard last status now turns updates end t d h = record {
  carried = rw (t, d) (rw h.carried refl);
  stopped = rw (t, d) h.stopped;
}

pub watch_stream-IsHeard :
    (last : JobState) (turns : List Turn)
    → is_terminal last ≡ false
    → IsHeard last turns (watch_stream last turns).0 (watch_stream last turns).1
unfolding watch_stream
watch_stream-IsHeard last [] h = record { carried = refl; stopped = refl }
watch_stream-IsHeard last (context_done ∷ turns) h = record { carried = refl; stopped = refl }
watch_stream-IsHeard last (lookup_failed ∷ turns) h = record { carried = refl; stopped = refl }
watch_stream-IsHeard last (answered status true now ∷ turns) h =
    elim (Bool-cases (is_terminal status.state)) [
      | inl t ↦ elim (Bool-cases (same_state status.state last)) [
        | inl e ↦ absurd (terminal_same status.state last t h e)
        | inr d ↦ rw (t, d) (record { carried = rw (t, d) refl; stopped = rw (t, d) refl })
      ]
      | inr t ↦ elim (Bool-cases (same_state status.state last)) [
        | inl e ↦
            let rest = watch_stream-IsHeard status.state turns t in
            rw (t, e) (same-IsHeard last status true now turns _ _ t e rest)
        | inr d ↦
            rw (t, d)
              (new-IsHeard last status now turns _ _ t d
                (watch_stream-IsHeard status.state turns t))
      ]
    ]
watch_stream-IsHeard last (answered status false now ∷ turns) h =
    elim (Bool-cases (same_state status.state last)) [
      | inl e ↦ elim (Bool-cases (is_terminal status.state)) [
        | inl t ↦ absurd (terminal_same status.state last t h e)
        | inr t ↦
            let rest = watch_stream-IsHeard status.state turns t in
            rw (t, e) (same-IsHeard last status false now turns _ _ t e rest)
      ]
      | inr d ↦ rw d (record { carried = rw d refl; stopped = rw d refl })
    ]
