-- ===== src/Backend/Etl/Streamed.antt =====
-- backend/etl/server.go: what the stream of `WatchJob` carries, and how it ends, with its errors.
use yt_trending_pipeline.Prelude.{
  ℕ, ◌≡◌, ◌⊎◌, inl, inr, refl, sym, subst, ◌∙◌, Bool, true, false, ◌&&◌, List, [], ◌∷◌, map, All,
  keep, length, Bool-cases, if◌then◌else◌,
}
use yt_trending_pipeline.Backend.{JobState, unspecified}
use yt_trending_pipeline.Backend.Etl.{is_terminal, same_state}
use yt_trending_pipeline.Backend.Etl.Status.{JobStatus}
use yt_trending_pipeline.Backend.Etl.Watch.{
  Follows, final, some_terminal, terminal_same, same_state→eq,
}
use yt_trending_pipeline.Backend.Etl.Heard.{IsHeard, watch_stream-IsHeard}
use yt_trending_pipeline.Backend.Etl.Stream.{
  Turn, context_done, lookup_failed, answered, JobUpdate, End, polling, returned, cancelled,
  failed_lookup, failed_send, update_of, watch_stream,
}

abbrev pub is_returned : End → Bool
is_returned returned = true
is_returned _ = false

abbrev pub states : List JobUpdate → List JobState
states updates = map (λ u. u.state) updates

-- Every turn reads a status, and sends it if it has to.
abbrev pub all_calm : List Turn → Bool
all_calm [] = true
all_calm (context_done ∷ turns) = false
all_calm (lookup_failed ∷ turns) = false
all_calm (answered status sent now ∷ turns) = sent && all_calm turns

-- the states that the turns read
abbrev pub reads : List Turn → List JobState
reads [] = []
reads (context_done ∷ turns) = reads turns
reads (lookup_failed ∷ turns) = reads turns
reads (answered status sent now ∷ turns) = status.state ∷ reads turns

-- The update is that of a turn.
abbrev pub IsReport : List Turn → JobUpdate → Type 0
IsReport [] u = ⊥
IsReport (context_done ∷ turns) u = IsReport turns u
IsReport (lookup_failed ∷ turns) u = IsReport turns u
IsReport (answered status sent now ∷ turns) u = (u ≡ update_of status now) ⊎ IsReport turns u

pub record IsStream (last : JobState) (turns : List Turn) (updates : List JobUpdate) (end : End)
    : Type 0 where
  pub reports : All (IsReport turns) updates
  pub changes : Follows last (states updates)
  pub ends_with : is_terminal (final last (states updates)) ≡ is_returned end
  pub only_one : length (keep is_terminal (states updates)) ≡ (if is_returned end then 1 else 0)
  pub calm : end ≡ (
      if all_calm turns then (if some_terminal (reads turns) then returned else polling) else end)

All-IsReport :
    (status : JobStatus) (sent : Bool) (now : ℕ) (turns : List Turn) (updates : List JobUpdate)
    → All (IsReport turns) updates
    → All (IsReport (answered status sent now ∷ turns)) updates
All-IsReport status sent now turns [] h = tt
All-IsReport status sent now turns (u ∷ updates) h =
    (inr h.0, All-IsReport status sent now turns updates h.1)

if_same : (b : Bool) (e : End) → e ≡ (if b then e else e)
if_same true e = refl
if_same false e = refl

if_and : (a b : Bool) (d e : End) → e ≡ (if b then d else e) → e ≡ (if a && b then d else e)
if_and true b d e h = h
if_and false b d e h = refl

-- Nothing was sent, and the stream has not returned.
empty-IsStream :
    (last : JobState) (turns : List Turn) (end : End)
    → is_terminal last ≡ false
    → is_returned end ≡ false
    → end ≡ (
        if all_calm turns then (if some_terminal (reads turns) then returned else polling) else end)
    → IsStream last turns [] end
empty-IsStream last turns end open_last e calm = record {
  reports = tt;
  changes = tt;
  ends_with = open_last ∙ sym e;
  only_one = rw e refl;
  calm = calm;
}

module _ (last : JobState) (status : JobStatus) (sent : Bool) (now : ℕ) (turns : List Turn) where
  kept-IsStream :
      (updates : List JobUpdate) (end : End)
      → is_terminal status.state ≡ false
      → status.state ≡ last
      → IsStream last turns updates end
      → IsStream last (answered status sent now ∷ turns) updates end
  kept-IsStream updates end t same w = record {
    reports = All-IsReport status sent now turns updates w.reports;
    changes = w.changes;
    ends_with = w.ends_with;
    only_one = w.only_one;
    calm = rw t (if_and sent (all_calm turns) _ end w.calm);
  }

  sent-IsStream :
      (updates : List JobUpdate) (end : End)
      → is_terminal status.state ≡ false
      → same_state status.state last ≡ false
      → IsStream status.state turns updates end
      → IsStream last (answered status sent now ∷ turns) (update_of status now ∷ updates) end
  unfolding update_of
  sent-IsStream updates end t d w = record {
    reports = (inl refl, All-IsReport status sent now turns updates w.reports);
    changes = (d, w.changes);
    ends_with = w.ends_with;
    only_one = rw t w.only_one;
    calm = rw t (if_and sent (all_calm turns) _ end w.calm);
  }

  end-IsStream :
      is_terminal status.state ≡ true
      → same_state status.state last ≡ false
      → IsStream last (answered status sent now ∷ turns) (update_of status now ∷ []) returned
  unfolding update_of
  end-IsStream t d = record {
    reports = (inl refl, tt);
    changes = (d, tt);
    ends_with = t;
    only_one = rw t refl;
    calm =
        rw t (if_and sent (all_calm turns) returned returned (if_same (all_calm turns) returned));
  }

watch_stream_from-IsStream :
    (last : JobState) (turns : List Turn)
    → is_terminal last ≡ false
    → IsStream last turns (watch_stream last turns).0 (watch_stream last turns).1
unfolding watch_stream
watch_stream_from-IsStream last [] h = empty-IsStream last [] polling h refl refl
watch_stream_from-IsStream last (context_done ∷ turns) h =
    empty-IsStream last (context_done ∷ turns) cancelled h refl refl
watch_stream_from-IsStream last (lookup_failed ∷ turns) h =
    empty-IsStream last (lookup_failed ∷ turns) failed_lookup h refl refl
watch_stream_from-IsStream last (answered status true now ∷ turns) h =
    elim (Bool-cases (is_terminal status.state)) [
      | inl t ↦ elim (Bool-cases (same_state status.state last)) [
        | inl e ↦ absurd (terminal_same status.state last t h e)
        | inr d ↦ rw (t, d) (end-IsStream last status true now turns t d)
      ]
      | inr t ↦ elim (Bool-cases (same_state status.state last)) [
        | inl e ↦
            let same = same_state→eq status.state last e in
            rw (t, e)
              (kept-IsStream last status true now turns _ _ t same (
                subst
                  (λ first.
                    IsStream last turns (watch_stream first turns).0 (watch_stream first turns).1)
                  (sym same) (watch_stream_from-IsStream last turns h)))
        | inr d ↦
            rw (t, d)
              (sent-IsStream last status true now turns _ _ t d
                (watch_stream_from-IsStream status.state turns t))
      ]
    ]
watch_stream_from-IsStream last (answered status false now ∷ turns) h =
    elim (Bool-cases (same_state status.state last)) [
      | inl e ↦ elim (Bool-cases (is_terminal status.state)) [
        | inl t ↦ absurd (terminal_same status.state last t h e)
        | inr t ↦
            let same = same_state→eq status.state last e in
            rw (t, e)
              (kept-IsStream last status false now turns _ _ t same (
                subst
                  (λ first.
                    IsStream last turns (watch_stream first turns).0 (watch_stream first turns).1)
                  (sym same) (watch_stream_from-IsStream last turns h)))
      ]
      | inr d ↦
          rw d (empty-IsStream last (answered status false now ∷ turns) failed_send h refl refl)
    ]

-- Whatever the turns of the loop find, statuses are heard up to the first terminal one or the first
-- turn whose lookup fails or whose context is cancelled. The stream carries the changes of state
-- among those statuses, in order, an update with the status and the time of each; it stops at the
-- first update that cannot be sent, and has an error then; else it ends as the last turn does: it
-- returns without an error after a terminal state, has the error of a failed lookup or of the
-- cancelled context, or goes on polling. It returns exactly if the last state sent is terminal,
-- which is then the only terminal one.
pub watch_stream-IsStream :
    (turns : List Turn)
    → let (updates, end) = watch_stream unspecified turns in
      IsStream unspecified turns updates end × IsHeard unspecified turns updates end
watch_stream-IsStream turns =
    (watch_stream_from-IsStream unspecified turns refl, watch_stream-IsHeard unspecified turns refl)
