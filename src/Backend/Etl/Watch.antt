-- ===== src/Backend/Etl/Watch.antt =====
-- backend/etl/server.go: what the stream of `WatchJob` carries.
use yt_trending_pipeline.Prelude.{
  ◌≡◌, refl, ap, sym, ◌∙◌, Bool, true, false, List, [], ◌∷◌, length, keep, arith, if◌then◌else◌,
  Bool-cases, inl, inr,
}
use yt_trending_pipeline.Backend.{JobState, unspecified}
use yt_trending_pipeline.Backend.Etl.{is_terminal, same_state, watch_loop, watch_job}

-- Each state differs from the one before it.
abbrev pub Follows : JobState → List JobState → Type 0
Follows last [] = Unit
Follows last (state ∷ states) = (same_state state last ≡ false) × Follows state states

-- the last state of a list that starts with `last`
abbrev pub final : JobState → List JobState → JobState
final last [] = last
final last (state ∷ states) = final state states

abbrev pub some_terminal : List JobState → Bool
some_terminal [] = false
some_terminal (state ∷ states) = if is_terminal state then true else some_terminal states

-- the state of the last poll that the loop makes
abbrev pub last_read : JobState → List JobState → JobState
last_read last [] = last
last_read last (state ∷ states) =
    let more = last_read state states in if is_terminal state then state else more

pub record IsWatched (last : JobState) (polls sent : List JobState) (ended : Bool) : Type 0 where
  pub changes : Follows last sent
  pub ends : ended ≡ some_terminal polls
  pub ends_with : is_terminal (final last sent) ≡ ended
  pub current : final last sent ≡ last_read last polls
  pub only_one : length (keep is_terminal sent) ≡ (if ended then 1 else 0)

pub same_state→eq : (a b : JobState) → same_state a b ≡ true → a ≡ b
same_state→eq a b h = ground arith

pub terminal_same :
    (a b : JobState) → is_terminal a ≡ true → is_terminal b ≡ false → same_state a b ≡ true → ⊥
terminal_same a b t h e = ground arith

-- A state is sent before the rest.
sent-IsWatched :
    (last state : JobState) (polls sent : List JobState) (ended : Bool)
    → is_terminal state ≡ false
    → same_state state last ≡ false
    → IsWatched state polls sent ended
    → IsWatched last (state ∷ polls) (state ∷ sent) ended
sent-IsWatched last state polls sent ended t d w = record {
  changes = (d, w.changes);
  ends = rw t w.ends;
  ends_with = w.ends_with;
  current = rw t w.current;
  only_one = rw t w.only_one;
}

kept-IsWatched :
    (last state : JobState) (polls sent : List JobState) (ended : Bool)
    → is_terminal state ≡ false
    → state ≡ last
    → IsWatched last polls sent ended
    → IsWatched last (state ∷ polls) sent ended
kept-IsWatched last state polls sent ended t same w = record {
  changes = w.changes;
  ends = rw t w.ends;
  ends_with = w.ends_with;
  current = rw t (w.current ∙ ap (λ first. last_read first polls) (sym same));
  only_one = w.only_one;
}

end-IsWatched :
    (last state : JobState) (polls : List JobState)
    → is_terminal state ≡ true
    → same_state state last ≡ false
    → IsWatched last (state ∷ polls) (state ∷ []) true
end-IsWatched last state polls t d = record {
  changes = (d, tt);
  ends = rw t refl;
  ends_with = t;
  current = rw t refl;
  only_one = rw t refl;
}

watch_loop-IsWatched :
    (last : JobState) (polls : List JobState)
    → is_terminal last ≡ false
    → IsWatched last polls (watch_loop last polls).0 (watch_loop last polls).1
unfolding watch_loop
watch_loop-IsWatched last [] h = record {
  changes = tt;
  ends = refl;
  ends_with = h;
  current = refl;
  only_one = refl;
}
watch_loop-IsWatched last (state ∷ polls) h = elim (Bool-cases (is_terminal state)) [
  | inl t ↦ elim (Bool-cases (same_state state last)) [
    | inl e ↦ absurd (terminal_same state last t h e)
    | inr d ↦ rw (t, d) (end-IsWatched last state polls t d)
  ]
  | inr t ↦ elim (Bool-cases (same_state state last)) [
    | inl e ↦
        rw (t, e)
          (kept-IsWatched last state polls _ _ t (same_state→eq state last e)
            (watch_loop-IsWatched last polls h))
    | inr d ↦
        rw (t, d) (sent-IsWatched last state polls _ _ t d (watch_loop-IsWatched state polls t))
  ]
]

-- Whatever states the polls of a job read, while no call fails: each state that is sent differs
-- from the one before it; the stream ends exactly if a poll reads a terminal state; the last state
-- sent is the one that the last poll of the loop read, a terminal one exactly if the stream has
-- ended; it is the only terminal one.
pub watch_job-IsWatched :
    (polls : List JobState) → IsWatched unspecified polls (watch_job polls).0 (watch_job polls).1
unfolding watch_job
watch_job-IsWatched polls = watch_loop-IsWatched unspecified polls refl
