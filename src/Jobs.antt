-- ===== src/Jobs.antt =====
-- frontend/lib/jobs.ts and frontend/components/job-status-badge.tsx: the tables of job states,
-- timestamps, idempotency keys, categories and regions.
pub mod Time
pub mod Key
pub mod Catalog
use yt_trending_pipeline.Prelude.{
  ℕ, Option, none, some, Bool, false, ◌||◌, List, [], ◌∷◌, Str, text, JsNum, or_else, ◌==◌,
  if◌then◌else◌,
}

-- `table[key]` on a `Record<number, …>`; `undefined` is no key of it
abbrev pub entry {ℓ} : {A : Type ℓ} → List (ℕ × A) → JsNum → Option A
entry table none = none
entry [] (some key) = none
entry ((k, v) ∷ table) (some key) = if k == key then some v else entry table (some key)

abbrev pub job_states : List (ℕ × Str)
job_states =
    (0, text "JOB_STATE_UNSPECIFIED")
    ∷ (1, text "JOB_STATE_DONE")
    ∷ (2, text "JOB_STATE_FAILED")
    ∷ (3, text "JOB_STATE_QUEUED")
    ∷ (4, text "JOB_STATE_RUNNING")
    ∷ (5, text "JOB_STATE_RETRYING")
    ∷ (6, text "JOB_STATE_DEAD")
    ∷ []

abbrev pub job_state_labels : List (ℕ × Str)
job_state_labels =
    (0, text "Unspecified")
    ∷ (1, text "Done")
    ∷ (2, text "Failed")
    ∷ (3, text "Queued")
    ∷ (4, text "Running")
    ∷ (5, text "Retrying")
    ∷ (6, text "Dead")
    ∷ []

pub data StateVariant : Type 0 where
  default secondary destructive outline success warning running : StateVariant

abbrev pub job_state_variant : List (ℕ × StateVariant)
job_state_variant =
    (0, secondary)
    ∷ (1, success)
    ∷ (2, destructive)
    ∷ (3, secondary)
    ∷ (4, running)
    ∷ (5, warning)
    ∷ (6, destructive)
    ∷ []

unfoldable pub is_terminal_state : JsNum → Bool
is_terminal_state none = false
is_terminal_state (some state) = (state == 1) || (state == 2) || (state == 6)

abbrev pub state_styles : List (ℕ × Str)
state_styles =
    (0, text "bg-zinc-700 text-zinc-300 border-zinc-600")
    ∷ (1, text "bg-emerald-900/60 text-emerald-300 border-emerald-700")
    ∷ (2, text "bg-red-900/60 text-red-300 border-red-700")
    ∷ (3, text "bg-zinc-700 text-zinc-300 border-zinc-600")
    ∷ (4, text "bg-blue-900/60 text-blue-300 border-blue-700")
    ∷ (5, text "bg-amber-900/60 text-amber-300 border-amber-700")
    ∷ (6, text "bg-red-950/60 text-red-400 border-red-800")
    ∷ []

pub record Badge : Type 0 where
  pub style : Option Str
  pub label : Str

unfoldable pub job_status_badge : JsNum → Badge
job_status_badge state = record {
  style = elim (entry state_styles state) [
    | some style ↦ some style
    | none ↦ entry state_styles (some 0)
  ];
  label = or_else (entry job_state_labels state) (text "Unknown");
}
