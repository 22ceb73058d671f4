-- ===== src/Backend/System/Kept.antt =====
-- backend/db/db.go and backend/etl/server.go: what a submit leaves as it is, and how rows are found.
use yt_trending_pipeline.Prelude.{
  ℕ, zero, suc, ◌≡◌, refl, ap, sym, ◌∙◌, subst, none, some, Bool, true, false, ◌||◌, ◌&&◌, List, [],
  ◌∷◌, ◌++◌, append-nil, Str, same, same→eq, find, take, All, Bool-cases, inl, inr, if◌then◌else◌,
}
use yt_trending_pipeline.Storage.Recent.{IsDistinct}
use yt_trending_pipeline.Backend.{World, JobRow, Job, JobRequest}
use yt_trending_pipeline.Backend.Database.{
  Outcome, confirmed, lost, refused, Lookup, row_found, no_rows, broken, has_id, insert_job,
  accepts_job, new_row, carried_out, is_confirmed,
}
use yt_trending_pipeline.Backend.Database.Rows.{ids, others, find_hit, find_miss}
use yt_trending_pipeline.Backend.Etl.{after_lookup, respond, enqueue, refused_request, created}
use yt_trending_pipeline.Backend.Worker.Ended.{IsEnded}
use yt_trending_pipeline.Backend.System.Distinct.{has, clash, same_sym}

pub find-others :
    (other id : Str) (rows : List JobRow)
    → same other id ≡ false
    → find (has_id id) (others other rows) ≡ find (has_id id) rows
find-others other id [] h = refl
find-others other id (row ∷ rows) h = elim (Bool-cases (has_id other row)) [
  | inl e ↦
      let miss = ap (λ i. same i id) (same→eq row.job_id other e) ∙ h in
      rw (e, miss) (find-others other id rows h)
  | inr e ↦ elim (Bool-cases (has_id id row)) [
    | inl hit ↦ rw (e, hit) refl
    | inr miss ↦ rw (e, miss) (find-others other id rows h)
  ]
]

find-more :
    (p : JobRow → Bool) (rows more : List JobRow) (row : JobRow)
    → find p rows ≡ some row
    → find p (rows ++ more) ≡ some row
find-more p [] more row h = cc
find-more p (first ∷ rows) more row h = elim (Bool-cases (p first)) [
  | inl e ↦ find_hit p first (rows ++ more) e ∙ sym (find_hit p first rows e) ∙ h
  | inr e ↦
      find_miss p first (rows ++ more) e
      ∙ find-more p rows more row (sym (find_miss p first rows e) ∙ h)
]

pub All-take-append :
    {A : Type 0} (P : A → Type 0) (n : ℕ) (xs ys : List A)
    → All P (take n (xs ++ ys))
    → All P (take n xs)
All-take-append P zero xs ys h = tt
All-take-append P (suc n) [] ys h = tt
All-take-append P (suc n) (x ∷ xs) ys h = (h.0, All-take-append P n xs ys h.1)

pub All-at :
    (P : Str → Type 0) (xs : List Str) (y : Str) (ys : List Str) → All P (xs ++ y ∷ ys) → P y
All-at P [] y ys h = h.0
All-at P (x ∷ xs) y ys h = All-at P xs y ys h.1

-- what was taken differs from what is at the head of the channel
pub distinct-differs :
    (xs : List Str) (y : Str) (ys : List Str) (x : Str)
    → IsDistinct (xs ++ y ∷ ys)
    → has x xs ≡ true
    → same y x ≡ false
distinct-differs [] y ys x d h = absurd (clash h)
distinct-differs (first ∷ xs) y ys x d h = elim (Bool-cases (same x first)) [
  | inl e ↦
      subst (λ z. same y z ≡ false) (sym (same→eq x first e))
        (All-at (λ z. same z first ≡ false) xs y ys d.0)
  | inr e ↦ distinct-differs xs y ys x d.1 (ap (λ b. b || has x xs) (sym e) ∙ h)
]

-- Rows that are there stay as they are, and the channel gets jobs at its end.
pub record Keeps (w after : World) : Type 0 where
  pub rows :
      (id : Str) (row : JobRow)
      → find (has_id id) w.jobs ≡ some row
      → find (has_id id) after.jobs ≡ some row
  pub more : List Job
  pub queue : after.queue ≡ w.queue ++ more

pub Keeps-same : (w after : World) → after.jobs ≡ w.jobs → after.queue ≡ w.queue → Keeps w after
Keeps-same w after j q = record {
  rows = λ id row h. ap (find (has_id id)) j ∙ h;
  more = [];
  queue = q ∙ sym (append-nil w.queue);
}

module _ (answers : ℕ → Outcome) (uuid : World → Str) (now : World → ℕ)
    (h : (n : ℕ) → answers n ≡ confirmed) where
  insert-Keeps :
      (req : JobRequest) (w : World) (o : Outcome) (fits : Bool)
      → let row = new_row (uuid w) (now w) req in
        let id = if is_confirmed o && fits then some (uuid w) else none in
        let after = record w {
          jobs = if carried_out o && fits then w.jobs ++ (row ∷ []) else w.jobs;
          calls = suc w.calls;
        } in
        Keeps w
          (respond answers uuid now req
            (elim id [ none ↦ refused_request | some new ↦ created new ], after)).1
  unfolding respond enqueue
  insert-Keeps req w confirmed true = record {
    rows = λ id row e. find-more (has_id id) w.jobs _ row e;
    more = record { id = uuid w; req = req } ∷ [];
    queue = refl;
  }
  insert-Keeps req w confirmed false = Keeps-same w _ refl refl
  insert-Keeps req w lost true = record {
    rows = λ id row e. find-more (has_id id) w.jobs _ row e;
    more = [];
    queue = sym (append-nil w.queue);
  }
  insert-Keeps req w lost false = Keeps-same w _ refl refl
  insert-Keeps req w refused fits = Keeps-same w _ refl refl

  pub submitted-Keeps :
      (req : JobRequest) (found : Lookup) (w : World)
      → Keeps w (respond answers uuid now req (after_lookup answers uuid now req (found, w))).1
  unfolding respond after_lookup insert_job
  submitted-Keeps req (row_found row) w = Keeps-same w _ refl refl
  submitted-Keeps req broken w = Keeps-same w _ refl refl
  submitted-Keeps req no_rows w =
      insert-Keeps req w (answers w.calls) (accepts_job (uuid w) req.idempotency_key w.jobs)

pub Keeps-IsEnded : {w after : World} {id : Str} → Keeps w after → IsEnded id w → IsEnded id after
Keeps-IsEnded k e = record { row = e.row; stored = k.rows _ e.row e.stored; over = e.over }

-- A job has a row if its id is one of the ids.
pub has-find :
    (id : Str) (rows : List JobRow)
    → has id (ids rows) ≡ true
    → (row : JobRow) × (find (has_id id) rows ≡ some row)
has-find id [] k = absurd (clash k)
has-find id (row ∷ rows) k = elim (Bool-cases (has_id id row)) [
  | inl e ↦ (row, find_hit (has_id id) row rows e)
  | inr e ↦
      let rest =
        has-find id rows (ap (λ b. b || has id (ids rows)) (sym (same_sym row.job_id id e)) ∙ k) in
      (rest.0, find_miss (has_id id) row rows e ∙ rest.1)
]
