-- ===== src/Storage/Recent.antt =====
-- The stored ids are the most recent distinct ones: frontend/components/jobs-list.tsx.
use yt_trending_pipeline.Prelude.{
  ℕ, zero, suc, ◌≤◌, ◌≡◌, refl, ap, sym, ◌∙◌, false, not, Option, none, some, List, [], ◌∷◌, Str,
  same, same_iff, same→eq, subst, take, keep, length, length-take, All, All-keep, All-take, arith,
  if◌then◌else◌, Bool-cases, inl, inr, ℤ, or_else,
}
use yt_trending_pipeline.Storage.{
  Storage, Host, browser, max_stored, remember, store_job_id, store_job_meta, put, max_results_of,
  get_job_max_results, get_stored_job_ids, Meta,
}

-- No id occurs twice.
abbrev pub IsDistinct : List Str → Type 0
IsDistinct [] = Unit
IsDistinct (x ∷ xs) = All (λ y. same y x ≡ false) xs × IsDistinct xs

abbrev without : Str → List Str → List Str
without x = keep (λ id. not (same id x))

without-fresh : (x : Str) (xs : List Str) → All (λ y. same y x ≡ false) (without x xs)
without-fresh x [] = tt
without-fresh x (y ∷ ys) = ground (arith, without-fresh x ys)

IsDistinct-without : (x : Str) (xs : List Str) → IsDistinct xs → IsDistinct (without x xs)
IsDistinct-without x [] h = tt
IsDistinct-without x (y ∷ ys) h = elim (Bool-cases (same y x)) [
  | inl e ↦ rw e (IsDistinct-without x ys h.1)
  | inr e ↦
      rw e (
        All-keep (λ z. same z y ≡ false) (λ id. not (same id x)) ys h.0,
        IsDistinct-without x ys h.1,
      )
]

IsDistinct-take : (n : ℕ) (xs : List Str) → IsDistinct xs → IsDistinct (take n xs)
IsDistinct-take zero xs h = tt
IsDistinct-take (suc n) [] h = tt
IsDistinct-take (suc n) (x ∷ xs) h =
    (All-take (λ z. same z x ≡ false) n xs h.0, IsDistinct-take n xs h.1)

remember-IsDistinct : (x : Str) (xs : List Str) → IsDistinct xs → IsDistinct (remember x xs)
unfolding remember
remember-IsDistinct x xs h =
    IsDistinct-take max_stored (x ∷ without x xs) (without-fresh x xs, IsDistinct-without x xs h)

-- The distinct ids of a history, the most recent first.
abbrev pub recency : List Str → List Str
recency [] = []
recency (x ∷ earlier) = x ∷ keep (λ id. not (same id x)) (recency earlier)

-- A history of stores, the most recent first, on a browser that has stored nothing.
abbrev pub store_all : List Str → Host
store_all [] = browser (record { job_ids = none; job_meta = none })
store_all (x ∷ earlier) = store_job_id x (store_all earlier)

recency-IsDistinct : (history : List Str) → IsDistinct (recency history)
recency-IsDistinct [] = tt
recency-IsDistinct (x ∷ earlier) = (
  without-fresh x (recency earlier),
  IsDistinct-without x (recency earlier) (recency-IsDistinct earlier),
)

without_absent : (x : Str) (xs : List Str) → All (λ y. same y x ≡ false) xs → without x xs ≡ xs
without_absent x [] h = refl
without_absent x (y ∷ ys) h = rw h.0 (ap (◌∷◌ y) (without_absent x ys h.1))

take-take : (n : ℕ) (xs : List Str) → take n (take n xs) ≡ take n xs
take-take zero xs = refl
take-take (suc n) [] = refl
take-take (suc n) (x ∷ xs) = ap (◌∷◌ x) (take-take n xs)

take-without_head :
    (n : ℕ) (x : Str) (ys : List Str)
    → All (λ y. same y x ≡ false) ys
    → take (suc n) (without x (take (suc n) ys)) ≡ take (suc n) (without x ys)
take-without_head n x ys h =
    ap (take (suc n))
      (without_absent x (take (suc n) ys) (All-take (λ y. same y x ≡ false) (suc n) ys h))
    ∙ take-take (suc n) ys
    ∙ ap (take (suc n)) (sym (without_absent x ys h))

-- Cutting a distinct list one element late before an id is removed loses nothing.
take-without :
    (n : ℕ) (x : Str) (xs : List Str)
    → IsDistinct xs
    → take n (without x (take (suc n) xs)) ≡ take n (without x xs)
take-without zero x xs h = refl
take-without (suc n) x [] h = refl
take-without (suc n) x (y ∷ ys) h = elim (Bool-cases (same y x)) [
  | inl e ↦
      rw e
        (take-without_head n x ys (subst (λ z. All (λ w. same w z ≡ false) ys) (same→eq y x e) h.0))
  | inr e ↦ rw e (ap (◌∷◌ y) (take-without n x ys h.1))
]

max_stored_suc : (x : Str) (xs : List Str) → remember x xs ≡ x ∷ take 19 (without x xs)
unfolding remember
max_stored_suc x xs = refl

-- One store on a list that is the front of a history's distinct ids.
remember-take :
    (x : Str) (xs : List Str)
    → IsDistinct xs
    → remember x (take max_stored xs) ≡ take max_stored (x ∷ without x xs)
remember-take x xs h = max_stored_suc x (take max_stored xs) ∙ ap (◌∷◌ x) (take-without 19 x xs h)

stored :
    (history : List Str)
    → (s : Storage) × (store_all history ≡ browser s)
      × (or_else s.job_ids [] ≡ take max_stored (recency history))
unfolding store_job_id
stored [] = (record { job_ids = none; job_meta = none }, refl, refl)
stored (x ∷ earlier) =
    let (s, e, ids) = stored earlier in
    (
      record s { job_ids = some (remember x (or_else s.job_ids [])) },
      ap (store_job_id x) e,
      ap (remember x) ids ∙ remember-take x (recency earlier) (recency-IsDistinct earlier),
    )

-- However jobs are stored, the browser keeps the 20 most recent distinct ids, the most recent
-- first: never more than 20, and none twice.
pub store_job_id-recency :
    (history : List Str)
    → (get_stored_job_ids (store_all history) ≡ take max_stored (recency history))
      × (length (get_stored_job_ids (store_all history)) ≤ max_stored)
      × IsDistinct (get_stored_job_ids (store_all history))
unfolding get_stored_job_ids
store_job_id-recency history =
    let (s, e, ids) = stored history in
    let kept : get_stored_job_ids (store_all history) ≡ take max_stored (recency history) =
      ap get_stored_job_ids e ∙ ids in
    (
      kept,
      rw kept (omega (arith, length-take max_stored (recency history))),
      rw kept (IsDistinct-take max_stored (recency history) (recency-IsDistinct history)),
    )

pub max_results_of-put :
    (j k : Str) (v : Option ℤ) (meta : Meta)
    → max_results_of j (put k v meta) ≡ (if same k j then v else max_results_of j meta)
unfolding max_results_of put
max_results_of-put j k v [] = refl
max_results_of-put j k v ((i, old) ∷ meta) =
    ground (arith, same_iff i k, same_iff i j, same_iff k j, max_results_of-put j k v meta)

-- Storing the settings of one job makes them that job's, leaves those of the others and the
-- stored ids; storing an id leaves all settings.
get_job_max_results-store_job_meta :
    (s : Storage) (j k : Str) (v : Option ℤ)
    → (get_job_max_results j (store_job_meta k v (browser s))
        ≡ (if same k j then v else get_job_max_results j (browser s)))
      × (get_stored_job_ids (store_job_meta k v (browser s)) ≡ get_stored_job_ids (browser s))
      × (get_job_max_results j (store_job_id k (browser s)) ≡ get_job_max_results j (browser s))
unfolding get_job_max_results store_job_meta get_stored_job_ids store_job_id
get_job_max_results-store_job_meta s j k v =
    (max_results_of-put j k v (or_else s.job_meta []), refl, refl)
