-- ===== src/Backend/Database/Rows.antt =====
-- backend/db/db.go: how the statements change the rows.
use yt_trending_pipeline.Prelude.{
  ◌≡◌, refl, ap, ◌∙◌, sym, Option, none, some, Bool, true, false, not, List, [], ◌∷◌, map, Str,
  same, keep, find, Bool-cases, inl, inr,
}
use yt_trending_pipeline.Backend.{JobRow}
use yt_trending_pipeline.Backend.Database.{has_id, update_where}

abbrev pub ids : List JobRow → List Str
ids rows = map (λ row. row.job_id) rows

abbrev pub keys : List JobRow → List Str
keys rows = map (λ row. row.idempotency_key) rows

-- the rows of the other jobs
abbrev pub others : Str → List JobRow → List JobRow
others id rows = keep (λ row. not (has_id id row)) rows

-- An assignment to columns that are no keys.
abbrev pub KeepsKeys : (JobRow → JobRow) → Type 0
KeepsKeys set =
    (row : JobRow)
    → ((set row).job_id ≡ row.job_id) × ((set row).idempotency_key ≡ row.idempotency_key)

module _ {ℓ} {A : Type ℓ} (p : A → Bool) (x : A) (xs : List A) where
  pub find_hit : p x ≡ true → find p (x ∷ xs) ≡ some x
  find_hit e = rw e refl

  pub find_miss : p x ≡ false → find p (x ∷ xs) ≡ find p xs
  find_miss e = rw e refl

module _ (id : Str) (row : JobRow) (rows : List JobRow) where
  others_hit : has_id id row ≡ true → others id (row ∷ rows) ≡ others id rows
  others_hit e = rw e refl

  others_miss : has_id id row ≡ false → others id (row ∷ rows) ≡ row ∷ others id rows
  others_miss e = rw e refl

abbrev set_some : (JobRow → JobRow) → Option JobRow → Option JobRow
set_some set none = none
set_some set (some row) = some (set row)

module _ (id : Str) (set : JobRow → JobRow) (h : KeepsKeys set) where
  pub ids-update_where : (rows : List JobRow) → ids (update_where id set rows) ≡ ids rows
  unfolding update_where
  ids-update_where [] = refl
  ids-update_where (row ∷ rows) = elim (Bool-cases (has_id id row)) [
    | inl e ↦ rw (e, (h row).0, ids-update_where rows) refl
    | inr e ↦ rw (e, ids-update_where rows) refl
  ]

  pub keys-update_where : (rows : List JobRow) → keys (update_where id set rows) ≡ keys rows
  unfolding update_where
  keys-update_where [] = refl
  keys-update_where (row ∷ rows) = elim (Bool-cases (has_id id row)) [
    | inl e ↦ rw (e, (h row).1, keys-update_where rows) refl
    | inr e ↦ rw (e, keys-update_where rows) refl
  ]

  set-has_id : (row : JobRow) → has_id id (set row) ≡ has_id id row
  set-has_id row = ap (λ other. same other id) (h row).0

  update_where_hit :
      (row : JobRow) (rows : List JobRow)
      → has_id id row ≡ true
      → update_where id set (row ∷ rows) ≡ set row ∷ update_where id set rows
  unfolding update_where
  update_where_hit row rows e = rw e refl

  update_where_miss :
      (row : JobRow) (rows : List JobRow)
      → has_id id row ≡ false
      → update_where id set (row ∷ rows) ≡ row ∷ update_where id set rows
  unfolding update_where
  update_where_miss row rows e = rw e refl

  pub others-update_where :
      (rows : List JobRow) → others id (update_where id set rows) ≡ others id rows
  unfolding update_where
  others-update_where [] = refl
  others-update_where (row ∷ rows) = elim (Bool-cases (has_id id row)) [
    | inl e ↦
        ap (others id) (update_where_hit row rows e)
        ∙ others_hit id (set row) (update_where id set rows) (set-has_id row ∙ e)
        ∙ others-update_where rows
        ∙ sym (others_hit id row rows e)
    | inr e ↦
        ap (others id) (update_where_miss row rows e)
        ∙ others_miss id row (update_where id set rows) e
        ∙ ap (◌∷◌ row) (others-update_where rows)
        ∙ sym (others_miss id row rows e)
  ]

  pub find-update_where :
      (rows : List JobRow) (row : JobRow)
      → find (has_id id) rows ≡ some row
      → find (has_id id) (update_where id set rows) ≡ some (set row)
  find-update_where [] row e = cc
  find-update_where (first ∷ rows) row e = elim (Bool-cases (has_id id first)) [
    | inl q ↦
        ap (find (has_id id)) (update_where_hit first rows q)
        ∙ find_hit (has_id id) (set first) (update_where id set rows) (set-has_id first ∙ q)
        ∙ ap (set_some set) (sym (find_hit (has_id id) first rows q) ∙ e)
    | inr q ↦
        ap (find (has_id id)) (update_where_miss first rows q)
        ∙ find_miss (has_id id) first (update_where id set rows) q
        ∙ find-update_where rows row (sym (find_miss (has_id id) first rows q) ∙ e)
  ]
