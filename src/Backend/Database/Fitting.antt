-- ===== src/Backend/Database/Fitting.antt =====
-- backend/db/db.go: the conditions that `GetVideos` puts into its statement, read as relations.
use yt_trending_pipeline.Prelude.{
  ℕ, ◌<◌, ◌≡◌, refl, ap, subst, ◌↔◌, ◌⊎◌, inl, inr, Option, none, some, Bool, true, false, ◌||◌,
  ◌&&◌, not, List, [], ◌∷◌, Str, truthy, same_iff, keep, All, ℤ, pos, negsuc, if◌then◌else◌,
  Bool-cases, arith,
}
use yt_trending_pipeline.Backend.{VideoRow}
use yt_trending_pipeline.Backend.Database.Select.{same_int, later_than, earlier_than, fits}

abbrev pub IsAfter : Option ℕ → ℕ → Type 0
IsAfter none time = Unit
IsAfter (some bound) time = bound < time

abbrev pub IsBefore : Option ℕ → ℕ → Type 0
IsBefore none time = Unit
IsBefore (some bound) time = time < bound

-- The row is of the region and of the category, if they are given, and within the times.
abbrev pub IsFitting : Str → ℤ → Option ℕ → Option ℕ → VideoRow → Type 0
IsFitting region category_id fetched_after fetched_before v =
    ((region ≡ []) ⊎ (v.region ≡ region))
    × ((category_id ≡ pos 0) ⊎ (v.category_id ≡ category_id))
    × IsAfter fetched_after v.fetched_at
    × IsBefore fetched_before v.fetched_at

same_int→eq : (a b : ℤ) → same_int a b ≡ true → a ≡ b
same_int→eq (pos a) (pos b) h = ap pos (ground arith)
same_int→eq (pos a) (negsuc b) h = absurd (ground arith)
same_int→eq (negsuc a) (pos b) h = absurd (ground arith)
same_int→eq (negsuc a) (negsuc b) h = ap negsuc (ground arith)

same_int_refl : (a : ℤ) → same_int a a ≡ true
same_int_refl (pos a) = ground arith
same_int_refl (negsuc a) = ground arith

int_iff : (a b : ℤ) → (same_int a b ≡ true) ↔ (a ≡ b)
int_iff a b = (same_int→eq a b, λ e. subst (λ c. same_int a c ≡ true) e (same_int_refl a))

or_true : (a : Bool) → (a || true) ≡ true
or_true true = refl
or_true false = refl

-- a disjunction of two tests holds exactly if one of the two statements does
pub or_iff :
    {P Q : Type 0} {a b : Bool} → (a ≡ true) ↔ P → (b ≡ true) ↔ Q → ((a || b) ≡ true) ↔ (P ⊎ Q)
or_iff {a = true} {b = b} f g = (λ h. inl (f.0 refl), λ h. refl)
or_iff {a = false} {b = true} f g = (λ h. inr (g.0 refl), λ h. refl)
or_iff {P} {Q} {a = false} {b = false} f g = (λ h. absurd (ground arith), neither f g)
  where
    neither : (false ≡ true) ↔ P → (false ≡ true) ↔ Q → P ⊎ Q → false ≡ true
    neither f g (inl p) = f.1 p
    neither f g (inr q) = g.1 q

and_true : {a b c d : Bool} → a ≡ true → b ≡ true → c ≡ true → d ≡ true → (a && b && c && d) ≡ true
and_true h i j k = rw h (rw i (rw j k))

and_all :
    (a b c d : Bool) → (a && b && c && d) ≡ true → (a ≡ true) × (b ≡ true) × (c ≡ true) × (d ≡ true)
and_all true true true true h = (refl, refl, refl, refl)
and_all true true true false h = absurd (ground arith)
and_all true true false d h = absurd (ground arith)
and_all true false c d h = absurd (ground arith)
and_all false b c d h = absurd (ground arith)

later_iff : (bound : Option ℕ) (time : ℕ) → (later_than bound time ≡ true) ↔ IsAfter bound time
later_iff none time = (λ h. tt, λ h. refl)
later_iff (some bound) time = (λ h. ground arith, λ h. ground arith)

earlier_iff : (bound : Option ℕ) (time : ℕ) → (earlier_than bound time ≡ true) ↔ IsBefore bound time
earlier_iff none time = (λ h. tt, λ h. refl)
earlier_iff (some bound) time = (λ h. ground arith, λ h. ground arith)

pub empty_iff : (a : Str) → (not (truthy a) ≡ true) ↔ (a ≡ [])
empty_iff [] = (λ h. refl, λ h. refl)
empty_iff (c ∷ a) = (λ h. absurd (ground arith), λ h. absurd (ground arith))

-- the row fits if the conditions of the statement hold, and only then
pub fits_iff :
    (region : Str) (category_id : ℤ) (fetched_after fetched_before : Option ℕ) (v : VideoRow)
    → (fits region category_id fetched_after fetched_before v ≡ true)
      ↔ IsFitting region category_id fetched_after fetched_before v
unfolding fits
fits_iff region category_id fetched_after fetched_before v =
    let later = later_iff fetched_after v.fetched_at in
    let earlier = earlier_iff fetched_before v.fetched_at in
    let region_iff = or_iff (empty_iff region) (same_iff v.region region) in
    let category_iff = or_iff (int_iff category_id (pos 0)) (int_iff v.category_id category_id) in
    (
      λ h.
          let (a, b, c, d) = and_all _ _ _ _ h in
          (region_iff.0 a, category_iff.0 b, later.0 c, earlier.0 d),
      λ (a, b, c, d). and_true (region_iff.1 a) (category_iff.1 b) (later.1 c) (earlier.1 d),
    )

-- What holds of the rows that are kept holds of each row, or the row does not fit.
pub All-kept :
    (Fit : VideoRow → Type 0) (p : VideoRow → Bool) (Q : VideoRow → Type 0) (rows : List VideoRow)
    → ((v : VideoRow) → Fit v → p v ≡ true)
    → All Q (keep p rows)
    → All (λ v. ¬ Fit v ⊎ Q v) rows
All-kept Fit p Q [] f h = tt
All-kept Fit p Q (v ∷ rows) f h = elim (Bool-cases (p v)) [
  | inl e ↦
      let k = subst (λ b. All Q (if b then v ∷ keep p rows else keep p rows)) e h in
      (inr k.0, All-kept Fit p Q rows f k.1)
  | inr e ↦
      let k = subst (λ b. All Q (if b then v ∷ keep p rows else keep p rows)) e h in
      (inl (λ fit. no e (f v fit)), All-kept Fit p Q rows f k)
]
  where
    no : {b : Bool} → b ≡ false → b ≡ true → ⊥
    no e h = ground arith
