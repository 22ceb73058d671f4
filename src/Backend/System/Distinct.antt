-- ===== src/Backend/System/Distinct.antt =====
-- backend/db/db.go: what the keys of the table `jobs` rule out, as lists of ids and keys.
use yt_trending_pipeline.Prelude.{
  ◌≡◌, refl, ap, sym, ◌∙◌, subst, Bool, true, false, List, [], ◌∷◌, ◌++◌, map, Str, same, same→eq,
  same_refl, find, is_some, All, All-append, arith, Bool-cases, inl, inr, if◌then◌else◌, ◌||◌,
}
use yt_trending_pipeline.Storage.Recent.{IsDistinct}
use yt_trending_pipeline.Backend.{JobRow}
use yt_trending_pipeline.Backend.Database.{has_id, has_key}
use yt_trending_pipeline.Backend.Database.Rows.{ids, keys, find_hit, find_miss}

-- The text is one of the list.
abbrev pub has : Str → List Str → Bool
has x [] = false
has x (y ∷ ys) = same x y || has x ys

pub clash : false ≡ true → ⊥
clash h = ground arith

or_more : (a b c : Bool) → (b ≡ true → c ≡ true) → a || b ≡ true → a || c ≡ true
or_more true b c f h = refl
or_more false b c f h = f h

or_right : (a b : Bool) → b ≡ true → a || b ≡ true
or_right true b h = refl
or_right false b h = h

-- what the test of a new row rules out
pub accepted_free :
    (a b : Bool) → (if a || b then false else true) ≡ true → (a ≡ false) × (b ≡ false)
accepted_free true b h = absurd (clash h)
accepted_free false true h = absurd (clash h)
accepted_free false false h = (refl, refl)

pub same_sym : (a b : Str) → same a b ≡ false → same b a ≡ false
same_sym a b h = elim (Bool-cases (same b a)) [
  | inl e ↦
      absurd (clash (sym h ∙ subst (λ z. same a z ≡ true) (sym (same→eq b a e)) (same_refl a)))
  | inr e ↦ e
]

pub IsDistinct-snoc :
    (xs : List Str) (x : Str)
    → IsDistinct xs
    → All (λ y. same x y ≡ false) xs
    → IsDistinct (xs ++ (x ∷ []))
IsDistinct-snoc [] x d a = (tt, tt)
IsDistinct-snoc (y ∷ ys) x d a =
    (All-append (λ z. same z y ≡ false) ys (x ∷ []) d.0 (a.0, tt), IsDistinct-snoc ys x d.1 a.1)

pub has-snoc : (y : Str) (xs : List Str) (x : Str) → has y xs ≡ true → has y (xs ++ (x ∷ [])) ≡ true
has-snoc y [] x h = absurd (clash h)
has-snoc y (z ∷ zs) x h = or_more (same y z) (has y zs) _ (has-snoc y zs x) h

pub has-snoc_new : (xs : List Str) (x : Str) → has x (xs ++ (x ∷ [])) ≡ true
has-snoc_new [] x = rw (same_refl x) refl
has-snoc_new (y ∷ ys) x = or_right (same x y) _ (has-snoc_new ys x)

has_absent : (x : Str) (xs : List Str) → All (λ y. same x y ≡ false) xs → has x xs ≡ false
has_absent x [] a = refl
has_absent x (y ∷ ys) a = rw (a.0, has_absent x ys a.1) refl

-- What is there differs from what is not.
pub differs :
    (x : Str) (xs ys : List Str)
    → All (λ y. same x y ≡ false) ys
    → All (λ y. has y ys ≡ true) xs
    → All (λ y. same x y ≡ false) xs
differs x [] ys a h = tt
differs x (y ∷ xs) ys a h = (
  elim (Bool-cases (same x y)) [
    | inl e ↦
        absurd
          (clash (sym (has_absent x ys a) ∙ subst (λ z. has z ys ≡ true) (sym (same→eq x y e)) h.0))
    | inr e ↦ e
  ],
  differs x xs ys a h.1,
)

pub All-has-snoc :
    (xs ys : List Str) (x : Str)
    → All (λ y. has y ys ≡ true) xs
    → All (λ y. has y (ys ++ (x ∷ [])) ≡ true) xs
All-has-snoc [] ys x h = tt
All-has-snoc (y ∷ xs) ys x h = (has-snoc y ys x h.0, All-has-snoc xs ys x h.1)

pub fresh_ids :
    (id : Str) (rows : List JobRow)
    → is_some (find (has_id id) rows) ≡ false
    → All (λ y. same id y ≡ false) (ids rows)
fresh_ids id [] h = tt
fresh_ids id (row ∷ rows) h = elim (Bool-cases (has_id id row)) [
  | inl e ↦ absurd (clash (sym h ∙ ap is_some (find_hit (has_id id) row rows e)))
  | inr e ↦ (
    same_sym row.job_id id e,
    fresh_ids id rows (ap is_some (sym (find_miss (has_id id) row rows e)) ∙ h),
  )
]

pub fresh_keys :
    (key : Str) (rows : List JobRow)
    → is_some (find (has_key key) rows) ≡ false
    → All (λ y. same key y ≡ false) (keys rows)
fresh_keys key [] h = tt
fresh_keys key (row ∷ rows) h = elim (Bool-cases (has_key key row)) [
  | inl e ↦ absurd (clash (sym h ∙ ap is_some (find_hit (has_key key) row rows e)))
  | inr e ↦ (
    same_sym row.idempotency_key key e,
    fresh_keys key rows (ap is_some (sym (find_miss (has_key key) row rows e)) ∙ h),
  )
]

pub map-snoc {ℓ} :
    {A : Type ℓ} (f : A → Str) (xs : List A) (x : A)
    → map f (xs ++ (x ∷ [])) ≡ map f xs ++ (f x ∷ [])
map-snoc f [] x = refl
map-snoc f (y ∷ ys) x = ap (◌∷◌ (f y)) (map-snoc f ys x)
