-- ===== src/VideosTable/Sort.antt =====
-- frontend/components/videos-table.tsx: the sort of the table.
use yt_trending_pipeline.Prelude.{
  All-map, ℕ, suc, length, ◌≤◌, ◌≡◌, refl, ap, ◌∙◌, none, some, Bool, true, false, List, [], ◌∷◌,
  keep, is_some, All, JsNum, ◌⊎◌, ◌==◌, arith, inl, inr, if_cases,
}
use mathlib.Core.List.{Perm}
use mathlib.Core.List.Perm
use yt_trending_pipeline.Types.{Video}
use yt_trending_pipeline.VideosTable.{SortKey, SortDir, desc, asc, count_of, after, insert, sort}

-- Each video has the count that is sorted by.
abbrev pub IsCounted : SortKey → List Video → Type 0
IsCounted key = All (λ v. is_some (count_of key v) ≡ true)

-- An earlier video and a later one have counts that fall, or rise, or are equal.
abbrev pub IsInOrder : SortDir → JsNum → JsNum → Type 0
IsInOrder desc (some a) (some b) = b ≤ a
IsInOrder asc (some a) (some b) = a ≤ b
IsInOrder dir _ _ = ⊥

-- Each video is in order with all later ones.
abbrev pub IsOrdered : SortKey → SortDir → List Video → Type 0
IsOrdered key dir [] = Unit
IsOrdered key dir (v ∷ vs) =
    All (λ w. IsInOrder dir (count_of key v) (count_of key w)) vs × IsOrdered key dir vs

-- No later video is wanted before an earlier one by the comparator.
abbrev IsSettled : SortKey → SortDir → List Video → Type 0
IsSettled key dir [] = Unit
IsSettled key dir (v ∷ vs) =
    All (λ w. after dir (count_of key v) (count_of key w) ≡ false) vs × IsSettled key dir vs

after_trans :
    (dir : SortDir) (a b c : JsNum)
    → is_some b ≡ true
    → after dir a b ≡ false
    → after dir b c ≡ false
    → after dir a c ≡ false
after_trans dir none b c p h k = refl
after_trans dir (some a) none c p h k = cc
after_trans dir (some a) (some b) none p h k = refl
after_trans desc (some a) (some b) (some c) p h k = ground arith
after_trans asc (some a) (some b) (some c) p h k = ground arith

after-IsInOrder :
    (dir : SortDir) (a b : JsNum)
    → is_some a ≡ true
    → is_some b ≡ true
    → after dir a b ≡ false
    → IsInOrder dir a b
after-IsInOrder dir none b p q h = absurd (ground arith)
after-IsInOrder dir (some a) none p q h = absurd (ground arith)
after-IsInOrder desc (some a) (some b) p q h = ground arith
after-IsInOrder asc (some a) (some b) p q h = ground arith

-- In videos that have the count, no inversion for the comparator is order.
settled_below :
    (key : SortKey) (dir : SortDir) (v : Video) (ws : List Video)
    → is_some (count_of key v) ≡ true
    → IsCounted key ws
    → All (λ w. after dir (count_of key v) (count_of key w) ≡ false) ws
    → All (λ w. IsInOrder dir (count_of key v) (count_of key w)) ws
settled_below key dir v [] p c h = tt
settled_below key dir v (w ∷ ws) p c h = (
  after-IsInOrder dir (count_of key v) (count_of key w) p c.0 h.0,
  settled_below key dir v ws p c.1 h.1,
)

IsSettled-IsOrdered :
    (key : SortKey) (dir : SortDir) (vs : List Video)
    → IsCounted key vs
    → IsSettled key dir vs
    → IsOrdered key dir vs
IsSettled-IsOrdered key dir [] c h = tt
IsSettled-IsOrdered key dir (v ∷ vs) c h =
    (settled_below key dir v vs c.0 c.1 h.0, IsSettled-IsOrdered key dir vs c.1 h.1)

after_asym : (dir : SortDir) (a b : JsNum) → after dir a b ≡ true → after dir b a ≡ false
after_asym dir none b h = cc
after_asym dir (some a) none h = cc
after_asym desc (some a) (some b) h = ground arith
after_asym asc (some a) (some b) h = ground arith

-- Whether a count is `n`.
pub has_count : ℕ → JsNum → Bool
has_count n none = false
has_count n (some m) = m == n

after-has_count :
    (dir : SortDir) (n : ℕ) (a b : JsNum)
    → after dir a b ≡ true
    → (has_count n a ≡ false) ⊎ (has_count n b ≡ false)
unfolding has_count
after-has_count dir n none b h = inl refl
after-has_count dir n (some a) none h = inr refl
after-has_count desc n (some a) (some b) h = ground arith
after-has_count asc n (some a) (some b) h = ground arith

-- the videos with a given count
abbrev pub with_count : SortKey → ℕ → List Video → List Video
with_count key n = keep (λ v. has_count n (count_of key v))

module _ (key : SortKey) (dir : SortDir) where
  insert-perm : (v : Video) (vs : List Video) → Perm (insert key dir v vs) (v ∷ vs)
  unfolding insert
  insert-perm v [] = Perm.refl (v ∷ [])
  insert-perm v (w ∷ ws) =
      if_cases (λ l. Perm l (v ∷ w ∷ ws)) (after dir (count_of key v) (count_of key w))
        (w ∷ insert key dir v ws) (v ∷ w ∷ ws)
        (λ h. Perm.trans (Perm.cons w (insert-perm v ws)) (Perm.swap v w ws))
        (λ h. Perm.refl (v ∷ w ∷ ws))

  sort-perm : (vs : List Video) → Perm (sort key dir vs) vs
  unfolding sort
  sort-perm [] = Perm.refl []
  sort-perm (v ∷ vs) = Perm.trans (insert-perm v (sort key dir vs)) (Perm.cons v (sort-perm vs))

  length-insert : (v : Video) (vs : List Video) → length (insert key dir v vs) ≡ suc (length vs)
  unfolding insert
  length-insert v [] = refl
  length-insert v (w ∷ ws) = ground (arith, length-insert v ws)

  pub length-sort : (vs : List Video) → length (sort key dir vs) ≡ length vs
  unfolding sort
  length-sort [] = refl
  length-sort (v ∷ vs) = length-insert v (sort key dir vs) ∙ ap suc (length-sort vs)

  All-insert :
      (P : Video → Type 0) (v : Video) (vs : List Video)
      → P v
      → All P vs
      → All P (insert key dir v vs)
  unfolding insert
  All-insert P v [] p h = (p, tt)
  All-insert P v (w ∷ ws) p h =
      if_cases (All P) (after dir (count_of key v) (count_of key w)) (w ∷ insert key dir v ws)
        (v ∷ w ∷ ws) (λ e. (h.0, All-insert P v ws p h.1)) (λ e. (p, h))

  insert-IsSettled :
      (v : Video) (vs : List Video)
      → IsCounted key vs
      → IsSettled key dir vs
      → IsSettled key dir (insert key dir v vs)
  unfolding insert
  insert-IsSettled v [] c h = (tt, tt)
  insert-IsSettled v (w ∷ ws) c h =
      let a = count_of key v in
      let b = count_of key w in
      if_cases (IsSettled key dir) (after dir a b) (w ∷ insert key dir v ws) (v ∷ w ∷ ws)
        (λ e. (
          All-insert (λ x. after dir b (count_of key x) ≡ false) v ws (after_asym dir a b e) h.0,
          insert-IsSettled v ws c.1 h.1,
        ))
        (λ e. ((e, All-map ws (λ x k. after_trans dir a b (count_of key x) c.0 e k) h.0), h))

  sort-IsCounted : (vs : List Video) → IsCounted key vs → IsCounted key (sort key dir vs)
  unfolding sort
  sort-IsCounted [] c = tt
  sort-IsCounted (v ∷ vs) c =
      All-insert (λ x. is_some (count_of key x) ≡ true) v (sort key dir vs) c.0
        (sort-IsCounted vs c.1)

  sort-IsSettled : (vs : List Video) → IsCounted key vs → IsSettled key dir (sort key dir vs)
  unfolding sort
  sort-IsSettled [] c = tt
  sort-IsSettled (v ∷ vs) c =
      insert-IsSettled v (sort key dir vs) (sort-IsCounted vs c.1) (sort-IsSettled vs c.1)

  with_count-insert :
      (n : ℕ) (v : Video) (vs : List Video)
      → with_count key n (insert key dir v vs) ≡ with_count key n (v ∷ vs)
  unfolding insert
  with_count-insert n v [] = refl
  with_count-insert n v (w ∷ ws) =
      let a = count_of key v in
      let b = count_of key w in
      if_cases (λ l. with_count key n l ≡ with_count key n (v ∷ w ∷ ws)) (after dir a b)
        (w ∷ insert key dir v ws) (v ∷ w ∷ ws)
        (λ e. rw (with_count-insert n v ws) (ground (arith, after-has_count dir n a b e)))
        (λ e. refl)

  with_count-sort :
      (n : ℕ) (vs : List Video) → with_count key n (sort key dir vs) ≡ with_count key n vs
  unfolding sort
  with_count-sort n [] = refl
  with_count-sort n (v ∷ vs) =
      with_count-insert n v (sort key dir vs) ∙ rw (with_count-sort n vs) refl

  -- If every video has the count that is sorted by, the sorted list is a permutation of the videos
  -- in which the counts fall, for `desc`, or rise, for `asc`, and videos of one count stay in the
  -- order in which they came.
  pub sort_lem :
      (vs : List Video)
      → IsCounted key vs
      → Perm (sort key dir vs) vs
        × IsOrdered key dir (sort key dir vs)
        × ((n : ℕ) → with_count key n (sort key dir vs) ≡ with_count key n vs)
  sort_lem vs c = (
    sort-perm vs,
    IsSettled-IsOrdered key dir (sort key dir vs) (sort-IsCounted vs c) (sort-IsSettled vs c),
    λ n. with_count-sort n vs,
  )
