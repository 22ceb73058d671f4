-- ===== src/Prelude/Sorts.antt =====
-- A stable insertion sort by a test whether one element comes before another.
use Prim.Native.Nat.{suc}
use mathlib.Core.Path.{◌≡◌, refl, ap, ◌∙◌}
use mathlib.Core.Bool.{Bool, true, false, ◌||◌}
use mathlib.Core.List.{List, [], ◌∷◌, Perm}
use mathlib.Core.List.Perm
use native.Mathlib.Omega.{arith}
use yt_trending_pipeline.Prelude.Tests.{if◌then◌else◌, if_cases}
use yt_trending_pipeline.Prelude.Lists.{length, All}

-- `any` of the elements satisfies the test
abbrev pub any : {A : Type 0} → (A → Bool) → List A → Bool
any p [] = false
any p (x ∷ xs) = p x || any p xs

-- The relation holds of each element and each later one.
abbrev pub Pairwise : {A : Type 0} → (A → A → Type 0) → List A → Type 0
Pairwise R [] = Unit
Pairwise R (x ∷ xs) = All (R x) xs × Pairwise R xs

module _ {A : Type 0} (before : A → A → Bool) where
  insert_by : A → List A → List A
  insert_by v [] = v ∷ []
  insert_by v (w ∷ ws) = let rest = insert_by v ws in if before w v then w ∷ rest else v ∷ w ∷ ws

  unfoldable pub sort_by : List A → List A
  unfolding insert_by
  sort_by [] = []
  sort_by (v ∷ vs) = insert_by v (sort_by vs)

  -- No later element comes before an earlier one.
  abbrev pub IsSorted : List A → Type 0
  IsSorted [] = Unit
  IsSorted (v ∷ vs) = All (λ w. before w v ≡ false) vs × IsSorted vs

  insert_by-perm : (v : A) (vs : List A) → Perm (insert_by v vs) (v ∷ vs)
  unfolding insert_by
  insert_by-perm v [] = Perm.refl (v ∷ [])
  insert_by-perm v (w ∷ ws) =
      if_cases (λ l. Perm l (v ∷ w ∷ ws)) (before w v) (w ∷ insert_by v ws) (v ∷ w ∷ ws)
        (λ e. Perm.trans (Perm.cons w (insert_by-perm v ws)) (Perm.swap v w ws))
        (λ e. Perm.refl (v ∷ w ∷ ws))

  pub sort_by-perm : (vs : List A) → Perm (sort_by vs) vs
  unfolding sort_by
  sort_by-perm [] = Perm.refl []
  sort_by-perm (v ∷ vs) = Perm.trans (insert_by-perm v (sort_by vs)) (Perm.cons v (sort_by-perm vs))

  All-insert_by : (P : A → Type 0) (v : A) (vs : List A) → P v → All P vs → All P (insert_by v vs)
  unfolding insert_by
  All-insert_by P v [] p h = (p, tt)
  All-insert_by P v (w ∷ ws) p h =
      if_cases (All P) (before w v) (w ∷ insert_by v ws) (v ∷ w ∷ ws)
        (λ e. (h.0, All-insert_by P v ws p h.1)) (λ e. (p, h))

  pub All-sort_by : (P : A → Type 0) (vs : List A) → All P vs → All P (sort_by vs)
  unfolding sort_by
  All-sort_by P [] h = tt
  All-sort_by P (v ∷ vs) h = All-insert_by P v (sort_by vs) h.0 (All-sort_by P vs h.1)

  insert_by-any : (p : A → Bool) (v : A) (vs : List A) → any p (insert_by v vs) ≡ (p v || any p vs)
  unfolding insert_by
  insert_by-any p v [] = refl
  insert_by-any p v (w ∷ ws) =
      if_cases (λ l. any p l ≡ (p v || any p (w ∷ ws))) (before w v) (w ∷ insert_by v ws)
        (v ∷ w ∷ ws) (λ e. ground (arith, insert_by-any p v ws)) (λ e. refl)

  pub sort_by-any : (p : A → Bool) (vs : List A) → any p (sort_by vs) ≡ any p vs
  unfolding sort_by
  sort_by-any p [] = refl
  sort_by-any p (v ∷ vs) = insert_by-any p v (sort_by vs) ∙ ap (λ b. p v || b) (sort_by-any p vs)

  module _ (R : A → A → Type 0) (symmetric : (a b : A) → R a b → R b a) where
    insert_by-Pairwise :
        (v : A) (vs : List A) → All (R v) vs → Pairwise R vs → Pairwise R (insert_by v vs)
    unfolding insert_by
    insert_by-Pairwise v [] h k = (tt, tt)
    insert_by-Pairwise v (w ∷ ws) h k =
        if_cases (Pairwise R) (before w v) (w ∷ insert_by v ws) (v ∷ w ∷ ws)
          (λ e. (All-insert_by (R w) v ws (symmetric v w h.0) k.0, insert_by-Pairwise v ws h.1 k.1))
          (λ e. (h, k))

    pub sort_by-Pairwise : (vs : List A) → Pairwise R vs → Pairwise R (sort_by vs)
    unfolding sort_by
    sort_by-Pairwise [] k = tt
    sort_by-Pairwise (v ∷ vs) k =
        insert_by-Pairwise v (sort_by vs) (All-sort_by (R v) vs k.0) (sort_by-Pairwise vs k.1)

  length-insert_by : (v : A) (vs : List A) → length (insert_by v vs) ≡ suc (length vs)
  unfolding insert_by
  length-insert_by v [] = refl
  length-insert_by v (w ∷ ws) = ground (arith, length-insert_by v ws)

  pub length-sort_by : (vs : List A) → length (sort_by vs) ≡ length vs
  unfolding sort_by
  length-sort_by [] = refl
  length-sort_by (v ∷ vs) = length-insert_by v (sort_by vs) ∙ ap suc (length-sort_by vs)

  module _ (asym : (a b : A) → before a b ≡ true → before b a ≡ false)
      (trans : (a b c : A) → before b a ≡ false → before c b ≡ false → before c a ≡ false) where
    below :
        (v w : A) (ws : List A)
        → before w v ≡ false
        → All (λ x. before x w ≡ false) ws
        → All (λ x. before x v ≡ false) ws
    below v w [] e h = tt
    below v w (x ∷ ws) e h = (trans v w x e h.0, below v w ws e h.1)

    insert_by-IsSorted : (v : A) (vs : List A) → IsSorted vs → IsSorted (insert_by v vs)
    unfolding insert_by
    insert_by-IsSorted v [] h = (tt, tt)
    insert_by-IsSorted v (w ∷ ws) h =
        if_cases IsSorted (before w v) (w ∷ insert_by v ws) (v ∷ w ∷ ws)
          (λ e. (
            All-insert_by (λ x. before x w ≡ false) v ws (asym w v e) h.0,
            insert_by-IsSorted v ws h.1,
          ))
          (λ e. ((e, below v w ws e h.0), h))

    pub sort_by-IsSorted : (vs : List A) → IsSorted (sort_by vs)
    unfolding sort_by
    sort_by-IsSorted [] = tt
    sort_by-IsSorted (v ∷ vs) = insert_by-IsSorted v (sort_by vs) (sort_by-IsSorted vs)
