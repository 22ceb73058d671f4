-- ===== src/Backend/Database/Latest.antt =====
-- backend/db/db.go: the rows that `DISTINCT ON (video_id)` keeps, one for each video.
use yt_trending_pipeline.Prelude.{
  suc, length, ◌≤◌, ◌≡◌, refl, ap, sym, subst, ◌∙◌, inl, inr, Bool, true, false, ◌||◌, List, [],
  ◌∷◌, Str, same, same→eq, same_refl, ltb, any, All, Pairwise, if◌then◌else◌, if_cases, Bool-cases,
  arith,
}
use yt_trending_pipeline.Backend.{VideoRow}
use yt_trending_pipeline.Backend.Database.Select.{join, latest}

abbrev pub same_id : Str → VideoRow → Bool
same_id id w = same w.video_id id

-- different videos
abbrev pub IsApart : VideoRow → VideoRow → Type 0
IsApart v w = same w.video_id v.video_id ≡ false

pub same_sym : (a b : Str) → same a b ≡ false → same b a ≡ false
same_sym a b h = elim (Bool-cases (same b a)) [
  | inl e ↦
      let clash : false ≡ true =
        sym h ∙ subst (λ z. same a z ≡ true) (sym (same→eq b a e)) (same_refl a) in
      absurd (ground arith)
  | inr e ↦ e
]

or_twice : (a b : Bool) → (a || b) ≡ (a || (a || b))
or_twice true b = refl
or_twice false b = refl

or_swap : (a b c : Bool) → (a || (b || c)) ≡ (b || (a || c))
or_swap true true c = refl
or_swap true false c = refl
or_swap false b c = refl

-- what is kept of two snapshots of one video
abbrev pub later_of : VideoRow → VideoRow → VideoRow
later_of v u = if ltb v.fetched_at u.fetched_at then u else v

pub later_of-id : (v u : VideoRow) → v.video_id ≡ u.video_id → (later_of v u).video_id ≡ v.video_id
later_of-id v u e =
    if_cases (λ w. w.video_id ≡ v.video_id) (ltb v.fetched_at u.fetched_at) u v (λ f. sym e)
      (λ f. refl)

join-any :
    (id : Str) (v : VideoRow) (us : List VideoRow)
    → any (same_id id) (join v us) ≡ (same_id id v || any (same_id id) us)
unfolding join
join-any id v [] = refl
join-any id v (u ∷ us) = elim (Bool-cases (same v.video_id u.video_id)) [
  | inl e ↦
      let one = same→eq v.video_id u.video_id e in
      let rest = any (same_id id) us in
      rw e (
        ap (λ i. same i id || rest) (later_of-id v u one)
        ∙ or_twice (same_id id v) rest
        ∙ ap (λ i. same_id id v || (same i id || rest)) one)
  | inr e ↦ rw e (
      ap (λ b. same_id id u || b) (join-any id v us)
      ∙ or_swap (same_id id u) (same_id id v) (any (same_id id) us))
]

pub join-All :
    (P : VideoRow → Type 0) (v : VideoRow) (us : List VideoRow) → P v → All P us → All P (join v us)
unfolding join
join-All P v [] p h = (p, tt)
join-All P v (u ∷ us) p h =
    if_cases (All P) (same v.video_id u.video_id) _ _
      (λ e. (if_cases P (ltb v.fetched_at u.fetched_at) u v (λ f. h.0) (λ f. p), h.1))
      (λ e. (h.0, join-All P v us p h.1))

length-join : (v : VideoRow) (us : List VideoRow) → length (join v us) ≤ suc (length us)
unfolding join
length-join v [] = omega arith
length-join v (u ∷ us) = ground (arith, length-join v us)

pub length-latest : (rows : List VideoRow) → length (latest rows) ≤ length rows
unfolding latest
length-latest [] = omega arith
length-latest (v ∷ vs) = omega (arith, length-join v (latest vs), length-latest vs)

pub latest-any :
    (id : Str) (rows : List VideoRow) → any (same_id id) (latest rows) ≡ any (same_id id) rows
unfolding latest
latest-any id [] = refl
latest-any id (v ∷ vs) = join-any id v (latest vs) ∙ ap (λ b. same_id id v || b) (latest-any id vs)

pub latest-All : (P : VideoRow → Type 0) (rows : List VideoRow) → All P rows → All P (latest rows)
unfolding latest
latest-All P [] h = tt
latest-All P (v ∷ vs) h = join-All P v (latest vs) h.0 (latest-All P vs h.1)

join-IsApart :
    (v : VideoRow) (us : List VideoRow) → Pairwise IsApart us → Pairwise IsApart (join v us)
unfolding join
join-IsApart v [] k = (tt, tt)
join-IsApart v (u ∷ us) k = elim (Bool-cases (same v.video_id u.video_id)) [
  | inl e ↦
      let one = same→eq v.video_id u.video_id e in
      rw e (
        subst (λ i. All (λ w. same w.video_id i ≡ false) us) (sym (later_of-id v u one ∙ one)) k.0,
        k.1,
      )
  | inr e ↦ rw e (join-All (IsApart u) v us e k.0, join-IsApart v us k.1)
]

pub latest-IsApart : (rows : List VideoRow) → Pairwise IsApart (latest rows)
unfolding latest
latest-IsApart [] = tt
latest-IsApart (v ∷ vs) = join-IsApart v (latest vs) (latest-IsApart vs)

-- Every row has its video in a list that has the videos of all rows.
pub has_own :
    (rows all : List VideoRow)
    → ((id : Str) → any (same_id id) rows ≡ true → any (same_id id) all ≡ true)
    → All (λ x. any (same_id x.video_id) all ≡ true) rows
has_own [] all f = tt
has_own (x ∷ rows) all f = (
  f x.video_id (ap (λ b. b || any (same_id x.video_id) rows) (same_refl x.video_id)),
  has_own rows all (λ id h. f id (or_right (same_id id x) _ h)),
)
  where
    or_right : (a b : Bool) → b ≡ true → (a || b) ≡ true
    or_right true b h = refl
    or_right false b h = h
