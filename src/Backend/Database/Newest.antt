-- ===== src/Backend/Database/Newest.antt =====
-- backend/db/db.go: the snapshots that `DISTINCT ON (video_id)` keeps are the last ones.
use yt_trending_pipeline.Prelude.{
  ◌≤◌, ◌≡◌, refl, ap, sym, subst, ◌∙◌, inl, inr, Bool, true, false, ◌||◌, not, List, [], ◌∷◌, same,
  same→eq, same_refl, ltb, leb, leb→le, any, All, All-map, Pairwise, if◌then◌else◌, if_cases,
  Bool-cases, arith,
}
use yt_trending_pipeline.Backend.{VideoRow}
use yt_trending_pipeline.Backend.Database.Select.{join, latest}
use yt_trending_pipeline.Backend.Database.Latest.{
  IsApart, same_id, same_sym, later_of, latest-any, latest-IsApart, has_own,
}

-- Of the same video, the first is no later than the second.
abbrev pub is_older : VideoRow → VideoRow → Bool
is_older x w = if same x.video_id w.video_id then leb x.fetched_at w.fetched_at else true

-- The row is no later than any of the same video.
abbrev pub IsNewest : List VideoRow → VideoRow → Type 0
IsNewest rows w = All (λ x. is_older x w ≡ true) rows

older-apart : (x w : VideoRow) → same x.video_id w.video_id ≡ false → is_older x w ≡ true
older-apart x w e = rw e refl

older-same :
    (x w : VideoRow)
    → same x.video_id w.video_id ≡ true
    → x.fetched_at ≤ w.fetched_at
    → is_older x w ≡ true
older-same x w e le = rw e (ground arith)

older-le :
    (x w : VideoRow)
    → same x.video_id w.video_id ≡ true
    → is_older x w ≡ true
    → x.fetched_at ≤ w.fetched_at
older-le x w e h =
    leb→le x.fetched_at w.fetched_at
      (subst (λ b. (if b then leb x.fetched_at w.fetched_at else true) ≡ true) e h)

older-later :
    (v u x : VideoRow)
    → v.video_id ≡ u.video_id
    → is_older x u ≡ true
    → is_older x (later_of v u) ≡ true
older-later v u x e h =
    if_cases (λ w. is_older x w ≡ true) (ltb v.fetched_at u.fetched_at) u v (λ f. h)
      (λ f. elim (Bool-cases (same x.video_id v.video_id)) [
        | inl q ↦
            let le = older-le x u (subst (λ i. same x.video_id i ≡ true) e q) h in
            older-same x v q (ground arith)
        | inr q ↦ older-apart x v q
      ])

older-first : (v u : VideoRow) → v.video_id ≡ u.video_id → is_older v (later_of v u) ≡ true
older-first v u e =
    if_cases (λ w. is_older v w ≡ true) (ltb v.fetched_at u.fetched_at) u v
      (λ f.
        older-same v u (subst (λ i. same v.video_id i ≡ true) e (same_refl v.video_id))
          (ground arith))
      (λ f. older-same v v (same_refl v.video_id) (omega arith))

-- A row of another video is no later than those of the list.
add-older :
    (rows : List VideoRow) (v : VideoRow) (us : List VideoRow)
    → All (λ w. same w.video_id v.video_id ≡ false) us
    → All (IsNewest rows) us
    → All (IsNewest (v ∷ rows)) us
add-older rows v [] a h = tt
add-older rows v (w ∷ us) a h =
    ((older-apart v w (same_sym w.video_id v.video_id a.0), h.0), add-older rows v us a.1 h.1)

-- The video of the row is one of those, or not that of `v`.
abbrev is_covered : List VideoRow → VideoRow → VideoRow → Bool
is_covered us v x = any (same_id x.video_id) us || not (same x.video_id v.video_id)

covered_alone : (v x : VideoRow) → is_covered [] v x ≡ true → is_older x v ≡ true
covered_alone v x h = older-apart x v (ground arith)

covered_rest :
    (u : VideoRow) (us : List VideoRow) (v x : VideoRow)
    → same v.video_id u.video_id ≡ false
    → is_covered (u ∷ us) v x ≡ true
    → is_covered us v x ≡ true
covered_rest u us v x e h = elim (Bool-cases (same x.video_id v.video_id)) [
  | inl q ↦
      let apart =
        subst (λ i. same u.video_id i ≡ false) (sym (same→eq x.video_id v.video_id q))
          (same_sym v.video_id u.video_id e) in
      subst (λ b. ((b || any (same_id x.video_id) us) || not (same x.video_id v.video_id)) ≡ true)
        apart h
  | inr q ↦ rw q (or_true (any (same_id x.video_id) us))
]
  where
    or_true : (b : Bool) → (b || true) ≡ true
    or_true true = refl
    or_true false = refl

join-IsNewest :
    (rows : List VideoRow) (v : VideoRow) (us : List VideoRow)
    → Pairwise IsApart us
    → All (λ x. is_covered us v x ≡ true) rows
    → All (IsNewest rows) us
    → All (IsNewest (v ∷ rows)) (join v us)
unfolding join
join-IsNewest rows v [] k c h =
    ((older-same v v (same_refl v.video_id) (omega arith), All-map rows (covered_alone v) c), tt)
join-IsNewest rows v (u ∷ us) k c h = elim (Bool-cases (same v.video_id u.video_id)) [
  | inl e ↦
      let one = same→eq v.video_id u.video_id e in
      rw e (
        (older-first v u one, All-map rows (λ x. older-later v u x one) h.0),
        add-older rows v us (subst (λ i. All (λ w. same w.video_id i ≡ false) us) (sym one) k.0)
            h.1,
      )
  | inr e ↦ rw e (
    (older-apart v u e, h.0),
    join-IsNewest rows v us k.1 (All-map rows (λ x. covered_rest u us v x e) c) h.1,
  )
]

pub latest-IsNewest : (rows : List VideoRow) → All (IsNewest rows) (latest rows)
unfolding latest
latest-IsNewest [] = tt
latest-IsNewest (v ∷ vs) =
    join-IsNewest vs v (latest vs) (latest-IsApart vs)
      (All-map vs (λ x h. ap (λ b. b || not (same x.video_id v.video_id)) h)
        (has_own vs (latest vs) (λ id h. latest-any id vs ∙ h)))
      (latest-IsNewest vs)
