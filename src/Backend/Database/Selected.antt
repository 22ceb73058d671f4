-- ===== src/Backend/Database/Selected.antt =====
-- backend/db/db.go: what the rows are that `GetVideos` selects.
use mathlib.Core.List.{Memᴰ}
use yt_trending_pipeline.Prelude.{
  All-keep, All-map, ◌⊎◌, ℕ, ◌-◌, ◌≤◌, min, ◌≡◌, refl, ap, ◌∙◌, Option, some, Bool, true, false,
  List, [], ◌∷◌, ◌++◌, Str, keep, take, drop, length, length-sort_by, take-append-drop, length-take,
  length-drop, any, All, All-sort_by, sort_by-any, sort_by-Pairwise, sort_by-IsSorted, IsSorted,
  Pairwise, ℤ, pos, negsuc, if_cases, arith,
}
use yt_trending_pipeline.Backend.{VideoRow}
use yt_trending_pipeline.Backend.Database.Select.{
  less, fits, latest, more_views, all_videos, page_of, select_videos,
}
use yt_trending_pipeline.Backend.Database.Latest.{
  same_id, IsApart, same_sym, latest-any, latest-All, latest-IsApart, has_own, length-latest,
}
use yt_trending_pipeline.Backend.Database.Newest.{is_older, IsNewest, latest-IsNewest}
use yt_trending_pipeline.Backend.Database.Fitting.{IsFitting, fits_iff, All-kept}

pub less_asym : (a b : ℤ) → less a b ≡ true → less b a ≡ false
less_asym (pos a) (pos b) h = ground arith
less_asym (pos a) (negsuc b) h = absurd (ground arith)
less_asym (negsuc a) (pos b) h = refl
less_asym (negsuc a) (negsuc b) h = ground arith

pub less_trans : (a b c : ℤ) → less a b ≡ false → less b c ≡ false → less a c ≡ false
less_trans (pos a) (pos b) (pos c) h k = ground arith
less_trans (pos a) b (negsuc c) h k = refl
less_trans (pos a) (negsuc b) (pos c) h k = absurd (ground arith)
less_trans (negsuc a) (pos b) c h k = absurd (ground arith)
less_trans (negsuc a) (negsuc b) (pos c) h k = absurd (ground arith)
less_trans (negsuc a) (negsuc b) (negsuc c) h k = ground arith

keep-fits : (p : VideoRow → Bool) (rows : List VideoRow) → All (λ v. p v ≡ true) (keep p rows)
keep-fits p [] = tt
keep-fits p (v ∷ rows) =
    if_cases (All (λ w. p w ≡ true)) (p v) (v ∷ keep p rows) (keep p rows)
      (λ e. (e, keep-fits p rows)) (λ e. keep-fits p rows)

length-keep : (p : VideoRow → Bool) (rows : List VideoRow) → length (keep p rows) ≤ length rows
length-keep p [] = omega arith
length-keep p (v ∷ rows) = ground (arith, length-keep p rows)

-- no more videos are selected than there are rows
pub length-all_videos :
    (region : Str) (category_id : ℤ) (fetched_after fetched_before : Option ℕ)
    (rows : List VideoRow)
    → length (all_videos region category_id fetched_after fetched_before rows) ≤ length rows
unfolding all_videos
length-all_videos region category_id fetched_after fetched_before rows =
    let p = fits region category_id fetched_after fetched_before in
    let kept = latest (keep p rows) in
    omega (arith, length-sort_by more_views kept, length-latest (keep p rows), length-keep p rows)

-- Each row is one of the list.
all_members : (rows : List VideoRow) → All (λ v. Memᴰ v rows) rows
all_members [] = tt
all_members (v ∷ rows) = (Memᴰ.head refl, All-map rows (λ w m. Memᴰ.tail m) (all_members rows))

module _ (region : Str) (category_id : ℤ) (fetched_after fetched_before : Option ℕ)
    (rows : List VideoRow) where
  -- the rows that fit
  abbrev pub found : List VideoRow
  found = keep (fits region category_id fetched_after fetched_before) rows

  abbrev everything : List VideoRow
  everything = all_videos region category_id fetched_after fetched_before rows

  all_videos-All : (P : VideoRow → Type 0) → All P found → All P everything
  unfolding all_videos
  all_videos-All P h = All-sort_by more_views P (latest found) (latest-All P found h)

  pub all_videos-IsNewest : All (IsNewest found) everything
  unfolding all_videos
  all_videos-IsNewest =
      All-sort_by more_views (IsNewest found) (latest found) (latest-IsNewest found)

  pub all_videos_complete : All (λ x. any (same_id x.video_id) everything ≡ true) found
  unfolding all_videos
  all_videos_complete =
      has_own found everything
        (λ id h. sort_by-any more_views (same_id id) (latest found) ∙ latest-any id found ∙ h)

  all_videos-IsApart : Pairwise IsApart everything
  unfolding all_videos
  all_videos-IsApart =
      sort_by-Pairwise more_views IsApart (λ a b h. same_sym b.video_id a.video_id h) (latest found)
        (latest-IsApart found)

  all_videos-IsSorted : IsSorted more_views everything
  unfolding all_videos
  all_videos-IsSorted =
      sort_by-IsSorted more_views (λ a b h. less_asym b.view_count a.view_count h)
        (λ a b c h k. less_trans a.view_count b.view_count c.view_count h k) (latest found)

  -- What `GetVideos` selects, `all` of it and the page of `limit` rows after `offset`: each row is
  -- one of the table and fits; no row that fits is a later snapshot of its video; no video is there
  -- twice; each row that fits has its video there; and videos with more views come first. The page
  -- is a slice of all of it.
  pub record IsSelected (limit offset : ℕ) (all page : List VideoRow) : Type 0 where
    pub stored : All (λ w. Memᴰ w rows) all
    pub fitting : All (IsFitting region category_id fetched_after fetched_before) all
    pub newest :
        All
          (λ w.
            All
              (λ x.
                ¬ IsFitting region category_id fetched_after fetched_before x
                ⊎ (is_older x w ≡ true))
              rows)
          all
    pub complete :
        All
          (λ x.
            ¬ IsFitting region category_id fetched_after fetched_before x
            ⊎ (any (same_id x.video_id) all ≡ true))
          rows
    pub apart : Pairwise IsApart all
    pub ordered : IsSorted more_views all
    pub slice : take offset all ++ (page ++ drop limit (drop offset all)) ≡ all
    pub long : length page ≡ min limit (length all - offset)

  -- A query of videos with a limit and an offset that are not negative selects the page described
  -- above of the rows that fit its region, its category and its times, each of them if it is given.
  pub select_videos-IsSelected :
      (limit offset : ℕ)
      → (page : List VideoRow) × (select_videos region category_id fetched_after fetched_before
            (pos limit)
            (pos offset)
            rows
          ≡ some page)
        × IsSelected limit offset
            (all_videos region category_id fetched_after fetched_before rows)
            page
  unfolding select_videos page_of
  select_videos-IsSelected limit offset =
      let p = fits region category_id fetched_after fetched_before in
      let Fit = IsFitting region category_id fetched_after fetched_before in
      let iff = fits_iff region category_id fetched_after fetched_before in
      (
        take limit (drop offset everything),
        refl,
        record {
          stored = all_videos-All _ (All-keep _ p rows (all_members rows));
          fitting = all_videos-All _ (All-map found (λ v. (iff v).0) (keep-fits p rows));
          newest =
              All-map everything
                (λ w. All-kept Fit p (λ x. is_older x w ≡ true) rows (λ v. (iff v).1))
                all_videos-IsNewest;
          complete = All-kept Fit p _ rows (λ v. (iff v).1) all_videos_complete;
          apart = all_videos-IsApart;
          ordered = all_videos-IsSorted;
          slice =
              ap (λ l. take offset everything ++ l)
                (take-append-drop limit (drop offset everything))
              ∙ take-append-drop offset everything;
          long =
              length-take limit (drop offset everything)
              ∙ ap (min limit) (length-drop offset everything);
        },
      )
