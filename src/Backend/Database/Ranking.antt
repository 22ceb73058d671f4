-- ===== src/Backend/Database/Ranking.antt =====
-- backend/db/db.go: what the channels are that `GetTopChannels` selects, read off the rows.
use mathlib.Core.List.{Perm}
use yt_trending_pipeline.Prelude.{
  ℕ, ◌+◌, ◌≤◌, ◌≡◌, refl, ap, sym, ◌∙◌, ◌↔◌, ◌⊎◌, inl, inr, Bool, true, false, List, [], ◌∷◌, map,
  Str, text, same, same_iff, keep, take, length, All, All-map, Pairwise, IsSorted, sort_by-perm,
  sort_by-IsSorted, some, ℤ, pos, negsuc, Bool-cases, arith,
}
use yt_trending_pipeline.Backend.{VideoRow}
use yt_trending_pipeline.Backend.Analytics.{ChannelStat}
use yt_trending_pipeline.Backend.Database.Fitting.{or_iff, empty_iff}
use yt_trending_pipeline.Backend.Database.Select.{less}
use yt_trending_pipeline.Backend.Database.Selected.{less_asym, less_trans}
use yt_trending_pipeline.Backend.Database.Channels.{
  add, sum, Group, rows_of, same_channel, grouped, stat_of, of_region, order_column, ranks_above,
  all_channels, select_channels,
}
use yt_trending_pipeline.Backend.Database.Ranked.{
  IsOfChannel, IsUniform, IsApart, all_rows, grouped-perm, grouped-IsUniform, grouped-IsApart,
}

-- The numbers of an integer that are added, and that are taken away.
abbrev pub gain : ℤ → ℕ
gain (pos n) = n
gain (negsuc n) = 0

abbrev pub loss : ℤ → ℕ
loss (pos n) = 0
loss (negsuc n) = n + 1

abbrev pub total : (VideoRow → ℕ) → List VideoRow → ℕ
total count [] = 0
total count (v ∷ vs) = count v + total count vs

-- The channel, how many rows there are of it, and the views of all of them.
pub record IsStat (g : Group) (c : ChannelStat) : Type 0 where
  pub channel_id : c.channel_id ≡ g.first.channel_id
  pub channel_title : c.channel_title ≡ g.first.channel_title
  pub appear_count : c.appear_count ≡ pos (length g.others + 1)
  pub total_views :
      gain c.total_views + total (λ v. loss v.view_count) (g.first ∷ g.others)
      ≡ loss c.total_views + total (λ v. gain v.view_count) (g.first ∷ g.others)

-- one statistic for each group
abbrev pub IsStats : List Group → List ChannelStat → Type 0
IsStats [] [] = Unit
IsStats (g ∷ gs) (c ∷ cs) = IsStat g c × IsStats gs cs
IsStats _ _ = ⊥

abbrev pub IsAtMost : ℤ → ℤ → Type 0
IsAtMost (pos m) (pos n) = m ≤ n
IsAtMost (pos m) (negsuc n) = ⊥
IsAtMost (negsuc m) (pos n) = Unit
IsAtMost (negsuc m) (negsuc n) = n ≤ m

-- A later channel has no more of the column.
abbrev pub IsFalling : (ChannelStat → ℤ) → List ChannelStat → Type 0
IsFalling column = Pairwise (λ c d. IsAtMost (column d) (column c))

-- No group has a row of the channel and title of an other one.
abbrev pub AreApart : Group → Group → Type 0
AreApart g h = ¬ IsOfChannel g.first h.first

-- The rows of the region, or all if it is empty, are parted into groups by channel and title; `all`
-- has one statistic for each group, and those with more views come first if the order is
-- "total_views", and else those with more rows.
pub record IsRanked (region order : Str) (rows : List VideoRow) (all : List ChannelStat)
    : Type 0 where
  pub found : List VideoRow
  pub groups : List Group
  pub stats : List ChannelStat
  pub region_rows :
      (found ≡ keep (of_region region) rows)
      × All (λ v. (of_region region v ≡ true) ↔ ((region ≡ []) ⊎ (v.region ≡ region))) rows
  pub parted : Perm (all_rows groups) found
  pub uniform : All IsUniform groups
  pub apart : Pairwise AreApart groups
  pub counted : IsStats groups stats
  pub reordered : Perm all stats
  pub ordered :
      ((order ≡ text "total_views") × IsFalling (λ c. c.total_views) all)
      ⊎ (¬ (order ≡ text "total_views") × IsFalling (λ c. c.appear_count) all)

add_lem : (a b : ℤ) → gain (add a b) + (loss a + loss b) ≡ loss (add a b) + (gain a + gain b)
add_lem (pos m) (pos n) = omega arith
add_lem (pos m) (negsuc n) = ground arith
add_lem (negsuc m) (pos n) = ground arith
add_lem (negsuc m) (negsuc n) = omega arith

sum_lem :
    (vs : List VideoRow)
    → let s = sum (map (λ v. v.view_count) vs) in
      gain s + total (λ v. loss v.view_count) vs ≡ loss s + total (λ v. gain v.view_count) vs
sum_lem [] = refl
sum_lem (v ∷ vs) =
    omega (arith, add_lem v.view_count (sum (map (λ u. u.view_count) vs)), sum_lem vs)

stat_of-IsStats : (gs : List Group) → IsStats gs (map stat_of gs)
stat_of-IsStats [] = tt
stat_of-IsStats (g ∷ gs) = (
  record {
    channel_id = refl;
    channel_title = refl;
    appear_count = ap pos (omega arith);
    total_views = sum_lem (rows_of g);
  },
  stat_of-IsStats gs,
)

less-IsAtMost : (a b : ℤ) → less a b ≡ false → IsAtMost b a
less-IsAtMost (pos m) (pos n) h = ground arith
less-IsAtMost (pos m) (negsuc n) h = tt
less-IsAtMost (negsuc m) (pos n) h = absurd (ground arith)
less-IsAtMost (negsuc m) (negsuc n) h = ground arith

sorted-IsFalling :
    (column : ChannelStat → ℤ) (before : ChannelStat → ChannelStat → Bool) (all : List ChannelStat)
    → ((c d : ChannelStat) → before d c ≡ less (column c) (column d))
    → IsSorted before all
    → IsFalling column all
sorted-IsFalling column before [] e h = tt
sorted-IsFalling column before (c ∷ all) e h = (
  All-map all (λ d k. less-IsAtMost (column c) (column d) (sym (e c d) ∙ k)) h.0,
  sorted-IsFalling column before all e h.1,
)

-- the column that the order names
sorted-ordered :
    (order : Str) (all : List ChannelStat)
    → IsSorted (ranks_above order) all
    → ((order ≡ text "total_views") × IsFalling (λ c. c.total_views) all)
      ⊎ (¬ (order ≡ text "total_views") × IsFalling (λ c. c.appear_count) all)
unfolding order_column
sorted-ordered order all h = elim (Bool-cases (same order (text "total_views"))) [
  | inl e ↦ inl (
    (same_iff order (text "total_views")).0 e,
    sorted-IsFalling (λ c. c.total_views) (ranks_above order) all (λ c d. rw e refl) h,
  )
  | inr e ↦ inr (
    λ named. differ e ((same_iff order (text "total_views")).1 named),
    sorted-IsFalling (λ c. c.appear_count) (ranks_above order) all (λ c d. rw e refl) h,
  )
]
  where
    differ : {b : Bool} → b ≡ false → b ≡ true → ⊥
    differ e h = ground arith

apart-AreApart : (gs : List Group) → Pairwise IsApart gs → Pairwise AreApart gs
apart-AreApart [] h = tt
apart-AreApart (g ∷ gs) h =
    (All-map gs (λ k e one. clash g.first k.first e one) h.0, apart-AreApart gs h.1)
  where
    clash : (v w : VideoRow) → same_channel v w ≡ false → IsOfChannel v w → ⊥
    clash v w e one =
        let a = (same_iff v.channel_id w.channel_id).1 one.0 in
        let b = (same_iff v.channel_title w.channel_title).1 one.1 in ground arith

of_region_all :
    (region : Str) (rows : List VideoRow)
    → All (λ v. (of_region region v ≡ true) ↔ ((region ≡ []) ⊎ (v.region ≡ region))) rows
of_region_all region [] = tt
of_region_all region (v ∷ rows) =
    (or_iff (empty_iff region) (same_iff v.region region), of_region_all region rows)

-- A query of channels with a limit that is not negative selects the first ones, up to the limit, of
-- all channels: the rows of the region, or all rows if it is empty, are parted by channel and title;
-- each part has its number of rows and the sum of their views; and the parts with the larger
-- number, or with the larger sum if that is asked for, come first.
pub select_channels-IsRanked :
    (region order : Str) (limit : ℕ) (rows : List VideoRow)
    → let all = all_channels region order rows in
      (select_channels region (pos limit) order rows ≡ some (take limit all))
      × IsRanked region order rows all
unfolding select_channels all_channels order_column
select_channels-IsRanked region order limit rows =
    let found = keep (of_region region) rows in
    let stats = map stat_of (grouped found) in
    let column = order_column order in
    (
      refl,
      record {
        found = found;
        groups = grouped found;
        stats = stats;
        region_rows = (refl, of_region_all region rows);
        parted = grouped-perm found;
        uniform = grouped-IsUniform found;
        apart = apart-AreApart (grouped found) (grouped-IsApart found);
        counted = stat_of-IsStats (grouped found);
        reordered = sort_by-perm (ranks_above order) stats;
        ordered = sorted-ordered order (all_channels region order rows) (
            sort_by-IsSorted (ranks_above order) (λ c d h. less_asym (column d) (column c) h)
              (λ c d e h k. less_trans (column c) (column d) (column e) h k) stats);
      },
    )
