-- ===== src/Backend/Database/Channels.antt =====
-- backend/db/db.go: the channels that `GetTopChannels` selects. The order of channels that its
-- statement leaves open is that of the table.
use yt_trending_pipeline.Prelude.{
  suc, ◌+◌, ◌-◌, Option, none, some, Bool, ◌&&◌, ◌||◌, not, List, [], ◌∷◌, map, Str, text, same,
  truthy, keep, take, length, leb, sort_by, ℤ, pos, negsuc, if◌then◌else◌,
}
use yt_trending_pipeline.Backend.{VideoRow}
use yt_trending_pipeline.Backend.Database.Select.{less}
use yt_trending_pipeline.Backend.Analytics.{ChannelStat}

abbrev pub add : ℤ → ℤ → ℤ
add (pos m) (pos n) = pos (m + n)
add (pos m) (negsuc n) = if leb (suc n) m then pos (m - suc n) else negsuc (n - m)
add (negsuc m) (pos n) = if leb (suc m) n then pos (n - suc m) else negsuc (m - n)
add (negsuc m) (negsuc n) = negsuc (suc (m + n))

abbrev pub sum : List ℤ → ℤ
sum [] = pos 0
sum (n ∷ ns) = add n (sum ns)

-- the rows of one channel, of which there is one
pub record Group : Type 0 where
  pub first : VideoRow
  pub others : List VideoRow

abbrev pub rows_of : Group → List VideoRow
rows_of g = g.first ∷ g.others

abbrev pub same_channel : VideoRow → VideoRow → Bool
same_channel v w = same v.channel_id w.channel_id && same v.channel_title w.channel_title

-- `GROUP BY channel_id, channel_title`
unfoldable pub group_in : VideoRow → List Group → List Group
group_in v [] = record { first = v; others = [] } ∷ []
group_in v (g ∷ gs) =
    let rest = group_in v gs in
    if same_channel v g.first then record { first = v; others = rows_of g } ∷ gs else g ∷ rest

unfoldable pub grouped : List VideoRow → List Group
unfolding group_in
grouped [] = []
grouped (v ∷ vs) = group_in v (grouped vs)

-- a row of the answer
abbrev pub stat_of : Group → ChannelStat
stat_of g = record {
  channel_id = g.first.channel_id;
  channel_title = g.first.channel_title;
  appear_count = pos (length (rows_of g));
  total_views = sum (map (λ v. v.view_count) (rows_of g));
}

-- the condition on the region, if it is given
abbrev pub of_region : Str → VideoRow → Bool
of_region region v = not (truthy region) || same v.region region

-- `orderCol`, and `ORDER BY … DESC`
unfoldable pub order_column : Str → ChannelStat → ℤ
order_column order c = if same order (text "total_views") then c.total_views else c.appear_count

abbrev pub ranks_above : Str → ChannelStat → ChannelStat → Bool
unfolding order_column
ranks_above order c d = less (order_column order d) (order_column order c)

-- all the channels of the query, before its limit
unfoldable pub all_channels : Str → Str → List VideoRow → List ChannelStat
unfolding grouped sort_by
all_channels region order rows =
    sort_by (ranks_above order) (map stat_of (grouped (keep (of_region region) rows)))

-- `GetTopChannels`; an error is none, and the limit may not be negative
unfoldable pub select_channels : Str → ℤ → Str → List VideoRow → Option (List ChannelStat)
unfolding all_channels
select_channels region (pos limit) order rows = some (take limit (all_channels region order rows))
select_channels region (negsuc n) order rows = none
