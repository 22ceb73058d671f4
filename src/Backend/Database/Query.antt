-- ===== src/Backend/Database/Query.antt =====
-- backend/db/db.go: the statements that `GetVideos` and `GetTopChannels` put together, with their
-- arguments. A time is none if it is the zero time.
use yt_trending_pipeline.Prelude.{
  ℕ, zero, suc, ◌+◌, ◌-◌, ◌*◌, ◌≡◌, refl, Option, none, some, Bool, true, false, not, ◌&&◌, List,
  [], ◌∷◌, ◌++◌, Str, text, same, truthy, decimal, length, leb, ◌==◌, ℤ, pos, negsuc, if◌then◌else◌,
}

pub data Arg : Type 0 where
  text_arg : Str → Arg
  number_arg : ℤ → Arg
  time_arg : ℕ → Arg

-- the variables `inner` (or `query`), `args` and `argNum`
pub record Builder : Type 0 where
  pub query : Str
  pub args : List Arg
  pub arg_num : ℕ

-- one of the `if` blocks, with the text before the number of its argument
unfoldable pub clause : Bool → Str → Arg → Builder → Builder
clause false before arg b = b
clause true before arg b = record {
  query = b.query ++ (before ++ decimal b.arg_num);
  args = b.args ++ (arg ∷ []);
  arg_num = suc b.arg_num;
}

unfoldable pub time_clause : Str → Option ℕ → Builder → Builder
unfolding clause
time_clause before none b = b
time_clause before (some time) b = clause true before (time_arg time) b

abbrev pub is_zero : ℤ → Bool
is_zero (pos zero) = true
is_zero (pos (suc n)) = false
is_zero (negsuc n) = false

abbrev pub select_videos : Str
select_videos =
    text
      "SELECT DISTINCT ON (video_id) video_id, job_id, region, fetched_at, title, channel_id, channel_title, published_at, category_id, view_count, like_count, comment_count FROM videos WHERE 1=1"

abbrev start : Str → Builder
start query = record { query = query; args = []; arg_num = 1 }

-- what the four blocks of `GetVideos` make of its tests
unfoldable pub filter_videos : Bool → Bool → Str → ℤ → Option ℕ → Option ℕ → Builder
unfolding clause time_clause
filter_videos by_region by_category region category_id fetched_after fetched_before =
    time_clause (text " AND fetched_at < $") fetched_before (
      time_clause (text " AND fetched_at > $") fetched_after (
        clause by_category (text " AND category_id = $") (number_arg category_id)
          (clause by_region (text " AND region = $") (text_arg region) (start select_videos))))

unfoldable pub order_videos : Builder → ℤ → ℤ → Str × List Arg
order_videos b limit offset = (
  text "SELECT * FROM ("
      ++ (b.query
          ++ (text " ORDER BY video_id, fetched_at DESC"
              ++ (text ") sub ORDER BY view_count DESC LIMIT $"
                  ++ (decimal b.arg_num ++ (text " OFFSET $" ++ decimal (b.arg_num + 1)))))),
  b.args ++ (number_arg limit ∷ number_arg offset ∷ []),
)

-- the text and the arguments that `GetVideos` sends
unfoldable pub get_videos_query : Str → ℤ → Option ℕ → Option ℕ → ℤ → ℤ → Str × List Arg
unfolding filter_videos order_videos
get_videos_query region category_id fetched_after fetched_before limit offset =
    order_videos
      (filter_videos (truthy region) (not (is_zero category_id)) region category_id fetched_after
        fetched_before)
      limit offset

abbrev select_channels : Str
select_channels =
    text
      "\n\t\tSELECT channel_id, channel_title, COUNT(*) as appear_count, SUM(view_count) as total_views\n\t\tFROM videos\n\t\tWHERE 1=1"

unfoldable pub order_channels : Bool → Builder → ℤ → Str × List Arg
order_channels by_views b limit = (
  b.query
      ++ (text " GROUP BY channel_id, channel_title ORDER BY "
          ++ ((if by_views then text "total_views" else text "appear_count")
              ++ (text " DESC LIMIT $" ++ decimal b.arg_num))),
  b.args ++ (number_arg limit ∷ []),
)

-- The text and the arguments that `GetTopChannels` sends.
unfoldable pub get_top_channels_query : Str → ℤ → Str → Str × List Arg
unfolding order_channels clause
get_top_channels_query region limit sort_by =
    order_channels (same sort_by (text "total_views"))
      (clause (truthy region) (text " AND region = $") (text_arg region) (start select_channels))
      limit

-- The numbers after the dollar signs of a text, in order. `after` is whether a number is being
-- read, and `n` what was read of it.
read_numbers : Bool → ℕ → Str → List ℕ
read_numbers false n [] = []
read_numbers true n [] = n ∷ []
read_numbers after n (c ∷ s) =
    let more = read_numbers true (10 * n + (c - b'0')) s in
    let fresh = read_numbers true 0 s in
    let rest = read_numbers false 0 s in
    if after && (leb b'0' c && leb c b'9')
    then more
    else (if after then n ∷ [] else []) ++ (if c == b'$' then fresh else rest)

unfoldable pub placeholders : Str → List ℕ
unfolding read_numbers
placeholders s = read_numbers false 0 s

abbrev pub count_from : ℕ → ℕ → List ℕ
count_from first zero = []
count_from first (suc n) = first ∷ count_from (suc first) n

abbrev pub IsNumbered : Str × List Arg → Type 0
IsNumbered q = placeholders q.0 ≡ count_from 1 (length q.1)

order_videos-IsNumbered :
    (by_region by_category : Bool) (region : Str) (category_id : ℤ)
    (fetched_after fetched_before : Option ℕ) (limit offset : ℤ)
    → IsNumbered (
        order_videos
          (filter_videos by_region by_category region category_id fetched_after fetched_before)
          limit
          offset)
unfolding placeholders filter_videos order_videos text decimal
order_videos-IsNumbered false false region category_id none none limit offset = refl
order_videos-IsNumbered false false region category_id none (some t) limit offset = refl
order_videos-IsNumbered false false region category_id (some a) none limit offset = refl
order_videos-IsNumbered false false region category_id (some a) (some t) limit offset = refl
order_videos-IsNumbered false true region category_id none none limit offset = refl
order_videos-IsNumbered false true region category_id none (some t) limit offset = refl
order_videos-IsNumbered false true region category_id (some a) none limit offset = refl
order_videos-IsNumbered false true region category_id (some a) (some t) limit offset = refl
order_videos-IsNumbered true false region category_id none none limit offset = refl
order_videos-IsNumbered true false region category_id none (some t) limit offset = refl
order_videos-IsNumbered true false region category_id (some a) none limit offset = refl
order_videos-IsNumbered true false region category_id (some a) (some t) limit offset = refl
order_videos-IsNumbered true true region category_id none none limit offset = refl
order_videos-IsNumbered true true region category_id none (some t) limit offset = refl
order_videos-IsNumbered true true region category_id (some a) none limit offset = refl
order_videos-IsNumbered true true region category_id (some a) (some t) limit offset = refl

order_channels-IsNumbered :
    (by_views by_region : Bool) (region : Str) (limit : ℤ)
    → IsNumbered (
        order_channels by_views
          (clause by_region (text " AND region = $") (text_arg region) (start select_channels))
          limit)
unfolding placeholders order_channels clause text decimal
order_channels-IsNumbered true true region limit = refl
order_channels-IsNumbered true false region limit = refl
order_channels-IsNumbered false true region limit = refl
order_channels-IsNumbered false false region limit = refl

-- Whatever filters are given, the placeholders in the texts of `GetVideos` and `GetTopChannels` are
-- `$1`, `$2` and so on, in order, one for each argument.
queries-IsNumbered :
    (region sort_by : Str) (category_id limit offset : ℤ) (fetched_after fetched_before : Option ℕ)
    → IsNumbered (get_videos_query region category_id fetched_after fetched_before limit offset)
      × IsNumbered (get_top_channels_query region limit sort_by)
unfolding get_videos_query get_top_channels_query
queries-IsNumbered region sort_by category_id limit offset fetched_after fetched_before = (
  order_videos-IsNumbered (truthy region) (not (is_zero category_id)) region category_id
      fetched_after fetched_before limit offset,
  order_channels-IsNumbered (same sort_by (text "total_views")) (truthy region) region limit,
)
