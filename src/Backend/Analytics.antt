-- ===== src/Backend/Analytics.antt =====
-- backend/analytics/server.go, with the messages of backend/proto/analytics.proto. Redis, the JSON
-- encoder, the text of a time and what the database answers at a time are parameters. A call is
-- two steps, the look into the cache and what follows a miss, as other calls may come between.
pub mod Keys
pub mod Cached
pub mod Served
use yt_trending_pipeline.Prelude.{
  ℕ, ◌+◌, ◌<◌, ◌≡◌, ◌⊎◌, arith, Option, none, some, List, [], ◌∷◌, ◌++◌, map, Str, text, ℤ,
  int_text, ◌==◌, if◌then◌else◌,
}
use yt_trending_pipeline.Backend.{VideoRow}
use yt_trending_pipeline.Backend.Database.Query.{Arg, get_videos_query, get_top_channels_query}
use yt_trending_pipeline.Backend.Gateway.Atoi.{int32_of}

-- a valid `google.protobuf.Timestamp`: the years 1 to 9999, in milliseconds
pub record Timestamp : Type 0 where
  pub millis : ℕ
  pub valid : millis < 315537897600000

pub record VideosRequest : Type 0 where
  pub region : Str
  pub category_id : ℤ
  pub fetched_after : Option Timestamp
  pub fetched_before : Option Timestamp
  pub limit : ℤ
  pub offset : ℤ

pub data SortBy : Type 0 where
  sort_by_unspecified appear_count view_count : SortBy

pub record ChannelsRequest : Type 0 where
  pub region : Str
  pub limit : ℤ
  pub sort_by : SortBy

-- `message Video`, which has the fields of a row
unfoldable pub to_pb : VideoRow → VideoRow
to_pb v = record v { category_id = int32_of v.category_id }

pub record ChannelStat : Type 0 where
  pub channel_id : Str
  pub channel_title : Str
  pub appear_count : ℤ
  pub total_views : ℤ

-- `message Channel`
pub record Channel : Type 0 where
  pub channel_id : Str
  pub channel_title : Str
  pub appear_count : ℤ
  pub view_count : ℤ

unfoldable pub to_channel : ChannelStat → Channel
to_channel c = record {
  channel_id = c.channel_id;
  channel_title = c.channel_title;
  appear_count = c.appear_count;
  view_count = c.total_views;
}

-- What the service relies on of Redis, whatever it evicts or loses: a key that is read at a time
-- has data that was set for it, and that has not expired.
pub record Redis (S : Type 0) : Type 0 where
  pub empty : S
  pub get : ℕ → Str → S → Option Str
  pub set : ℕ → ℕ → Str → Str → S → S
  pub get_empty : (now : ℕ) (key : Str) → get now key empty ≡ none
  pub get_set :
      (now ttl : ℕ) (key bytes : Str) (later : ℕ) (read found : Str) (s : S)
      → get later read (set now ttl key bytes s) ≡ some found
      → ((read ≡ key) × (found ≡ bytes) × (later < now + ttl)) ⊎ (get later read s ≡ some found)

-- `json.Marshal` and `json.Unmarshal` of a response
pub record Codec (A : Type 0) : Type 0 where
  pub encode : A → Option Str
  pub decode : Str → Option A
  pub round_trip : (a : A) (bytes : Str) → encode a ≡ some bytes → decode bytes ≡ some a

-- `time.Hour`, in milliseconds
abbrev pub hour : ℕ
hour = 3600000

abbrev pub zero_time : Timestamp
zero_time = record { millis = 0; valid = omega arith }

-- `if req.FetchedAfter != nil`
abbrev pub as_time : Option Timestamp → Timestamp
as_time none = zero_time
as_time (some t) = t

-- a time as an argument of the database: none if `IsZero`
abbrev filter_time : Option Timestamp → Option ℕ
filter_time none = none
filter_time (some t) = if t.millis == 0 then none else some t.millis

unfoldable pub videos_key : (Timestamp → Str) → VideosRequest → Str
videos_key rfc3339 req =
    text "videos:"
    ++ (req.region
        ++ (b':' ∷ int_text req.category_id
            ++ (b':' ∷ int_text req.limit
                ++ (b':' ∷ int_text req.offset
                    ++ (b':' ∷ rfc3339 (as_time req.fetched_after)
                        ++ (b':' ∷ rfc3339 (as_time req.fetched_before)))))))

unfoldable pub sort_column : SortBy → Str
sort_column sort_by_unspecified = text "appear_count"
sort_column appear_count = text "appear_count"
sort_column view_count = text "total_views"

unfoldable pub channels_key : ChannelsRequest → Str
unfolding sort_column
channels_key req =
    text "top_channels:"
    ++ (req.region ++ (b':' ∷ int_text req.limit ++ (b':' ∷ sort_column req.sort_by)))

-- the statements that the database gets
unfoldable pub videos_statement : VideosRequest → Str × List Arg
videos_statement req =
    get_videos_query req.region req.category_id (filter_time req.fetched_after)
      (filter_time req.fetched_before) req.limit req.offset

unfoldable pub channels_statement : ChannelsRequest → Str × List Arg
unfolding sort_column
channels_statement req = get_top_channels_query req.region req.limit (sort_column req.sort_by)

abbrev pub through : {A B : Type 0} → (A → B) → Option (List A) → Option (List B)
through f none = none
through f (some rows) = some (map f rows)

module _ {S A : Type 0} (redis : Redis S) (codec : Codec A) where
  -- `if err == nil`, twice
  abbrev decoded : Option Str → Option A
  decoded none = none
  decoded (some bytes) = codec.decode bytes

  unfoldable pub look_up : Str → ℕ → S → Option A
  look_up key now s = decoded (redis.get now key s)

  abbrev set_encoded : Str → ℕ → Option Str → S → S
  set_encoded key now none s = s
  set_encoded key now (some bytes) s = redis.set now hour key bytes s

  -- what follows the answer of the database to a miss
  unfoldable pub fill : Str → ℕ → Option A → S → Option A × S
  fill key now none s = (none, s)
  fill key now (some a) s = (some a, set_encoded key now (codec.encode a) s)

  abbrev unless_cached : Option A → Option A × S → S → Option A × S
  unless_cached none filled s = filled
  unless_cached (some a) filled s = (some a, s)

  unfoldable pub serve : Str → ℕ → Option A → S → Option A × S
  unfolding look_up fill
  serve key now answer s = unless_cached (look_up key now s) (fill key now answer s) s

-- what the service makes of the answer of the database at a time
unfoldable pub videos_answer :
    (ℕ → Str × List Arg → Option (List VideoRow)) → ℕ → VideosRequest → Option (List VideoRow)
unfolding videos_statement to_pb
videos_answer query_videos now req = through to_pb (query_videos now (videos_statement req))

unfoldable pub channels_answer :
    (ℕ → Str × List Arg → Option (List ChannelStat)) → ℕ → ChannelsRequest → Option (List Channel)
unfolding channels_statement to_channel
channels_answer query_channels now req =
    through to_channel (query_channels now (channels_statement req))

pub data Event : Type 0 where
  missed_videos : VideosRequest → ℕ → Event
  missed_channels : ChannelsRequest → ℕ → Event

module _ {S : Type 0} (redis : Redis S) (rfc3339 : Timestamp → Str)
    (videos_codec : Codec (List VideoRow)) (channels_codec : Codec (List Channel))
    (query_videos : ℕ → Str × List Arg → Option (List VideoRow))
    (query_channels : ℕ → Str × List Arg → Option (List ChannelStat)) where
  -- `GetVideos`; an error is none
  unfoldable pub get_videos : VideosRequest → ℕ → S → Option (List VideoRow) × S
  unfolding serve videos_key videos_answer
  get_videos req now =
      serve redis videos_codec (videos_key rfc3339 req) now (videos_answer query_videos now req)

  unfoldable pub get_top_channels : ChannelsRequest → ℕ → S → Option (List Channel) × S
  unfolding serve channels_key channels_answer
  get_top_channels req now =
      serve redis channels_codec (channels_key req) now (channels_answer query_channels now req)

  -- what follows the miss of a call, at any time after it
  unfoldable pub step : Event → S → S
  unfolding fill videos_key videos_answer channels_key channels_answer
  step (missed_videos req now) s =
      (fill redis videos_codec (videos_key rfc3339 req) now (videos_answer query_videos now req)
        s).1
  step (missed_channels req now) s =
      (fill redis channels_codec (channels_key req) now (channels_answer query_channels now req)
        s).1

  unfoldable pub run : List Event → S → S
  unfolding step
  run [] s = s
  run (e ∷ es) s = run es (step e s)

-- `GetVideosCount`, on what `GetVideoCount` of the database returns
unfoldable pub get_videos_count : Option ℤ → Option ℤ
get_videos_count none = none
get_videos_count (some count) = some count

pub record RegionsResponse : Type 0 where
  pub count : ℤ
  pub regions : List Str

unfoldable pub get_tracked_regions : Option (ℤ × List Str) → Option RegionsResponse
get_tracked_regions none = none
get_tracked_regions (some (count, regions)) = some (record { count = count; regions = regions })

-- `VideoTrendPoint` of the database, and `message TrendPoint`
pub record TrendPoint : Type 0 where
  pub fetched_at : ℕ
  pub view_count : ℤ
  pub like_count : ℤ
  pub comment_count : ℤ

unfoldable pub get_video_trend : Option (List TrendPoint) → Option (List TrendPoint)
get_video_trend = through (λ p. record {
  fetched_at = p.fetched_at;
  view_count = p.view_count;
  like_count = p.like_count;
  comment_count = p.comment_count;
})
