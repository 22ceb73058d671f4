-- ===== src/Backend/Gateway.antt =====
-- backend/api/server.go: what the HTTP gateway reads of the query of a request. The pairs of the query
-- are what gin makes of it. Backend.Gateway.Handlers has the handlers, Backend.Gateway.Routes the routes.
pub mod Atoi
pub mod Handlers
pub mod Settled
pub mod Batched
pub mod Counted
pub mod Rendered
pub mod Submitted
pub mod Requests
pub mod Routes
use yt_trending_pipeline.Prelude.{
  ℕ, Option, none, some, Bool, true, false, ◌||◌, List, [], ◌∷◌, ◌++◌, Str, text, same, ℤ, pos,
  or_else, if◌then◌else◌,
}
use yt_trending_pipeline.Backend.Analytics.{
  VideosRequest, SortBy, appear_count, view_count, ChannelsRequest,
}
use yt_trending_pipeline.Backend.Gateway.Atoi.{atoi, int32_of}

abbrev pub Query : Type 0
Query = List (Str × Str)

-- the first value of a key
abbrev pub value_of : Str → Query → Option Str
value_of key [] = none
value_of key ((k, v) ∷ query) = if same k key then some v else value_of key query

-- `c.Query(key)`
abbrev pub query_text : Str → Query → Str
query_text key query = or_else (value_of key query) []

-- `strconv.Atoi(c.DefaultQuery(key, default))`, without the error, as an `int32`
unfoldable pub query_number : Str → Str → Query → ℤ
query_number key default query = int32_of (atoi (or_else (value_of key query) default))

-- what `handleGetVideos` asks the service for
unfoldable pub videos_request : Query → VideosRequest
unfolding query_number
videos_request query = record {
  region = query_text (text "region") query;
  category_id = query_number (text "category_id") (text "0") query;
  fetched_after = none;
  fetched_before = none;
  limit = query_number (text "limit") (text "50") query;
  offset = query_number (text "offset") (text "0") query;
}

-- what `handleGetTopChannels` asks the service for
unfoldable pub channels_request : Query → ChannelsRequest
unfolding query_number
channels_request query = record {
  region = query_text (text "region") query;
  limit = query_number (text "limit") (text "10") query;
  sort_by =
      let by = or_else (value_of (text "sort_by") query) (text "appear_count") in
      if same by (text "appear_count")
      then appear_count
      else if same by (text "total_views")
      then view_count
      else appear_count;
}
