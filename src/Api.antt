-- ===== src/Api.antt =====
-- frontend/lib/api.ts: the requests that the dashboard sends to the gateway, and what it makes of
-- the answers. `fetch` and the serialisation of `URLSearchParams` are the browser's: an answer is
-- a `Reply`, and the serialiser is a parameter.
use yt_trending_pipeline.Prelude.{
  ℕ, Option, none, some, List, [], ◌∷◌, ◌++◌, Str, text, ℤ, int_text,
}
use yt_trending_pipeline.Types.{
  JobStatus, JobResponse, BatchResponse, SubmitJobRequest, Video, TopChannel, TrendPoint,
}

-- What `fetch` and `res.json()` come to: no connection, with the error's message; a status that is
-- not ok, with the `error` field of the body if the body is JSON; an ok status with a body that is
-- no JSON, with the parser's message; or the body.
pub data Reply (A : Type 0) : Type 0 where
  unreachable : Str → Reply A
  refused : Option (Option Str) → Reply A
  malformed : Str → Reply A
  answered : A → Reply A

-- A settled promise: its value, or the message of its error.
pub data Settled (A : Type 0) : Type 0 where
  fulfilled : A → Settled A
  rejected : Str → Settled A

pub data Body : Type 0 where
  no_body : Body
  one_job : SubmitJobRequest → Body
  jobs : List SubmitJobRequest → Body

pub data Method : Type 0 where
  get post : Method

pub record Request : Type 0 where
  pub method : Method
  pub url : Str
  pub body : Body

module _ {A : Type 0} where
  -- `if (!res.ok)` with the body's own message, as in `submitJob`, `submitBatch`, `getJobStatus`
  with_message : Str → Reply A → Settled A
  with_message fallback (unreachable message) = rejected message
  with_message fallback (refused none) = rejected (text "Request failed")
  with_message fallback (refused (some none)) = rejected fallback
  with_message fallback (refused (some (some message))) = rejected message
  with_message fallback (malformed message) = rejected message
  with_message fallback (answered a) = fulfilled a

  -- `if (!res.ok)` with a fixed message, as in the other calls
  with_fallback : Str → Reply A → Settled A
  with_fallback fallback (unreachable message) = rejected message
  with_fallback fallback (refused body) = rejected fallback
  with_fallback fallback (malformed message) = rejected message
  with_fallback fallback (answered a) = fulfilled a

unfoldable pub submit_job : Reply JobResponse → Settled JobResponse
unfolding with_message
submit_job = with_message (text "Failed to submit job")

unfoldable pub submit_batch : Reply BatchResponse → Settled BatchResponse
unfolding with_message
submit_batch = with_message (text "Failed to submit batch")

unfoldable pub get_job_status : Reply JobStatus → Settled JobStatus
unfolding with_message
get_job_status = with_message (text "Failed to fetch job")

-- The gateway leaves an empty list out.
pub record TrackedRegions : Type 0 where
  pub count : Option ℕ
  pub regions : Option (List Str)

unfoldable pub get_tracked_regions : Reply TrackedRegions → Settled TrackedRegions
unfolding with_fallback
get_tracked_regions = with_fallback (text "Failed to fetch tracked regions")

-- `data.count`
unfoldable pub get_video_count : Reply (Option ℕ) → Settled (Option ℕ)
unfolding with_fallback
get_video_count = with_fallback (text "Failed to fetch video count")

-- `data.videos`, which the gateway leaves out when there is none
unfoldable pub get_videos : Reply (Option (List Video)) → Settled (Option (List Video))
unfolding with_fallback
get_videos = with_fallback (text "Failed to fetch videos")

unfoldable pub get_top_channels :
    Reply (Option (List TopChannel)) → Settled (Option (List TopChannel))
unfolding with_fallback
get_top_channels = with_fallback (text "Failed to fetch top channels")

unfoldable pub get_video_trend :
    Reply (Option (List TrendPoint)) → Settled (Option (List TrendPoint))
unfolding with_fallback
get_video_trend = with_fallback (text "Failed to fetch video trend")

-- The pairs of a `URLSearchParams`, in the order in which they are set.
abbrev pub Query : Type 0
Query = List (Str × Str)

-- A number is `none` where the caller gives no value, and `some none` for `NaN`.
pub record VideosParams : Type 0 where
  pub region : Option Str
  pub category_id : Option (Option ℤ)
  pub limit : Option ℕ
  pub offset : Option ℕ

pub data SortBy : Type 0 where
  appear_count total_views : SortBy

pub record ChannelsParams : Type 0 where
  pub region : Option Str
  pub limit : Option ℕ
  pub sort_by : Option SortBy

-- `if (value) qs.set(key, value)`
abbrev set_truthy : Str → Option Str → Query
set_truthy key none = []
set_truthy key (some []) = []
set_truthy key (some (c ∷ s)) = (key, c ∷ s) ∷ []

-- `if (value != null) qs.set(key, String(value))`
abbrev set_number : Str → Option (Option ℤ) → Query
set_number key none = []
set_number key (some none) = (key, text "NaN") ∷ []
set_number key (some (some n)) = (key, int_text n) ∷ []

abbrev pub given : Option ℕ → Option (Option ℤ)
given none = none
given (some n) = some (some (ℤ.pos n))

abbrev sort_by_text : SortBy → Str
sort_by_text appear_count = text "appear_count"
sort_by_text total_views = text "total_views"

abbrev set_sort_by : Option SortBy → Query
set_sort_by none = []
set_sort_by (some by) = (text "sort_by", sort_by_text by) ∷ []

unfoldable pub videos_query : VideosParams → Query
videos_query params =
    set_truthy (text "region") params.region
    ++ (set_number (text "category_id") params.category_id
        ++ (set_number (text "limit") (given params.limit)
            ++ set_number (text "offset") (given params.offset)))

unfoldable pub channels_query : ChannelsParams → Query
channels_query params =
    set_truthy (text "region") params.region
    ++ (set_number (text "limit") (given params.limit) ++ set_sort_by params.sort_by)

abbrev plain_get : Str → Request
plain_get url = record { method = get; url = url; body = no_body }

module _ (base_url : Str) where
  unfoldable pub submit_job_request : SubmitJobRequest → Request
  submit_job_request req = record {
    method = post;
    url = base_url ++ text "/jobs";
    body = one_job req;
  }

  unfoldable pub submit_batch_request : List SubmitJobRequest → Request
  submit_batch_request reqs = record {
    method = post;
    url = base_url ++ text "/jobs/batch";
    body = jobs reqs;
  }

  unfoldable pub job_status_request : Str → Request
  job_status_request id = plain_get (base_url ++ (text "/jobs/" ++ id))

  -- the address of the `EventSource`
  unfoldable pub watch_url : Str → Str
  watch_url id = base_url ++ (text "/jobs/" ++ (id ++ text "/watch"))

  unfoldable pub tracked_regions_request : Request
  tracked_regions_request = plain_get (base_url ++ text "/analytics/regions")

  unfoldable pub video_count_request : Request
  video_count_request = plain_get (base_url ++ text "/videos/count")

  unfoldable pub video_trend_request : Str → Request
  video_trend_request id =
      plain_get (base_url ++ (text "/analytics/videos/" ++ (id ++ text "/trend")))

  module _ (serialise : Query → Str) where
    unfoldable pub videos_request : VideosParams → Request
    unfolding videos_query
    videos_request params =
        plain_get (base_url ++ (text "/videos?" ++ serialise (videos_query params)))

    unfoldable pub channels_request : ChannelsParams → Request
    unfolding channels_query
    channels_request params =
        plain_get
          (base_url ++ (text "/analytics/top-channels?" ++ serialise (channels_query params)))
