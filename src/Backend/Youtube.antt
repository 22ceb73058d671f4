-- ===== src/Backend/Youtube.antt =====
-- backend/youtube/client.go: the rows that `FetchTrending` makes of an answer of the YouTube API. The
-- answer, the clock and `time.Parse` are parameters; `url.Values` is the list of its pairs.
pub mod Stored
use yt_trending_pipeline.Prelude.{
  ℕ, zero, suc, Bool, true, false, if◌then◌else◌, List, [], ◌∷◌, ◌++◌, Str, text, ℤ, pos, negsuc,
  int_text,
}
use yt_trending_pipeline.Backend.{JobRequest, VideoRow}
use yt_trending_pipeline.Backend.Gateway.Atoi.{atoi}

pub record Snippet : Type 0 where
  pub title : Str
  pub channel_id : Str
  pub channel_title : Str
  pub published_at : Str
  pub category_id : Str

pub record Stats : Type 0 where
  pub view_count : Str
  pub like_count : Str
  pub comment_count : Str

pub record Item : Type 0 where
  pub id : Str
  pub snippet : Snippet
  pub stats : Stats

-- What `http.Get` and the decoder come to: no connection, a body that does not decode, or the
-- status with the items of the body. A JSON body without items, such as that of an error, decodes
-- to none of them.
pub data Answer : Type 0 where
  no_connection : Answer
  undecodable : ℕ → Answer
  decoded : ℕ → List Item → Answer

-- What `FetchTrending` comes to. `make([]Video, 0, n)` panics for a negative `n`.
pub data Fetched : Type 0 where
  panicked failed : Fetched
  fetched : List VideoRow → Fetched

abbrev pub is_negative : ℤ → Bool
is_negative (pos n) = false
is_negative (negsuc n) = true

abbrev category_params : ℤ → List (Str × Str)
category_params (pos zero) = []
category_params (pos (suc n)) = (text "videoCategoryId", int_text (pos (suc n))) ∷ []
category_params (negsuc n) = (text "videoCategoryId", int_text (negsuc n)) ∷ []

-- the pairs of the address that is asked
unfoldable pub trending_params : Str → JobRequest → List (Str × Str)
trending_params api_key req =
    (text "part", text "snippet,statistics")
    ∷ (text "chart", text "mostPopular")
    ∷ (text "regionCode", req.region)
    ∷ (text "maxResults", int_text req.max_results)
    ∷ (text "key", api_key)
    ∷ category_params req.category_id

module _ (parse_time : Str → ℕ) (now : ℕ → ℕ) (req : JobRequest) (job_id : Str) where
  -- the body of the loop; `i` counts the turns
  unfoldable pub to_video : ℕ → Item → VideoRow
  to_video i item = record {
    video_id = item.id;
    job_id = job_id;
    region = req.region;
    fetched_at = now i;
    title = item.snippet.title;
    channel_id = item.snippet.channel_id;
    channel_title = item.snippet.channel_title;
    published_at = parse_time item.snippet.published_at;
    category_id = atoi item.snippet.category_id;
    view_count = atoi item.stats.view_count;
    like_count = atoi item.stats.like_count;
    comment_count = atoi item.stats.comment_count;
  }

  unfoldable pub to_videos : ℕ → List Item → List VideoRow
  unfolding to_video
  to_videos i [] = []
  to_videos i (item ∷ items) = to_video i item ∷ to_videos (suc i) items

  -- after the address was asked
  unfoldable pub read_answer : Answer → Fetched
  unfolding to_videos
  read_answer no_connection = failed
  read_answer (undecodable status) = failed
  read_answer (decoded status items) = fetched (to_videos 0 items)

  unfoldable pub fetch_trending : Answer → Fetched
  unfolding read_answer
  fetch_trending answer = if is_negative req.max_results then panicked else read_answer answer
