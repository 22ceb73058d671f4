-- ===== src/VideosTable.antt =====
-- frontend/components/videos-table.tsx: the browser of videos. Its state changes by events; a request
-- is made whenever the region or the category changes, and an answer is taken as it comes.
pub mod Sort
pub mod Pages
pub mod Browsing
pub mod View
use yt_trending_pipeline.Prelude.{
  ℕ, suc, ◌+◌, ◌-◌, ◌*◌, ◌/◌, ◌<◌, min, max, Option, none, some, Bool, true, false, not, ◌&&◌, ◌||◌,
  List, [], ◌∷◌, Str, text, truthy, same, includes, keep, take, drop, length, JsNum, ltb, leb, ◌==◌,
  or_else, parse_int, if◌then◌else◌,
}
use yt_trending_pipeline.Types.{Video}
use yt_trending_pipeline.Api.{Settled, fulfilled, rejected, VideosParams}

abbrev pub page_size : ℕ
page_size = 25

pub data SortKey : Type 0 where
  view_count like_count comment_count : SortKey

pub data SortDir : Type 0 where
  desc asc : SortDir

pub record Table : Type 0 where
  pub region : Str
  pub category_id : Str
  pub search : Str
  pub videos : List Video
  pub loading : Bool
  pub error : Option Str
  pub page : ℕ
  pub sort_key : SortKey
  pub sort_dir : SortDir

unfoldable pub initial : Table
initial = record {
  region = text "US";
  category_id = text "all";
  search = [];
  videos = [];
  loading = true;
  error = none;
  page = 0;
  sort_key = view_count;
  sort_dir = desc;
}

-- `a[sortKey]`
abbrev pub count_of : SortKey → Video → JsNum
count_of view_count v = v.view_count
count_of like_count v = v.like_count
count_of comment_count v = v.comment_count

-- Whether the comparator gives a positive number for `a` and `b`. A difference with `undefined` is
-- `NaN`, which `sort` reads as 0.
abbrev pub after : SortDir → JsNum → JsNum → Bool
after dir none b = false
after dir (some a) none = false
after desc (some a) (some b) = ltb a b
after asc (some a) (some b) = ltb b a

module _ (key : SortKey) (dir : SortDir) where
  insert : Video → List Video → List Video
  insert v [] = v ∷ []
  insert v (w ∷ ws) =
      let rest = insert v ws in
      if after dir (count_of key v) (count_of key w) then w ∷ rest else v ∷ w ∷ ws

  -- `[...filtered].sort(…)`, which is stable
  unfoldable pub sort : List Video → List Video
  unfolding insert
  sort [] = []
  sort (v ∷ vs) = insert v (sort vs)

module _ (to_lower_case : Str → Str) where
  unfoldable pub matches : Str → Video → Bool
  matches part v =
      includes (to_lower_case v.title) part || includes (to_lower_case v.channel_title) part

  -- `searchLower ? videos.filter(…) : videos`
  unfoldable pub filtered : Str → List Video → List Video
  unfolding matches
  filtered search videos =
      let part = to_lower_case search in if truthy part then keep (matches part) videos else videos

  unfoldable pub sorted : Table → List Video
  unfolding filtered
  sorted s = sort s.sort_key s.sort_dir (filtered s.search s.videos)

-- `Math.ceil(count / PAGE_SIZE)`
unfoldable pub total_pages : ℕ → ℕ
total_pages count = (count + (page_size - 1)) / page_size

-- `sorted.slice(page * PAGE_SIZE, (page + 1) * PAGE_SIZE)`
unfoldable pub page_slice : ℕ → List Video → List Video
page_slice page videos = take page_size (drop (page * page_size) videos)

-- the parameters of `fetchVideos`
unfoldable pub videos_params : Table → VideosParams
videos_params s = record {
  region = some s.region;
  category_id = if same s.category_id (text "all") then none else some (parse_int s.category_id);
  limit = some 200;
  offset = some 0;
}

pub data Event : Type 0 where
  searched : Str → Event
  region_chosen category_chosen : Option Str → Event
  sort_clicked : SortKey → Event
  previous_clicked next_clicked retry_clicked : Event
  answered : Settled (Option (List Video)) → Event

-- `fetchVideos` up to its `await`
begin_fetch : Table → Table
begin_fetch s = record s { loading = true; error = none }

-- A choice that changes nothing makes no request.
choose_region : Option Str → Table → Table
unfolding begin_fetch
choose_region none s = s
choose_region (some v) s =
    if truthy v && not (same v s.region) then begin_fetch (record s { region = v }) else s

choose_category : Option Str → Table → Table
unfolding begin_fetch
choose_category none s = s
choose_category (some v) s =
    if truthy v && not (same v s.category_id) then begin_fetch (record s { category_id = v }) else s

abbrev pub same_key : SortKey → SortKey → Bool
same_key view_count view_count = true
same_key like_count like_count = true
same_key comment_count comment_count = true
same_key _ _ = false

abbrev flip : SortDir → SortDir
flip desc = asc
flip asc = desc

toggle_sort : SortKey → Table → Table
toggle_sort key s =
    if same_key s.sort_key key
    then record s { sort_dir = flip s.sort_dir; page = 0 }
    else record s { sort_key = key; sort_dir = desc; page = 0 }

-- `fetchVideos` from its `await` on
end_fetch : Settled (Option (List Video)) → Table → Table
end_fetch (fulfilled data') s = record s { videos = or_else data' []; page = 0; loading = false }
end_fetch (rejected message) s = record s { error = some message; loading = false }

-- `error ? … : …`
abbrev pub error_shown : Option Str → Bool
error_shown none = false
error_shown (some message) = truthy message

module _ (to_lower_case : Str → Str) where
  -- The buttons are there under the table, with more than one page, and disabled at the ends.
  unfoldable pub paged : Table → Bool
  paged s =
      not s.loading
      && not (error_shown s.error)
      && ltb 1 (total_pages (length (sorted to_lower_case s)))

  unfoldable pub step : Event → Table → Table
  unfolding choose_region choose_category toggle_sort end_fetch begin_fetch paged
  step (searched v) s = record s { search = v; page = 0 }
  step (region_chosen v) s = choose_region v s
  step (category_chosen v) s = choose_category v s
  step (sort_clicked key) s = toggle_sort key s
  step previous_clicked s =
      if paged s && not (s.page == 0) then record s { page = max 0 (s.page - 1) } else s
  step next_clicked s =
      let last = total_pages (length (sorted to_lower_case s)) - 1 in
      if paged s && ltb s.page last then record s { page = min last (s.page + 1) } else s
  step retry_clicked s = begin_fetch s
  step (answered result) s = end_fetch result s

  unfoldable pub run : List Event → Table → Table
  run [] s = s
  run (e ∷ es) s = run es (step e s)
