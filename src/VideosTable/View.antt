-- ===== src/VideosTable/View.antt =====
-- frontend/components/videos-table.tsx: what the browser of videos shows. Styling is left out.
use yt_trending_pipeline.Prelude.{
  ℕ, ◌+◌, ◌-◌, ◌*◌, ◌≤◌, ◌<◌, min, max, ◌≡◌, ◌↔◌, Option, none, some, Bool, true, List, [], ◌∷◌,
  ◌++◌, map, Str, text, truthy, length, decimal, leb, ltb, ◌==◌, if◌then◌else◌, or_else,
}
use yt_trending_pipeline.Types.{Video}
use yt_trending_pipeline.Jobs.Catalog.{Category, youtube_categories, regions}
use yt_trending_pipeline.JobForm.{Choice, region_choice}
use yt_trending_pipeline.Format.{format_count}
use yt_trending_pipeline.VideosTable.{
  SortKey, view_count, like_count, comment_count, SortDir, desc, asc, Table, page_size, same_key,
  sorted, total_pages, page_slice, error_shown,
}

pub data SortIcon : Type 0 where
  unsorted arrow_down arrow_up : SortIcon

-- `SortIcon`
unfoldable pub sort_icon : SortKey → SortKey → SortDir → SortIcon
sort_icon col sort_key desc = if same_key col sort_key then arrow_down else unsorted
sort_icon col sort_key asc = if same_key col sort_key then arrow_up else unsorted

pub record VideoRow : Type 0 where
  pub key : Str
  pub href : Str
  pub title : Str
  pub channel : Str
  pub views : Str
  pub likes : Str
  pub comments : Str
  pub trend_href : Str

pub record Pager : Type 0 where
  pub shown : Str
  pub previous_disabled : Bool
  pub page : Str
  pub next_disabled : Bool

pub record Rows : Type 0 where
  pub icons : SortIcon × SortIcon × SortIcon
  pub rows : List VideoRow
  pub pager : Option Pager

pub data Content : Type 0 where
  loading_videos no_videos : Content
  failed : Str → Content
  table : Rows → Content

pub record TableView : Type 0 where
  pub description : Str
  pub search : Str
  pub region : Str
  pub region_choices : List Choice
  pub category_id : Str
  pub category_choices : List Choice
  pub content : Content

-- `value={c.id === 0 ? "all" : String(c.id)}`
abbrev pub table_category_choice : Category → Choice
table_category_choice c = record {
  value = if c.id == 0 then text "all" else decimal c.id;
  shown = c.label;
}

abbrev page_of : ℕ → ℕ → Str
page_of page total = text "page " ++ (decimal (page + 1) ++ (text " of " ++ decimal (max 1 total)))

abbrev description : Table → ℕ → Str
description s found =
    let shown = page_of s.page (total_pages found) in
    if s.loading
    then text "Loading…"
    else if truthy s.search
    then decimal found
      ++ (text " of " ++ (decimal (length s.videos) ++ (text " videos · " ++ shown)))
    else decimal (length s.videos) ++ (text " videos · " ++ shown)

unfoldable pub pager : ℕ → ℕ → Option Pager
pager page found =
    let total = total_pages found in
    if ltb 1 total
    then some (record {
      shown =
          decimal (page * page_size + 1)
          ++ (text "–"
              ++ (decimal (min ((page + 1) * page_size) found) ++ (text " of " ++ decimal found)));
      previous_disabled = page == 0;
      page = decimal (page + 1) ++ (text " / " ++ decimal total);
      next_disabled = leb (total - 1) page;
    })
    else none

module _ (to_lower_case : Str → Str) (tenths : ℕ → ℕ → ℕ) where
  unfoldable pub video_row : Video → VideoRow
  video_row v = record {
    key = v.video_id ++ (text "-" ++ v.fetched_at);
    href = text "https://youtube.com/watch?v=" ++ v.video_id;
    title = v.title;
    channel = v.channel_title;
    views = format_count tenths v.view_count;
    likes = format_count tenths v.like_count;
    comments = format_count tenths v.comment_count;
    trend_href = text "/videos/" ++ (v.video_id ++ text "/trend");
  }

  rows_of : Table → Rows
  unfolding video_row pager sort_icon
  rows_of s = record {
    icons = (
      sort_icon view_count s.sort_key s.sort_dir,
      sort_icon like_count s.sort_key s.sort_dir,
      sort_icon comment_count s.sort_key s.sort_dir,
    );
    rows = map video_row (page_slice s.page (sorted to_lower_case s));
    pager = pager s.page (length (sorted to_lower_case s));
  }

  unfoldable pub content : Table → Content
  unfolding rows_of
  content s =
      if s.loading
      then loading_videos
      else if error_shown s.error
      then failed (or_else s.error [])
      else elim s.videos [ [] ↦ no_videos | v ∷ vs ↦ table (rows_of s) ]

  unfoldable pub videos_table : Table → TableView
  unfolding content
  videos_table s = record {
    description = description s (length (sorted to_lower_case s));
    search = s.search;
    region = s.region;
    region_choices = map region_choice regions;
    category_id = s.category_id;
    category_choices = map table_category_choice youtube_categories;
    content = content s;
  }

-- what holds of the pager of a page: there is none if all that was found is on one page
abbrev pub IsPager : ℕ → ℕ → Option Pager → Type 0
IsPager page found none = found ≤ page_size
IsPager page found (some p) =
    (page_size < found)
    × ((p.previous_disabled ≡ true) ↔ (page ≡ 0))
    × ((p.next_disabled ≡ true) ↔ (page + 1 ≡ total_pages found))
    × (page * page_size + 1 ≤ min ((page + 1) * page_size) found)
