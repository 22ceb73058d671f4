-- ===== src/Examples/VideoPages.antt =====
-- The theorems about the videos' side of the dashboard, at concrete inputs.
use mathlib.Core.List.{Perm}
use yt_trending_pipeline.Prelude.{
  ℕ, ◌-◌, ◌*◌, ◌≤◌, ◌<◌, min, ◌≡◌, refl, none, some, false, List, [], ◌∷◌, Str, text, same, length,
  JsNum, includes, decimal,
}
use yt_trending_pipeline.Prelude.{arith}
use yt_trending_pipeline.Types.{Video}
use yt_trending_pipeline.Api.{fulfilled}
use yt_trending_pipeline.VideosTable
use yt_trending_pipeline.VideosTable.{
  view_count, desc, Event, answered, sort_clicked, next_clicked, searched, region_chosen, page_size,
  sort, sorted, filtered, total_pages, page_slice, run, step,
}
use yt_trending_pipeline.VideosTable.Sort.{IsOrdered, with_count, sort_lem}
use yt_trending_pipeline.VideosTable.Pages.{pages, pages_lem}
use yt_trending_pipeline.VideosTable.Browsing.{run-page_slice, run_late_answer}
use yt_trending_pipeline.VideosTable.View.{Pager, pager}
use yt_trending_pipeline.Examples.Params.{ascii_lower}

abbrev pub video : Str → JsNum → Video
video id views = record {
  video_id = id;
  job_id = text "j1";
  region = text "US";
  fetched_at = text "t";
  title = text "Cats";
  channel_id = text "c";
  channel_title = text "Pets";
  published_at = text "t";
  category_id = some 15;
  view_count = views;
  like_count = none;
  comment_count = none;
}

abbrev pub three : List Video
three = video (text "a") (some 5) ∷ video (text "b") (some 9) ∷ video (text "c") (some 5) ∷ []

three_sorted :
    sort view_count desc three
    ≡ video (text "b") (some 9) ∷ video (text "a") (some 5) ∷ video (text "c") (some 5) ∷ []
unfolding sort
three_sorted = refl

sort_example :
    Perm (sort view_count desc three) three
    × IsOrdered view_count desc (sort view_count desc three)
    × ((n : ℕ)
        → with_count view_count n (sort view_count desc three) ≡ with_count view_count n three)
sort_example = sort_lem view_count desc three (refl, (refl, (refl, tt)))

pages_example :
    (pages (total_pages (length three)) three ≡ three)
    × (1 ≤ length (page_slice 0 three))
    × (length (page_slice 0 three) ≤ page_size)
    × (length (page_slice 0 three) ≡ min page_size (length three - 0 * page_size))
unfolding total_pages
pages_example = pages_lem three 0 (omega arith)

abbrev browsing : List Event
browsing =
    answered (fulfilled (some three))
    ∷ next_clicked
    ∷ searched (text "cat")
    ∷ sort_clicked view_count
    ∷ []

browsing_finds :
    length (
      filtered ascii_lower
        (run ascii_lower browsing VideosTable.initial).search
        (run ascii_lower browsing VideosTable.initial).videos)
    ≡ 3
unfolding run step VideosTable.initial filtered sorted total_pages text includes sort
browsing_finds = refl

run-page_slice_example :
    let s = run ascii_lower browsing VideosTable.initial in
    (s.page < total_pages (length (sorted ascii_lower s)))
    × (1 ≤ length (page_slice s.page (sorted ascii_lower s)))
run-page_slice_example = run-page_slice ascii_lower browsing (omega (arith, browsing_finds))

late_answer_example :
    let late =
      run ascii_lower
        (region_chosen (some (text "GB"))
          ∷ answered (fulfilled (some []))
          ∷ answered (fulfilled (some three))
          ∷ [])
        VideosTable.initial in
    (late.region ≡ text "GB") × (late.videos ≡ three) × (late.loading ≡ false) × (late.error ≡ none)
unfolding text same VideosTable.initial
late_answer_example = run_late_answer ascii_lower VideosTable.initial (text "GB") [] three refl refl

abbrev second_of_three : Pager
second_of_three = record {
  shown = text "26–50 of 60";
  previous_disabled = false;
  page = text "2 / 3";
  next_disabled = false;
}

second_page : pager 1 60 ≡ some second_of_three
unfolding pager text decimal total_pages
second_page = refl
