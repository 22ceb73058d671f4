-- ===== src/Examples/Workers.antt =====
-- The theorems about the workers and the YouTube client, at concrete inputs.
use yt_trending_pipeline.Backend.Database.Select.{fits, all_videos, select_videos}
use yt_trending_pipeline.Backend.Database.Selected.{
  length-all_videos, IsSelected, select_videos-IsSelected,
}
use yt_trending_pipeline.Backend.System.Shown.{IsShown, process_job-IsShown}
use yt_trending_pipeline.Backend.Database.Channels.{all_channels, select_channels}
use yt_trending_pipeline.Backend.Database.Ranking.{IsRanked, select_channels-IsRanked}
use yt_trending_pipeline.Prelude.{
  take, keep, length, pos, ap, ◌≤◌, ℕ, ◌+◌, ◌<◌, ◌≡◌, refl, Option, none, some, List, [], ◌∷◌, Str,
  text, arith, if◌then◌else◌, ◌==◌, same, find, map,
}
use yt_trending_pipeline.Backend.{VideoRow}
use yt_trending_pipeline.Backend.Database
use yt_trending_pipeline.Backend.Database.{Outcome, confirmed, refused, has_id, new_row}
use yt_trending_pipeline.Backend.Worker
use yt_trending_pipeline.Backend.Worker.Frame.{Touches, process_job-Touches}
use yt_trending_pipeline.Backend.Worker.Complete.{IsDone}
use yt_trending_pipeline.Backend.Worker.Attempts.{IsDead, fetch_error, gave_up}
use yt_trending_pipeline.Backend.Worker.Result.{process_job-IsDone, process_job-IsDead}
use yt_trending_pipeline.Backend.Worker.Unfinished.{IsLeft, process_job-IsLeft}
use yt_trending_pipeline.Backend.Youtube.{
  Item, decoded, fetched, to_videos, fetch_trending, read_answer,
}
use yt_trending_pipeline.Backend.Youtube.Stored.{process_job-fetch_trending}
use yt_trending_pipeline.Storage.Recent.{IsDistinct}
use yt_trending_pipeline.Backend.Database.{string_to_job_state}
use yt_trending_pipeline.Examples.Worlds.{
  always, flaky, clock, clock_ticks, request, an_id, a_job, a_row, one_job, a_video, second_works,
  never, find_row,
}

process_job-Touches_example :
    Touches an_id 14 one_job (Worker.process_job flaky clock second_works a_job one_job)
process_job-Touches_example = process_job-Touches flaky clock second_works a_job one_job

first_fails : (i : ℕ) → i < 1 → second_works (1 + i) ≡ none
first_fails i l = ground arith

process_job-IsDone_example :
    IsDone an_id 1
      (some fetch_error)
      (a_video ∷ [])
      []
      (Worker.process_job always clock second_works a_job one_job)
process_job-IsDone_example =
    process_job-IsDone always clock (λ n. refl) second_works a_job one_job a_row (a_video ∷ []) 1
      (omega arith) first_fails refl (tt, tt) (refl, tt) find_row

stored_few :
    length (
      all_videos
        (text "US")
        (pos 0)
        none
        none
        (Worker.process_job always clock second_works a_job one_job).videos)
    ≤ 200
stored_few = omega (
  arith,
  length-all_videos (text "US") (pos 0) none none
      (Worker.process_job always clock second_works a_job one_job).videos,
  ap length process_job-IsDone_example.videos,
)

process_job-IsShown_example :
    (page : List VideoRow) × (select_videos
        (text "US")
        (pos 0)
        none
        none
        (pos 200)
        (pos 0)
        (Worker.process_job always clock second_works a_job one_job).videos
      ≡ some page)
    × IsShown (keep (fits (text "US") (pos 0) none none) (a_video ∷ [])) page
process_job-IsShown_example =
    process_job-IsShown always clock (λ n. refl) second_works a_job one_job a_row (a_video ∷ []) 1
      (text "US") (pos 0) none none 200 (omega arith) first_fails refl (tt, tt) (refl, tt) find_row
      stored_few

-- two snapshots of a video and one of another one
abbrev snapshots : List VideoRow
snapshots =
    a_video
    ∷ record a_video { fetched_at = 5; view_count = pos 70 }
    ∷ record a_video { video_id = text "v2"; view_count = pos 80 }
    ∷ []

select_videos-IsSelected_example :
    (page : List VideoRow) × (select_videos
        (text "US")
        (pos 0)
        none
        (some 9)
        (pos 1)
        (pos 0)
        snapshots
      ≡ some page)
    × IsSelected
        (text "US")
        (pos 0)
        none
        (some 9)
        snapshots
        1
        0
        (all_videos (text "US") (pos 0) none (some 9) snapshots)
        page
select_videos-IsSelected_example =
    select_videos-IsSelected (text "US") (pos 0) none (some 9) snapshots 1 0

select_channels-IsRanked_example :
    let all = all_channels (text "US") (text "total_views") snapshots in
    (select_channels (text "US") (pos 1) (text "total_views") snapshots ≡ some (take 1 all))
    × IsRanked (text "US") (text "total_views") snapshots all
select_channels-IsRanked_example =
    select_channels-IsRanked (text "US") (text "total_views") 1 snapshots

process_job-IsDead_example :
    IsDead an_id 3 gave_up [] (Worker.process_job always clock never a_job one_job)
process_job-IsDead_example =
    process_job-IsDead always clock (λ n. refl) never a_job one_job a_row (λ i l. refl) find_row

-- The start of the job is confirmed and all that follows is refused.
abbrev starts_only : ℕ → Outcome
starts_only n = if n == 0 then confirmed else refused

abbrev nothing : ℕ → Option (List VideoRow)
nothing n = some []

process_job-IsLeft_example :
    IsLeft starts_only an_id a_row.state
      (Worker.process_job starts_only clock nothing a_job one_job)
process_job-IsLeft_example =
    process_job-IsLeft starts_only clock nothing a_job one_job a_row find_row

-- The job is left running.
left_running :
    find (has_id an_id) (Worker.process_job starts_only clock nothing a_job one_job).jobs
    ≡ some (record a_row { state = text "running"; started_at = some 0 })
unfolding Worker.process_job Worker.attempts Worker.complete Worker.insert_videos
    Database.update_job_started Database.update_job_completed Database.exec Database.set_started
    Database.update_where new_row text same
left_running = refl

abbrev an_item : Str → Item
an_item id = record {
  id = id;
  snippet = record {
    title = text "A title";
    channel_id = text "c1";
    channel_title = text "A channel";
    published_at = text "2024-05-01T00:00:00Z";
    category_id = text "10";
  };
  stats = record { view_count = text "1200"; like_count = text "30"; comment_count = [] };
}

abbrev two_items : List Item
two_items = an_item (text "v1") ∷ an_item (text "v2") ∷ []

abbrev two_videos : List VideoRow
two_videos = to_videos length clock_ticks (request (text "k1")) an_id 0 two_items

abbrev both : ℕ → Option (List VideoRow)
both n = some two_videos

returns_both :
    fetch_trending length clock_ticks (request (text "k1")) an_id (decoded 200 two_items)
    ≡ fetched two_videos
unfolding fetch_trending read_answer
returns_both = refl

two_ids : IsDistinct (map (λ item. item.id) two_items)
unfolding same text
two_ids = ((refl, tt), (tt, tt))

process_job-fetch_trending_example :
    IsDone an_id 0 none two_videos [] (Worker.process_job always clock both a_job one_job)
    × (length two_videos ≡ 2)
unfolding new_row
process_job-fetch_trending_example =
    process_job-fetch_trending always clock (λ n. refl) length clock_ticks a_job one_job a_row 200
      two_items both two_videos returns_both refl two_ids tt find_row
