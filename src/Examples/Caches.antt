-- ===== src/Examples/Caches.antt =====
-- The theorem about the cache, with a small cache and database.
use yt_trending_pipeline.Prelude.{
  ℕ, ◌+◌, ◌<◌, ◌≡◌, ◌⊎◌, refl, Option, none, some, ◌&&◌, List, [], ◌∷◌, Str, text, same, same→eq,
  ltb, length, pos, arith, if◌then◌else◌,
}
use yt_trending_pipeline.Backend.{VideoRow}
use yt_trending_pipeline.Backend.Database.Query.{Arg}
use yt_trending_pipeline.Backend.Analytics.{
  Timestamp, VideosRequest, ChannelsRequest, ChannelStat, view_count, Redis, Codec, Event,
  missed_videos, run, get_videos, get_top_channels, videos_answer, channels_answer,
}
use yt_trending_pipeline.Backend.Analytics.Keys.{IsSameRequest, IsSameChannels}
use yt_trending_pipeline.Backend.Analytics.Cached.{IsServed}
use yt_trending_pipeline.Backend.Analytics.Served.{run-IsServed}
use yt_trending_pipeline.Examples.Worlds.{a_video}

-- keys with their bytes and the time at which they expire
abbrev Entries : Type 0
Entries = List (Str × Str × ℕ)

read_entry : ℕ → Str → Entries → Option Str
read_entry now key [] = none
read_entry now key ((k, bytes, expires) ∷ s) =
    let rest = read_entry now key s in if same key k && ltb now expires then some bytes else rest

read_entry_lem :
    (now ttl : ℕ) (key bytes : Str) (later : ℕ) (read found : Str) (s : Entries)
    → read_entry later read ((key, bytes, now + ttl) ∷ s) ≡ some found
    → ((read ≡ key) × (found ≡ bytes) × (later < now + ttl))
      ⊎ (read_entry later read s ≡ some found)
unfolding read_entry
read_entry_lem now ttl key bytes later read found s h = ground (arith, same→eq read key)

abbrev entries : Redis Entries
entries = record {
  empty = [];
  get = read_entry;
  set = λ now ttl key bytes s. (key, bytes, now + ttl) ∷ s;
  get_empty = λ now key. unfold read_entry in refl;
  get_set = read_entry_lem;
}

-- a coder that knows the empty list alone
encode_empty : {A : Type 0} → List A → Option Str
encode_empty [] = some []
encode_empty (a ∷ rest) = none

decode_empty : {A : Type 0} → Str → Option (List A)
decode_empty [] = some []
decode_empty (c ∷ s) = none

empty_lem :
    {A : Type 0} (a : List A) (bytes : Str)
    → encode_empty a ≡ some bytes
    → decode_empty bytes ≡ some a
unfolding encode_empty decode_empty
empty_lem [] [] h = refl
empty_lem [] (c ∷ s) h = absurd (ground arith)
empty_lem (a ∷ rest) bytes h = absurd (ground arith)

abbrev coder : {A : Type 0} → Codec (List A)
coder = record { encode = encode_empty; decode = decode_empty; round_trip = empty_lem }

abbrev any_time : Timestamp → Str
any_time t = text "2026-01-01T00:00:00Z"

any_time-length : (t : Timestamp) → length (any_time t) ≡ 20
unfolding text
any_time-length t = refl

-- a database that has a video from the tenth millisecond on, and refuses to look for channels
abbrev growing : ℕ → Str × List Arg → Option (List VideoRow)
growing now statement = if ltb now 10 then some [] else some (a_video ∷ [])

abbrev no_channels : ℕ → Str × List Arg → Option (List ChannelStat)
no_channels now statement = none

abbrev all_videos : VideosRequest
all_videos = record {
  region = text "US:1";
  category_id = pos 0;
  fetched_after = none;
  fetched_before = none;
  limit = pos 50;
  offset = pos 0;
}

abbrev by_views : ChannelsRequest
by_views = record { region = text "US"; limit = pos 10; sort_by = view_count }

abbrev missed : List Event
missed = missed_videos all_videos 5 ∷ []

run-IsServed_example :
    let s = run entries any_time coder coder growing no_channels missed [] in
    IsServed
      (IsSameRequest any_time)
      (videos_answer growing)
      100
      all_videos
      (get_videos entries any_time coder coder growing no_channels all_videos 100 s).0
    × IsServed IsSameChannels
        (channels_answer no_channels)
        100
        by_views
        (get_top_channels entries any_time coder coder growing no_channels by_views 100 s).0
run-IsServed_example =
    run-IsServed entries any_time coder coder growing no_channels any_time-length missed all_videos
      by_views 100
