-- ===== src/Backend/Analytics/Served.antt =====
-- backend/analytics/server.go: the answers of `GetVideos` and `GetTopChannels`.
use yt_trending_pipeline.Prelude.{ℕ, ◌≡◌, refl, sym, ◌∙◌, inl, inr, Option, some, List, Str, length}
use yt_trending_pipeline.Backend.{VideoRow}
use yt_trending_pipeline.Backend.Database.Query.{Arg}
use yt_trending_pipeline.Backend.Analytics.{
  Timestamp, VideosRequest, ChannelsRequest, ChannelStat, Channel, Redis, Codec, videos_key,
  channels_key, videos_answer, channels_answer, Event, get_videos, get_top_channels, run,
}
use yt_trending_pipeline.Backend.Analytics.Keys.{
  IsSameRequest, IsSameRequest-refl, IsSameChannels-refl, videos_key-IsSameRequest, IsSameChannels,
  channels_key-IsSameChannels, videos_key-channels_key,
}
use yt_trending_pipeline.Backend.Analytics.Cached.{
  Served, IsServed, IsCached, cached, cached-IsCached, serve_lem, fresh_lem,
}

module _ {S : Type 0} (redis : Redis S) (rfc3339 : Timestamp → Str)
    (videos_codec : Codec (List VideoRow)) (channels_codec : Codec (List Channel))
    (query_videos : ℕ → Str × List Arg → Option (List VideoRow))
    (query_channels : ℕ → Str × List Arg → Option (List ChannelStat)) where
  -- what a cached entry for the key of a request is
  videos_hit :
      ((t : Timestamp) → length (rfc3339 t) ≡ 20)
      → (s : S) → IsCached redis rfc3339 videos_codec channels_codec query_videos query_channels s
      → (req : VideosRequest) (now : ℕ) (bytes : Str) (value : List VideoRow)
      → redis.get now (videos_key rfc3339 req) s ≡ some bytes
      → videos_codec.decode bytes ≡ some value
      → Served (IsSameRequest rfc3339) (videos_answer query_videos) now req value
  videos_hit long s c req now bytes value h d = elim (c now (videos_key rfc3339 req) bytes h) [
    | inl entry ↦ record {
      other = entry.req;
      asked = entry.asked;
      same = videos_key-IsSameRequest rfc3339 long entry.req req (sym entry.same_key);
      from_database =
          entry.from_database ∙ sym (videos_codec.round_trip entry.value bytes entry.encoded) ∙ d;
      recent = entry.recent;
    }
    | inr entry ↦ absurd (videos_key-channels_key rfc3339 req entry.req entry.same_key)
  ]

  channels_hit :
      (s : S)
      → IsCached redis rfc3339 videos_codec channels_codec query_videos query_channels s
      → (req : ChannelsRequest) (now : ℕ) (bytes : Str) (value : List Channel)
      → redis.get now (channels_key req) s ≡ some bytes
      → channels_codec.decode bytes ≡ some value
      → Served IsSameChannels (channels_answer query_channels) now req value
  channels_hit s c req now bytes value h d = elim (c now (channels_key req) bytes h) [
    | inl entry ↦ absurd (videos_key-channels_key rfc3339 entry.req req (sym entry.same_key))
    | inr entry ↦ record {
      other = entry.req;
      asked = entry.asked;
      same = channels_key-IsSameChannels entry.req req (sym entry.same_key);
      from_database =
          entry.from_database ∙ sym (channels_codec.round_trip entry.value bytes entry.encoded) ∙ d;
      recent = entry.recent;
    }
  ]

  -- Whatever calls missed the cache before, at whatever times and in whatever order, a call for videos or channels
  -- returns what the database answered to the same request less than an hour before, or now; it
  -- returns an error only if the database does now. Two requests for videos are the same here if
  -- their times agree to the second. It is assumed that Redis reads what was set and has not
  -- expired, that JSON decodes to what was encoded, and that the text of a time has 20 characters.
  pub run-IsServed :
      ((t : Timestamp) → length (rfc3339 t) ≡ 20)
      → (es : List Event) (videos : VideosRequest) (channels : ChannelsRequest) (now : ℕ)
      → let s =
          run redis rfc3339 videos_codec channels_codec query_videos query_channels es
            redis.empty in
        IsServed
          (IsSameRequest rfc3339)
          (videos_answer query_videos)
          now
          videos
          (get_videos redis rfc3339 videos_codec channels_codec query_videos query_channels videos
            now s).0
        × IsServed IsSameChannels
            (channels_answer query_channels)
            now
            channels
            (get_top_channels redis rfc3339 videos_codec channels_codec query_videos query_channels
              channels now s).0
  unfolding get_videos get_top_channels
  run-IsServed long es videos channels now =
      let filled =
        cached redis rfc3339 videos_codec channels_codec query_videos query_channels es in
      let c =
        cached-IsCached redis rfc3339 videos_codec channels_codec query_videos query_channels es in
      (
        serve_lem redis videos_codec (videos_key rfc3339 videos) now
            (videos_answer query_videos now videos) filled
            (IsServed (IsSameRequest rfc3339) (videos_answer query_videos) now videos)
            (videos_hit long filled c videos now)
            (fresh_lem (IsSameRequest rfc3339) (videos_answer query_videos) now videos
              (IsSameRequest-refl rfc3339 videos) _ refl),
        serve_lem redis channels_codec (channels_key channels) now
            (channels_answer query_channels now channels) filled
            (IsServed IsSameChannels (channels_answer query_channels) now channels)
            (channels_hit filled c channels now)
            (fresh_lem IsSameChannels (channels_answer query_channels) now channels
              (IsSameChannels-refl channels) _ refl),
      )
