-- ===== src/Backend/Analytics/Keys.antt =====
-- backend/analytics/server.go: the keys of the cache. A region may hold any character, so a key is
-- read from its end.
use yt_trending_pipeline.Prelude.{
  Bool, true, not, ◌&&◌, ◌==◌, refl, ℕ, ◌≡◌, ap, sym, ◌∙◌, ◌≢◌, [], ◌∷◌, ◌++◌, append_assoc, All,
  Str, text, ℤ, int_text, length, IsWithout, append-cancel_left, append-same_length, append-last,
  int_text-IsWithout, int_text-injective, arith,
}
use yt_trending_pipeline.Backend.Analytics.{
  Timestamp, VideosRequest, SortBy, sort_by_unspecified, appear_count, view_count, ChannelsRequest,
  as_time, videos_key, channels_key, sort_column,
}

-- texts that end with a number after a colon
append-number :
    (xs ys : Str) (m n : ℤ)
    → xs ++ b':' ∷ int_text m ≡ ys ++ b':' ∷ int_text n
    → (xs ≡ ys) × (m ≡ n)
append-number xs ys m n h =
    let parts = append-last b':' xs ys _ _ (int_text-IsWithout m) (int_text-IsWithout n) h in
    (parts.0, int_text-injective m n parts.1)

-- texts that end with a time after a colon, where all times are equally long
append-time :
    (rfc3339 : Timestamp → Str)
    → ((t : Timestamp) → length (rfc3339 t) ≡ 20)
    → (xs ys : Str) (t u : Timestamp) → xs ++ b':' ∷ rfc3339 t ≡ ys ++ b':' ∷ rfc3339 u
    → (xs ≡ ys) × (rfc3339 t ≡ rfc3339 u)
append-time rfc3339 long xs ys t u h =
    let parts =
      append-same_length xs ys (b':' ∷ rfc3339 t) (b':' ∷ rfc3339 u) (omega (arith, long t, long u))
        h in
    (parts.0, cc (parts.1))

-- a key, grouped from its front
abbrev number_after : Str → ℤ → Str
number_after s n = s ++ b':' ∷ int_text n

abbrev time_after : (Timestamp → Str) → Str → Timestamp → Str
time_after rfc3339 s t = s ++ b':' ∷ rfc3339 t

videos_key_lem :
    (rfc3339 : Timestamp → Str) (req : VideosRequest)
    → videos_key rfc3339 req
      ≡ time_after rfc3339
          (time_after rfc3339
            (number_after
              (number_after (number_after (text "videos:" ++ req.region) req.category_id) req.limit)
              req.offset)
            (as_time req.fetched_after))
          (as_time req.fetched_before)
unfolding videos_key
videos_key_lem rfc3339 req = simp (append_assoc)

-- The two requests ask for the same, but for fractions of a second in their times.
pub record IsSameRequest (rfc3339 : Timestamp → Str) (p q : VideosRequest) : Type 0 where
  pub region : p.region ≡ q.region
  pub category_id : p.category_id ≡ q.category_id
  pub limit : p.limit ≡ q.limit
  pub offset : p.offset ≡ q.offset
  pub fetched_after : rfc3339 (as_time p.fetched_after) ≡ rfc3339 (as_time q.fetched_after)
  pub fetched_before : rfc3339 (as_time p.fetched_before) ≡ rfc3339 (as_time q.fetched_before)

pub IsSameRequest-refl : (rfc3339 : Timestamp → Str) (p : VideosRequest) → IsSameRequest rfc3339 p p
IsSameRequest-refl rfc3339 p = record {
  region = refl;
  category_id = refl;
  limit = refl;
  offset = refl;
  fetched_after = refl;
  fetched_before = refl;
}

pub videos_key-IsSameRequest :
    (rfc3339 : Timestamp → Str)
    → ((t : Timestamp) → length (rfc3339 t) ≡ 20)
    → (p q : VideosRequest) → videos_key rfc3339 p ≡ videos_key rfc3339 q
    → IsSameRequest rfc3339 p q
videos_key-IsSameRequest rfc3339 long p q h =
    let before =
      append-time rfc3339 long _ _ (as_time p.fetched_before) (as_time q.fetched_before)
        (sym (videos_key_lem rfc3339 p) ∙ h ∙ videos_key_lem rfc3339 q) in
    let after =
      append-time rfc3339 long _ _ (as_time p.fetched_after) (as_time q.fetched_after) before.0 in
    let offset = append-number _ _ p.offset q.offset after.0 in
    let limit = append-number _ _ p.limit q.limit offset.0 in
    let category = append-number _ _ p.category_id q.category_id limit.0 in
    record {
      region = append-cancel_left (text "videos:") p.region q.region category.0;
      category_id = category.1;
      limit = limit.1;
      offset = offset.1;
      fetched_after = after.1;
      fetched_before = before.1;
    }

abbrev has_none : ℕ → Str → Bool
has_none c [] = true
has_none c (d ∷ s) = not (d == c) && has_none c s

has_none-IsWithout : (c : ℕ) (s : Str) → has_none c s ≡ true → All (IsWithout c) s
has_none-IsWithout c [] h = tt
has_none-IsWithout c (d ∷ s) h = (λ e. ground arith, has_none-IsWithout c s (ground arith))

sort_column-IsWithout : (by : SortBy) → All (IsWithout b':') (sort_column by)
unfolding sort_column text
sort_column-IsWithout sort_by_unspecified =
    has_none-IsWithout b':' (sort_column sort_by_unspecified) refl
sort_column-IsWithout appear_count = has_none-IsWithout b':' (sort_column appear_count) refl
sort_column-IsWithout view_count = has_none-IsWithout b':' (sort_column view_count) refl

channels_key_lem :
    (req : ChannelsRequest)
    → channels_key req
      ≡ number_after (text "top_channels:" ++ req.region) req.limit
        ++ b':' ∷ sort_column req.sort_by
unfolding channels_key
channels_key_lem req = simp (append_assoc)

-- Two requests for channels that ask for the same.
pub record IsSameChannels (p q : ChannelsRequest) : Type 0 where
  pub region : p.region ≡ q.region
  pub limit : p.limit ≡ q.limit
  pub sort_by : sort_column p.sort_by ≡ sort_column q.sort_by

pub IsSameChannels-refl : (p : ChannelsRequest) → IsSameChannels p p
IsSameChannels-refl p = record { region = refl; limit = refl; sort_by = refl }

pub channels_key-IsSameChannels :
    (p q : ChannelsRequest) → channels_key p ≡ channels_key q → IsSameChannels p q
channels_key-IsSameChannels p q h =
    let column =
      append-last b':' _ _ _ _ (sort_column-IsWithout p.sort_by) (sort_column-IsWithout q.sort_by)
        (sym (channels_key_lem p) ∙ h ∙ channels_key_lem q) in
    let limit = append-number _ _ p.limit q.limit column.0 in
    record {
      region = append-cancel_left (text "top_channels:") p.region q.region limit.0;
      limit = limit.1;
      sort_by = column.1;
    }

abbrev first : Str → ℕ
first [] = 0
first (c ∷ s) = c

-- No key is of both kinds.
pub videos_key-channels_key :
    (rfc3339 : Timestamp → Str) (p : VideosRequest) (q : ChannelsRequest)
    → videos_key rfc3339 p ≢ channels_key q
unfolding videos_key channels_key text
videos_key-channels_key rfc3339 p q h = omega (arith, ap first h)
