-- ===== src/Backend/Analytics/Cached.antt =====
-- backend/analytics/server.go: what the cache holds, and what it makes of the answers of the service.
use yt_trending_pipeline.Prelude.{
  ℕ, ◌+◌, ◌<◌, ◌≡◌, ◌⊎◌, refl, sym, ap, subst, ◌∙◌, inl, inr, Option, none, some, List, [], ◌∷◌,
  Str, arith,
}
use yt_trending_pipeline.Backend.{VideoRow}
use yt_trending_pipeline.Backend.Database.Query.{Arg}
use yt_trending_pipeline.Backend.Analytics.{
  Timestamp, ChannelStat, Channel, Redis, Codec, hour, videos_key, channels_key, decoded,
  set_encoded, unless_cached, look_up, fill, serve, videos_answer, channels_answer, Event,
  missed_videos, missed_channels, step, run,
}

-- an entry that may be read at a time: it has what the database answered within the hour before
pub record Entry {Req A : Type 0} (key_of : Req → Str) (answer : ℕ → Req → Option A)
    (codec : Codec A) (key bytes : Str) (now : ℕ) : Type 0 where
  pub req : Req
  pub asked : ℕ
  pub value : A
  pub same_key : key ≡ key_of req
  pub from_database : answer asked req ≡ some value
  pub encoded : codec.encode value ≡ some bytes
  pub recent : now < asked + hour

-- an answer that the database gave to the same request within the hour before
pub record Served {Req A : Type 0} (IsSame : Req → Req → Type 0) (answer : ℕ → Req → Option A)
    (now : ℕ) (req : Req) (value : A) : Type 0 where
  pub other : Req
  pub asked : ℕ
  pub same : IsSame other req
  pub from_database : answer asked other ≡ some value
  pub recent : now < asked + hour

-- What a call returns is such an answer, and an error only if the database answers with one now.
abbrev pub IsServed :
    {Req A : Type 0} → (Req → Req → Type 0) → (ℕ → Req → Option A) → ℕ → Req → Option A → Type 0
IsServed IsSame answer now req none = answer now req ≡ none
IsServed IsSame answer now req (some value) = Served IsSame answer now req value

-- What the database answers now is served, as it is.
pub fresh_lem :
    {Req A : Type 0} (IsSame : Req → Req → Type 0) (answer : ℕ → Req → Option A) (now : ℕ)
    (req : Req)
    → IsSame req req
    → (o : Option A) → answer now req ≡ o
    → IsServed IsSame answer now req o
fresh_lem IsSame answer now req r none e = e
fresh_lem IsSame answer now req r (some value) e = record {
  other = req;
  asked = now;
  same = r;
  from_database = e;
  recent = omega arith;
}

module _ {S A : Type 0} (redis : Redis S) (codec : Codec A) (key : Str) (now : ℕ) where
  set_encoded_lem :
      (o : Option Str) (later : ℕ) (read found : Str) (s : S)
      → redis.get later read (set_encoded redis codec key now o s) ≡ some found
      → ((read ≡ key) × (o ≡ some found) × (later < now + hour))
        ⊎ (redis.get later read s ≡ some found)
  set_encoded_lem none later read found s h = inr h
  set_encoded_lem (some bytes) later read found s h =
      elim (redis.get_set now hour key bytes later read found s h) [
        | inl new ↦ inl (new.0, ap some (sym new.1), new.2)
        | inr old ↦ inr old
      ]

  -- What is read after a miss was filled: the new entry, or what was there.
  fill_lem :
      {Req : Type 0} (key_of : Req → Str) (answer : ℕ → Req → Option A) (req : Req) (s : S)
      → key ≡ key_of req
      → (later : ℕ) (read found : Str)
      → redis.get later read (fill redis codec key now (answer now req) s).1 ≡ some found
      → Entry key_of answer codec read found later ⊎ (redis.get later read s ≡ some found)
  fill_lem key_of answer req s e later read found h = filled (answer now req) refl h
    where
      filled :
          (o : Option A)
          → answer now req ≡ o
          → redis.get later read (fill redis codec key now o s).1 ≡ some found
          → Entry key_of answer codec read found later ⊎ (redis.get later read s ≡ some found)
      filled none a k = unfold fill in inr k
      filled (some value) a k =
          unfold fill in
          elim (set_encoded_lem (codec.encode value) later read found s k) [
            | inl new ↦ inl (record {
              req = req;
              asked = now;
              value = value;
              same_key = new.0 ∙ e;
              from_database = a;
              encoded = new.1;
              recent = new.2;
            })
            | inr old ↦ inr old
          ]

  fill-answer : (answer : Option A) (s : S) → (fill redis codec key now answer s).0 ≡ answer
  unfolding fill
  fill-answer none s = refl
  fill-answer (some value) s = refl

  -- What a call returns: what it decodes of the cache, or the answer of the database.
  pub serve_lem :
      (answer : Option A) (s : S) (P : Option A → Type 0)
      → ((bytes : Str) (value : A)
          → redis.get now key s ≡ some bytes
          → codec.decode bytes ≡ some value
          → P (some value))
      → P answer
      → P (serve redis codec key now answer s).0
  unfolding serve look_up
  serve_lem answer s P hit miss = looked (redis.get now key s) refl
    where
      missed : P (fill redis codec key now answer s).0
      missed = subst P (sym (fill-answer answer s)) miss

      read :
          (bytes : Str)
          → redis.get now key s ≡ some bytes
          → (o : Option A) → codec.decode bytes ≡ o
          → P (unless_cached redis codec o (fill redis codec key now answer s) s).0
      read bytes e none d = missed
      read bytes e (some value) d = hit bytes value e d

      looked :
          (o : Option Str)
          → redis.get now key s ≡ o
          → P
              (unless_cached redis codec
                (decoded redis codec o)
                (fill redis codec key now answer s)
                s).0
      looked none e = missed
      looked (some bytes) e = read bytes e (codec.decode bytes) refl

module _ {S : Type 0} (redis : Redis S) (rfc3339 : Timestamp → Str)
    (videos_codec : Codec (List VideoRow)) (channels_codec : Codec (List Channel))
    (query_videos : ℕ → Str × List Arg → Option (List VideoRow))
    (query_channels : ℕ → Str × List Arg → Option (List ChannelStat)) where
  -- Every entry that may be read has an answer of the last hour.
  abbrev pub IsCached : S → Type 0
  IsCached s =
      (now : ℕ) (key bytes : Str)
      → redis.get now key s ≡ some bytes
      → Entry (videos_key rfc3339) (videos_answer query_videos) videos_codec key bytes now
        ⊎ Entry channels_key (channels_answer query_channels) channels_codec key bytes now

  after : Event → S → S
  after = step redis rfc3339 videos_codec channels_codec query_videos query_channels

  step-IsCached : (e : Event) (s : S) → IsCached s → IsCached (after e s)
  unfolding after step
  step-IsCached (missed_videos req asked) s c now key bytes h =
      elim (fill_lem redis videos_codec (videos_key rfc3339 req) asked (videos_key rfc3339)
        (videos_answer query_videos) req s refl now key bytes h) [
          | inl entry ↦ inl entry
          | inr old ↦ c now key bytes old
        ]
  step-IsCached (missed_channels req asked) s c now key bytes h =
      elim (fill_lem redis channels_codec (channels_key req) asked channels_key
        (channels_answer query_channels) req s refl now key bytes h) [
          | inl entry ↦ inr entry
          | inr old ↦ c now key bytes old
        ]

  run-IsCached :
      (es : List Event) (s : S)
      → IsCached s
      → IsCached (run redis rfc3339 videos_codec channels_codec query_videos query_channels es s)
  unfolding run after
  run-IsCached [] s c = c
  run-IsCached (e ∷ es) s c = run-IsCached es (after e s) (step-IsCached e s c)

  empty-IsCached : IsCached redis.empty
  empty-IsCached now key bytes h =
      let clash : none ≡ some bytes = sym (redis.get_empty now key) ∙ h in absurd (cc)

  abbrev pub cached : List Event → S
  cached es =
      run redis rfc3339 videos_codec channels_codec query_videos query_channels es redis.empty

  pub cached-IsCached : (es : List Event) → IsCached (cached es)
  cached-IsCached es = run-IsCached es redis.empty empty-IsCached
