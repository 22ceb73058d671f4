-- ===== src/VideosTable/Browsing.antt =====
-- frontend/components/videos-table.tsx: what holds of the table whatever is clicked, typed and
-- answered.
use yt_trending_pipeline.Prelude.{
  ℕ, ◌+◌, ◌-◌, ◌≤◌, ◌<◌, min, max, ◌≡◌, refl, ap, ◌⊎◌, inl, inr, Option, none, some, Bool, true,
  false, List, [], ◌∷◌, Str, truthy, same, length, arith, if_cases, ◌&&◌, not, ltb, ◌==◌,
}
use yt_trending_pipeline.Types.{Video}
use yt_trending_pipeline.Api.{fulfilled, rejected}
use yt_trending_pipeline.VideosTable.{
  Table, Event, searched, region_chosen, category_chosen, sort_clicked, previous_clicked,
  next_clicked, retry_clicked, answered, initial, filtered, sorted, total_pages, page_slice, paged,
  step, run, same_key, choose_region, choose_category, begin_fetch,
}
use yt_trending_pipeline.VideosTable.Sort.{length-sort}
use yt_trending_pipeline.VideosTable.Pages.{pages_lem}

next_lem :
    (shown : Bool) (p t u : ℕ) → t ≡ u → shown && ltb p (t - 1) ≡ true → min (t - 1) (p + 1) < u
next_lem true p t u e h = ground arith
next_lem false p t u e h = cc

module _ (to_lower_case : Str → Str) where
  -- how many videos the search leaves
  abbrev pub found : Table → ℕ
  found s = length (filtered to_lower_case s.search s.videos)

  length-sorted : (s : Table) → length (sorted to_lower_case s) ≡ found s
  unfolding sorted
  length-sorted s = length-sort s.sort_key s.sort_dir (filtered to_lower_case s.search s.videos)

  -- The page is the first one, or there are videos for it.
  abbrev pub InRange : Table → Type 0
  InRange s = (s.page ≡ 0) ⊎ (s.page < total_pages (found s))

  begin-InRange : (s : Table) → InRange s → InRange (begin_fetch s)
  unfolding begin_fetch
  begin-InRange s h = h

  choose_region-InRange : (v : Option Str) (s : Table) → InRange s → InRange (choose_region v s)
  unfolding choose_region
  choose_region-InRange none s h = h
  choose_region-InRange (some v) s h =
      if_cases InRange (truthy v && not (same v s.region)) _ s (λ e. h) (λ e. h)

  choose_category-InRange : (v : Option Str) (s : Table) → InRange s → InRange (choose_category v s)
  unfolding choose_category
  choose_category-InRange none s h = h
  choose_category-InRange (some v) s h =
      if_cases InRange (truthy v && not (same v s.category_id)) _ s (λ e. h) (λ e. h)

  step-InRange : (e : Event) (s : Table) → InRange s → InRange (step to_lower_case e s)
  unfolding step
  step-InRange (searched v) s h = inl refl
  step-InRange (region_chosen v) s h = choose_region-InRange v s h
  step-InRange (category_chosen v) s h = choose_category-InRange v s h
  step-InRange (sort_clicked key) s h =
      if_cases InRange (same_key s.sort_key key) _ _ (λ e. inl refl) (λ e. inl refl)
  step-InRange previous_clicked s h =
      if_cases InRange (paged to_lower_case s && not (s.page == 0)) _ s (λ e. previous h) (λ e. h)
    where
      previous : InRange s → InRange (record s { page = max 0 (s.page - 1) })
      previous (inl z) = inl (omega arith)
      previous (inr l) = inr (omega arith)
  step-InRange next_clicked s h =
      let last = total_pages (length (sorted to_lower_case s)) - 1 in
      if_cases InRange (paged to_lower_case s && ltb s.page last) _ s
        (λ e. inr (
          next_lem (paged to_lower_case s) s.page (total_pages (length (sorted to_lower_case s)))
            (total_pages (found s)) (ap total_pages (length-sorted s)) e))
        (λ e. h)
  step-InRange retry_clicked s h = h
  step-InRange (answered (fulfilled videos)) s h = inl refl
  step-InRange (answered (rejected message)) s h = h

  run_from-InRange : (es : List Event) (s : Table) → InRange s → InRange (run to_lower_case es s)
  unfolding run
  run_from-InRange [] s h = h
  run_from-InRange (e ∷ es) s h = run_from-InRange es (step to_lower_case e s) (step-InRange e s h)

  initial-InRange : InRange initial
  unfolding initial
  initial-InRange = inl refl

  some_page : (n p : ℕ) → 0 < n → (p ≡ 0) ⊎ (p < total_pages n) → p < total_pages n
  unfolding total_pages
  some_page n p h (inl z) = omega arith
  some_page n p h (inr l) = l

  -- Whatever is typed, clicked and answered, in any order: if the search leaves a video, the page
  -- that is shown exists and has a row.
  pub run-page_slice :
      (es : List Event)
      → 0 < found (run to_lower_case es initial)
      → let s = run to_lower_case es initial in
        (s.page < total_pages (length (sorted to_lower_case s)))
        × (1 ≤ length (page_slice s.page (sorted to_lower_case s)))
  run-page_slice es h =
      let s = run to_lower_case es initial in
      let all = sorted to_lower_case s in
      let exists = some_page (found s) s.page h (run_from-InRange es initial initial-InRange) in
      let fits : s.page < total_pages (length all) = rw (length-sorted s) exists in
      (fits, (pages_lem all s.page fits).1)

  -- The answers are not told apart. After a change of the region, an answer that comes last is
  -- shown under the new region, also when it is the late answer to the request for the old one.
  pub run_late_answer :
      (s : Table) (v : Str) (new old : List Video)
      → truthy v ≡ true
      → same v s.region ≡ false
      → let late =
          run to_lower_case
            (region_chosen (some v)
              ∷ answered (fulfilled (some new))
              ∷ answered (fulfilled (some old))
              ∷ [])
            s in
        (late.region ≡ v) × (late.videos ≡ old) × (late.loading ≡ false) × (late.error ≡ none)
  unfolding run step choose_region begin_fetch
  run_late_answer s v new old t d = rw (t, d) (refl, refl, refl, refl)

  -- A failed answer keeps the videos, the page and the order of the table and shows its message; a
  -- retry clears the message and waits.
  pub step-failed :
      (s : Table) (message : Str)
      → let failed = step to_lower_case (answered (rejected message)) s in
        let retried = step to_lower_case retry_clicked failed in
        (failed ≡ record s { error = some message; loading = false })
        × (retried ≡ record s { error = none; loading = true })
  unfolding step
  step-failed s message = (refl, refl)
