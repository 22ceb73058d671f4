-- ===== src/VideosTable/Pages.antt =====
-- frontend/components/videos-table.tsx: the pages of the table.
use yt_trending_pipeline.Prelude.{
  ℕ, zero, suc, ◌+◌, ◌-◌, ◌*◌, ◌/◌, ◌≤◌, ◌<◌, min, ◌≡◌, refl, sym, ap, ◌∙◌, List, [], ◌∷◌, ◌++◌,
  take, drop, length, length-take, length-drop, take_all, arith,
}
use yt_trending_pipeline.Types.{Video}
use yt_trending_pipeline.VideosTable.{page_size, total_pages, page_slice}

-- the first `n` pages, one after the other
abbrev pub pages : ℕ → List Video → List Video
pages zero videos = []
pages (suc n) videos = pages n videos ++ page_slice n videos

take_nil : (n : ℕ) → take {A = Video} n [] ≡ []
take_nil zero = refl
take_nil (suc n) = refl

take-add :
    (m n : ℕ) (videos : List Video) → take m videos ++ take n (drop m videos) ≡ take (m + n) videos
take-add zero n videos = ap (λ k. take k videos) (omega arith)
take-add (suc m) n [] = take_nil n ∙ sym (take_nil (suc m + n))
take-add (suc m) n (v ∷ vs) = ap (◌∷◌ v) (take-add m n vs) ∙ ap (λ k. take k (v ∷ vs)) suc_add
  where
    suc_add : suc (m + n) ≡ suc m + n
    suc_add = omega arith

pages-take : (n : ℕ) (videos : List Video) → pages n videos ≡ take (n * page_size) videos
unfolding page_slice
pages-take zero videos = refl
pages-take (suc n) videos =
    ap (λ l. l ++ take page_size (drop (n * page_size) videos)) (pages-take n videos)
    ∙ take-add (n * page_size) page_size videos
    ∙ ap (λ k. take k videos) next_page
  where
    next_page : n * page_size + page_size ≡ suc n * page_size
    next_page = omega arith

-- The pages, one after the other, are the sorted videos; no page has more than 25 videos, and each
-- page before the last one is full.
pub pages_lem :
    (videos : List Video) (page : ℕ)
    → page < total_pages (length videos)
    → (pages (total_pages (length videos)) videos ≡ videos)
      × (1 ≤ length (page_slice page videos))
      × (length (page_slice page videos) ≤ page_size)
      × (length (page_slice page videos) ≡ min page_size (length videos - page * page_size))
unfolding page_slice total_pages
pages_lem videos page h =
    let n = length videos in
    let rest = drop (page * page_size) videos in
    let cut = length-take page_size rest in
    let left = length-drop (page * page_size) videos in
    (
      pages-take ((n + 24) / page_size) videos
          ∙ take_all ((n + 24) / page_size * page_size) videos (omega arith),
      omega (arith, cut, left),
      omega (arith, cut, left),
      omega (arith, cut, left),
    )
