-- ===== src/Backend/Gateway/Requests.antt =====
-- frontend/components/videos-table.tsx, frontend/lib/api.ts and backend/api/server.go: the gateway
-- reads the filters that the dashboard chose. The pairs of a `URLSearchParams` reach gin as they
-- are set.
use yt_trending_pipeline.Prelude.{
  ℕ, ◌^◌, ◌<◌, ◌≡◌, refl, ap, sym, ◌∙◌, Option, none, some, true, false, [], ◌∷◌, Str, text, same,
  same→eq, same_refl, truthy, pos, parse_int, parse_int-decimal, decimal, int_text, or_else, arith,
  Bool-cases, inl, inr, if◌then◌else◌,
}
use yt_trending_pipeline.Api
use yt_trending_pipeline.Api.{VideosParams}
use yt_trending_pipeline.VideosTable.{Table, videos_params}
use yt_trending_pipeline.Backend.Gateway.{videos_request, query_number}
use yt_trending_pipeline.Backend.Analytics.{VideosRequest}
use yt_trending_pipeline.Backend.Gateway.Atoi.{int32_of-atoi-decimal, atoi}

-- the value of the choice of a category
abbrev pub choice_text : Option ℕ → Str
choice_text none = text "all"
choice_text (some id) = decimal id

abbrev pub asked : Str → Option ℕ → VideosRequest
asked region category = record {
  region = region;
  category_id = pos (or_else category 0);
  fetched_after = none;
  fetched_before = none;
  limit = pos 200;
  offset = pos 0;
}

all_not_number : parse_int (text "all") ≡ none
unfolding parse_int text
all_not_number = refl

decimal-not_all : (id : ℕ) → same (decimal id) (text "all") ≡ false
decimal-not_all id = elim (Bool-cases (same (decimal id) (text "all"))) [
  | inl e ↦
      let clash : some (pos id) ≡ none =
        sym (parse_int-decimal id) ∙ ap parse_int (same→eq _ _ e) ∙ all_not_number in
      absurd (ground arith)
  | inr e ↦ e
]

-- what the gateway reads of the dashboard's pairs
request_lem :
    (region : Str) (category : Option ℕ)
    → truthy region ≡ true
    → or_else category 0 < 2 ^ 31
    → videos_request (
        Api.videos_query (record {
          region = some region;
          category_id = elim category [ none ↦ none | some id ↦ some (some (pos id)) ];
          limit = some 200;
          offset = some 0;
        }))
      ≡ asked region category
unfolding videos_request query_number Api.videos_query text same atoi int_text decimal
request_lem [] category t h = absurd (ground arith)
request_lem (c ∷ region) none t h = refl
request_lem (c ∷ region) (some id) t h =
    ap (λ n. record (asked (c ∷ region) none) { category_id = n }) (int32_of-atoi-decimal id h)

chosen_lem :
    (category : Option ℕ)
    → (if same (choice_text category) (text "all")
        then none
        else some (parse_int (choice_text category)))
      ≡ elim category [ none ↦ none | some id ↦ some (some (pos id)) ]
chosen_lem none = rw (same_refl (text "all")) refl
chosen_lem (some id) = rw (decimal-not_all id, parse_int-decimal id) refl

-- The gateway asks for the region and the category that the dashboard's table has chosen, the
-- category 0 for all of them, and for the first 200 videos, if a region is chosen and the category
-- fits an `int32`.
pub videos_request-videos_query :
    (s : Table) (category : Option ℕ)
    → truthy s.region ≡ true
    → s.category_id ≡ choice_text category
    → or_else category 0 < 2 ^ 31
    → videos_request (Api.videos_query (videos_params s)) ≡ asked s.region category
unfolding videos_params
videos_request-videos_query s category t e h =
    ap
      (λ chosen. videos_request (
        Api.videos_query (record {
          region = some s.region;
          category_id = chosen;
          limit = some 200;
          offset = some 0;
        })))
      (ap (λ id. if same id (text "all") then none else some (parse_int id)) e
        ∙ chosen_lem category)
    ∙ request_lem s.region category t h
