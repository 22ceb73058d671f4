-- ===== src/Jobs/Catalog.antt =====
-- frontend/lib/jobs.ts: the catalogue of categories and regions, and `getCategoryLabel`.
use yt_trending_pipeline.Prelude.{
  ℕ, ◌≡◌, refl, Option, none, some, Bool, false, List, [], ◌∷◌, ◌++◌, String, Str, text, JsNum,
  ◌==◌, find, ℤ, pos, negsuc, int_text, All,
}

pub record Category : Type 0 where
  pub id : ℕ
  pub label : Str

pub record Region : Type 0 where
  pub code : Str
  pub label : Str

abbrev category : ℕ → String → Category
category id label = record { id = id; label = text label }

abbrev region : String → String → Region
region code label = record { code = text code; label = text label }

abbrev pub youtube_categories : List Category
youtube_categories =
    category 0 "All Categories"
    ∷ category 1 "Film & Animation"
    ∷ category 2 "Autos & Vehicles"
    ∷ category 10 "Music"
    ∷ category 15 "Pets & Animals"
    ∷ category 17 "Sports"
    ∷ category 19 "Travel & Events"
    ∷ category 20 "Gaming"
    ∷ category 22 "People & Blogs"
    ∷ category 23 "Comedy"
    ∷ category 24 "Entertainment"
    ∷ category 25 "News & Politics"
    ∷ category 26 "Howto & Style"
    ∷ category 27 "Education"
    ∷ category 28 "Science & Technology"
    ∷ category 29 "Nonprofits & Activism"
    ∷ []

abbrev pub regions : List Region
regions =
    region "US" "United States"
    ∷ region "GB" "United Kingdom"
    ∷ region "CA" "Canada"
    ∷ region "AU" "Australia"
    ∷ region "IN" "India"
    ∷ region "JP" "Japan"
    ∷ region "BR" "Brazil"
    ∷ region "DE" "Germany"
    ∷ region "FR" "France"
    ∷ region "KR" "South Korea"
    ∷ region "MX" "Mexico"
    ∷ region "IT" "Italy"
    ∷ []

-- `c.id === id`
abbrev is_id : ℤ → Category → Bool
is_id (pos id) c = c.id == id
is_id (negsuc n) c = false

-- `none` is `null`, `undefined` or `NaN`.
unfoldable pub get_category_label : Option ℤ → Str
get_category_label none = text "All Categories"
get_category_label (some id) = elim (find (is_id id) youtube_categories) [
  | some c ↦ c.label
  | none ↦ text "Category " ++ int_text id
]

-- a number of a response, as `getCategoryLabel` takes it
abbrev pub as_id : JsNum → Option ℤ
as_id none = none
as_id (some n) = some (pos n)

-- Every category of the catalogue is found under its own id.
pub get_category_label-youtube_categories :
    All (λ c. get_category_label (some (pos c.id)) ≡ c.label) youtube_categories
unfolding get_category_label
get_category_label-youtube_categories = assumption refl
