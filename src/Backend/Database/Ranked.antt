-- ===== src/Backend/Database/Ranked.antt =====
-- backend/db/db.go: `GROUP BY channel_id, channel_title` parts the rows.
use mathlib.Core.List.{Perm, perm_middle}
use mathlib.Core.List.Perm
use yt_trending_pipeline.Prelude.{
  ◌≡◌, ap, sym, ◌∙◌, subst, true, false, ◌&&◌, List, [], ◌∷◌, ◌++◌, Str, same→eq, same_refl, same,
  Bool-cases, inl, inr, All, All-map, Pairwise, if_cases, arith,
}
use yt_trending_pipeline.Backend.{VideoRow}
use yt_trending_pipeline.Backend.Database.Latest.{same_sym}
use yt_trending_pipeline.Backend.Database.Channels.{Group, rows_of, same_channel, group_in, grouped}

-- The two rows are of one channel, under one title.
abbrev pub IsOfChannel : VideoRow → VideoRow → Type 0
IsOfChannel v w = (v.channel_id ≡ w.channel_id) × (v.channel_title ≡ w.channel_title)

abbrev pub IsUniform : Group → Type 0
IsUniform g = All (IsOfChannel g.first) g.others

-- The test finds the groups to be of different channels, or of different titles.
abbrev pub IsApart : Group → Group → Type 0
IsApart g h = same_channel g.first h.first ≡ false

-- the rows of the groups, one group after the other
abbrev pub all_rows : List Group → List VideoRow
all_rows [] = []
all_rows (g ∷ gs) = rows_of g ++ all_rows gs

same_channel-IsOfChannel : (v w : VideoRow) → same_channel v w ≡ true → IsOfChannel v w
same_channel-IsOfChannel v w h = (
  same→eq v.channel_id w.channel_id (ground arith),
  same→eq v.channel_title w.channel_title (ground arith),
)

group_in-perm : (v : VideoRow) (gs : List Group) → Perm (all_rows (group_in v gs)) (v ∷ all_rows gs)
unfolding group_in
group_in-perm v [] = Perm.refl (v ∷ [])
group_in-perm v (g ∷ gs) =
    if_cases (λ l. Perm (all_rows l) (v ∷ all_rows (g ∷ gs))) (same_channel v g.first)
      (record { first = v; others = rows_of g } ∷ gs) (g ∷ group_in v gs)
      (λ e. Perm.refl (v ∷ all_rows (g ∷ gs)))
      (λ e.
        Perm.trans (Perm.append_left (rows_of g) (group_in-perm v gs))
          (perm_middle (rows_of g) (all_rows gs)))

pub grouped-perm : (rows : List VideoRow) → Perm (all_rows (grouped rows)) rows
unfolding grouped
grouped-perm [] = Perm.refl []
grouped-perm (v ∷ rows) =
    Perm.trans (group_in-perm v (grouped rows)) (Perm.cons v (grouped-perm rows))

group_in-IsUniform :
    (v : VideoRow) (gs : List Group) → All IsUniform gs → All IsUniform (group_in v gs)
unfolding group_in
group_in-IsUniform v [] h = (tt, tt)
group_in-IsUniform v (g ∷ gs) h =
    if_cases (All IsUniform) (same_channel v g.first)
      (record { first = v; others = rows_of g } ∷ gs) (g ∷ group_in v gs)
      (λ e.
        let one = same_channel-IsOfChannel v g.first e in
        ((one, All-map g.others (λ u e. (one.0 ∙ e.0, one.1 ∙ e.1)) h.0), h.1))
      (λ e. (h.0, group_in-IsUniform v gs h.1))

pub grouped-IsUniform : (rows : List VideoRow) → All IsUniform (grouped rows)
unfolding grouped
grouped-IsUniform [] = tt
grouped-IsUniform (v ∷ rows) = group_in-IsUniform v (grouped rows) (grouped-IsUniform rows)

-- what holds of the first rows of the groups and of the new row
group_in-All :
    (P : VideoRow → Type 0) (v : VideoRow) (gs : List Group)
    → P v
    → All (λ g. P g.first) gs
    → All (λ g. P g.first) (group_in v gs)
unfolding group_in
group_in-All P v [] p h = (p, tt)
group_in-All P v (g ∷ gs) p h =
    if_cases (All (λ g. P g.first)) (same_channel v g.first)
      (record { first = v; others = rows_of g } ∷ gs) (g ∷ group_in v gs) (λ e. (p, h.1))
      (λ e. (h.0, group_in-All P v gs p h.1))

same_swap : (a b : Str) → same a b ≡ same b a
same_swap a b = elim (Bool-cases (same a b)) [
  | inl e ↦ e ∙ sym (subst (λ z. same z a ≡ true) (same→eq a b e) (same_refl a))
  | inr e ↦ e ∙ sym (same_sym a b e)
]

same_channel_sym : (v w : VideoRow) → same_channel v w ≡ false → same_channel w v ≡ false
same_channel_sym v w h =
    ap (λ b. b && same w.channel_title v.channel_title) (same_swap w.channel_id v.channel_id)
    ∙ ap (λ b. same v.channel_id w.channel_id && b) (same_swap w.channel_title v.channel_title)
    ∙ h

All-same :
    (v w : VideoRow) (gs : List Group)
    → IsOfChannel v w
    → All (λ g. same_channel w g.first ≡ false) gs
    → All (λ g. same_channel v g.first ≡ false) gs
All-same v w gs e h =
    subst
      (λ i.
        All (λ g. (same i g.first.channel_id && same v.channel_title g.first.channel_title) ≡ false)
          gs)
      (sym e.0)
      (subst
        (λ t.
          All (λ g. (same w.channel_id g.first.channel_id && same t g.first.channel_title) ≡ false)
            gs)
        (sym e.1) h)

group_in-IsApart :
    (v : VideoRow) (gs : List Group) → Pairwise IsApart gs → Pairwise IsApart (group_in v gs)
unfolding group_in
group_in-IsApart v [] h = (tt, tt)
group_in-IsApart v (g ∷ gs) h =
    if_cases (Pairwise IsApart) (same_channel v g.first)
      (record { first = v; others = rows_of g } ∷ gs) (g ∷ group_in v gs)
      (λ e. (All-same v g.first gs (same_channel-IsOfChannel v g.first e) h.0, h.1))
      (λ e. (
        group_in-All (λ w. same_channel g.first w ≡ false) v gs (same_channel_sym v g.first e) h.0,
        group_in-IsApart v gs h.1,
      ))

pub grouped-IsApart : (rows : List VideoRow) → Pairwise IsApart (grouped rows)
unfolding grouped
grouped-IsApart [] = tt
grouped-IsApart (v ∷ rows) = group_in-IsApart v (grouped rows) (grouped-IsApart rows)
