-- ===== src/Process/View/Order.antt =====
-- The page does not depend on the order in which the map gives its entries.
use ferroxy.Prelude.{ℕ, ◌≡◌, ◌≢◌, refl, ◌∙◌, ap, true, false, List, [], ◌∷◌, arith}
use ferroxy.Prelude.Text.{Text}
use ferroxy.Process.View.{Entry, text_le, insert_by_name, sort_by_name, render_upstreams}

text_le_antisym : (s t : Text) → text_le s t ≡ true → text_le t s ≡ true → s ≡ t
unfolding text_le
text_le_antisym [] [] h k = refl
text_le_antisym [] (b ∷ t) h k = cc
text_le_antisym (a ∷ s) [] h k = cc
text_le_antisym (a ∷ s) (b ∷ t) h k = ground (arith, text_le_antisym s t)

text_le_total : (s t : Text) → text_le s t ≡ false → text_le t s ≡ true
unfolding text_le
text_le_total [] t h = cc
text_le_total (a ∷ s) [] h = refl
text_le_total (a ∷ s) (b ∷ t) h = ground (arith, text_le_total s t)

text_le_trans : (s t u : Text) → text_le s t ≡ true → text_le t u ≡ true → text_le s u ≡ true
unfolding text_le
text_le_trans [] t u h k = refl
text_le_trans (a ∷ s) [] u h k = cc
text_le_trans (a ∷ s) (b ∷ t) [] h k = cc
text_le_trans (a ∷ s) (b ∷ t) (c ∷ u) h k = ground (arith, text_le_trans s t u)

-- Two orders of the entries of a map, whose names are all different.
pub data Shuffled : List Entry → List Entry → Type 0 where
  same_order : (es : List Entry) → Shuffled es es
  below : (e : Entry) {es fs : List Entry} → Shuffled es fs → Shuffled (e ∷ es) (e ∷ fs)
  swapped : (e f : Entry) (es : List Entry) → e.0 ≢ f.0 → Shuffled (e ∷ f ∷ es) (f ∷ e ∷ es)
  then_ : {es fs gs : List Entry} → Shuffled es fs → Shuffled fs gs → Shuffled es gs

insert_by_name_comm :
    (e f : Entry) (es : List Entry)
    → e.0 ≢ f.0
    → insert_by_name e (insert_by_name f es) ≡ insert_by_name f (insert_by_name e es)
unfolding insert_by_name
insert_by_name_comm e f [] n = ground (arith, text_le_antisym e.0 f.0, text_le_total e.0 f.0)
insert_by_name_comm e f (g ∷ es) n = ground (
  arith,
  text_le_antisym e.0 f.0,
  text_le_total e.0 f.0,
  text_le_total e.0 g.0,
  text_le_total f.0 g.0,
  text_le_trans e.0 f.0 g.0,
  text_le_trans f.0 e.0 g.0,
  text_le_trans e.0 g.0 f.0,
  text_le_trans f.0 g.0 e.0,
  insert_by_name_comm e f es n,
)

sort_by_name-Shuffled : {es fs : List Entry} → Shuffled es fs → sort_by_name es ≡ sort_by_name fs
unfolding sort_by_name
sort_by_name-Shuffled (same_order es) = refl
sort_by_name-Shuffled (below e s) = ap (insert_by_name e) (sort_by_name-Shuffled s)
sort_by_name-Shuffled (swapped e f es n) = insert_by_name_comm e f (sort_by_name es) n
sort_by_name-Shuffled (then_ s t) = sort_by_name-Shuffled s ∙ sort_by_name-Shuffled t

-- In whatever order the map gives its entries, the page is the same.
pub render_upstreams-Shuffled :
    (now : ℕ) (es fs : List Entry)
    → Shuffled es fs
    → render_upstreams now es ≡ render_upstreams now fs
unfolding render_upstreams
render_upstreams-Shuffled now es fs s = rw (sort_by_name-Shuffled s) refl
