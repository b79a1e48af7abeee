-- ===== src/Runner/Redundant/Keys.antt =====
-- The key of failed tests does not depend on their order.
use mathlib.Core.List.{Permᴰ}
use mathlib.Core.Path.{ap₂}
use mutation_framework.Base.{true, List, [], ◌∷◌, ◌≡◌, refl, ap, ◌∙◌, arith}
use mutation_framework.Base.Text.{Text}
use mutation_framework.Registry.{text_leb, insert_sorted, sort_texts}
use mutation_framework.Registry.Laws.{text_leb_total, text_leb_trans}
use mutation_framework.Runner.Redundant.{get_test_key, join_names}

text_leb_antisym : (s t : Text) → text_leb s t ≡ true → text_leb t s ≡ true → s ≡ t
unfolding text_leb
text_leb_antisym [] [] h k = refl
text_leb_antisym [] (b ∷ t) h k = cc
text_leb_antisym (a ∷ s) [] h k = cc
text_leb_antisym (a ∷ s) (b ∷ t) h k = ground (arith, text_leb_antisym s t)

-- Two texts that are inserted one after the other may be inserted in either order.
insert_sorted_comm :
    (s t : Text) (us : List Text)
    → insert_sorted s (insert_sorted t us) ≡ insert_sorted t (insert_sorted s us)
unfolding insert_sorted
insert_sorted_comm s t [] =
    ground (arith, text_leb_antisym s t, text_leb_total s t, text_leb_total t s)
insert_sorted_comm s t (u ∷ us) = ground (
  arith,
  text_leb_antisym s t,
  text_leb_total s t,
  text_leb_total t s,
  text_leb_trans s t u,
  text_leb_trans t s u,
  insert_sorted_comm s t us,
)

sort_texts-Perm : {ss ts : List Text} → Permᴰ ss ts → sort_texts ss ≡ sort_texts ts
unfolding sort_texts
sort_texts-Perm Permᴰ.nil = refl
sort_texts-Perm (Permᴰ.cons {a} {b} e d) = ap₂ insert_sorted e (sort_texts-Perm d)
sort_texts-Perm (Permᴰ.swap {a} {b} {a'} {b'} {l} e d) =
    insert_sorted_comm a b (sort_texts l)
    ∙ ap₂ (λ s t. insert_sorted s (insert_sorted t (sort_texts l))) d e
sort_texts-Perm (Permᴰ.trans d e) = sort_texts-Perm d ∙ sort_texts-Perm e

-- Two lists of failed tests with the same tests in different orders have the same key.
pub get_test_key-Perm :
    (tests others : List Text) → Permᴰ tests others → get_test_key tests ≡ get_test_key others
unfolding get_test_key
get_test_key-Perm tests others d = ap join_names (sort_texts-Perm d)
