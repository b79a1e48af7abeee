-- ===== src/Registry/Laws.antt =====
-- What New and List return after Register.
use mutation_framework.Base.{
  true, false, List, [], ◌∷◌, none, some, map, ◌||◌, ◌≡◌, ◌≢◌, refl, ap, ◌∙◌, arith, if◌then◌else◌,
  ok, panic, All, inl, inr, Bool-cases, ◌↔◌, All-map,
}
use mutation_framework.Base.Text.{Text, text_eq, text_eq_iff, text_eq_refl, text_mem}
use mutation_framework.Registry.{
  Lookup, new, register, register_all, list, sort_texts, insert_sorted, text_leb,
}

module _ {ℓ} {M : Type ℓ} where
  -- Register adds a name that is free and changes no other; it panics at a name that is taken.
  pub new-register :
      (name other : Text) (mutator : M) (lookup : List (Text × M))
      → (new name lookup ≡ none
          → (lookup' : List (Text × M)) × (register name (some mutator) lookup ≡ ok lookup')
            × (new other lookup' ≡ (if text_eq name other then some mutator else new other lookup)))
        × (new name lookup ≢ none → register name (some mutator) lookup ≡ panic)
  unfolding register
  new-register name other mutator lookup =
      (λ free. ((name, mutator) ∷ lookup, rw free, refl), λ taken. ground arith)

abbrev pub names {ℓ} : {M : Type ℓ} → List (Text × M) → List Text
names ops = map (λ op. op.0) ops

-- No name stands twice.
abbrev pub AreDistinct : List Text → Type 0
AreDistinct [] = Unit
AreDistinct (s ∷ ss) = (text_mem s ss ≡ false) × AreDistinct ss

abbrev pub IsSorted : List Text → Type 0
IsSorted [] = Unit
IsSorted (s ∷ ss) = All (λ t. text_leb s t ≡ true) ss × IsSorted ss

pub text_leb_total : (s t : Text) → text_leb s t ≡ false → text_leb t s ≡ true
unfolding text_leb
text_leb_total [] t h = cc
text_leb_total (a ∷ s) [] h = refl
text_leb_total (a ∷ s) (b ∷ t) h = ground (arith, text_leb_total s t)

pub text_leb_trans :
    (s t u : Text) → text_leb s t ≡ true → text_leb t u ≡ true → text_leb s u ≡ true
unfolding text_leb
text_leb_trans [] t u h k = refl
text_leb_trans (a ∷ s) [] u h k = cc
text_leb_trans (a ∷ s) (b ∷ t) [] h k = cc
text_leb_trans (a ∷ s) (b ∷ t) (c ∷ u) h k = ground (arith, text_leb_trans s t u)

All-insert_sorted :
    (P : Text → Type 0) (s : Text) (ts : List Text) → P s → All P ts → All P (insert_sorted s ts)
unfolding insert_sorted
All-insert_sorted P s [] h hs = (h, tt)
All-insert_sorted P s (t ∷ ts) h (k, ks) = elim (Bool-cases (text_leb s t)) [
  | inl e ↦ rw e (h, (k, ks))
  | inr e ↦ rw e (k, All-insert_sorted P s ts h ks)
]

insert_sorted-IsSorted : (s : Text) (ts : List Text) → IsSorted ts → IsSorted (insert_sorted s ts)
unfolding insert_sorted
insert_sorted-IsSorted s [] h = (tt, tt)
insert_sorted-IsSorted s (t ∷ ts) (h, hs) = elim (Bool-cases (text_leb s t)) [
  | inl e ↦
      rw e
        ((e, All-map (λ u. text_leb t u ≡ true) _ (λ u k. text_leb_trans s t u e k) ts h), (h, hs))
  | inr e ↦ rw e (
    All-insert_sorted (λ u. text_leb t u ≡ true) s ts (text_leb_total s t e) h,
    insert_sorted-IsSorted s ts hs,
  )
]

sort_texts-IsSorted : (ss : List Text) → IsSorted (sort_texts ss)
unfolding sort_texts
sort_texts-IsSorted [] = tt
sort_texts-IsSorted (s ∷ ss) = insert_sorted-IsSorted s _ (sort_texts-IsSorted ss)

text_mem-insert_sorted :
    (t s : Text) (ts : List Text) → text_mem t (insert_sorted s ts) ≡ (text_eq t s || text_mem t ts)
unfolding text_mem insert_sorted
text_mem-insert_sorted t s [] = refl
text_mem-insert_sorted t s (u ∷ us) = ground (arith, text_mem-insert_sorted t s us)

text_mem-sort_texts : (t : Text) (ss : List Text) → text_mem t (sort_texts ss) ≡ text_mem t ss
unfolding sort_texts text_mem
text_mem-sort_texts t [] = refl
text_mem-sort_texts t (s ∷ ss) =
    text_mem-insert_sorted t s (sort_texts ss)
    ∙ ap (λ b. text_eq t s || b) (text_mem-sort_texts t ss)

module _ {ℓ} {M : Type ℓ} where
  text_mem-names :
      (t : Text) (lookup : Lookup M) → (text_mem t (names lookup) ≡ true) ↔ (new t lookup ≢ none)
  unfolding text_mem new
  text_mem-names t [] = (λ h. cc, λ h. absurd (h refl))
  text_mem-names t ((key, m) ∷ rest) =
      ground (arith, text_mem-names t rest, text_eq_iff t key, text_eq_iff key t)

  -- List is sorted and holds exactly the names that New finds.
  pub list-new :
      (lookup : Lookup M)
      → IsSorted (list lookup)
        × ((t : Text) → (text_mem t (list lookup) ≡ true) ↔ (new t lookup ≢ none))
  unfolding list
  list-new lookup = (
    sort_texts-IsSorted (names lookup),
    λ t. rw (text_mem-sort_texts t (names lookup)) (text_mem-names t lookup),
  )

  -- All registered, each under its name.
  abbrev AllFree : Lookup M → List (Text × M) → Type ℓ
  AllFree lookup ops = All (λ op. new op.0 lookup ≡ none) ops

  AllFree-cons :
      (name : Text) (mutator : M) (lookup : Lookup M) (ops : List (Text × M))
      → text_mem name (names ops) ≡ false
      → AllFree lookup ops
      → AllFree ((name, mutator) ∷ lookup) ops
  unfolding text_mem new
  AllFree-cons name mutator lookup [] h free = tt
  AllFree-cons name mutator lookup ((other, m) ∷ ops) h (f, fs) =
      (ground arith, AllFree-cons name mutator lookup ops (ground arith) fs)

  AllFree-nil : (ops : List (Text × M)) → AllFree [] ops
  unfolding new
  AllFree-nil [] = tt
  AllFree-nil (op ∷ ops) = (refl, AllFree-nil ops)

  new-head : (name : Text) (m : M) (lookup : Lookup M) → new name ((name, m) ∷ lookup) ≡ some m
  unfolding new
  new-head name m lookup = rw text_eq_refl

  new-kept :
      (name other : Text) (m m' : M) (lookup : Lookup M)
      → new name lookup ≡ none
      → new other lookup ≡ some m'
      → new other ((name, m) ∷ lookup) ≡ some m'
  unfolding new
  new-kept name other m m' lookup free h = elim (Bool-cases (text_eq name other)) [
    | inl e ↦
        let same : name ≡ other = (text_eq_iff name other).0 e in
        let taken : new name lookup ≡ some m' = ap (λ t. new t lookup) same ∙ h in cc
    | inr e ↦ rw e h
  ]

  register_all-AllFree :
      (ops : List (Text × M)) (lookup : Lookup M)
      → AreDistinct (names ops)
      → AllFree lookup ops
      → (lookup' : Lookup M) × (register_all ops lookup ≡ ok lookup')
        × All (λ op. new op.0 lookup' ≡ some op.1) ops
        × ((name : Text) (m : M) → new name lookup ≡ some m → new name lookup' ≡ some m)
  unfolding register_all
  register_all-AllFree [] lookup distinct free = (lookup, refl, tt, λ name m h. h)
  register_all-AllFree ((name, m) ∷ ops) lookup (fresh, distinct) (f, fs) =
      let (lookup', done, found, kept) =
        register_all-AllFree ops ((name, m) ∷ lookup) distinct
          (AllFree-cons name m lookup ops fresh fs) in
      (
        lookup',
        rw f done,
        (kept name m (new-head name m lookup), found),
        λ other m' h. kept other m' (new-kept name other m m' lookup f h),
      )

  -- The init functions register operators of distinct names without a panic, and New finds each.
  pub register_all-AreDistinct :
      (ops : List (Text × M))
      → AreDistinct (names ops)
      → (lookup : Lookup M) × (register_all ops [] ≡ ok lookup)
        × All (λ op. new op.0 lookup ≡ some op.1) ops
  register_all-AreDistinct ops distinct =
      let (lookup, done, found, _) = register_all-AllFree ops [] distinct (AllFree-nil ops) in
      (lookup, done, found)
