-- ===== src/Config/Expand/Laws.antt =====
-- The expansion of a wild card ends, and every path that it gives exists.
use mutation_framework.Base.{
  ℕ, zero, suc, ◌+◌, ◌*◌, ◌-◌, ◌<◌, ◌≤◌, Bool, true, false, not, ◌&&◌, List, [], ◌∷◌, ◌++◌, Option,
  none, some, length, set, leb, ◌==◌, if◌then◌else◌, ok, ◌>>=◌, Returns, ◌≡◌, refl, subst, ap, ◌∙◌,
  arith, inl, inr, Bool-cases, All, All-append, All-map, if-elim, and-eq_true,
}
use mutation_framework.Base.Text.{Text}
use mutation_framework.Paths.{slash, split, get_current_path, get_parent_path}
use mutation_framework.FileSystem.{FileSystem, listed, History}
use mutation_framework.Config.WildCard.{is_valid_wild_card}
use mutation_framework.Config.Expand.{
  OtherGlobs, names_of, drop_last, Expanded, is_directory, exists, expand_dirs, filter_glob,
  expand_listing, expand_plain, expand_piece, piece_at, wild_card_at, expand_wild_card_recursive,
  expand_wild_card,
}
use mutation_framework.Config.Expand.Pieces.{
  Returns-bind, length-set, get_elem?-set, Slashed, get_current_path-Slashed,
  get_parent_path-Returns,
}
use mutation_framework.Config.Expand.Exist.{
  Listable, Exists, Accepted, found_path, expand_files-Accepted, glob-Returns, Accepted-Exists,
}

module _ (fs : FileSystem) (h : History) (others : OtherGlobs) (basepath : Text) where
  -- Paths that the code takes, and as many pieces as before.
  abbrev Expands : ℕ → Expanded → Type 0
  Expands n = Returns (λ r. All (Accepted fs h others basepath) (r.0) × (length (r.1) ≡ n))

  dirs-Expands :
      (step : List Text → Expanded) (index n : ℕ) (dirs pieces : List Text)
      → ((dir : Text) (ps : List Text)
          → is_valid_wild_card dir ≡ none
          → length ps ≡ n
          → Expands n (step (set ps index dir)))
      → All (λ name. is_valid_wild_card name ≡ none) dirs
      → length pieces ≡ n
      → Expands n (expand_dirs fs h others basepath step index dirs pieces)
  unfolding expand_dirs
  dirs-Expands step index n [] pieces k plain l = (tt, l)
  dirs-Expands step index n (dir ∷ dirs) pieces k (p, plain) l =
      Returns-bind (λ r. All (Accepted fs h others basepath) (r.0) × (length (r.1) ≡ n)) _
        (step (set pieces index dir)) _ (k dir pieces p l)
        (λ r e.
          Returns-bind (λ r. All (Accepted fs h others basepath) (r.0) × (length (r.1) ≡ n)) _
            (expand_dirs fs h others basepath step index dirs (r.1)) _
            (dirs-Expands step index n dirs (r.1) k plain (e.1))
            (λ q f. (All-append (Accepted fs h others basepath) (r.0) (q.0) (e.0) (f.0), f.1)))

  All-files : (names : List Text) → All (λ name. Unit {0}) names
  All-files [] = tt
  All-files (name ∷ names) = (tt, All-files names)

  listing-Expands :
      (step : List Text → Expanded) (index : ℕ) (pieces : List Text) (glob parent : Text)
      (entries : List (Text × Bool))
      → ((dir : Text) (ps : List Text)
          → is_valid_wild_card dir ≡ none
          → length ps ≡ length pieces
          → Expands (length pieces) (step (set ps index dir)))
      → ((glob : Text) → (valid : Text → Bool) × (others glob ≡ some valid))
      → All (λ name. is_valid_wild_card name ≡ none) (names_of true entries)
      → index ≤ length pieces
      → Expands
          (length pieces)
          (expand_listing fs h others basepath step index pieces glob parent (listed entries))
  listing-Expands step index pieces glob parent entries k c plain le =
      Returns-bind (All (λ name. Unit {0}))
        (λ r. All (Accepted fs h others basepath) (r.0) × (length (r.1) ≡ length pieces))
        (filter_glob fs h others basepath glob (names_of false entries)) _
        (glob-Returns fs h others basepath (λ name. Unit) glob (names_of false entries) c
          (All-files _))
        (λ files _.
          Returns-bind (All (λ name. is_valid_wild_card name ≡ none))
            (λ r. All (Accepted fs h others basepath) (r.0) × (length (r.1) ≡ length pieces))
            (filter_glob fs h others basepath glob (names_of true entries)) _
            (glob-Returns fs h others basepath (λ name. is_valid_wild_card name ≡ none) glob
              (names_of true entries) c plain)
            (λ dirs ps.
              Returns-bind
                (λ r. All (Accepted fs h others basepath) (r.0) × (length (r.1) ≡ length pieces))
                (λ r. All (Accepted fs h others basepath) (r.0) × (length (r.1) ≡ length pieces))
                (expand_dirs fs h others basepath step index dirs pieces) _
                (dirs-Expands step index (length pieces) dirs pieces k ps refl)
                (λ r e.
                  Returns-bind (λ path. Unit {0})
                    (λ r.
                      All (Accepted fs h others basepath) (r.0) × (length (r.1) ≡ length pieces))
                    (get_parent_path (r.1) index) _
                    (get_parent_path-Returns (r.1) index (omega (arith, e.1, le)))
                    (λ parent' _. (
                      if-elim (All (Accepted fs h others basepath)) (suc index == length (r.1))
                          (All-append (Accepted fs h others basepath) (r.0) _ (e.0)
                            (expand_files-Accepted fs h others basepath parent' files))
                          (e.0),
                      e.1,
                    )))))

  plain-Expands :
      (deeper : Expanded) (pieces : List Text) (current : Text)
      → Slashed current
      → Expands (length pieces) deeper
      → Expands (length pieces) (expand_plain fs h others basepath deeper pieces current)
  plain-Expands deeper pieces current (front, e) k =
      elim (Bool-cases
        (not (is_directory fs h others basepath current) && exists fs h others basepath current)) [
          | inl t ↦
              rw t ((found_path fs h others basepath front e ((and-eq_true _ _ t).1), tt), refl)
          | inr t ↦ rw t k
        ]

  abbrev wild : Option Text → ℕ
  wild none = 0
  wild (some glob) = 1

  module _ (listable : Listable fs h others basepath) where
    piece-Expands :
        (step : List Text → Expanded) (deeper : Expanded) (index : ℕ) (pieces : List Text)
        (current parent : Text) (o : Option Text)
        → Slashed current
        → is_directory fs h others basepath parent ≡ true
        → index ≤ length pieces
        → Expands (length pieces) deeper
        → ((glob : Text)
            → o ≡ some glob
            → (dir : Text) (ps : List Text) → is_valid_wild_card dir ≡ none
            → length ps ≡ length pieces
            → Expands (length pieces) (step (set ps index dir)))
        → Expands
            (length pieces)
            (expand_piece fs h others basepath step deeper index pieces current parent o)
    piece-Expands step deeper index pieces current parent none sl d le k m =
        plain-Expands deeper pieces current sl k
    piece-Expands step deeper index pieces current parent (some glob) sl d le k m =
        let (entries, e) = listable.lists parent d in
        rw e (
          listing-Expands step index pieces glob parent entries (m glob refl) listable.compiles
            (listable.plain (basepath ++ parent) entries e) le)

    -- The pieces with a directory in the place of the wild card.
    replaced-wild :
        (ps : List Text) (index : ℕ) (dir : Text)
        → index < length ps
        → is_valid_wild_card dir ≡ none
        → wild (wild_card_at (piece_at (set ps index dir) index)) ≡ 0
    replaced-wild ps index dir lt plain = rw (get_elem?-set ps index dir lt, plain) refl

    wild-le : (o : Option Text) → wild o ≤ 1
    wild-le none = omega arith
    wild-le (some glob) = omega arith

    expand-Expands :
        (f index : ℕ) (pieces : List Text)
        → 2 * (length pieces - index) + wild (wild_card_at (piece_at pieces index)) < f
        → Expands (length pieces) (expand_wild_card_recursive fs h others basepath f index pieces)
    unfolding expand_wild_card_recursive
    expand-Expands zero index pieces lt = omega (arith, lt)
    expand-Expands (suc f) index pieces lt = elim (Bool-cases (leb (length pieces) index)) [
      | inl e ↦ rw e (tt, refl)
      | inr e ↦ rw e (
          inside (expand_wild_card_recursive fs h others basepath f index)
            (expand_wild_card_recursive fs h others basepath f (suc index) pieces) (not-leb e)
            (expand-Expands f (suc index) pieces
              (omega (arith, lt, not-leb e, wild-le (wild_card_at (piece_at pieces (suc index))))))
            (λ glob w dir ps plain l.
              let le : index < length ps = omega (arith, l, not-leb e) in
              subst
                (λ n.
                  Expands n
                    (expand_wild_card_recursive fs h others basepath f index (set ps index dir)))
                (length-set ps index dir ∙ l)
                (expand-Expands f index (set ps index dir) (
                  omega (
                    arith,
                    lt,
                    l,
                    not-leb e,
                    length-set ps index dir,
                    replaced-wild ps index dir le plain,
                    ap wild w,
                  )))))
    ]
      where
        not-leb : leb (length pieces) index ≡ false → index < length pieces
        not-leb e = ground arith

        inside :
            (step : List Text → Expanded) (deeper : Expanded)
            → index < length pieces
            → Expands (length pieces) deeper
            → ((glob : Text)
                → wild_card_at (piece_at pieces index) ≡ some glob
                → (dir : Text) (ps : List Text) → is_valid_wild_card dir ≡ none
                → length ps ≡ length pieces
                → Expands (length pieces) (step (set ps index dir)))
            → Expands (length pieces) (do
              current ← get_current_path index pieces
              parent ← get_parent_path pieces index
              if is_directory fs h others basepath parent
                  then expand_piece fs h others basepath step deeper index pieces current parent
                      (wild_card_at (piece_at pieces index))
                  else if exists fs h others basepath current
                  then ok (drop_last current ∷ [], pieces)
                  else ok ([], pieces))
        inside step deeper le k m =
            Returns-bind Slashed _ (get_current_path index pieces) _
              (get_current_path-Slashed index pieces le)
              (λ current sl.
                Returns-bind (λ path. Unit {0}) _ (get_parent_path pieces index) _
                  (get_parent_path-Returns pieces index (omega (arith, le)))
                  (λ parent _. elim (Bool-cases (is_directory fs h others basepath parent)) [
                    | inl d ↦ rw d (
                        piece-Expands step deeper index pieces current parent
                          (wild_card_at (piece_at pieces index)) sl d (omega (arith, le)) k m)
                    | inr d ↦ rw d (elim (Bool-cases (exists fs h others basepath current)) [
                      | inl t ↦ rw t ((found_path fs h others basepath (sl.0) (sl.1) t, tt), refl)
                      | inr t ↦ rw t (tt, refl)
                    ])
                  ]))

    -- Where the folder of the base path exists, Stat fails for no other reason than that a path does
    -- not exist, the file system lists what it says is a directory, no name of a directory is itself
    -- a wild card, and regexp compiles the globs: the expansion of a path returns, with two calls
    -- for each piece and two more as fuel, and every path that it gives is found by Stat below the
    -- base path, as it is or cleaned, perhaps with a slash behind it.
    pub expand_wild_card-Exists :
        (path : Text)
        → Returns
            (All (Exists fs h others basepath))
            (expand_wild_card fs h others basepath (2 * length (split slash path) + 2) path)
    unfolding expand_wild_card
    expand_wild_card-Exists path =
        Returns-bind
          (λ r.
            All (Accepted fs h others basepath) (r.0) × (length (r.1) ≡ length (split slash path)))
          (All (Exists fs h others basepath))
          (expand_wild_card_recursive fs h others basepath (2 * length (split slash path) + 2) 0
            (split slash path))
          _
          (expand-Expands (2 * length (split slash path) + 2) 0 (split slash path)
            (omega (arith, wild-le (wild_card_at (piece_at (split slash path) 0)))))
          (λ r e.
            All-map (Accepted fs h others basepath) (Exists fs h others basepath)
              (Accepted-Exists fs h others basepath listable) (r.0) (e.0))
