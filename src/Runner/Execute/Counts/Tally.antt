-- ===== src/Runner/Execute/Counts/Tally.antt =====
-- What the end of one test does to the sums of the statistics.
use mutation_framework.Base.{
  ℕ, ◌+◌, [], ◌∷◌, ◌≡◌, refl, ap, sym, ◌∙◌, arith, inl, inr, Bool-cases, some,
}
use mutation_framework.Base.Text.{Text, text_eq}
use mutation_framework.Runner.{
  ℤ, pos, negsuc, System, World, lookup, insert, MutationStats, StatsMap,
}
use mutation_framework.Runner.Execute.{Run, ◌>>=◌, count_for, count_code, determine_pass_or_fail}
use mutation_framework.Runner.Execute.Counts.{
  hit, tests_with, tally, IsCounted, HasStats, Counted, counted,
}

pub tally-insert :
    (f : MutationStats → ℕ) (file : Text) (old new : MutationStats) (k : ℕ) (m : StatsMap)
    → lookup file m ≡ some old
    → f new ≡ k + f old
    → tally f (insert file new m) ≡ k + tally f m
unfolding lookup insert
tally-insert f file old new k [] h e = cc
tally-insert f file old new k ((key, s) ∷ m) h e = elim (Bool-cases (text_eq key file)) [
  | inl b ↦ rw b (go (sym (rw b refl) ∙ h))
  | inr b ↦ rw b (omega (arith, tally-insert f file old new k m (sym (rw b refl) ∙ h) e))
]
  where
    go : some s ≡ some old → f new + tally f m ≡ k + (f s + tally f m)
    go h = omega (arith, e, ap f (same h))
      where
        same : some s ≡ some old → s ≡ old
        same h = cc

-- A write leaves statistics at every key that had some.
pub HasStats-insert :
    (key file : Text) (new : MutationStats) (m : StatsMap)
    → ((s : MutationStats) × (lookup key m ≡ some s))
    → (s : MutationStats) × (lookup key (insert file new m) ≡ some s)
unfolding lookup insert
HasStats-insert key file new [] (s, h) = cc
HasStats-insert key file new ((k, v) ∷ m) (s, h) = elim (Bool-cases (text_eq k file)) [
  | inl b ↦ elim (Bool-cases (text_eq k key)) [
    | inl c ↦ rw (b, c) (new, refl)
    | inr c ↦ rw (b, c) (s, sym (rw c refl) ∙ h)
  ]
  | inr b ↦ elim (Bool-cases (text_eq k key)) [
    | inl c ↦ rw (b, c) (v, refl)
    | inr c ↦ rw (b, c) (HasStats-insert key file new m (s, sym (rw c refl) ∙ h))
  ]
]

count_code_lem :
    (c : ℤ) (s : MutationStats)
    → ((count_code (determine_pass_or_fail c) s).passed ≡ hit 1 c + s.passed)
      × ((count_code (determine_pass_or_fail c) s).failed ≡ hit 0 c + s.failed)
      × ((count_code (determine_pass_or_fail c) s).skipped ≡ hit 2 c + s.skipped)
unfolding determine_pass_or_fail
count_code_lem (pos n) s = (grind arith, grind arith, grind arith)
count_code_lem (negsuc n) s = (omega arith, omega arith, omega arith)

pub Counted-bind :
    (system : System) (w : World) (r : Run ℤ) (f : ℤ → World → Run ℤ)
    → Counted system w r
    → ((code : ℤ) (v : World)
        → IsCounted system v
        → ((file : Text) → HasStats w file → HasStats v file)
        → Counted system v (f code v))
    → Counted system w (r >>= f)
unfolding ◌>>=◌
Counted-bind system w r f (counted code v e k keep) next = go (next code v k keep)
  where
    go : Counted system v (f code v) → Counted system w (r >>= f)
    go (counted code' u e' k' keep') =
        counted code' u (rw e e') k' (λ file has. keep' file (keep file has))

pub Counted-count :
    (system : System) (w v : World) (c : ℤ) (file : Text)
    → IsCounted system w
    → HasStats w file
    → v.all_stats ≡ w.all_stats
    → ((n : ℕ) → tests_with system n v.trace ≡ hit n c + tests_with system n w.trace)
    → Counted system w (count_for file (determine_pass_or_fail c) v)
Counted-count system w v c file (p, f, k) (s, h) same t =
    counted (determine_pass_or_fail c)
      (record v { all_stats = insert file (count_code (determine_pass_or_fail c) s) v.all_stats })
      (rw found refl)
      (
        sums (λ s. s.passed) (hit 1 c) 1 ((count_code_lem c s).0) p (t 1),
        sums (λ s. s.failed) (hit 0 c) 0 ((count_code_lem c s).1) f (t 0),
        sums (λ s. s.skipped) (hit 2 c) 2 ((count_code_lem c s).2) k (t 2),
      )
      (λ key has. HasStats-insert key file _ v.all_stats (rw same has))
  where
    found : lookup file v.all_stats ≡ some s
    found = rw same h

    sums :
        (f : MutationStats → ℕ) (k n : ℕ)
        → f (count_code (determine_pass_or_fail c) s) ≡ k + f s
        → tally f w.all_stats ≡ tests_with system n w.trace
        → tests_with system n v.trace ≡ k + tests_with system n w.trace
        → tally f (insert file (count_code (determine_pass_or_fail c) s) v.all_stats)
          ≡ tests_with system n v.trace
    sums f k n e q t =
        omega (arith, tally-insert f file s _ k v.all_stats found e, q, t, ap (tally f) same)
