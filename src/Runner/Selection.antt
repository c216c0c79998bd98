-- ===== src/Runner/Selection.antt =====
-- What `--only` selects (`main` of env/scenario-runner/run_scenarios.py).
use mathlib.Core.List.{map}
use vehicle_bench_candidate.Base.{
  ℕ, ◌≡◌, ◌≢◌, ◌∙◌, refl, ap, Bool, false, ◌||◌, List, [], ◌∷◌, ◌++◌, All, arith, ◌==◌,
  if◌then◌else◌,
}
use vehicle_bench_candidate.Adb.Sync.{same_bytes}
use vehicle_bench_candidate.Runner.Scenarios.{
  Scenario, s01, s02, s03, s04, name, all_scenarios, split, first_part, among, is_empty,
  is_selected, select,
}

-- The part of a name before its first `_`.
abbrev short : Scenario → List ℕ
short s01 = b'S' ∷ b'0' ∷ b'1' ∷ []
short s02 = b'S' ∷ b'0' ∷ b'2' ∷ []
short s03 = b'S' ∷ b'0' ∷ b'3' ∷ []
short s04 = b'S' ∷ b'0' ∷ b'4' ∷ []

short-name : (s : Scenario) → first_part (split b'_' (name s)) ≡ short s
unfolding name split
short-name s01 = refl
short-name s02 = refl
short-name s03 = refl
short-name s04 = refl

-- The short names with commas between them.
abbrev pub joined : List Scenario → List ℕ
joined [] = []
joined (x ∷ []) = short x
joined (x ∷ y ∷ rest) = short x ++ (b',' ∷ joined (y ∷ rest))

split-part :
    (separator : ℕ) (part rest : List ℕ)
    → All (λ x. x ≢ separator) part
    → split separator (part ++ (separator ∷ rest)) ≡ part ∷ split separator rest
unfolding split
split-part separator [] rest free = ground arith
split-part separator (x ∷ xs) rest free = ground (arith, split-part separator xs rest free.1)

split-last :
    (separator : ℕ) (part : List ℕ)
    → All (λ x. x ≢ separator) part
    → split separator part ≡ part ∷ []
unfolding split
split-last separator [] free = refl
split-last separator (x ∷ xs) free = ground (arith, split-last separator xs free.1)

short-free : (s : Scenario) → All (λ x. x ≢ b',') (short s)
short-free s01 = ground arith
short-free s02 = ground arith
short-free s03 = ground arith
short-free s04 = ground arith

split-joined :
    (x : Scenario) (xs : List Scenario) → split b',' (joined (x ∷ xs)) ≡ map short (x ∷ xs)
split-joined x [] = split-last b',' (short x) (short-free x)
split-joined x (y ∷ rest) =
    split-part b',' (short x) (joined (y ∷ rest)) (short-free x)
    ∙ ap (λ parts. short x ∷ parts) (split-joined y rest)

joined-nonempty : (x : Scenario) (xs : List Scenario) → is_empty (joined (x ∷ xs)) ≡ false
joined-nonempty s01 [] = refl
joined-nonempty s01 (y ∷ rest) = refl
joined-nonempty s02 [] = refl
joined-nonempty s02 (y ∷ rest) = refl
joined-nonempty s03 [] = refl
joined-nonempty s03 (y ∷ rest) = refl
joined-nonempty s04 [] = refl
joined-nonempty s04 (y ∷ rest) = refl

abbrev number : Scenario → ℕ
number s01 = 1
number s02 = 2
number s03 = 3
number s04 = 4

-- Whether a scenario is one of these.
abbrev pub is_one_of : List Scenario → Scenario → Bool
is_one_of [] s = false
is_one_of (x ∷ xs) s = number s == number x || is_one_of xs s

abbrev pub filter_scenarios : (Scenario → Bool) → List Scenario → List Scenario
filter_scenarios keep [] = []
filter_scenarios keep (s ∷ rest) =
    if keep s then s ∷ filter_scenarios keep rest else filter_scenarios keep rest

same-short : (s x : Scenario) → same_bytes (short s) (short x) ≡ (number s == number x)
same-short s01 s01 = refl
same-short s01 s02 = refl
same-short s01 s03 = refl
same-short s01 s04 = refl
same-short s02 s01 = refl
same-short s02 s02 = refl
same-short s02 s03 = refl
same-short s02 s04 = refl
same-short s03 s01 = refl
same-short s03 s02 = refl
same-short s03 s03 = refl
same-short s03 s04 = refl
same-short s04 s01 = refl
same-short s04 s02 = refl
same-short s04 s03 = refl
same-short s04 s04 = refl

among-short : (xs : List Scenario) (s : Scenario) → among (short s) (map short xs) ≡ is_one_of xs s
among-short [] s = refl
among-short (x ∷ xs) s = rw (same-short s x, among-short xs s) refl

is_selected-joined :
    (x : Scenario) (xs : List Scenario) (s : Scenario)
    → is_selected (joined (x ∷ xs)) s ≡ is_one_of (x ∷ xs) s
unfolding is_selected
is_selected-joined x xs s =
    rw (joined-nonempty x xs, short-name s, split-joined x xs) (among-short (x ∷ xs) s)

select-filter :
    (only : List ℕ) (keep : Scenario → Bool) (all : List Scenario)
    → ((s : Scenario) → is_selected only s ≡ keep s)
    → select only all ≡ filter_scenarios keep all
unfolding select
select-filter only keep [] same = refl
select-filter only keep (s ∷ rest) same = rw (same s, select-filter only keep rest same) refl

-- With no `--only` every scenario is run. With the short names of some scenarios (`S01` to `S04`),
-- one or more, in any order, with commas between them, exactly these are run, each once and in the
-- order of `SCENARIOS`.
pub only_selects :
    (x : Scenario) (xs : List Scenario)
    → (select [] all_scenarios ≡ all_scenarios)
      × (select (joined (x ∷ xs)) all_scenarios
          ≡ filter_scenarios (is_one_of (x ∷ xs)) all_scenarios)
unfolding select is_selected
only_selects x xs = (
  refl,
  select-filter (joined (x ∷ xs)) (is_one_of (x ∷ xs)) all_scenarios (is_selected-joined x xs),
)
