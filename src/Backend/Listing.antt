-- ===== src/Backend/Listing.antt =====
-- The list of commands (`list_commands` of env/backend/app/main.py).
use Prim.Native.Nat.{min}
use mathlib.Core.List.{Perm}
use mathlib.Core.List.Perm
use vehicle_bench_candidate.Base.{
  ℕ, suc, ◌≤◌, ◌≡◌, refl, Bool-cases, inl, inr, some, List, [], ◌∷◌, ◌++◌, arith, All, length, take,
  drop, take-append-drop, length-take, leb,
}
use vehicle_bench_candidate.Base.Int.{pos}
use vehicle_bench_candidate.Backend.Store.{CommandRecord, Store, ok}
use vehicle_bench_candidate.Backend.Commands.{Config}
use vehicle_bench_candidate.Backend.Access.{key_matches_self}
use vehicle_bench_candidate.Backend.Status.{insert_newest, newest_first, values, list_commands}

-- No record is older than one behind it.
abbrev pub IsNewestFirst : List CommandRecord → Type 0
IsNewestFirst [] = Unit
IsNewestFirst (r ∷ rs) = All (λ x. x.submitted_at ≤ r.submitted_at) rs × IsNewestFirst rs

All-older :
    (a b : ℕ) (xs : List CommandRecord)
    → a ≤ b
    → All (λ x. x.submitted_at ≤ a) xs
    → All (λ x. x.submitted_at ≤ b) xs
All-older a b [] le h = tt
All-older a b (x ∷ xs) le h = (omega arith, All-older a b xs le h.1)

All-insert_newest :
    (n : ℕ) (r : CommandRecord) (xs : List CommandRecord)
    → r.submitted_at ≤ n
    → All (λ x. x.submitted_at ≤ n) xs
    → All (λ x. x.submitted_at ≤ n) (insert_newest r xs)
unfolding insert_newest
All-insert_newest n r [] le h = (le, tt)
All-insert_newest n r (x ∷ xs) le h = ground (arith, All-insert_newest n r xs le h.1)

insert_newest-IsNewestFirst :
    (r : CommandRecord) (xs : List CommandRecord)
    → IsNewestFirst xs
    → IsNewestFirst (insert_newest r xs)
unfolding insert_newest
insert_newest-IsNewestFirst r [] h = (tt, tt)
insert_newest-IsNewestFirst r (x ∷ xs) h = elim (Bool-cases (leb x.submitted_at r.submitted_at)) [
  | inl e ↦ rw e ((ground arith, All-older x.submitted_at r.submitted_at xs (ground arith) h.0), h)
  | inr e ↦ rw e (
    All-insert_newest x.submitted_at r xs (ground arith) h.0,
    insert_newest-IsNewestFirst r xs h.1,
  )
]

insert_newest-perm :
    (r : CommandRecord) (xs : List CommandRecord) → Perm (insert_newest r xs) (r ∷ xs)
unfolding insert_newest
insert_newest-perm r [] = Perm.refl _
insert_newest-perm r (x ∷ xs) = elim (Bool-cases (leb x.submitted_at r.submitted_at)) [
  | inl e ↦ rw e (Perm.refl _)
  | inr e ↦ rw e (Perm.trans (Perm.cons x (insert_newest-perm r xs)) (Perm.swap r x xs))
]

newest_first-perm : (rs : List CommandRecord) → Perm (newest_first rs) rs
unfolding newest_first
newest_first-perm [] = Perm.refl _
newest_first-perm (r ∷ rs) =
    Perm.trans (insert_newest-perm r (newest_first rs)) (Perm.cons r (newest_first-perm rs))

newest_first-IsNewestFirst : (rs : List CommandRecord) → IsNewestFirst (newest_first rs)
unfolding newest_first
newest_first-IsNewestFirst [] = tt
newest_first-IsNewestFirst (r ∷ rs) =
    insert_newest-IsNewestFirst r _ (newest_first-IsNewestFirst rs)

length-insert_newest :
    (r : CommandRecord) (xs : List CommandRecord) → length (insert_newest r xs) ≡ suc (length xs)
unfolding insert_newest
length-insert_newest r [] = refl
length-insert_newest r (x ∷ xs) = ground (arith, length-insert_newest r xs)

length-newest_first : (rs : List CommandRecord) → length (newest_first rs) ≡ length rs
unfolding newest_first
length-newest_first [] = refl
length-newest_first (r ∷ rs) =
    omega (arith, length-insert_newest r (newest_first rs), length-newest_first rs)

-- With the right key and a limit `n` that is not negative, the answer is the first `n` commands,
-- or all if they are fewer, of an order of all commands of the table in which none stands before
-- a newer one; the store stays.
pub list_commands-newest :
    (cfg : Config) (n : ℕ) (store : Store)
    → let (answer, store') = list_commands cfg (some cfg.api_key) (pos n) store in
      (store' ≡ store)
      × ((shown rest : List CommandRecord) × (answer ≡ ok shown)
          × Perm (shown ++ rest) (values store.commands)
          × IsNewestFirst (shown ++ rest)
          × (length shown ≡ min n (length (values store.commands))))
unfolding list_commands
list_commands-newest cfg n store =
    let sorted = newest_first (values store.commands) in
    rw (key_matches_self cfg) (
      refl,
      (
        take n sorted,
        drop n sorted,
        refl,
        rw (take-append-drop n sorted) (newest_first-perm _),
        rw (take-append-drop n sorted) (newest_first-IsNewestFirst (values store.commands)),
        omega (arith, length-take n sorted, length-newest_first (values store.commands)),
      ),
    )
