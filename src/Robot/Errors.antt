-- ===== src/Robot/Errors.antt =====
-- What the check on new errors finds (`assert_no_new_gateway_errors` of
-- starter/robot/libraries/log_validation.py).
use mathlib.Core.Path.{subst}
use vehicle_bench_candidate.Base.{
  ℕ, ◌≡◌, ◌⊎◌, ◌∙◌, inl, inr, refl, ap, true, false, Bool-cases, none, some, List, [], ◌∷◌, ◌++◌,
  All, arith, length, drop, if_intro,
}
use vehicle_bench_candidate.Base.Texts.{starts_with, occurs_in}
use vehicle_bench_candidate.Robot.{
  error_mark, errors_in, raised, new_content, assert_no_new_gateway_errors,
}

starts_with-append : (xs ys : List ℕ) → starts_with xs (xs ++ ys) ≡ true
starts_with-append [] ys = refl
starts_with-append (x ∷ xs) ys = ground (arith, starts_with-append xs ys)

drop-length : (xs ys : List ℕ) → drop (length xs) (xs ++ ys) ≡ ys
drop-length [] ys = refl
drop-length (x ∷ xs) ys = drop-length xs ys

new_content-append : (before new : List ℕ) → new_content before (before ++ new) ≡ new
unfolding new_content
new_content-append before new = rw (starts_with-append before new, drop-length before new) refl

errors_in-none :
    (lines : List (List ℕ)) → All (λ l. occurs_in error_mark l ≡ false) lines → errors_in lines ≡ []
errors_in-none [] h = refl
errors_in-none (l ∷ lines) h = ground (arith, h.0, errors_in-none lines h.1)

errors_in-All : (lines : List (List ℕ)) → All (λ l. occurs_in error_mark l ≡ true) (errors_in lines)
errors_in-All [] = tt
errors_in-All (l ∷ lines) =
    if_intro (All (λ l. occurs_in error_mark l ≡ true)) (occurs_in error_mark l) _ _
      (λ e. (e, errors_in-All lines)) (λ _. errors_in-All lines)

errors_in-cases :
    (lines : List (List ℕ))
    → ((errors_in lines ≡ []) × All (λ l. occurs_in error_mark l ≡ false) lines)
      ⊎ ((l : List ℕ) × (ls : List (List ℕ)) × (errors_in lines ≡ l ∷ ls))
errors_in-cases [] = inl (refl, tt)
errors_in-cases (l ∷ lines) = elim (Bool-cases (occurs_in error_mark l)) [
  | inl e ↦ inr (l, errors_in lines, rw e refl)
  | inr e ↦ elim (errors_in-cases lines) [
    | inl (none_here, clean) ↦ inl (rw e none_here, (e, clean))
    | inr (l', ls, found) ↦ inr (l', ls, rw e found)
  ]
]

-- A log that has grown by `new`: the check passes exactly if no line of `new` has " ERROR " in it, and
-- otherwise lists lines of `new` that have. What `before` says does not matter; so an error whose line
-- `before` ends in, behind the mark, is not found.
pub assert_no_new_gateway_errors-append :
    (splitlines : List ℕ → List (List ℕ)) (before new : List ℕ)
    → let result = assert_no_new_gateway_errors splitlines before (before ++ new) in
      ((result ≡ none) × All (λ l. occurs_in error_mark l ≡ false) (splitlines new))
      ⊎ ((l : List ℕ) × (ls : List (List ℕ)) × (result ≡ some (l ∷ ls))
          × (errors_in (splitlines new) ≡ l ∷ ls)
          × All (λ l. occurs_in error_mark l ≡ true) (l ∷ ls))
unfolding assert_no_new_gateway_errors
assert_no_new_gateway_errors-append splitlines before new =
    let same = ap (λ t. raised (errors_in (splitlines t))) (new_content-append before new) in
    elim (errors_in-cases (splitlines new)) [
      | inl (nothing, clean) ↦ inl (same ∙ ap raised nothing, clean)
      | inr (l, ls, found) ↦ inr (
        l,
        ls,
        same ∙ ap raised found,
        found,
        subst (All (λ l. occurs_in error_mark l ≡ true)) found (errors_in-All (splitlines new)),
      )
    ]
