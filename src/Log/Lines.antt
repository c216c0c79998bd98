-- ===== src/Log/Lines.antt =====
-- The lines of the logger (`_emit` of env/common/dltlog.py).
use vehicle_bench_candidate.Base.{
  ℕ, zero, suc, ◌+◌, ◌-◌, ◌*◌, ◌/◌, ◌%◌, ◌<◌, ◌≡◌, ◌≢◌, ◌∙◌, refl, ap, List, [], ◌∷◌, ◌++◌, ◌==◌,
  ltb, if◌then◌else◌, length, take, drop, All, arith,
}
use vehicle_bench_candidate.Log.{
  Line, Level, fatal, error, warn, info, debug, verbose, level_text, ljust, lstrip, hex_digit, hex4,
  text,
}

-- A reader of lines: the words up to a blank, the identifiers of four characters, and the number.
abbrev cut : List ℕ → List ℕ × List ℕ
cut [] = ([], [])
cut (c ∷ cs) = let rest = cut cs in if c == b' ' then ([], cs) else (c ∷ rest.0, rest.1)

abbrev digit_of : ℕ → ℕ
digit_of c = if ltb c b'A' then c - b'0' else c - b'A' + 10

abbrev number4 : List ℕ → ℕ
number4 (a ∷ b ∷ c ∷ d ∷ xs) = digit_of a * 4096 + digit_of b * 256 + digit_of c * 16 + digit_of d
number4 _ = 0

abbrev but_last : List ℕ → List ℕ
but_last [] = []
but_last (c ∷ []) = []
but_last (c ∷ d ∷ cs) = c ∷ but_last (d ∷ cs)

-- What a line says: the time, the uptime, the ECU, the application, the context, the level, the number
-- and the text.
abbrev Read : Type 0
Read = List ℕ × List ℕ × List ℕ × List ℕ × List ℕ × List ℕ × ℕ × List ℕ

abbrev read_rest : List ℕ → List ℕ → List ℕ → List ℕ → List ℕ → List ℕ × List ℕ → Read
read_rest now uptime ecu app ctx (level, xs) =
    let ys = lstrip (λ c. c == b' ') xs in
    (now, uptime, ecu, app, ctx, level, number4 (drop 2 ys), but_last (drop 7 ys))

abbrev read_names : List ℕ → List ℕ × List ℕ → Read
read_names now (uptime, xs) =
    let ys = drop 5 xs in
    let zs = drop 5 ys in read_rest now uptime (take 4 xs) (take 4 ys) (take 4 zs) (cut (drop 5 zs))

abbrev pub read_line : List ℕ → Read
read_line xs = (λ (r : List ℕ × List ℕ). read_names r.0 (cut r.1)) (cut xs)

cut-append : (xs ys : List ℕ) → All (λ c. c ≢ b' ') xs → cut (xs ++ b' ' ∷ ys) ≡ (xs, ys)
cut-append [] ys h = refl
cut-append (c ∷ xs) ys h = ground (arith, h.0, cut-append xs ys h.1)

take_exact : (n : ℕ) (xs ys : List ℕ) → length xs ≡ n → take n (xs ++ ys) ≡ xs
take_exact zero [] ys h = refl
take_exact zero (x ∷ xs) ys h = absurd (omega (arith, h))
take_exact (suc n) [] ys h = absurd (omega (arith, h))
take_exact (suc n) (x ∷ xs) ys h = ap (λ t. x ∷ t) (take_exact n xs ys (omega (arith, h)))

drop_exact :
    (n : ℕ) (xs : List ℕ) (y : ℕ) (ys : List ℕ) → length xs ≡ n → drop (suc n) (xs ++ y ∷ ys) ≡ ys
drop_exact zero [] y ys h = refl
drop_exact zero (x ∷ xs) y ys h = absurd (omega (arith, h))
drop_exact (suc n) [] y ys h = absurd (omega (arith, h))
drop_exact (suc n) (x ∷ xs) y ys h = drop_exact n xs y ys (omega (arith, h))

but_last-append : (xs : List ℕ) (c : ℕ) → but_last (xs ++ c ∷ []) ≡ xs
but_last-append [] c = refl
but_last-append (x ∷ []) c = refl
but_last-append (x ∷ y ∷ xs) c = ap (λ t. x ∷ t) (but_last-append (y ∷ xs) c)

digit_of-hex_digit : (d : ℕ) → d < 16 → digit_of (hex_digit d) ≡ d
digit_of-hex_digit d h = ground arith

number4-hex4 : (n : ℕ) (xs : List ℕ) → n < 65536 → number4 (hex4 n ++ xs) ≡ n
number4-hex4 n xs h = omega (
  arith,
  digit_of-hex_digit (n / 4096) (omega arith),
  digit_of-hex_digit (n / 256 % 16) (omega arith),
  digit_of-hex_digit (n / 16 % 16) (omega arith),
  digit_of-hex_digit (n % 16) (omega arith),
)

end_read :
    (f : ℕ → List ℕ → Read) (n : ℕ) (payload : List ℕ)
    → n < 65536
    → f (number4 (hex4 n ++ b' ' ∷ (payload ++ b'\n' ∷ []))) (but_last (payload ++ b'\n' ∷ []))
      ≡ f n payload
end_read f n payload h =
    λ i. f (number4-hex4 n (b' ' ∷ (payload ++ b'\n' ∷ [])) h i) (but_last-append payload b'\n' i)

read_rest-level :
    (now uptime ecu app ctx : List ℕ) (level : Level) (n : ℕ) (payload : List ℕ)
    → n < 65536
    → read_rest now uptime ecu app ctx (
        cut (
          ljust 5 (level_text level)
          ++ b' ' ∷ b'0' ∷ b'x' ∷ (hex4 n ++ b' ' ∷ (payload ++ b'\n' ∷ []))))
      ≡ (now, uptime, ecu, app, ctx, level_text level, n, payload)
read_rest-level now uptime ecu app ctx fatal n payload h =
    end_read (λ m p. (now, uptime, ecu, app, ctx, level_text fatal, m, p)) n payload h
read_rest-level now uptime ecu app ctx error n payload h =
    end_read (λ m p. (now, uptime, ecu, app, ctx, level_text error, m, p)) n payload h
read_rest-level now uptime ecu app ctx warn n payload h =
    end_read (λ m p. (now, uptime, ecu, app, ctx, level_text warn, m, p)) n payload h
read_rest-level now uptime ecu app ctx info n payload h =
    end_read (λ m p. (now, uptime, ecu, app, ctx, level_text info, m, p)) n payload h
read_rest-level now uptime ecu app ctx debug n payload h =
    end_read (λ m p. (now, uptime, ecu, app, ctx, level_text debug, m, p)) n payload h
read_rest-level now uptime ecu app ctx verbose n payload h =
    end_read (λ m p. (now, uptime, ecu, app, ctx, level_text verbose, m, p)) n payload h

-- The parts of a line as the logger makes them: a time and an uptime without blanks, identifiers of
-- four characters, and a number of 16 bits.
pub record IsRegular (l : Line) : Type 0 where
  pub now_word : All (λ c. c ≢ b' ') l.now
  pub uptime_word : All (λ c. c ≢ b' ') l.uptime
  pub ecu_four : length l.ecu ≡ 4
  pub app_four : length l.app ≡ 4
  pub ctx_four : length l.ctx ≡ 4
  pub number_small : l.counter < 65536

-- A regular line can be read back from its text: the time, the uptime, the three identifiers, the
-- level, the number and the payload, whatever the payload is.
pub read_line-text :
    (l : Line)
    → IsRegular l
    → read_line (text l)
      ≡ (l.now, l.uptime, l.ecu, l.app, l.ctx, level_text l.level, l.counter, l.payload)
unfolding text
read_line-text l h =
    ap (λ (r : List ℕ × List ℕ). read_names r.0 (cut r.1)) (cut-append l.now _ h.now_word)
    ∙ ap (read_names l.now) (cut-append l.uptime _ h.uptime_word)
    ∙ rw
        (
          drop_exact 4 l.ecu _ _ h.ecu_four,
          drop_exact 4 l.app _ _ h.app_four,
          drop_exact 4 l.ctx _ _ h.ctx_four,
          take_exact 4 l.ecu _ h.ecu_four,
          take_exact 4 l.app _ h.app_four,
          take_exact 4 l.ctx _ h.ctx_four,
        )
        (read_rest-level l.now l.uptime l.ecu l.app l.ctx l.level l.counter l.payload
          h.number_small)
