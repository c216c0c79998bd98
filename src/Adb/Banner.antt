-- ===== src/Adb/Banner.antt =====
-- The banner of the ADB server (`serve_adb` of env/ecu-gateway/adbd.py), made of the build properties.
-- A text is the list of its characters, a file its lines; which characters `str.strip` removes is a
-- parameter.
use mathlib.Core.Option
use vehicle_bench_candidate.Base.{
  ℕ, ◌≡◌, ◌∙◌, refl, ap, sym, inl, inr, Bool, Bool-cases, true, not, ◌&&◌, Option, none, some, List,
  [], ◌∷◌, ◌++◌, ◌==◌, arith, if◌then◌else◌,
}
use vehicle_bench_candidate.Base.Texts.{starts_with, occurs_in}
use vehicle_bench_candidate.Log.{lstrip, rstrip}
use vehicle_bench_candidate.Adb.Sync.{same_bytes}

-- `props`, a dict in the order of its keys.
abbrev pub Props : Type 0
Props = List (List ℕ × List ℕ)

abbrev pub get_prop : List ℕ → Props → Option (List ℕ)
get_prop k [] = none
get_prop k (e ∷ d) = if same_bytes e.0 k then some e.1 else get_prop k d

-- `props[k] = v`
abbrev pub set_prop : List ℕ → List ℕ → Props → Props
set_prop k v [] = (k, v) ∷ []
set_prop k v (e ∷ d) = if same_bytes e.0 k then (e.0, v) ∷ d else e ∷ set_prop k v d

abbrev onto_key : ℕ → List ℕ × List ℕ → List ℕ × List ℕ
onto_key x (k, v) = (x ∷ k, v)

-- `text.split("=", 1)` of a text with a `=`.
abbrev pub split_once : List ℕ → List ℕ × List ℕ
split_once [] = ([], [])
split_once (x ∷ xs) = if x == b'=' then ([], xs) else onto_key x (split_once xs)

-- `text in line` for a `=`, and no comment.
abbrev pub is_assignment : List ℕ → Bool
is_assignment line = occurs_in (b'=' ∷ []) line && not (starts_with (b'#' ∷ []) line)

abbrev pub product_name : List ℕ
product_name =
    b'r' ∷ b'o' ∷ b'.' ∷ b'p' ∷ b'r' ∷ b'o' ∷ b'd' ∷ b'u' ∷ b'c' ∷ b't' ∷ b'.' ∷ b'n' ∷ b'a' ∷ b'm'
    ∷ b'e' ∷ []

abbrev pub product_model : List ℕ
product_model =
    b'r' ∷ b'o' ∷ b'.' ∷ b'p' ∷ b'r' ∷ b'o' ∷ b'd' ∷ b'u' ∷ b'c' ∷ b't' ∷ b'.' ∷ b'm' ∷ b'o' ∷ b'd'
    ∷ b'e' ∷ b'l' ∷ []

abbrev pub product_device : List ℕ
product_device =
    b'r' ∷ b'o' ∷ b'.' ∷ b'p' ∷ b'r' ∷ b'o' ∷ b'd' ∷ b'u' ∷ b'c' ∷ b't' ∷ b'.' ∷ b'd' ∷ b'e' ∷ b'v'
    ∷ b'i' ∷ b'c' ∷ b'e' ∷ []

abbrev pub default_name : List ℕ
default_name = b'a' ∷ b'a' ∷ b'o' ∷ b's' ∷ b'_' ∷ b't' ∷ b'c' ∷ b'u' ∷ []

abbrev pub default_model : List ℕ
default_model = b'T' ∷ b'C' ∷ b'U' ∷ b'-' ∷ b'G' ∷ b'W' ∷ b'-' ∷ b'2' ∷ []

abbrev pub default_device : List ℕ
default_device = b't' ∷ b'c' ∷ b'u' ∷ b'_' ∷ b'g' ∷ b'w' ∷ b'2' ∷ []

abbrev before_name : List ℕ
before_name =
    b'd' ∷ b'e' ∷ b'v' ∷ b'i' ∷ b'c' ∷ b'e' ∷ b':' ∷ b':' ∷ b'r' ∷ b'o' ∷ b'.' ∷ b'p' ∷ b'r' ∷ b'o'
    ∷ b'd' ∷ b'u' ∷ b'c' ∷ b't' ∷ b'.' ∷ b'n' ∷ b'a' ∷ b'm' ∷ b'e' ∷ b'=' ∷ []

abbrev before_model : List ℕ
before_model =
    b';' ∷ b'r' ∷ b'o' ∷ b'.' ∷ b'p' ∷ b'r' ∷ b'o' ∷ b'd' ∷ b'u' ∷ b'c' ∷ b't' ∷ b'.' ∷ b'm' ∷ b'o'
    ∷ b'd' ∷ b'e' ∷ b'l' ∷ b'=' ∷ []

abbrev before_device : List ℕ
before_device =
    b';' ∷ b'r' ∷ b'o' ∷ b'.' ∷ b'p' ∷ b'r' ∷ b'o' ∷ b'd' ∷ b'u' ∷ b'c' ∷ b't' ∷ b'.' ∷ b'd' ∷ b'e'
    ∷ b'v' ∷ b'i' ∷ b'c' ∷ b'e' ∷ b'=' ∷ []

module _ (is_space : ℕ → Bool) where
  -- `line.strip().split("=", 1)`
  abbrev pub assignment : List ℕ → List ℕ × List ℕ
  assignment line = split_once (rstrip is_space (lstrip is_space line))

  abbrev pub read_line : List ℕ → Props → Props
  read_line line props =
      let (k, v) = assignment line in if is_assignment line then set_prop k v props else props

  unfoldable pub read_lines : List (List ℕ) → Props → Props
  read_lines [] props = props
  read_lines (line ∷ rest) props = read_lines rest (read_line line props)

  -- The properties of the file; a file that cannot be opened has none.
  abbrev pub build_props : Option (List (List ℕ)) → Props
  build_props none = []
  build_props (some lines) = read_lines lines []

  -- `banner`
  unfoldable pub banner : Option (List (List ℕ)) → List ℕ
  unfolding read_lines
  banner file =
      let props = build_props file in
      before_name
      ++ (Option.get_or (get_prop product_name props) default_name
          ++ (before_model
              ++ (Option.get_or (get_prop product_model props) default_model
                  ++ (before_device
                      ++ (Option.get_or (get_prop product_device props) default_device
                          ++ b';' ∷ [])))))

  -- The value that a line assigns to the key, and the one that the last of the lines assigns.
  abbrev pub assigned : List ℕ → List ℕ → Option (List ℕ)
  assigned k line =
      if is_assignment line && same_bytes (assignment line).0 k
      then some (assignment line).1
      else none

  abbrev pub or_else : Option (List ℕ) → Option (List ℕ) → Option (List ℕ)
  or_else (some v) other = some v
  or_else none other = other

  abbrev pub last_assigned : List ℕ → List (List ℕ) → Option (List ℕ)
  last_assigned k [] = none
  last_assigned k (line ∷ rest) = or_else (last_assigned k rest) (assigned k line)

same_bytes-eq : (xs ys : List ℕ) → same_bytes xs ys ≡ true → xs ≡ ys
same_bytes-eq [] [] e = refl
same_bytes-eq [] (y ∷ ys) e = ground arith
same_bytes-eq (x ∷ xs) [] e = ground arith
same_bytes-eq (x ∷ xs) (y ∷ ys) e = ground (arith, same_bytes-eq xs ys)

same_bytes_refl : (xs : List ℕ) → same_bytes xs xs ≡ true
same_bytes_refl [] = refl
same_bytes_refl (x ∷ xs) = ground (arith, same_bytes_refl xs)

get_prop-set_prop :
    (j k v : List ℕ) (d : Props)
    → get_prop j (set_prop k v d) ≡ (if same_bytes k j then some v else get_prop j d)
get_prop-set_prop j k v [] = refl
get_prop-set_prop j k v ((a, w) ∷ d) = elim (Bool-cases (same_bytes a k)) [
  | inl same ↦ rw same (
      rw (same_bytes-eq a k same)
        (elim (Bool-cases (same_bytes k j)) [ inl e ↦ rw e refl | inr e ↦ rw e refl ]))
  | inr other ↦
      rw (other, get_prop-set_prop j k v d)
        (elim (Bool-cases (same_bytes k j)) [
          | inr e ↦ rw e refl
          | inl e ↦ elim (Bool-cases (same_bytes a j)) [
            | inr e' ↦ rw (e, e') refl
            | inl e' ↦
                let same = ap (same_bytes a) (same_bytes-eq a j e' ∙ sym (same_bytes-eq k j e)) in
                absurd (cc (other, sym same ∙ same_bytes_refl a))
          ]
        ])
]

module _ (is_space : ℕ → Bool) where
  get_prop-read_line :
      (k line : List ℕ) (props : Props)
      → get_prop k (read_line is_space line props)
        ≡ or_else is_space (assigned is_space k line) (get_prop k props)
  get_prop-read_line k line props = elim (Bool-cases (is_assignment line)) [
    | inr e ↦ rw e refl
    | inl e ↦
        rw (e, get_prop-set_prop k (assignment is_space line).0 (assignment is_space line).1 props)
          (elim (Bool-cases (same_bytes (assignment is_space line).0 k)) [
            | inl e' ↦ rw e' refl
            | inr e' ↦ rw e' refl
          ])
  ]

  or_else_assoc :
      (a b c : Option (List ℕ))
      → or_else is_space a (or_else is_space b c) ≡ or_else is_space (or_else is_space a b) c
  or_else_assoc (some v) b c = refl
  or_else_assoc none b c = refl

  get_prop-read_lines :
      (k : List ℕ) (lines : List (List ℕ)) (props : Props)
      → get_prop k (read_lines is_space lines props)
        ≡ or_else is_space (last_assigned is_space k lines) (get_prop k props)
  unfolding read_lines
  get_prop-read_lines k [] props = refl
  get_prop-read_lines k (line ∷ rest) props =
      get_prop-read_lines k rest (read_line is_space line props)
      ∙ ap (or_else is_space (last_assigned is_space k rest)) (get_prop-read_line k line props)
      ∙ or_else_assoc (last_assigned is_space k rest) (assigned is_space k line) (get_prop k props)

  or_else-none : (o : Option (List ℕ)) → or_else is_space o none ≡ o
  or_else-none (some v) = refl
  or_else-none none = refl

  -- A property of the build is the value that the last line with its key assigns to it.
  pub get_prop-build_props :
      (k : List ℕ) (lines : List (List ℕ))
      → get_prop k (build_props is_space (some lines)) ≡ last_assigned is_space k lines
  get_prop-build_props k lines =
      get_prop-read_lines k lines [] ∙ or_else-none (last_assigned is_space k lines)
