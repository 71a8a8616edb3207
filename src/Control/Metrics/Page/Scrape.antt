-- ===== src/Control/Metrics/Page/Scrape.antt =====
-- What a reader of the text format finds on the page of `/metrics`, crates/conduit-control/src/metrics.rs.
use ferroxy.Prelude.{
  ℕ, ◌≡◌, refl, ap, ◌∙◌, sym, Bool, true, false, not, ◌&&◌, ◌==◌, List, [], ◌∷◌, ◌++◌, Option,
  if◌then◌else◌, arith, all, All,
}
use mathlib.Core.List.{append_assoc}
use ferroxy.Prelude.Text.{Text, codes}
use ferroxy.Prelude.Decimal.{read}
use ferroxy.Control.Metrics.Page.{Line, comment, sample, print_line, print}

-- A sample: its name, and its value if that is a whole number.
abbrev pub Sample : Type 0
Sample = Text × Option ℕ

-- The text up to the first newline, and the rest.
abbrev pub until : ℕ → Text → Text × Text
until b [] = ([], [])
until b (c ∷ s) = let (t, r) = until b s in if c == b then ([], s) else (c ∷ t, r)

-- The lines of a text.
abbrev cons_first : ℕ → List Text → List Text
cons_first c [] = (c ∷ []) ∷ []
cons_first c (l ∷ ls) = (c ∷ l) ∷ ls

pub lines : Text → List Text
lines [] = []
lines (c ∷ s) = let rest = lines s in if c == b'\n' then [] ∷ rest else cons_first c rest

-- A line that starts with `#` is a comment; another has a name, a space and a value.
pub read_line : Text → List Sample
read_line [] = []
read_line (c ∷ s) =
    let (name, value) = until b' ' (c ∷ s) in if c == b'#' then [] else (name, read value) ∷ []

pub read_lines : List Text → List Sample
read_lines [] = []
read_lines (l ∷ ls) = read_line l ++ read_lines ls

unfoldable pub read_page : Text → List Sample
unfolding lines read_line read_lines
read_page t = read_lines (lines t)

abbrev pub no_newline : Text → Bool
no_newline = all (λ c. not (c == b'\n'))

-- A name has no space and no newline, and does not start like a comment.
abbrev pub is_name : Text → Bool
is_name [] = false
is_name (c ∷ s) = not (c == b'#') && all (λ b. not (b == b'\n') && not (b == b' ')) (c ∷ s)

abbrev pub IsClean : Line → Type 0
IsClean (comment t) = no_newline t ≡ true
IsClean (sample name value) = (is_name name ≡ true) × (no_newline value ≡ true)

abbrev pub samples : List Line → List Sample
samples [] = []
samples (comment t ∷ ls) = samples ls
samples (sample name value ∷ ls) = (name, read value) ∷ samples ls

pub samples-append : (xs ys : List Line) → samples (xs ++ ys) ≡ samples xs ++ samples ys
samples-append [] ys = refl
samples-append (comment t ∷ xs) ys = samples-append xs ys
samples-append (sample name value ∷ xs) ys =
    ap (λ (ss : List Sample). (name, read value) ∷ ss) (samples-append xs ys)

pub print-append : (xs ys : List Line) → print (xs ++ ys) ≡ print xs ++ print ys
unfolding print
print-append [] ys = refl
print-append (l ∷ xs) ys =
    ap (λ (t : Text). print_line l ++ t) (print-append xs ys)
    ∙ sym (append_assoc (print_line l) (print xs) (print ys))

lines-line : (t s : Text) → no_newline t ≡ true → lines (t ++ (b'\n' ∷ s)) ≡ t ∷ lines s
unfolding lines
lines-line [] s h = refl
lines-line (c ∷ t) s h = ground (arith, lines-line t s)

until-name :
    (t v : Text)
    → all (λ b. not (b == b'\n') && not (b == b' ')) t ≡ true
    → until b' ' (t ++ (b' ' ∷ v)) ≡ (t, v)
until-name [] v h = refl
until-name (c ∷ t) v h = ground (arith, until-name t v)

read_line-sample :
    (name value : Text)
    → is_name name ≡ true
    → read_line (name ++ (b' ' ∷ value)) ≡ (name, read value) ∷ []
unfolding read_line
read_line-sample [] value h = cc
read_line-sample (c ∷ s) value h = ground (arith, until-name (c ∷ s) value)

no_newline-name :
    (t : Text) → all (λ b. not (b == b'\n') && not (b == b' ')) t ≡ true → no_newline t ≡ true
no_newline-name [] h = refl
no_newline-name (c ∷ t) h = ground (arith, no_newline-name t)

no_newline-append :
    (s t : Text) → no_newline s ≡ true → no_newline t ≡ true → no_newline (s ++ t) ≡ true
no_newline-append [] t h k = k
no_newline-append (c ∷ s) t h k = ground (arith, no_newline-append s t)

-- A text without its newline is read as one line.
read-line :
    (t s : Text) → no_newline t ≡ true → read_page (t ++ (b'\n' ∷ s)) ≡ read_line t ++ read_page s
unfolding read_page read_lines
read-line t s h = rw (lines-line t s h) refl

is_name-tail : (t : Text) → is_name t ≡ true → no_newline t ≡ true
is_name-tail [] h = refl
is_name-tail (c ∷ s) h = no_newline-name (c ∷ s) (ground arith)

read-print_line :
    (l : Line) (s : Text)
    → IsClean l
    → read_page (print_line l ++ s) ≡ samples (l ∷ []) ++ read_page s
read-print_line (comment t) s h =
    ap read_page (ap (λ (u : Text). b'#' ∷ (b' ' ∷ u)) (append_assoc t (codes "\n") s))
    ∙ read-line (b'#' ∷ (b' ' ∷ t)) s h
    ∙ unfold read_line in refl
read-print_line (sample name value) s (n, v) =
    let line = name ++ (b' ' ∷ value) in
    ap read_page (simp append_assoc)
    ∙ read-line line s (no_newline-append name (b' ' ∷ value) (is_name-tail name n) v)
    ∙ ap (λ (xs : List Sample). xs ++ read_page s) (read_line-sample name value n)

pub read-print : (ls : List Line) → All IsClean ls → read_page (print ls) ≡ samples ls
unfolding print
read-print [] a = unfold read_page lines read_line read_lines in refl
read-print (l ∷ ls) (h, a) =
    read-print_line l (print ls) h
    ∙ ap (λ (xs : List Sample). samples (l ∷ []) ++ xs) (read-print ls a)
    ∙ sym (samples-append (l ∷ []) ls)
