-- ===== src/Apiserver/Paths.antt =====
-- The functions of the standard package path that pkg/apiserver uses on request paths: Clean and
-- Join, by the steps that the package documents, over the segments between slashes.
pub mod Segments
pub mod Cleaning
use spillway.Prelude.{
  ℕ, Bool, true, false, ◌&&◌, ◌||◌, not, List, [], ◌∷◌, ◌++◌, if◌then◌else◌, eqb, Comparable, ◌==◌,
}
use spillway.Prelude.Text.{Text, bytes, text_key}

-- strings.Split(s, "/"): at least one segment
abbrev pub cons_head : ℕ → List Text → List Text
cons_head c [] = (c ∷ []) ∷ []
cons_head c (head ∷ tail) = (c ∷ head) ∷ tail

unfoldable pub split : Text → List Text
split [] = [] ∷ []
split (c ∷ s) = let rest = split s in if eqb c b'/' then [] ∷ rest else cons_head c rest

-- strings.Join(segments, "/")
unfoldable pub join_path : List Text → Text
join_path [] = []
join_path (s ∷ []) = s
join_path (s ∷ t ∷ rest) = s ++ (b'/' ∷ join_path (t ∷ rest))

-- A segment that Clean removes or that removes another one.
abbrev pub is_plain : Text → Bool
is_plain s = not (s == []) && not (s == bytes ".") && not (s == bytes "..")

-- One segment, onto those that are kept so far, the last one first.
abbrev pub resolve_up : (rooted : Bool) → List Text → List Text
resolve_up true [] = []
resolve_up false [] = bytes ".." ∷ []
resolve_up rooted (top ∷ below) = if top == bytes ".." then bytes ".." ∷ top ∷ below else below

unfoldable pub resolve : (rooted : Bool) → List Text → Text → List Text
resolve rooted stack segment =
    if segment == [] || segment == bytes "."
    then stack
    else if segment == bytes ".."
    then resolve_up rooted stack
    else segment ∷ stack

unfoldable pub walk : (rooted : Bool) → List Text → List Text → List Text
walk rooted stack [] = stack
walk rooted stack (segment ∷ rest) = walk rooted (resolve rooted stack segment) rest

-- The segments that are kept, the first one first.
unfoldable pub finish : List Text → List Text → List Text
finish [] out = out
finish (top ∷ below) out = finish below (top ∷ out)

abbrev pub or_dot : Text → Text
or_dot [] = bytes "."
or_dot (c ∷ s) = c ∷ s

-- path.Clean(p)
unfoldable pub clean : Text → Text
clean [] = bytes "."
clean (c ∷ s) =
    if eqb c b'/'
    then b'/' ∷ join_path (finish (walk true [] (split s)) [])
    else or_dot (join_path (finish (walk false [] (split (c ∷ s))) []))

-- path.Join(a, b)
unfoldable pub join_two : Text → Text → Text
join_two [] [] = []
join_two [] (c ∷ b) = clean (c ∷ b)
join_two (c ∷ a) [] = clean (c ∷ a)
join_two (c ∷ a) (d ∷ b) = clean ((c ∷ a) ++ (b'/' ∷ d ∷ b))
