-- ===== src/Apiserver/Paths/Cleaning/Joining.antt =====
-- Where Join puts one cleaned path under another.
use mathlib.Core.List.{append-nil}
use spillway.Prelude.{◌≡◌, refl, sym, ◌∙◌, ap, true, List, [], ◌∷◌, ◌++◌, All}
use spillway.Prelude.Text.{Text, text_key, text_eq}
use spillway.Apiserver.Paths.{split, join_path, resolve, walk, finish, clean, join_two}
use spillway.Apiserver.Paths.Segments.{join_path-split, split-split}
use spillway.Apiserver.Paths.Cleaning.{
  IsPlain, finish-walk, walk-append, walk-empty, clean-rooted, finish-empty,
}

-- Clean of two paths with a slash between, where it keeps `s` of the second.
clean-joined :
    (l t s : Text)
    → All IsPlain (split l)
    → ((stack : List Text) → finish (walk true stack (split t)) [] ≡ finish stack (split s))
    → clean (b'/' ∷ (l ++ (b'/' ∷ t))) ≡ b'/' ∷ (l ++ (b'/' ∷ s))
clean-joined l t s plain keeps =
    clean-rooted (l ++ (b'/' ∷ t))
    ∙ ap (λ segments. b'/' ∷ join_path segments)
        (ap (λ segments. finish (walk true [] segments) []) (split-split l t)
          ∙ ap (λ stack. finish stack []) (walk-append true [] (split l) (split t))
          ∙ keeps (walk true [] (split l))
          ∙ finish-walk true [] (split l) (split s) plain
          ∙ finish-empty (split l) (split s)
          ∙ sym (split-split l s))
    ∙ ap (λ t. b'/' ∷ t) (join_path-split (l ++ (b'/' ∷ s)))

split-rooted : (s : Text) → split (b'/' ∷ s) ≡ [] ∷ split s
unfolding split
split-rooted s = refl

walk-skip :
    (stack segments : List Text) → walk true stack ([] ∷ segments) ≡ walk true stack segments
unfolding walk resolve text_eq
walk-skip stack segments = refl

keeps_rooted :
    (s : Text) (stack : List Text)
    → All IsPlain (split s)
    → finish (walk true stack (split (b'/' ∷ s))) [] ≡ finish stack (split s)
keeps_rooted s stack plain =
    ap (λ segments. finish (walk true stack segments) []) (split-rooted s)
    ∙ ap (λ st. finish st []) (walk-skip stack (split s))
    ∙ finish-walk true stack (split s) [] plain
    ∙ ap (finish stack) (append-nil (split s))

keeps_slash :
    (s : Text) (stack : List Text)
    → All IsPlain (split s)
    → finish (walk true stack (split (b'/' ∷ (s ++ (b'/' ∷ []))))) [] ≡ finish stack (split s)
unfolding split
keeps_slash s stack plain =
    ap (λ segments. finish (walk true stack segments) [])
      (split-rooted (s ++ (b'/' ∷ [])) ∙ ap (λ x. [] ∷ x) (split-split s []))
    ∙ ap (λ st. finish st [])
        (walk-skip stack (split s ++ ([] ∷ []))
          ∙ walk-append true stack (split s) ([] ∷ [])
          ∙ walk-empty true (walk true stack (split s)))
    ∙ finish-walk true stack (split s) [] plain
    ∙ ap (finish stack) (append-nil (split s))

-- Under a path from the root whose segments all name something, Join puts another one as it is,
-- whether or not that ends in a slash.
pub join_two-under :
    (l s : Text)
    → All IsPlain (split l)
    → All IsPlain (split s)
    → (join_two (b'/' ∷ l) (b'/' ∷ s) ≡ (b'/' ∷ l) ++ (b'/' ∷ s))
      × (join_two (b'/' ∷ l) ((b'/' ∷ s) ++ (b'/' ∷ [])) ≡ (b'/' ∷ l) ++ (b'/' ∷ s))
unfolding join_two
join_two-under l s pl ps = (
  clean-joined l (b'/' ∷ s) s pl (λ stack. keeps_rooted s stack ps),
  clean-joined l (b'/' ∷ (s ++ (b'/' ∷ []))) s pl (λ stack. keeps_slash s stack ps),
)

-- Clean of a path and of another one after a slash that names nothing.
clean-ended :
    (l t : Text)
    → All IsPlain (split l)
    → ((stack : List Text) → walk true stack (split t) ≡ stack)
    → clean (b'/' ∷ (l ++ (b'/' ∷ t))) ≡ b'/' ∷ l
clean-ended l t plain idle =
    clean-rooted (l ++ (b'/' ∷ t))
    ∙ ap (λ segments. b'/' ∷ join_path segments)
        (ap (λ segments. finish (walk true [] segments) []) (split-split l t)
          ∙ ap (λ stack. finish stack []) (walk-append true [] (split l) (split t))
          ∙ ap (λ stack. finish stack []) (idle (walk true [] (split l)))
          ∙ finish-walk true [] (split l) [] plain
          ∙ finish-empty (split l) []
          ∙ append-nil (split l))
    ∙ ap (λ t. b'/' ∷ t) (join_path-split l)

-- Under such a path, Join puts the root, and two slashes, as the path itself.
pub join_two-root :
    (l : Text)
    → All IsPlain (split l)
    → (join_two (b'/' ∷ l) (b'/' ∷ []) ≡ b'/' ∷ l)
      × (join_two (b'/' ∷ l) (b'/' ∷ b'/' ∷ []) ≡ b'/' ∷ l)
unfolding join_two split walk resolve text_eq
join_two-root l plain = (
  clean-ended l (b'/' ∷ []) plain (λ stack. refl),
  clean-ended l (b'/' ∷ b'/' ∷ []) plain (λ stack. refl),
)
