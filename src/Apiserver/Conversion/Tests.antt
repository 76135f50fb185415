-- ===== src/Apiserver/Conversion/Tests.antt =====
-- Definitions with and without a webhook that converts.
use spillway.Prelude.{Option, ℕ, ◌≡◌, refl, true, false, none, some, List, [], ◌∷◌, Any}
use spillway.Prelude.Text.{Text, bytes, text_key, text_eq}
use spillway.Prelude.Maps.{lookup, insert}
use spillway.Kcp.Api.{GroupKind, group_kind_key, group_kind_eq}
use spillway.Apiserver.Gate.{GroupVersionKind}
use spillway.Apiserver.Conversion.{
  Definition, ConversionPolicy, fill, relabels, convert_objects, convert,
}
use spillway.Apiserver.Conversion.Answered.{Question, ask_all, IsAnswer, relabels-IsAnswer}
use spillway.Apiserver.Conversion.Presented.{IsInterchangeable, IsPresented, convert-IsPresented}

abbrev widget : GroupKind
widget = record { group = bytes "e.com"; kind = bytes "Widget" }

abbrev gadget : GroupKind
gadget = record { group = bytes "e.com"; kind = bytes "Gadget" }

abbrev definitions : List Definition
definitions =
    record { group = bytes "e.com"; kind = bytes "Widget"; conversion = none }
    ∷ record { group = bytes "e.com"; kind = bytes "Gadget"; conversion = some (bytes "Webhook") }
    ∷ []

abbrev fresh_policy : ConversionPolicy
fresh_policy = record { cached = []; cached_from = 0; loaded = false }

abbrev version_of : Text → GroupVersionKind
version_of version = record { group = bytes "e.com"; version = version; kind = bytes "Widget" }

code : Unit {0}
unfolding text_eq lookup insert group_kind_eq fill relabels convert_objects convert ask_all
code = tt

answers :
    ((relabels 3 (some definitions) widget fresh_policy).1 ≡ true)
    × ((relabels 3 (some definitions) gadget fresh_policy).1 ≡ false)
unfolding code
answers = (refl, refl)

-- An object is its kind here.
abbrev kind_of : GroupVersionKind → GroupVersionKind
kind_of object = object

abbrev set_kind : GroupVersionKind → GroupVersionKind → GroupVersionKind
set_kind kind object = kind

convert-IsPresented_example :
    (s : GroupVersionKind) × (t : GroupVersionKind) × (some (version_of (bytes "v1")) ≡ some s)
    × (some (version_of (bytes "v2")) ≡ some t)
    × (version_of (bytes "v2") ≡ t)
    × IsPresented kind_of set_kind (λ kind object. refl) (λ kind. true) s (version_of (bytes "v2"))
unfolding code
convert-IsPresented_example =
    convert-IsPresented kind_of set_kind (λ kind object. refl) (λ kind. true)
      (some (version_of (bytes "v1"))) (some (version_of (bytes "v2"))) (version_of (bytes "v2"))
      refl

abbrev question : (generation : ℕ) → Option (List Definition) → Question
question generation answer = record { generation = generation; answer = answer; kind = widget }

-- A question that fails, and one of an older generation, before the last.
relabels-IsAnswer_example :
    (ds : List Definition) × Any
      (IsAnswer 3 ds)
      (question 3 (some definitions) ∷ question 3 none ∷ question 2 (some []) ∷ [])
    × Any (IsInterchangeable widget) ds
unfolding code
relabels-IsAnswer_example =
    relabels-IsAnswer (question 3 none ∷ question 2 (some []) ∷ []) (question 3 (some definitions))
      refl
