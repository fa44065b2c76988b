-- ===== src/Emit.antt =====
-- What the generators of tools/mavgen/mavgen.py share. A generator returns the text that it writes.
-- Python 2.7 visits a dict in an order of its own: `order` gives it from the keys.
use vsm_cpp_sdk.Prelude.{
  Bool, true, false, Option, none, some, List, [], ◌∷◌, ◌++◌, leb, if◌then◌else◌,
}
use vsm_cpp_sdk.Text.{Text, codes, cat, for_each, lower}
use vsm_cpp_sdk.Text.Int.{ℤ, pos, negsuc, show_int}
use vsm_cpp_sdk.Dict.{Dict, get, keys}
use vsm_cpp_sdk.Model.{Entry}
use vsm_cpp_sdk.Message.{MlMessage}

abbrev pub with_value {ℓ} : {V : Type ℓ} → Text → Option V → List (Text × V) → List (Text × V)
with_value k none rest = rest
with_value k (some v) rest = (k, v) ∷ rest

-- `for k in d: ... d[k]`: the keys in the order of the dict, each with its value.
unfoldable pub visit {ℓ} : {V : Type ℓ} → List Text → Dict V → List (Text × V)
visit [] d = []
visit (k ∷ ks) d = with_value k (get k d) (visit ks d)

unfoldable pub items {ℓ} : {V : Type ℓ} → (List Text → List Text) → Dict V → List (Text × V)
unfolding visit
items order d = visit (order (keys d)) d

unfoldable pub snds {ℓ} : {V : Type ℓ} → List (Text × V) → List V
snds [] = []
snds ((k, v) ∷ d) = v ∷ snds d

-- a <= b on integers
unfoldable pub int_leb : ℤ → ℤ → Bool
int_leb (pos a) (pos b) = leb a b
int_leb (pos a) (negsuc b) = false
int_leb (negsuc a) (pos b) = true
int_leb (negsuc a) (negsuc b) = leb b a

-- sorted(entry.params.keys()), each key with its value.
unfoldable pub insert_param : ℤ × Option Text → List (ℤ × Option Text) → List (ℤ × Option Text)
unfolding int_leb
insert_param p [] = p ∷ []
insert_param p (q ∷ qs) = if int_leb p.0 q.0 then p ∷ q ∷ qs else q ∷ insert_param p qs

unfoldable pub sort_params : List (ℤ × Option Text) → List (ℤ × Option Text)
unfolding insert_param
sort_params [] = []
sort_params (p ∷ ps) = insert_param p (sort_params ps)

-- '%s' % text, where there may be no text
abbrev pub or_none : Option Text → Text
or_none none = codes "None"
or_none (some t) = t

unfoldable pub param_text : ℤ × Option Text → Text
param_text (i, d) = cat (codes "Param " ∷ show_int i ∷ codes ": " ∷ or_none d ∷ codes "\n\n" ∷ [])

-- The comment of an enum entry, which GenerateEnum and GeneratePyEnum build alike.
unfoldable pub entry_comment : Entry → Text
unfolding sort_params param_text
entry_comment e =
    (elim e.description [ none ↦ [] | some d ↦ d ++ codes "\n" ])
    ++ for_each param_text (sort_params e.params)

-- msg.name.lower()
unfoldable pub lower_name : MlMessage → Text
lower_name m = lower m.name

abbrev pub in_namespace : (Text → Text) → Option Text → Text
in_namespace f none = []
in_namespace f (some ns) = f ns

-- The lines that open and close the namespace of a file, and its prefix of a name.
unfoldable pub open_namespace : Option Text → Text
open_namespace = in_namespace (λ ns. cat (codes "namespace " ∷ ns ∷ codes " {\n" ∷ []))

unfoldable pub close_namespace : Option Text → Text
close_namespace = in_namespace (λ ns. cat (codes "} /* namespace " ∷ ns ∷ codes " */\n" ∷ []))

unfoldable pub namespace_prefix : Option Text → Text
namespace_prefix = in_namespace (λ ns. ns ++ codes "::")
