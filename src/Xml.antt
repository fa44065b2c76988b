-- ===== src/Xml.antt =====
-- The part of xml.etree.ElementTree that tools/mavgen/mavgen.py reads: a parsed element has a tag,
-- attributes, the text before its first child, and children.
use vsm_cpp_sdk.Prelude.{Option, none, some, List, [], ◌∷◌, if◌then◌else◌}
use vsm_cpp_sdk.Text.{Text, text_eq}
use vsm_cpp_sdk.Result.{Result, ok, err, key_error}

mutual
  pub data Element : Type 0 where
    element : Text → List (Text × Text) → Option Text → Elements → Element

  pub data Elements : Type 0 where
    nil : Elements
    cons : Element → Elements → Elements

-- e.tag
unfoldable pub tag : Element → Text
tag (element t a s es) = t

-- e.attrib
unfoldable pub attrib : Element → List (Text × Text)
attrib (element t a s es) = a

-- e.text
unfoldable pub text_of : Element → Option Text
text_of (element t a s es) = s

-- The children of an element in document order, as `for c in e` visits them.
unfoldable pub to_list : Elements → List Element
to_list nil = []
to_list (cons e es) = e ∷ to_list es

unfoldable pub children : Element → List Element
unfolding to_list
children (element t a s es) = to_list es

-- d[k] where d is e.attrib: a missing key is a KeyError
unfoldable pub attr : Text → List (Text × Text) → Result Text
attr k [] = err key_error
attr k ((j, v) ∷ d) = if text_eq j k then ok v else attr k d

-- d.get(k), of which `k in d` is the test
unfoldable pub attr? : Text → List (Text × Text) → Option Text
attr? k [] = none
attr? k ((j, v) ∷ d) = if text_eq j k then some v else attr? k d

-- root.find(name): the first child with that tag
unfoldable pub find : Text → List Element → Option Element
unfolding tag
find t [] = none
find t (e ∷ es) = if text_eq (tag e) t then some e else find t es
