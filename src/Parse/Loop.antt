-- ===== src/Parse/Loop.antt =====
-- What the loop of ParseMessage over the children of a message keeps.
use vsm_cpp_sdk.Prelude.{
  ℕ, ◌≤◌, ◌≡◌, Option, none, some, List, [], ◌∷◌, ◌++◌, arith, Bool-cases, inl, inr, length,
  length-append,
}
use vsm_cpp_sdk.Message.{MlMessage, Field, field, add_field}
use vsm_cpp_sdk.Xml.{Element, tag, attrib, text_of, attr}
use vsm_cpp_sdk.Result.{ok, ◌>>=◌, >>=-eq-ok, ok-subst}
use vsm_cpp_sdk.Text.{Text, codes, text_eq}
use vsm_cpp_sdk.Parse.{message_child, start_of}

-- Before the end of ParseMessage: nothing is counted, and the extensions start within the fields.
pub record IsOpen (m : MlMessage) : Type 0 where
  pub uncounted_v1 : m.len_v1 ≡ 0
  pub uncounted_v2 : m.len_v2 ≡ 0
  pub within : start_of m ≤ length m.fields

within_more :
    (o : Option ℕ) (fs : List Field) (f : Field)
    → (elim o [ none ↦ length fs | some n ↦ n ]) ≤ length fs
    → (elim o [ none ↦ length (fs ++ (f ∷ [])) | some n ↦ n ]) ≤ length (fs ++ (f ∷ []))
within_more none fs f h = omega arith
within_more (some n) fs f h = omega (arith, length-append fs (f ∷ []))

add_field-IsOpen :
    (m r : MlMessage) (name type_text : Text) (d : Option Text)
    → IsOpen m
    → add_field m name type_text d ≡ ok r
    → IsOpen r
unfolding add_field
add_field-IsOpen m r name type_text d h k =
    let (f, e, q) =
      >>=-eq-ok (field name type_text d) (λ g. ok (record m { fields = m.fields ++ (g ∷ []) })) k in
    ok-subst IsOpen q (record {
      uncounted_v1 = h.uncounted_v1;
      uncounted_v2 = h.uncounted_v2;
      within = within_more m.extensions_start m.fields f h.within;
    })

field_child-IsOpen :
    (m r : MlMessage) (e : Element)
    → IsOpen m
    → (do
      name ← attr (codes "name") (attrib e)
      type_text ← attr (codes "type") (attrib e)
      add_field m name type_text (text_of e))
      ≡ ok r
    → IsOpen r
field_child-IsOpen m r e h k =
    let (name, e1, q) =
      >>=-eq-ok (attr (codes "name") (attrib e))
        (λ n. do t ← attr (codes "type") (attrib e); add_field m n t (text_of e)) k in
    let (t, e2, q2) =
      >>=-eq-ok (attr (codes "type") (attrib e)) (λ t. add_field m name t (text_of e)) q in
    add_field-IsOpen m r name t (text_of e) h q2

pub message_child-IsOpen :
    (m r : MlMessage) (e : Element) → IsOpen m → message_child m e ≡ ok r → IsOpen r
unfolding message_child
message_child-IsOpen m r e h k = elim (Bool-cases (text_eq (tag e) (codes "description"))) [
  | inl d ↦
      ok-subst IsOpen (rw d at k)
        (record { uncounted_v1 = h.uncounted_v1; uncounted_v2 = h.uncounted_v2; within = h.within })
  | inr d ↦ elim (Bool-cases (text_eq (tag e) (codes "field"))) [
    | inl f ↦ field_child-IsOpen m r e h (rw (d, f) at k)
    | inr f ↦ elim (Bool-cases (text_eq (tag e) (codes "extensions"))) [
      | inl x ↦ ok-subst IsOpen (rw (d, f, x) at k) (record {
        uncounted_v1 = h.uncounted_v1;
        uncounted_v2 = h.uncounted_v2;
        within = omega arith;
      })
      | inr x ↦ ok-subst IsOpen (rw (d, f, x) at k) h
    ]
  ]
]
