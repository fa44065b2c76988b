-- ===== src/Parse/Declared.antt =====
-- What ParseMessage promises of a message, from the children that declare its fields.
use mathlib.Core.Path.{subst}
use vsm_cpp_sdk.Prelude.{
  ℕ, ◌+◌, Option, none, some, length, length-append, ap₂, append_assoc, append-nil, true, false,
  sym, ap, ◌∙◌, refl, ◌≡◌, List, [], ◌∷◌, ◌++◌, if◌then◌else◌, arith, Bool-cases, inl, inr,
}
use vsm_cpp_sdk.Message.{MlMessage, Field, ml_message, field, add_field}
use vsm_cpp_sdk.Xml.{Element, tag, attrib, text_of, children, attr}
use vsm_cpp_sdk.Result.{Result, ok, ◌>>=◌, >>=-eq-ok, fold, fold_inv, ok-subst}
use vsm_cpp_sdk.Model.{MlFile}
use vsm_cpp_sdk.Text.{text_eq_iff, Text, codes, text_eq}
use vsm_cpp_sdk.Parse.{int, message_child, finish_message, parse_message}
use vsm_cpp_sdk.Parse.Loop.{IsOpen, message_child-IsOpen}
use vsm_cpp_sdk.Parse.Finish.{IsFinished, finish_message-IsFinished, finish_message-start}

-- The fields that the children declare, in the order of the file.
unfoldable pub declared : List Element → Result (List Field)
declared [] = ok []
declared (e ∷ es) =
    if text_eq (tag e) (codes "field")
    then (do
      name ← attr (codes "name") (attrib e)
      type_text ← attr (codes "type") (attrib e)
      f ← field name type_text (text_of e)
      fs ← declared es
      ok (f ∷ fs))
    else declared es

-- A list of children is a list of fields behind the fields that are there.
abbrev Adds : MlMessage → List Element → MlMessage → Type 0
Adds m es o = (gs : List Field) × (declared es ≡ ok gs) × (o.fields ≡ m.fields ++ gs)

Adds-skip :
    (m r o : MlMessage) (e : Element) (es : List Element)
    → text_eq (tag e) (codes "field") ≡ false
    → r.fields ≡ m.fields
    → Adds r es o
    → Adds m (e ∷ es) o
unfolding declared
Adds-skip m r o e es h k (gs, d, q) = (gs, rw h d, q ∙ ap (λ fs. fs ++ gs) k)

Adds-field :
    (m r o : MlMessage) (e : Element) (es : List Element)
    → text_eq (tag e) (codes "field") ≡ true
    → (do
      name ← attr (codes "name") (attrib e)
      type_text ← attr (codes "type") (attrib e)
      add_field m name type_text (text_of e))
      ≡ ok r
    → Adds r es o
    → Adds m (e ∷ es) o
unfolding declared add_field
Adds-field m r o e es h k (gs, d, q) =
    let (name, e1, k1) =
      >>=-eq-ok (attr (codes "name") (attrib e))
        (λ n. do t ← attr (codes "type") (attrib e); add_field m n t (text_of e)) k in
    let (t, e2, k2) =
      >>=-eq-ok (attr (codes "type") (attrib e)) (λ t. add_field m name t (text_of e)) k1 in
    let (f, e3, k3) =
      >>=-eq-ok (field name t (text_of e)) (λ g. ok (record m { fields = m.fields ++ (g ∷ []) }))
        k2 in
    (
      f ∷ gs,
      rw (h, e1, e2, e3, d),
      q
          ∙ (ap (λ fs. fs ++ gs)
                (ok-subst (λ (s : MlMessage). s.fields ≡ m.fields ++ (f ∷ [])) k3 refl)
              ∙ append_assoc m.fields (f ∷ []) gs),
    )

child-Adds :
    (m r o : MlMessage) (e : Element) (es : List Element)
    → message_child m e ≡ ok r
    → Adds r es o
    → Adds m (e ∷ es) o
unfolding message_child
child-Adds m r o e es k a = elim (Bool-cases (text_eq (tag e) (codes "description"))) [
  | inl d ↦
      Adds-skip m r o e es (description-ne-field (tag e) d)
        (ok-subst (λ (s : MlMessage). s.fields ≡ m.fields) (rw d at k) refl) a
  | inr d ↦ elim (Bool-cases (text_eq (tag e) (codes "field"))) [
    | inl f ↦ Adds-field m r o e es f (rw (d, f) at k) a
    | inr f ↦ elim (Bool-cases (text_eq (tag e) (codes "extensions"))) [
      | inl x ↦
          Adds-skip m r o e es f
            (ok-subst (λ (s : MlMessage). s.fields ≡ m.fields) (rw (d, f, x) at k) refl) a
      | inr x ↦
          Adds-skip m r o e es f
            (ok-subst (λ (s : MlMessage). s.fields ≡ m.fields) (rw (d, f, x) at k) refl) a
    ]
  ]
]
  where
    description-ne-field :
        (t : Text) → text_eq t (codes "description") ≡ true → text_eq t (codes "field") ≡ false
    description-ne-field t h =
        rw ((text_eq_iff t (codes "description")).0 h) (unfold text_eq in refl)

fold-Adds : (m o : MlMessage) (es : List Element) → fold message_child m es ≡ ok o → Adds m es o
unfolding fold
fold-Adds m o [] h = (
  [],
  unfold declared in refl,
  ok-subst (λ (s : MlMessage). s.fields ≡ m.fields ++ []) h (sym (append-nil m.fields)),
)
fold-Adds m o (e ∷ es) h =
    let (r, k, q) = >>=-eq-ok (message_child m e) (λ s. fold message_child s es) h in
    child-Adds m r o e es k (fold-Adds r o es q)

-- Where the last child `extensions` stands: behind how many fields, of which `n` come before.
unfoldable pub declared_start : ℕ → Option ℕ → List Element → Option ℕ
declared_start n start [] = start
declared_start n start (e ∷ es) =
    if text_eq (tag e) (codes "field")
    then declared_start (n + 1) start es
    else if text_eq (tag e) (codes "extensions")
    then declared_start n (some n) es
    else declared_start n start es

abbrev pub start_in : List Field → Option ℕ → ℕ
start_in fs none = length fs
start_in fs (some n) = n

-- What is to come after a child is what is to come after the message that it leaves.
abbrev Onward : MlMessage → Element → List Element → MlMessage → Type 0
Onward m e es r =
    declared_start (length m.fields) m.extensions_start (e ∷ es)
    ≡ declared_start (length r.fields) r.extensions_start es

field-onward :
    (m r : MlMessage) (e : Element) (es : List Element)
    → text_eq (tag e) (codes "field") ≡ true
    → (do
      name ← attr (codes "name") (attrib e)
      type_text ← attr (codes "type") (attrib e)
      add_field m name type_text (text_of e))
      ≡ ok r
    → Onward m e es r
unfolding declared_start add_field
field-onward m r e es h k =
    let (name, e1, k1) =
      >>=-eq-ok (attr (codes "name") (attrib e))
        (λ n. do t ← attr (codes "type") (attrib e); add_field m n t (text_of e)) k in
    let (t, e2, k2) =
      >>=-eq-ok (attr (codes "type") (attrib e)) (λ t. add_field m name t (text_of e)) k1 in
    let (f, e3, k3) =
      >>=-eq-ok (field name t (text_of e)) (λ g. ok (record m { fields = m.fields ++ (g ∷ []) }))
        k2 in
    rw h (
      ok-subst
        (λ (s : MlMessage).
          declared_start (length m.fields + 1) m.extensions_start es
          ≡ declared_start (length s.fields) s.extensions_start es)
        k3
        (ap (λ n. declared_start n m.extensions_start es) (sym (length-append m.fields (f ∷ [])))))

child-onward :
    (m r : MlMessage) (e : Element) (es : List Element) → message_child m e ≡ ok r → Onward m e es r
unfolding message_child declared_start
child-onward m r e es k = elim (Bool-cases (text_eq (tag e) (codes "description"))) [
  | inl d ↦
      let is_description = (text_eq_iff (tag e) (codes "description")).0 d in
      ok-subst (Onward m e es) (rw d at k) (rw is_description (unfold text_eq in refl))
  | inr d ↦ elim (Bool-cases (text_eq (tag e) (codes "field"))) [
    | inl f ↦ field-onward m r e es f (rw (d, f) at k)
    | inr f ↦ elim (Bool-cases (text_eq (tag e) (codes "extensions"))) [
      | inl x ↦ ok-subst (Onward m e es) (rw (d, f, x) at k) (rw (f, x) refl)
      | inr x ↦ ok-subst (Onward m e es) (rw (d, f, x) at k) (rw (f, x) refl)
    ]
  ]
]

fold-starts :
    (m o : MlMessage) (es : List Element)
    → fold message_child m es ≡ ok o
    → o.extensions_start ≡ declared_start (length m.fields) m.extensions_start es
unfolding fold declared_start
fold-starts m o [] h = ok-subst (λ (s : MlMessage). s.extensions_start ≡ m.extensions_start) h refl
fold-starts m o (e ∷ es) h =
    let (r, k, q) = >>=-eq-ok (message_child m e) (λ s. fold message_child s es) h in
    fold-starts r o es q ∙ sym (child-onward m r e es k)

-- What ParseMessage returns is finished, for the fields that the children declare; its extensions
-- start behind as many fields as stand before the last child `extensions`, or behind all of them.
pub parse_message-IsFinished :
    (file : MlFile) (e : Element) (m : MlMessage)
    → parse_message file e ≡ ok m
    → (fs : List Field) × (declared (children e) ≡ ok fs)
      × IsFinished fs m
      × (m.extensions_start ≡ some (start_in fs (declared_start 0 none (children e))))
unfolding parse_message ml_message
parse_message-IsFinished file e m h =
    let (name, e1, h1) =
      >>=-eq-ok (attr (codes "name") (attrib e))
        (λ n. do
          i ← attr (codes "id") (attrib e)
          id ← int i
          m ← fold message_child (ml_message file n id) (children e)
          finish_message m)
        h in
    let (i, e2, h2) =
      >>=-eq-ok (attr (codes "id") (attrib e))
        (λ i. do
          id ← int i
          m ← fold message_child (ml_message file name id) (children e)
          finish_message m)
        h1 in
    let (id, e3, h3) =
      >>=-eq-ok (int i)
        (λ id. do m ← fold message_child (ml_message file name id) (children e); finish_message m)
        h2 in
    let (o, e4, h4) =
      >>=-eq-ok (fold message_child (ml_message file name id) (children e)) finish_message h3 in
    let op : IsOpen o =
      fold_inv message_child IsOpen (λ s s' x k r. message_child-IsOpen s s' x k r)
        (ml_message file name id) o (children e) (omega arith) e4 in
    let (fs, d, q) = fold-Adds (ml_message file name id) o (children e) e4 in
    let start = fold-starts (ml_message file name id) o (children e) e4 in
    (
      fs,
      d,
      subst (λ gs. IsFinished gs m) q (finish_message-IsFinished o m op h4),
      finish_message-start o m h4
          ∙ ap₂ (λ (gs : List Field) (k : Option ℕ). some (start_in gs k)) q start,
    )
