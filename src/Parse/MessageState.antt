-- ===== src/Parse/MessageState.antt =====
-- The messages of opts while ParseInput reads a file.
use vsm_cpp_sdk.Prelude.{
  ◌≡◌, refl, ap, ◌∙◌, List, [], ◌∷◌, ◌++◌, append_assoc, Bool, Bool-cases, Option-cases, inl, inr,
}
use vsm_cpp_sdk.Text.{Text, codes, text_eq}
use vsm_cpp_sdk.Result.{ok, >>=-eq-ok, ok-subst}
use vsm_cpp_sdk.Dict.{Dict, get, keys, values, put_new, values-append, Distinct, Distinct-put}
use vsm_cpp_sdk.Xml.{Element, tag}
use vsm_cpp_sdk.Model.{MlFile, qualified_name}
use vsm_cpp_sdk.Message.{MlMessage}
use vsm_cpp_sdk.Parse.{Opts, add_message, message_element, parse_message}

-- Each message stands under its qualified name.
abbrev pub Keyed : Bool → Dict MlMessage → Type 0
Keyed merge_ext [] = Unit
Keyed merge_ext ((k, m) ∷ d) = (k ≡ qualified_name merge_ext m.file m.name) × Keyed merge_ext d

Keyed-append : (b : Bool) (d e : Dict MlMessage) → Keyed b d → Keyed b e → Keyed b (d ++ e)
Keyed-append b [] e h k = k
Keyed-append b ((n, m) ∷ d) e (hm, hd) k = (hm, Keyed-append b d e hd k)

-- The messages `ms` are those that came in since `a`; the keys stay distinct and are the qualified
-- names; and the rest of the state is that of `a`.
pub record MessagesAdded (a b : Opts) (ms : List MlMessage) : Type 0 where
  pub keyed : Keyed b.merge_ext b.messages
  pub distinct : Distinct (keys b.messages)
  pub added : values b.messages ≡ values a.messages ++ ms
  pub same : (b.merge_ext ≡ a.merge_ext) × (b.enums ≡ a.enums) × (b.files ≡ a.files)

abbrev pub AddedPair : Opts → Opts × List MlMessage → Type 0
AddedPair a (b, ms) = MessagesAdded a b ms

add_message-AddedPair :
    (a o : Opts) (ms : List MlMessage) (r : Opts × List MlMessage) (m : MlMessage)
    → MessagesAdded a o ms
    → add_message o ms m ≡ ok r
    → AddedPair a r
unfolding add_message values keys
add_message-AddedPair a o ms r m h k =
    let name : Text = qualified_name o.merge_ext m.file m.name in
    elim (Option-cases (get name o.messages)) [
      | inl new ↦
          let e = put_new name m o.messages new in
          ok-subst (AddedPair a) (rw (new, add_message) at k) (record {
            keyed = rw e (Keyed-append o.merge_ext o.messages ((name, m) ∷ []) h.keyed (refl, tt));
            distinct = Distinct-put name m o.messages new h.distinct;
            added =
                ap values e
                ∙ (values-append o.messages ((name, m) ∷ [])
                    ∙ (ap (λ xs. xs ++ (m ∷ [])) h.added
                        ∙ append_assoc (values a.messages) ms (m ∷ [])));
            same = h.same;
          })
      | inr (old, there) ↦ cc (rw (there, add_message) at k)
    ]

pub message_element-AddedPair :
    (file : MlFile) (a : Opts) (s r : Opts × List MlMessage) (e : Element)
    → AddedPair a s
    → message_element file s e ≡ ok r
    → AddedPair a r
unfolding message_element
message_element-AddedPair file a (o, ms) r e h k =
    elim (Bool-cases (text_eq (tag e) (codes "message"))) [
      | inl x ↦
          let (m, p, q) = >>=-eq-ok (parse_message file e) (λ m. add_message o ms m) (rw x at k) in
          add_message-AddedPair a o ms r m h q
      | inr x ↦ ok-subst (AddedPair a) (rw x at k) h
    ]
