-- ===== src/Parse/Input.antt =====
-- What ParseInput leaves in `opts`.
use mathlib.Core.Path.{subst₂}
use vsm_cpp_sdk.Prelude.{
  ◌≡◌, refl, sym, ap, ◌∙◌, subst, Option, none, some, List, [], ◌∷◌, ◌++◌, append-nil, append_assoc,
  Bool, Option-cases, inl, inr,
}
use vsm_cpp_sdk.Text.{Text, codes}
use vsm_cpp_sdk.Text.Int.{ℤ}
use vsm_cpp_sdk.Result.{Result, ok, ◌>>=◌, >>=-eq-ok, fold_inv, ok-subst}
use vsm_cpp_sdk.Dict.{Dict, get, put, keys, values, put_new, put_last, Distinct}
use vsm_cpp_sdk.Xml.{Element, children, find}
use vsm_cpp_sdk.Model.{MlFile, ml_file}
use vsm_cpp_sdk.Message.{MlMessage}
use vsm_cpp_sdk.Parse.{
  Opts, FileEntry, message_element, parse_messages, file_enums, file_messages, filed, parse_root,
  parse_file, parse_input,
}
use vsm_cpp_sdk.Parse.EnumState.{Enums, EnumsAdded, parse_enums-EnumsAdded}
use vsm_cpp_sdk.Parse.MessageState.{AddedPair, Keyed, MessagesAdded, message_element-AddedPair}

-- The messages of all files, in the order of the files.
unfoldable pub all_messages : Dict FileEntry → List MlMessage
all_messages [] = []
all_messages ((k, f) ∷ fs) = f.messages ++ all_messages fs

all_messages-append :
    (d e : Dict FileEntry) → all_messages (d ++ e) ≡ all_messages d ++ all_messages e
unfolding all_messages
all_messages-append [] e = refl
all_messages-append ((k, f) ∷ d) e =
    ap (λ ms. f.messages ++ ms) (all_messages-append d e)
    ∙ sym (append_assoc f.messages (all_messages d) (all_messages e))

-- What holds of `opts` after any number of files: enums are valid and stand under their qualified names; no two
-- messages have one qualified name, and each stands under its own; and the messages of the dictionary are those of
-- the files, in order, none lost and none added.
pub record IsConsistent (o : Opts) : Type 0 where
  pub enums : Enums o.merge_ext o.enums
  pub keyed : Keyed o.merge_ext o.messages
  pub distinct : Distinct (keys o.messages)
  pub filed : values o.messages ≡ all_messages o.files

file_enums-EnumsAdded :
    (eval : Text → Result ℤ) (file : MlFile) (o r : Opts) (e : Option Element)
    → Enums o.merge_ext o.enums
    → file_enums eval file o e ≡ ok r
    → EnumsAdded o r
file_enums-EnumsAdded eval file o r none v h =
    ok-subst (EnumsAdded o) h (record { valid = v; same = (refl, refl, refl) })
file_enums-EnumsAdded eval file o r (some e) v h = parse_enums-EnumsAdded eval file o r e v h

file_messages-AddedPair :
    (file : MlFile) (o : Opts) (r : Opts × List MlMessage) (e : Option Element)
    → MessagesAdded o o []
    → file_messages file o e ≡ ok r
    → AddedPair o r
unfolding parse_messages
file_messages-AddedPair file o r none v h = ok-subst (AddedPair o) h v
file_messages-AddedPair file o r (some e) v h =
    fold_inv (message_element file) (AddedPair o)
      (λ s s' x p q. message_element-AddedPair file o s s' x p q) (o, []) r (children e) v h

-- The messages of the files once the last file has its own.
all_messages-last :
    (k : Text) (f g : FileEntry) (d : Dict FileEntry)
    → get k d ≡ none
    → all_messages (put k g (put k f d)) ≡ all_messages d ++ g.messages
all_messages-last k f g d h = rw (put_new k f d h) (
    rw (put_last k f g d h) (
      all_messages-append d ((k, g) ∷ [])
      ∙ ap (λ ms. all_messages d ++ ms) (unfold all_messages in append-nil g.messages)))

filed-IsConsistent :
    (xml_file : Text) (file : MlFile) (o b : Opts) (s : Opts × List MlMessage)
    → get xml_file o.files ≡ none
    → IsConsistent o
    → EnumsAdded (filed xml_file file (o, [])) b
    → AddedPair b s
    → IsConsistent (filed xml_file file s)
filed-IsConsistent xml_file file o b (c, ms) new h eb ec = record {
  enums = subst₂ Enums (sym ec.same.0) (sym ec.same.1) eb.valid;
  keyed = ec.keyed;
  distinct = ec.distinct;
  filed =
      ec.added
      ∙ (ap (λ d. values d ++ ms) eb.same.1
          ∙ (ap (λ xs. xs ++ ms) h.filed
              ∙ sym (
                  ap
                    (λ (d : Dict FileEntry).
                      all_messages (put xml_file (record { file = file; messages = ms }) d))
                    (ec.same.2 ∙ eb.same.2)
                  ∙ all_messages-last xml_file (record { file = file; messages = [] })
                      (record { file = file; messages = ms }) o.files new)));
}

parse_file-IsConsistent :
    (eval : Text → Result ℤ) (read_xml : Text → Result Element) (o r : Opts) (xml_file : Text)
    → IsConsistent o
    → parse_file eval read_xml o xml_file ≡ ok r
    → IsConsistent r
unfolding parse_file parse_root
parse_file-IsConsistent eval read_xml o r xml_file h k =
    elim (Option-cases (get xml_file o.files)) [
      | inr (old, there) ↦ cc (rw (there, parse_file) at k)
      | inl new ↦
          let file : MlFile = ml_file xml_file in
          let o1 : Opts = filed xml_file file (o, []) in
          let (root, e1, k1) =
            >>=-eq-ok (read_xml xml_file) (λ root. parse_root eval xml_file file o1 root)
              (rw (new, parse_file) at k) in
          let (b, e2, k2) =
            >>=-eq-ok (file_enums eval file o1 (find (codes "enums") (children root)))
              (λ b. do
                s ← file_messages file b (find (codes "messages") (children root))
                ok (filed xml_file file s))
              k1 in
          let (s, e3, k3) =
            >>=-eq-ok (file_messages file b (find (codes "messages") (children root)))
              (λ s. ok (filed xml_file file s)) k2 in
          let eb = file_enums-EnumsAdded eval file o1 b _ h.enums e2 in
          let ec =
            file_messages-AddedPair file b s _
              (record {
                keyed = subst₂ Keyed (sym eb.same.0) (sym eb.same.1) h.keyed;
                distinct = subst (λ d. Distinct (keys d)) (sym eb.same.1) h.distinct;
                added = sym (append-nil (values b.messages));
                same = (refl, refl, refl);
              })
              e3 in
          ok-subst IsConsistent k3 (filed-IsConsistent xml_file file o b s new h eb ec)
    ]

-- After ParseInput has read its files without raising, `opts` is consistent: every enum has distinct
-- entry names, and stands under its qualified name; the messages stand under theirs, which differ;
-- and the messages of the files in their order are the values of the dict of messages.
pub parse_input-IsConsistent :
    (eval : Text → Result ℤ) (read_xml : Text → Result Element) (merge_ext : Bool)
    (xml_def : List Text) (o : Opts)
    → parse_input eval read_xml merge_ext xml_def ≡ ok o
    → IsConsistent o
unfolding parse_input keys values all_messages
parse_input-IsConsistent eval read_xml merge_ext xml_def o h =
    fold_inv (parse_file eval read_xml) IsConsistent
      (λ s s' x p q. parse_file-IsConsistent eval read_xml s s' x p q)
      (record { merge_ext = merge_ext; enums = []; messages = []; files = [] }) o xml_def
      (record { enums = tt; keyed = tt; distinct = tt; filed = refl }) h
