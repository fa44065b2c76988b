-- ===== src/Parse/EnumState.antt =====
-- The enums of opts while ParseInput reads a file.
use vsm_cpp_sdk.Prelude.{
  ◌≡◌, refl, sym, ap₂, ◌∙◌, Bool, some-subst, some, [], ◌∷◌, Bool-cases, Option-cases, inl, inr,
}
use vsm_cpp_sdk.Text.{Text, codes, text_eq, text_eq_iff}
use vsm_cpp_sdk.Text.Int.{ℤ}
use vsm_cpp_sdk.Result.{Result, ok, >>=-eq-ok, fold_inv, ok-subst}
use vsm_cpp_sdk.Dict.{Dict, get, put}
use vsm_cpp_sdk.Xml.{Element, tag, children}
use vsm_cpp_sdk.Model.{MlFile, MlEnum, Entry, add_entry, merge, qualified_name}
use vsm_cpp_sdk.Parse.{Opts, add_enum, enum_element, parse_enum, parse_enums}
use vsm_cpp_sdk.Parse.Enums.{IsEnum, merge_lem, parse_enum-IsEnum}

-- Each enum is valid and stands under its qualified name.
abbrev pub Enums : Bool → Dict MlEnum → Type 0
Enums merge_ext [] = Unit
Enums merge_ext ((k, m) ∷ d) =
    (k ≡ qualified_name merge_ext m.file m.name) × IsEnum m × Enums merge_ext d

Enums-put :
    (b : Bool) (k : Text) (m : MlEnum) (d : Dict MlEnum)
    → k ≡ qualified_name b m.file m.name
    → IsEnum m
    → Enums b d
    → Enums b (put k m d)
unfolding put
Enums-put b k m [] q h e = (q, h, tt)
Enums-put b k m ((j, n) ∷ d) q h (qn, en, ed) = elim (Bool-cases (text_eq j k)) [
  | inl same ↦ rw same ((text_eq_iff j k).0 same ∙ q, h, ed)
  | inr other ↦ rw other (qn, en, Enums-put b k m d q h ed)
]

Enums-get :
    (b : Bool) (k : Text) (m : MlEnum) (d : Dict MlEnum)
    → Enums b d
    → get k d ≡ some m
    → (k ≡ qualified_name b m.file m.name) × IsEnum m
unfolding get
Enums-get b k m [] e h = cc
Enums-get b k m ((j, n) ∷ d) (qn, en, ed) h = elim (Bool-cases (text_eq j k)) [
  | inl same ↦
      some-subst (λ (m : MlEnum). (k ≡ qualified_name b m.file m.name) × IsEnum m) (rw same at h)
        (sym ((text_eq_iff j k).0 same) ∙ qn, en)
  | inr other ↦ Enums-get b k m d ed (rw other at h)
]

abbrev SameName : MlEnum → MlEnum → Type 0
SameName m r = (r.file ≡ m.file) × (r.name ≡ m.name)

add_entry-SameName :
    (m s r : MlEnum) (e : Entry) → SameName m s → add_entry s e ≡ ok r → SameName m r
unfolding add_entry
add_entry-SameName m s r e n h = elim (Option-cases (get e.name s.entries_names)) [
  | inl new ↦ ok-subst (SameName m) (rw (new, add_entry) at h) n
  | inr (old, there) ↦ cc (rw (there, add_entry) at h)
]

merge-SameName : (m other r : MlEnum) → merge m other ≡ ok r → SameName m r
unfolding merge
merge-SameName m other r h =
    fold_inv add_entry (SameName m) (λ s s' x p q. add_entry-SameName m s s' x p q) m r
      other.entries (refl, refl) h

-- The part of the state that the functions on enums leave alone.
abbrev SameMessages : Opts → Opts → Type 0
SameMessages a b = (b.merge_ext ≡ a.merge_ext) × (b.messages ≡ a.messages) × (b.files ≡ a.files)

-- Every enum in `opts` is valid and stands under its qualified name, and the rest of the state is that of `a`.
pub record EnumsAdded (a b : Opts) : Type 0 where
  pub valid : Enums b.merge_ext b.enums
  pub same : SameMessages a b

add_enum-EnumsAdded :
    (a o r : Opts) (m : MlEnum) → IsEnum m → EnumsAdded a o → add_enum o m ≡ ok r → EnumsAdded a r
unfolding add_enum
add_enum-EnumsAdded a o r m v h k =
    let name : Text = qualified_name o.merge_ext m.file m.name in
    elim (Option-cases (get name o.enums)) [
      | inl new ↦
          ok-subst (EnumsAdded a) (rw (new, add_enum) at k)
            (record { valid = Enums-put o.merge_ext name m o.enums refl v h.valid; same = h.same })
      | inr (old, there) ↦
          let (n, e, q) =
            >>=-eq-ok (merge old m) (λ n. ok (record o { enums = put name n o.enums }))
              (rw (there, add_enum) at k) in
          let (named, w) = Enums-get o.merge_ext name old o.enums h.valid there in
          let (file, same_name) = merge-SameName old m n e in
          ok-subst (EnumsAdded a) q (record {
            valid =
                Enums-put o.merge_ext name n o.enums
                  (named
                    ∙ sym (
                        ap₂ (λ (f : MlFile) (t : Text). qualified_name o.merge_ext f t) file
                          same_name))
                  ((merge_lem old m w).0 n e).1 h.valid;
            same = h.same;
          })
    ]

enum_element-EnumsAdded :
    (eval : Text → Result ℤ) (file : MlFile) (a o r : Opts) (e : Element)
    → EnumsAdded a o
    → enum_element eval file o e ≡ ok r
    → EnumsAdded a r
unfolding enum_element
enum_element-EnumsAdded eval file a o r e h k = elim (Bool-cases (text_eq (tag e) (codes "enum"))) [
  | inl x ↦
      let (m, p, q) = >>=-eq-ok (parse_enum eval file e) (λ m. add_enum o m) (rw x at k) in
      add_enum-EnumsAdded a o r m (parse_enum-IsEnum eval file e m p) h q
  | inr x ↦ ok-subst (EnumsAdded a) (rw x at k) h
]

pub parse_enums-EnumsAdded :
    (eval : Text → Result ℤ) (file : MlFile) (o r : Opts) (e : Element)
    → Enums o.merge_ext o.enums
    → parse_enums eval file o e ≡ ok r
    → EnumsAdded o r
unfolding parse_enums
parse_enums-EnumsAdded eval file o r e v h =
    fold_inv (enum_element eval file) (EnumsAdded o)
      (λ s s' x p q. enum_element-EnumsAdded eval file o s s' x p q) o r (children e)
      (record { valid = v; same = (refl, refl, refl) }) h
