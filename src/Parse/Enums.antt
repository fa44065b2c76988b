-- ===== src/Parse/Enums.antt =====
-- The entries of an enum: AddEntry, Merge and ParseEnum keep their names distinct.
use vsm_cpp_sdk.Prelude.{
  subst, append-nil, append_assoc, ◌≡◌, refl, sym, ap, ◌∙◌, none, List, [], ◌∷◌, ◌++◌, map,
  map-append, Bool-cases, Option-cases, inl, inr, ◌↔◌,
}
use vsm_cpp_sdk.Text.{Text, codes, text_eq}
use vsm_cpp_sdk.Text.Int.{ℤ}
use vsm_cpp_sdk.Result.{Result, ok, >>=-eq-ok, fold, fold_inv, ok-subst}
use vsm_cpp_sdk.Dict.{
  none-get, Distinct-middle, get, put, keys, put_new, keys-append, Distinct, Distinct-put,
}
use vsm_cpp_sdk.Xml.{Element, tag, attrib, children, attr}
use vsm_cpp_sdk.Model.{MlFile, MlEnum, Entry, ml_enum, add_entry, merge}
use vsm_cpp_sdk.Parse.{parse_enum_entry, enum_child, parse_enum}

abbrev pub entry_name : Entry → Text
entry_name e = e.name

-- The names of the entries, in order, are the keys of entriesNames, and no two are equal.
pub record IsEnum (m : MlEnum) : Type 0 where
  pub named : keys m.entries_names ≡ map entry_name m.entries
  pub distinct : Distinct (map entry_name m.entries)

-- AddEntry succeeds exactly when the name is free. It appends the entry, and keeps the enum valid.
pub add_entry-ok :
    (m r : MlEnum) (e : Entry)
    → IsEnum m
    → add_entry m e ≡ ok r
    → (get e.name m.entries_names ≡ none) × (r.entries ≡ m.entries ++ (e ∷ [])) × IsEnum r
unfolding add_entry keys
add_entry-ok m r e v h = elim (Option-cases (get e.name m.entries_names)) [
  | inl free ↦
      let q = rw (free, add_entry) at h in
      let named' : keys (put e.name e m.entries_names) ≡ map entry_name (m.entries ++ (e ∷ [])) =
        ap keys (put_new e.name e m.entries_names free)
        ∙ (keys-append m.entries_names ((e.name, e) ∷ [])
            ∙ (ap (λ ks. ks ++ (e.name ∷ [])) v.named
                ∙ sym (map-append entry_name m.entries (e ∷ [])))) in
      (
        free,
        ok-subst (λ (s : MlEnum). s.entries ≡ m.entries ++ (e ∷ [])) q refl,
        ok-subst IsEnum q (record {
          named = named';
          distinct = subst Distinct named' (
              Distinct-put e.name e m.entries_names free (subst Distinct (sym v.named) v.distinct));
        }),
      )
  | inr (old, taken) ↦ cc (rw (taken, add_entry) at h)
]

-- What Merge leaves, when it does not raise.
pub fold-add_entry :
    (m r : MlEnum) (es : List Entry)
    → IsEnum m
    → fold add_entry m es ≡ ok r
    → (r.entries ≡ m.entries ++ es) × IsEnum r
unfolding fold
fold-add_entry m r [] v h = (
  ok-subst (λ (s : MlEnum). s.entries ≡ m.entries ++ []) h (sym (append-nil m.entries)),
  ok-subst IsEnum h v,
)
fold-add_entry m r (e ∷ es) v h =
    let (s, k, q) = >>=-eq-ok (add_entry m e) (λ u. fold add_entry u es) h in
    let (free, added, vs) = add_entry-ok m s e v k in
    let (rest, vr) = fold-add_entry s r es vs q in
    (rest ∙ (ap (λ xs. xs ++ es) added ∙ append_assoc m.entries (e ∷ []) es), vr)

-- Where the names are distinct taken together, no round of Merge raises.
fold-add_entry_total :
    (m : MlEnum) (es : List Entry)
    → IsEnum m
    → Distinct (map entry_name m.entries ++ map entry_name es)
    → (r : MlEnum) × (fold add_entry m es ≡ ok r)
unfolding fold add_entry
fold-add_entry_total m [] v h = (m, refl)
fold-add_entry_total m (e ∷ es) v h =
    let free : get e.name m.entries_names ≡ none =
      none-get e.name m.entries_names
        (rw v.named (Distinct-middle (map entry_name m.entries) e.name (map entry_name es) h)) in
    let s : MlEnum = record m {
      entries = m.entries ++ (e ∷ []);
      entries_names = put e.name e m.entries_names;
    } in
    let added : add_entry m e ≡ ok s = rw (free, add_entry) in
    let (none', same, vs) = add_entry-ok m s e v added in
    let names : map entry_name m.entries ++ (e.name ∷ map entry_name es)
        ≡ map entry_name s.entries ++ map entry_name es =
      sym (append_assoc (map entry_name m.entries) (e.name ∷ []) (map entry_name es))
      ∙ ap (λ ks. ks ++ map entry_name es) (sym (map-append entry_name m.entries (e ∷ []))) in
    let (r, q) = fold-add_entry_total s es vs (subst Distinct names h) in (r, rw added q)

-- Merging an enum into a valid one appends its entries and leaves a valid enum; and it succeeds
-- exactly when no two entries of the two enums have one name.
pub merge_lem :
    (m other : MlEnum)
    → IsEnum m
    → ((r : MlEnum) → merge m other ≡ ok r → (r.entries ≡ m.entries ++ other.entries) × IsEnum r)
      × (((r : MlEnum) × (merge m other ≡ ok r))
          ↔ Distinct (map entry_name m.entries ++ map entry_name other.entries))
unfolding merge
merge_lem m other v = (
  λ r h. fold-add_entry m r other.entries v h,
  (
    λ (r, h).
        let (all_entries, vr) = fold-add_entry m r other.entries v h in
        subst Distinct
          (ap (map entry_name) all_entries ∙ map-append entry_name m.entries other.entries)
          vr.distinct,
    λ h. fold-add_entry_total m other.entries v h,
  ),
)

enum_child-IsEnum :
    (eval : Text → Result ℤ) (m r : MlEnum) (e : Element)
    → IsEnum m
    → enum_child eval m e ≡ ok r
    → IsEnum r
unfolding enum_child
enum_child-IsEnum eval m r e v h = elim (Bool-cases (text_eq (tag e) (codes "description"))) [
  | inl d ↦ ok-subst IsEnum (rw d at h) (record { named = v.named; distinct = v.distinct })
  | inr d ↦ elim (Bool-cases (text_eq (tag e) (codes "entry"))) [
    | inl x ↦
        let (y, k, q) = >>=-eq-ok (parse_enum_entry eval e) (λ z. add_entry m z) (rw (d, x) at h) in
        (add_entry-ok m r y v q).2
    | inr x ↦ ok-subst IsEnum (rw (d, x) at h) v
  ]
]

-- Every enum that ParseEnum returns is valid.
pub parse_enum-IsEnum :
    (eval : Text → Result ℤ) (file : MlFile) (e : Element) (m : MlEnum)
    → parse_enum eval file e ≡ ok m
    → IsEnum m
unfolding parse_enum ml_enum keys
parse_enum-IsEnum eval file e m h =
    let (name, k, q) =
      >>=-eq-ok (attr (codes "name") (attrib e))
        (λ n. fold (enum_child eval) (ml_enum file n) (children e)) h in
    fold_inv (enum_child eval) IsEnum (λ s s' x v r. enum_child-IsEnum eval s s' x v r)
      (ml_enum file name) m (children e) (record { named = refl; distinct = tt }) q
