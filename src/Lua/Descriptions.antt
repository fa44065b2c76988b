-- ===== src/Lua/Descriptions.antt =====
-- Which messages the field generator of the dissector accepts.
use vsm_cpp_sdk.Prelude.{
  ◌≡◌, ◌≢◌, ◌↔◌, refl, none, List, [], ◌∷◌, ◌++◌, All, inl, inr, Option-cases,
}
use vsm_cpp_sdk.Text.{Text, codes}
use vsm_cpp_sdk.Result.{ok, ◌>>=◌, >>=-eq-ok}
use vsm_cpp_sdk.Message.{MlMessage, Field}
use vsm_cpp_sdk.Lua.{write_each}
use vsm_cpp_sdk.Lua.Fields.{field_declarations, lua_field, generate_lua_msg_fields}

-- Every field has a description.
abbrev pub Described : List Field → Type 0
Described = All (λ f. f.description ≢ none)

lua_field-described :
    (m : MlMessage) (f : Field) (t : Text) → lua_field m f ≡ ok t → f.description ≢ none
unfolding lua_field
lua_field-described m f t h e = cc (rw (e, lua_field) at h)

described-lua_field :
    (m : MlMessage) (f : Field) → f.description ≢ none → (t : Text) × (lua_field m f ≡ ok t)
unfolding lua_field field_declarations
described-lua_field m f h = elim (Option-cases f.description) [
  | inl e ↦ absurd (h e)
  | inr (d, e) ↦ (field_declarations m f, rw (e, lua_field))
]

written :
    (m : MlMessage) (fs : List Field) (t : Text) → write_each (lua_field m) fs ≡ ok t → Described fs
unfolding write_each
written m [] t h = tt
written m (f ∷ fs) t h =
    let (u, e, k) =
      >>=-eq-ok (lua_field m f) (λ u. do rest ← write_each (lua_field m) fs; ok (u ++ rest)) h in
    let (v, q, r) = >>=-eq-ok (write_each (lua_field m) fs) (λ rest. ok (u ++ rest)) k in
    (lua_field-described m f u e, written m fs v q)

writes :
    (m : MlMessage) (fs : List Field)
    → Described fs
    → (t : Text) × (write_each (lua_field m) fs ≡ ok t)
unfolding write_each
writes m [] h = ([], refl)
writes m (f ∷ fs) (hf, h) =
    let (u, e) = described-lua_field m f hf in let (v, q) = writes m fs h in (u ++ v, rw (e, q))

-- The fields of a message are written exactly when each of them has a description.
pub generate_lua_msg_fields_iff :
    (m : MlMessage) → ((t : Text) × (generate_lua_msg_fields m ≡ ok t)) ↔ Described m.fields
unfolding generate_lua_msg_fields
generate_lua_msg_fields_iff m = (
  λ (t, h).
      let (u, e, k) = >>=-eq-ok (write_each (lua_field m) m.fields) (λ u. ok (u ++ codes "\n")) h in
      written m m.fields u e,
  λ h. let (u, e) = writes m m.fields h in (u ++ codes "\n", rw e),
)
