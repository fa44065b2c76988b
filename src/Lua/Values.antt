-- ===== src/Lua/Values.antt =====
-- The numbers of enum entries in the generated files.
use vsm_cpp_sdk.Prelude.{
  ℕ, zero, suc, ◌+◌, ◌≡◌, refl, sym, ap, subst, Option, none, some, List, [], ◌∷◌, map, arith,
}
use vsm_cpp_sdk.Text.{Text, codes, cat, for_each}
use vsm_cpp_sdk.Text.Int.{ℤ, pos, negsuc, next}
use vsm_cpp_sdk.Model.{Entry, MlEnum}
use vsm_cpp_sdk.Lua.{lua_values, lua_row, lua_enum}
use vsm_cpp_sdk.Python.{py_values, py_description, py_entry, generate_py_enum}

abbrev own : ℤ → Entry → ℤ
own v e = elim e.value [ none ↦ v | some x ↦ x ]

abbrev pub lua_pair : Entry × ℤ → ℤ × Text
lua_pair (e, v) = (v, e.name)

-- The dissector and the Python module number the entries alike.
lua_values-py_values : (v : ℤ) (es : List Entry) → lua_values v es ≡ map lua_pair (py_values v es)
unfolding lua_values py_values
lua_values-py_values v [] = refl
lua_values-py_values v (e ∷ es) =
    ap (λ xs. (own v e, e.name) ∷ xs) (lua_values-py_values (next (own v e)) es)

-- The sum of an integer and a number.
unfoldable pub beyond : ℤ → ℕ → ℤ
beyond (pos n) k = pos (n + k)
beyond (negsuc n) zero = negsuc n
beyond (negsuc zero) (suc k) = pos k
beyond (negsuc (suc n)) (suc k) = beyond (negsuc n) k

next-beyond : (v : ℤ) (k : ℕ) → next (beyond v k) ≡ beyond v (suc k)
unfolding next beyond
next-beyond (pos n) k = ap pos (omega arith)
next-beyond (negsuc zero) zero = refl
next-beyond (negsuc zero) (suc k) = ap pos (omega arith)
next-beyond (negsuc (suc n)) zero = unfold beyond in refl
next-beyond (negsuc (suc n)) (suc k) = next-beyond (negsuc n) k

beyond-one : (v : ℤ) → next v ≡ beyond v 1
unfolding next beyond
beyond-one (pos n) = refl
beyond-one (negsuc zero) = refl
beyond-one (negsuc (suc n)) = unfold beyond in refl

-- The numbers of entries as C++ has them, `k` entries behind one of the value `last`: a given value
-- counts, and an entry without one is the last given value plus its distance from it.
pub data Numbered : ℤ → ℕ → List Entry → List (Entry × ℤ) → Type 0 where
  no_entry : (last : ℤ) (k : ℕ) → Numbered last k [] []
  given :
      (last x : ℤ) (k : ℕ) (e : Entry) (es : List Entry) (ws : List (Entry × ℤ))
      → e.value ≡ some x
      → Numbered x 1 es ws
      → Numbered last k (e ∷ es) ((e, x) ∷ ws)
  counted :
      (last : ℤ) (k : ℕ) (e : Entry) (es : List Entry) (ws : List (Entry × ℤ))
      → e.value ≡ none
      → Numbered last (suc k) es ws
      → Numbered last k (e ∷ es) ((e, beyond last k) ∷ ws)

py_values-Numbered :
    (last : ℤ) (k : ℕ) (v : ℤ) (es : List Entry)
    → v ≡ beyond last k
    → Numbered last k es (py_values v es)
unfolding py_values
py_values-Numbered last k v [] h = no_entry last k
py_values-Numbered last k v (e ∷ es) h =
    on_value (λ b i u q. py_values-Numbered b i u es q) e.value refl
  where
    on_value :
        ((b : ℤ) (i : ℕ) (u : ℤ) → u ≡ beyond b i → Numbered b i es (py_values u es))
        → (o : Option ℤ) → e.value ≡ o
        → (let w : ℤ = elim o [ none ↦ v | some x ↦ x ] in
            Numbered last k (e ∷ es) ((e, w) ∷ py_values (next w) es))
    on_value rest none q =
        subst (λ u. Numbered last k (e ∷ es) ((e, u) ∷ py_values (next u) es)) (sym h)
          (counted last k e es (py_values (next (beyond last k)) es) q
            (rest last (suc k) (next (beyond last k)) (next-beyond last k)))
    on_value rest (some x) q =
        given last x k e es (py_values (next x) es) q (rest x 1 (next x) (beyond-one x))

-- The texts of an enum whose entries have these numbers.
unfoldable pub py_enum_text : MlEnum → List (Entry × ℤ) → Text
unfolding py_description py_entry
py_enum_text m ws = cat (
    py_description 0 m.description
    ∷ codes "class "
    ∷ m.name
    ∷ codes ":\n"
    ∷ for_each py_entry ws
    ∷ codes "\n\n"
    ∷ [])

unfoldable pub lua_enum_text : MlEnum → List (Entry × ℤ) → Text
unfolding lua_row
lua_enum_text m ws = cat (
    codes "enum_"
    ∷ m.name
    ∷ codes " = {\n"
    ∷ for_each lua_row (map lua_pair ws)
    ∷ codes "}\n\n"
    ∷ [])

-- GeneratePyEnum and the dissector print the entries of every enum with the same numbers, which are
-- those of a C++ enum: a given value, positive or negative, counts; an entry without one is the last
-- given value plus the distance from it, or its place from 0 on before the first given value.
pub generate_py_enum-Numbered :
    (m : MlEnum)
    → (ws : List (Entry × ℤ)) × Numbered (pos 0) 0 m.entries ws
      × (generate_py_enum m ≡ py_enum_text m ws)
      × (lua_enum m ≡ lua_enum_text m ws)
unfolding generate_py_enum lua_enum py_enum_text lua_enum_text
generate_py_enum-Numbered m = (
  py_values (pos 0) m.entries,
  py_values-Numbered (pos 0) 0 (pos 0) m.entries (unfold beyond in ap pos (omega arith)),
  refl,
  ap
      (λ rows.
        cat (codes "enum_" ∷ m.name ∷ codes " = {\n" ∷ for_each lua_row rows ∷ codes "}\n\n" ∷ []))
      (lua_values-py_values (pos 0) m.entries),
)
