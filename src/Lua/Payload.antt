-- ===== src/Lua/Payload.antt =====
-- The layout that the generated payload dissectors read.
use native.Mathlib.Nat.{mul_comm, zero-add}
use vsm_cpp_sdk.Prelude.{
  ==_iff, ℕ, zero, suc, ◌+◌, ◌*◌, ◌≡◌, ◌≢◌, refl, sym, ap, ◌∙◌, inl, inr, false, List, [], ◌∷◌,
  ◌++◌, append_assoc, ltb, ◌==◌, if◌then◌else◌, All, arith, Bool-cases,
}
use vsm_cpp_sdk.Text.{Text, codes, cat, for_each, text_eq}
use vsm_cpp_sdk.Text.Decimal.{show}
use vsm_cpp_sdk.Text.Int.{show_int}
use vsm_cpp_sdk.Result.{ok}
use vsm_cpp_sdk.Types.{get_name, get_count, get_size}
use vsm_cpp_sdk.Message.{MlMessage, Field, field_size}
use vsm_cpp_sdk.Message.Size.{bytes_of, field_size-eq}
use vsm_cpp_sdk.Parse.Finish.{IsFinished}
use vsm_cpp_sdk.Lua.{
  range, addle_call, element_count, element_size, field_calls, generate_field_dissector,
  payload_calls, fields_length, generate_payload_dissector,
}

-- A call of addle in a dissector.
pub record Call : Type 0 where
  pub field_name : Text
  pub index_text : Text
  pub offset : ℕ
  pub size : ℕ

unfoldable pub call_text : Text → Call → Text
call_text name c = addle_call name c.field_name c.index_text c.offset c.size

-- Each call reads where the one before it ended, from `lo` to `hi`.
abbrev pub Chain : ℕ → List Call → ℕ → Type 0
Chain lo [] hi = lo ≡ hi
Chain lo (c ∷ cs) hi = (c.offset ≡ lo) × Chain (lo + c.size) cs hi

Chain-append :
    (lo mid hi : ℕ) (cs ds : List Call) → Chain lo cs mid → Chain mid ds hi → Chain lo (cs ++ ds) hi
Chain-append lo mid hi [] ds h k = rw h k
Chain-append lo mid hi (c ∷ cs) ds (h, hs) k = (h, Chain-append (lo + c.size) mid hi cs ds hs k)

for_each-append {ℓ} :
    {A : Type ℓ} (f : A → Text) (xs ys : List A)
    → for_each f (xs ++ ys) ≡ for_each f xs ++ for_each f ys
unfolding for_each
for_each-append f [] ys = refl
for_each-append f (x ∷ xs) ys =
    ap (λ t. f x ++ t) (for_each-append f xs ys)
    ∙ sym (append_assoc (f x) (for_each f xs) (for_each f ys))

-- The calls of one field, from the element `i` on.
element : Field → ℕ → ℕ → Call
element f offset i = record {
  field_name = f.name;
  index_text = if ltb 1 (element_count f) then codes "_" ++ show i else [];
  offset = offset + i * element_size f;
  size = element_size f;
}

calls_from : Field → ℕ → ℕ → ℕ → List Call
calls_from f offset i zero = []
calls_from f offset i (suc n) = element f offset i ∷ calls_from f offset (i + 1) n

calls_from-text :
    (name : Text) (f : Field) (offset i n : ℕ)
    → for_each
        (λ i.
          addle_call name f.name
            (if ltb 1 (element_count f) then codes "_" ++ show i else [])
            (offset + i * element_size f)
            (element_size f))
        (range i n)
      ≡ for_each (call_text name) (calls_from f offset i n)
unfolding for_each range calls_from call_text element
calls_from-text name f offset i zero = refl
calls_from-text name f offset i (suc n) = rw (calls_from-text name f offset (i + 1) n)

next_element : (offset i s : ℕ) → offset + i * s + s ≡ offset + (i + 1) * s
next_element offset i s = omega arith

last_element : (offset i n s : ℕ) → offset + (i + 1) * s + n * s ≡ offset + i * s + (suc n) * s
last_element offset i n s = omega arith

calls_from-Chain :
    (f : Field) (offset i n lo hi : ℕ)
    → offset + i * element_size f ≡ lo
    → lo + n * element_size f ≡ hi
    → Chain lo (calls_from f offset i n) hi
unfolding calls_from element
calls_from-Chain f offset i zero lo hi h k = omega arith
calls_from-Chain f offset i (suc n) lo hi h k = (
  h,
  calls_from-Chain f offset (i + 1) n (lo + element_size f) hi
      (omega (arith, next_element offset i (element_size f))) (omega arith),
)

-- The elements of a field take as many bytes as the field.
elements-size : (f : Field) → element_count f * element_size f ≡ get_size f.type * get_count f.type
unfolding element_count element_size
elements-size f = elim (Bool-cases (text_eq (get_name f.type) (codes "char"))) [
  | inl string ↦ rw string (omega (arith, field_size-eq f))
  | inr other ↦ rw other (elim (Bool-cases (ltb 1 (get_count f.type))) [
    | inl many ↦ rw many (mul_comm (get_count f.type) (get_size f.type))
    | inr few ↦ rw (few, field_size-eq f) (few_elements (get_count f.type) (get_size f.type) few)
  ])
]
  where
    few_elements : (n s : ℕ) → ltb 1 n ≡ false → n * (s * n) ≡ s * n
    few_elements zero s h = omega arith
    few_elements (suc zero) s h = omega arith
    few_elements (suc (suc n)) s h = absurd (ground arith)

field_dissector-ok :
    (name : Text) (f : Field) (offset : ℕ)
    → element_count f ≢ 0
    → generate_field_dissector name f offset
      ≡ ok (
        for_each (call_text name) (calls_from f offset 0 (element_count f)),
        offset + get_size f.type * get_count f.type,
      )
unfolding generate_field_dissector field_calls
field_dissector-ok name f offset h = elim (Bool-cases (element_count f == 0)) [
  | inl e ↦ absurd (h ((==_iff _ _).0 e))
  | inr e ↦ rw (e, calls_from-text name f offset 0 (element_count f), elements-size f)
]

-- No field is an array of no elements; a string may be empty.
abbrev pub HasElements : List Field → Type 0
HasElements = All (λ f. element_count f ≢ 0)

payload_calls-ok :
    (name : Text) (offset hi : ℕ) (fs : List Field)
    → HasElements fs
    → offset + bytes_of fs ≡ hi
    → (cs : List Call) × (payload_calls name offset fs ≡ ok (for_each (call_text name) cs))
      × Chain offset cs hi
unfolding payload_calls bytes_of for_each
payload_calls-ok name offset hi [] h e = ([], refl, omega arith)
payload_calls-ok name offset hi (f ∷ fs) (hf, hfs) e =
    let size : ℕ = get_size f.type * get_count f.type in
    let (cs, q, chain) = payload_calls-ok name (offset + size) hi fs hfs (omega arith) in
    let own : List Call = calls_from f offset 0 (element_count f) in
    (
      own ++ cs,
      rw (field_dissector-ok name f offset hf)
          (rw q (ap ok (sym (for_each-append (call_text name) own cs)))),
      Chain-append offset (offset + size) hi own cs
          (calls_from-Chain f offset 0 (element_count f) offset (offset + size) (omega arith)
            (ap (λ n. offset + n) (elements-size f)))
          chain,
    )

fields_length-eq : (n : ℕ) (fs : List Field) → fields_length n fs ≡ n + bytes_of fs
unfolding fields_length bytes_of
fields_length-eq n [] = omega arith
fields_length-eq n (f ∷ fs) = omega (arith, field_size-eq f, fields_length-eq (n + field_size f) fs)

-- The text of a dissector around its calls.
unfoldable pub dissector_text : MlMessage → Text → ℕ → Text
dissector_text m calls length = cat (
    codes "\n-- "
    ∷ m.name
    ∷ codes "\nfunction myfuncs.dissect_payload_"
    ∷ show_int m.id
    ∷ codes "(buffer, tree, offset, len)\n"
    ∷ calls
    ∷ codes "    return "
    ∷ show length
    ∷ codes "\nend\n"
    ∷ [])

-- For a finished message with no array of no elements the dissector is generated. Its calls read
-- the payload from 0 to len_v2 with no gap and no overlap, and it returns len_v2.
pub payload_dissector-Chain :
    (before : List Field) (m : MlMessage)
    → IsFinished before m
    → HasElements m.fields
    → (cs : List Call) × (generate_payload_dissector m
        ≡ ok (dissector_text m (for_each (call_text m.name) cs) m.len_v2))
      × Chain 0 cs m.len_v2
unfolding generate_payload_dissector dissector_text
payload_dissector-Chain before m v h =
    let (cs, q, chain) =
      payload_calls-ok m.name 0 m.len_v2 m.fields h (zero-add _ ∙ sym v.counted_v2) in
    (cs, rw (q, fields_length-eq 0 m.fields, zero-add (bytes_of m.fields), v.counted_v2), chain)
