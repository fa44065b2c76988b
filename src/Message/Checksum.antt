-- ===== src/Message/Checksum.antt =====
-- The CRC extra byte of a message as one checksum of one text.
use Prim.Native.Nat.{bit_xor, bit_and}
use vsm_cpp_sdk.Prelude.{
  subst, All, ◌<◌, ℕ, ◌+◌, ◌*◌, ◌/◌, ◌^◌, ◌<◌, ◌≡◌, sym, ap, ap₂, ◌∙◌, Option, none, some, List, [],
  ◌∷◌, ◌++◌, All, arith, take,
}
use vsm_cpp_sdk.Text.{Text, codes}
use vsm_cpp_sdk.Result.{ok, >>=-eq-ok, fold}
use vsm_cpp_sdk.Types.{crc_name, get_size, get_count}
use vsm_cpp_sdk.Crc
use vsm_cpp_sdk.Crc.Reference.{register, init-eq-register, accumulate-append, fold-lt}
use vsm_cpp_sdk.Message.Size.{bytes_of}
use vsm_cpp_sdk.Message.{Field, MlMessage, CrcLoop, crc_length, crc_field, or_zero, calculate_crc}

-- The array length as one byte behind the names.
unfoldable pub length_text : Option ℕ → Text
length_text none = []
length_text (some n) = n ∷ []

-- What a base field adds to the text: its type, its name, each with a blank, its array length.
unfoldable pub field_text : Field → Text
field_text f =
    (crc_name f.type.id ++ codes " ") ++ ((f.name ++ codes " ") ++ length_text f.type.num)

unfoldable pub fields_text : List Field → Text
fields_text [] = []
fields_text (f ∷ fs) = field_text f ++ fields_text fs

crc_length-ok :
    (crc : ℕ) (n : Option ℕ) (c : ℕ)
    → crc_length crc n ≡ ok c
    → c ≡ Crc.accumulate crc (length_text n)
unfolding crc_length length_text Crc.accumulate
crc_length-ok crc none c h = cc
crc_length-ok crc (some n) c h = ground arith

crc_field-ok :
    (s t : CrcLoop) (f : Field)
    → crc_field s f ≡ ok t
    → (t.len_v1 ≡ s.len_v1 + get_size f.type * get_count f.type)
      × (t.crc ≡ Crc.accumulate s.crc (field_text f))
unfolding crc_field field_text
crc_field-ok s t f h =
    let crc : ℕ = Crc.accumulate s.crc (crc_name f.type.id ++ codes " ") in
    let crc' : ℕ = Crc.accumulate crc (f.name ++ codes " ") in
    let (c, e, r) =
      >>=-eq-ok (crc_length crc' f.type.num)
        (λ d. ok (record { len_v1 = s.len_v1 + get_size f.type * get_count f.type; crc = d })) h in
    (
      ground arith,
      (ground arith)
          ∙ (crc_length-ok crc' f.type.num c e
              ∙ sym (
                  accumulate-append s.crc (crc_name f.type.id ++ codes " ")
                    ((f.name ++ codes " ") ++ length_text f.type.num)
                  ∙ accumulate-append crc (f.name ++ codes " ") (length_text f.type.num))),
    )

fold_crc-ok :
    (s t : CrcLoop) (fs : List Field)
    → fold crc_field s fs ≡ ok t
    → (t.len_v1 ≡ s.len_v1 + bytes_of fs) × (t.crc ≡ Crc.accumulate s.crc (fields_text fs))
unfolding fold fields_text bytes_of Crc.accumulate
fold_crc-ok s t [] h = (ground arith, ground arith)
fold_crc-ok s t (f ∷ fs) h =
    let (u, e, r) = >>=-eq-ok (crc_field s f) (λ v. fold crc_field v fs) h in
    let (el, ec) = crc_field-ok s u f e in
    let (rl, rc) = fold_crc-ok u t fs r in
    (
      omega arith,
      rc
          ∙ (ap (λ x. Crc.accumulate x (fields_text fs)) ec
              ∙ sym (accumulate-append s.crc (field_text f) (fields_text fs))),
    )

-- The text whose checksum the extra byte folds: the name of the message, then its base fields.
unfoldable pub message_text : MlMessage → Text
message_text m = (m.name ++ codes " ") ++ fields_text (take (or_zero m.extensions_start) m.fields)

abbrev pub extra_byte : ℕ → ℕ
extra_byte crc = bit_xor (bit_and crc 0xff) (crc / 2 ^ 8)

-- What the calculation leaves, when it does not raise: the length of the base fields is added to
-- len_v1, the extra byte folds one checksum of the whole text, and nothing else changes.
pub calculate_crc-ok :
    (m r : MlMessage)
    → calculate_crc m ≡ ok r
    → (r ≡ record m {
      len_v1 = m.len_v1 + bytes_of (take (or_zero m.extensions_start) m.fields);
      crc_extra_byte = extra_byte (Crc.init (message_text m));
    })
unfolding calculate_crc message_text Crc.init
calculate_crc-ok m r h =
    let base : List Field = take (or_zero m.extensions_start) m.fields in
    let s0 : CrcLoop = record { len_v1 = m.len_v1; crc = Crc.init (m.name ++ codes " ") } in
    let (s, e, q) =
      >>=-eq-ok (fold crc_field s0 base)
        (λ u. ok (record m { len_v1 = u.len_v1; crc_extra_byte = extra_byte u.crc })) h in
    let (el, ec) = fold_crc-ok s0 s base e in
    (cc)
    ∙ ap₂ (λ l c. record m { len_v1 = l; crc_extra_byte = extra_byte c }) el
        (ec ∙ sym (accumulate-append 0xffff (m.name ++ codes " ") (fields_text base)))

-- Over a text of bytes the extra byte is a byte, and it folds the shift register of CRC-16/MCRF4XX
-- over that text from the seed 0xffff.
pub calculate_crc-register :
    (m r : MlMessage)
    → calculate_crc m ≡ ok r
    → All (λ b. b < 256) (message_text m)
    → (r.crc_extra_byte ≡ extra_byte (register 0xffff (message_text m))) × (r.crc_extra_byte < 256)
calculate_crc-register m r h bytes =
    let (same, small) = init-eq-register (message_text m) bytes in
    let e : r.crc_extra_byte ≡ extra_byte (Crc.init (message_text m)) =
      ap (λ (s : MlMessage). s.crc_extra_byte) (calculate_crc-ok m r h) in
    (
      e ∙ ap extra_byte same,
      subst (λ n. n < 256) (sym e) (fold-lt (Crc.init (message_text m)) small),
    )
