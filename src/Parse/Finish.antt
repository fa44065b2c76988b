-- ===== src/Parse/Finish.antt =====
-- What ParseMessage makes of a message after its loop: the sorting, the lengths, the extra byte.
use native.Mathlib.Nat.{zero-add}
use vsm_cpp_sdk.Prelude.{
  take, drop, sym, ap, ◌∙◌, length-take_le, take-append_length, drop-append_length, suc, refl, ◌+◌,
  ℕ, ◌≤◌, ◌≡◌, some, List, [], ◌∷◌, ◌++◌, arith, length, length-append,
}
use vsm_cpp_sdk.Message.Size.{bytes_of}
use vsm_cpp_sdk.Message.Checksum.{message_text, extra_byte, calculate_crc-ok}
use vsm_cpp_sdk.Parse.Sorting.{wire_size-eq-bytes_of}
use vsm_cpp_sdk.Message.{MlMessage, Field}
use vsm_cpp_sdk.Result.{ok, ok-subst}
use vsm_cpp_sdk.Crc
use vsm_cpp_sdk.Parse.{insert_field, sort_fields, start_of, sort_base, wire_size, finish_message}
use vsm_cpp_sdk.Parse.Loop.{IsOpen}

length-insert_field : (f : Field) (fs : List Field) → length (insert_field f fs) ≡ suc (length fs)
unfolding insert_field
length-insert_field f [] = refl
length-insert_field f (g ∷ gs) = ground (arith, length-insert_field f gs)

length-sort_fields : (fs : List Field) → length (sort_fields fs) ≡ length fs
unfolding sort_fields
length-sort_fields [] = refl
length-sort_fields (f ∷ fs) =
    length-insert_field f (sort_fields fs) ∙ ap suc (length-sort_fields fs)

-- A returned message. Its extensions start at some field; the base fields before it are the sorted
-- ones of `before`, the others stand as in `before`; len_v1 counts the base fields, len_v2 all; and
-- the extra byte folds the checksum of the message's text.
pub record IsFinished (before : List Field) (m : MlMessage) : Type 0 where
  pub start : ℕ
  pub starts : m.extensions_start ≡ some start
  pub within : start ≤ length m.fields
  pub base : take start m.fields ≡ sort_fields (take start before)
  pub extensions : drop start m.fields ≡ drop start before
  pub counted_v1 : m.len_v1 ≡ bytes_of (take start m.fields)
  pub counted_v2 : m.len_v2 ≡ bytes_of m.fields
  pub checked : m.crc_extra_byte ≡ extra_byte (Crc.init (message_text m))

module _ (n : ℕ) (fs : List Field) (h : n ≤ length fs) where
  abbrev halves : List Field
  halves = sort_fields (take n fs) ++ drop n fs

  length-base : length (sort_fields (take n fs)) ≡ n
  length-base = length-sort_fields (take n fs) ∙ length-take_le n fs h

  take-halves : take n halves ≡ sort_fields (take n fs)
  take-halves =
      ap (λ k. take k halves) (sym length-base)
      ∙ take-append_length (sort_fields (take n fs)) (drop n fs)

  drop-halves : drop n halves ≡ drop n fs
  drop-halves =
      ap (λ k. drop k halves) (sym length-base)
      ∙ drop-append_length (sort_fields (take n fs)) (drop n fs)

  within-halves : n ≤ length halves
  within-halves = omega (arith, length-append (sort_fields (take n fs)) (drop n fs), length-base)

pub finish_message-IsFinished :
    (m r : MlMessage) → IsOpen m → finish_message m ≡ ok r → IsFinished m.fields r
unfolding finish_message sort_base
finish_message-IsFinished m r h k =
    let n : ℕ = start_of m in
    let fs : List Field = halves n m.fields h.within in
    let m' : MlMessage = record m {
      fields = fs;
      extensions_start = some n;
      len_v2 = wire_size m.len_v2 fs;
    } in
    ok-subst (IsFinished m.fields) (ap ok (sym (calculate_crc-ok m' r k))) (record {
      start = n;
      starts = refl;
      within = within-halves n m.fields h.within;
      base = take-halves n m.fields h.within;
      extensions = drop-halves n m.fields h.within;
      counted_v1 = ap (λ x. x + bytes_of (take n fs)) h.uncounted_v1 ∙ zero-add _;
      counted_v2 =
          wire_size-eq-bytes_of m.len_v2 fs
          ∙ (ap (λ x. x + bytes_of fs) h.uncounted_v2 ∙ zero-add _);
      checked = unfold message_text in refl;
    })

-- The extensions start where they did, or behind the fields.
pub finish_message-start :
    (m r : MlMessage) → finish_message m ≡ ok r → r.extensions_start ≡ some (start_of m)
unfolding finish_message sort_base
finish_message-start m r k =
    let m' : MlMessage = record m {
      fields = sort_fields (take (start_of m) m.fields) ++ drop (start_of m) m.fields;
      extensions_start = some (start_of m);
      len_v2 =
          wire_size m.len_v2
            (sort_fields (take (start_of m) m.fields) ++ drop (start_of m) m.fields);
    } in
    ok-subst (λ (s : MlMessage). s.extensions_start ≡ some (start_of m))
      (ap ok (sym (calculate_crc-ok m' r k))) refl
