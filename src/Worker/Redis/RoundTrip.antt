-- ===== src/Worker/Redis/RoundTrip.antt =====
-- Reading back what internal/worker/redis_queue.go writes.
use ai_workflow.Base.{
  ℕ, zero, suc, ◌+◌, ◌≤◌, ◌≡◌, refl, sym, ap, ◌∙◌, false, some, List, [], ◌∷◌, ◌++◌, arith, length,
  All, ok,
}
use mathlib.Core.List.{append_assoc}
use ai_workflow.Base.Int.{pos}
use ai_workflow.Base.Lists.{take, drop, length-append}
use ai_workflow.Base.Text.{same_codes}
use ai_workflow.Worker.Redis.Decimal.{
  Bytes, IsDigit, max_int, decimal, decimal-IsDigit, atoi-decimal,
}
use ai_workflow.Worker.Redis.Reader.{
  buffer_size, reader, left_over, first_arriving, first_byte, read_byte, cut_line, line_from,
  read_string, read_some, read,
}
use ai_workflow.Worker.Redis.Wire.{
  crlf, bulk_string, bulk_strings, write_resp_array, Part, array, bulk, trim_suffix, read_resp_line,
  read_header, minus_one, buffer_start, read_payload, read_resp_bulk_string, read_values,
  read_resp_array,
}

pub take-all : (n : ℕ) (bytes : Bytes) → length bytes ≤ n → take n bytes ≡ bytes
take-all zero [] h = refl
take-all zero (c ∷ bytes) h = absurd (omega (arith, h))
take-all (suc n) [] h = refl
take-all (suc n) (c ∷ bytes) h = ap (◌∷◌ c) (take-all n bytes (omega (arith, h)))

pub drop-all : (n : ℕ) (bytes : Bytes) → length bytes ≤ n → drop n bytes ≡ []
drop-all zero [] h = refl
drop-all zero (c ∷ bytes) h = absurd (omega (arith, h))
drop-all (suc n) [] h = refl
drop-all (suc n) (c ∷ bytes) h = drop-all n bytes (omega (arith, h))

trim_suffix-concat : (c : ℕ) (bytes : Bytes) → trim_suffix c (bytes ++ c ∷ []) ≡ bytes
unfolding trim_suffix
trim_suffix-concat c [] = ground arith
trim_suffix-concat c (x ∷ []) = ap (◌∷◌ x) (trim_suffix-concat c [])
trim_suffix-concat c (x ∷ y ∷ bytes) = ap (◌∷◌ x) (trim_suffix-concat c (y ∷ bytes))

trim_crlf : (bytes : Bytes) → trim_suffix b'\r' (trim_suffix b'\n' (bytes ++ crlf)) ≡ bytes
trim_crlf bytes =
    ap (λ (xs : Bytes). trim_suffix b'\r' (trim_suffix b'\n' xs))
      (sym (append_assoc bytes (b'\r' ∷ []) (b'\n' ∷ [])))
    ∙ ap (trim_suffix b'\r') (trim_suffix-concat b'\n' (bytes ++ b'\r' ∷ []))
    ∙ trim_suffix-concat b'\r' bytes

cut_line-digits :
    (bytes rest : Bytes)
    → All IsDigit bytes
    → cut_line (bytes ++ crlf ++ rest) ≡ some (bytes ++ crlf, rest)
unfolding cut_line
cut_line-digits [] rest h = refl
cut_line-digits (c ∷ bytes) rest (h, hs) = ground (arith, h, cut_line-digits bytes rest hs)

line_from-digits :
    (bytes rest : Bytes) (arriving : List Bytes)
    → All IsDigit bytes
    → line_from (bytes ++ crlf ++ rest) arriving ≡ some (bytes ++ crlf, reader rest arriving)
unfolding line_from
line_from-digits bytes rest arriving h = ground (arith, cut_line-digits bytes rest h)

module _ (part : Part) (prefix n : ℕ) (rest : Bytes) (arriving : List Bytes) where
  pub read_header_buffered :
      read_header part prefix (reader (prefix ∷ decimal n ++ crlf ++ rest) arriving)
      ≡ ok (decimal n, reader rest arriving)
  unfolding read_header read_byte first_byte read_resp_line read_string
  read_header_buffered =
      ground (
        arith,
        line_from-digits (decimal n) rest arriving (decimal-IsDigit n),
        trim_crlf (decimal n),
      )

  -- The same when the buffer is empty and a piece arrives of which the bytes are what there is room
  -- for.
  pub header_filled :
      (piece : Bytes)
      → take 4095 piece ≡ decimal n ++ crlf ++ rest
      → read_header part prefix (reader [] ((prefix ∷ piece) ∷ arriving))
        ≡ ok (decimal n, reader rest (left_over (drop 4095 piece) arriving))
  unfolding read_header read_byte first_byte first_arriving read_resp_line read_string
  header_filled piece fits = ground (
    arith,
    fits,
    line_from-digits (decimal n) rest (left_over (drop 4095 piece) arriving) (decimal-IsDigit n),
    trim_crlf (decimal n),
  )

pub read_header_arriving :
    (part : Part) (prefix n : ℕ) (rest : Bytes) (arriving : List Bytes)
    → length (decimal n ++ crlf ++ rest) ≤ 4095
    → read_header part prefix (reader [] ((prefix ∷ decimal n ++ crlf ++ rest) ∷ arriving))
      ≡ ok (decimal n, reader rest arriving)
read_header_arriving part prefix n rest arriving h =
    let piece = decimal n ++ crlf ++ rest in
    header_filled part prefix n rest arriving piece (take-all 4095 piece h)
    ∙ ap (λ left. ok (decimal n, reader rest (left_over left arriving))) (drop-all 4095 piece h)

digits_differ : (bytes : Bytes) → All IsDigit bytes → same_codes bytes minus_one ≡ false
unfolding same_codes
digits_differ [] h = refl
digits_differ (c ∷ bytes) (h, _) = ground (arith, h)

pub decimal-minus_one : (n : ℕ) → same_codes (decimal n) minus_one ≡ false
decimal-minus_one n = digits_differ (decimal n) (decimal-IsDigit n)

pub take-append : (xs ys : Bytes) → take (length xs) (xs ++ ys) ≡ xs
take-append [] ys = refl
take-append (x ∷ xs) ys = ap (◌∷◌ x) (take-append xs ys)

pub drop-append : (xs ys : Bytes) → drop (length xs) (xs ++ ys) ≡ ys
drop-append [] ys = refl
drop-append (x ∷ xs) ys = drop-append xs ys

read_buffered :
    (c : ℕ) (xs ys : Bytes) (arriving : List Bytes)
    → read (length (c ∷ xs)) (reader (c ∷ xs ++ ys) arriving) ≡ some (c ∷ xs, reader ys arriving)
unfolding read read_some
read_buffered c xs ys arriving = rw (take-append xs ys, drop-append xs ys) refl

-- The line of a header, in front of what follows it.
reassociate :
    (line value rest : Bytes)
    → line ++ crlf ++ value ++ crlf ++ rest ≡ line ++ crlf ++ (value ++ crlf ++ rest)
reassociate [] value rest = refl
reassociate (c ∷ line) value rest = ap (◌∷◌ c) (reassociate line value rest)

read_whole :
    (value rest : Bytes) (arriving : List Bytes)
    → read (length value + 2) (reader (value ++ crlf ++ rest) arriving)
      ≡ some (value ++ crlf, reader rest arriving)
unfolding read read_some
read_whole [] rest arriving = refl
read_whole (c ∷ value) rest arriving =
    ap (λ n. read n (reader (c ∷ (value ++ crlf) ++ rest) arriving))
      {y = length (c ∷ (value ++ crlf))} (omega (arith, length-append value crlf))
    ∙ read_buffered c (value ++ crlf) rest arriving

buffer_start-whole : (value : Bytes) → buffer_start (length value) (value ++ crlf) ≡ value
unfolding buffer_start
buffer_start-whole value =
    ap (take (length value)) (append_assoc value crlf _) ∙ take-append value (crlf ++ _)

read_payload_lem :
    (value rest : Bytes) (arriving : List Bytes)
    → length value + 2 ≤ max_int
    → read_payload (reader (value ++ crlf ++ rest) arriving) (pos (length value))
      ≡ ok (some value, reader rest arriving)
unfolding read_payload
read_payload_lem value rest arriving fits =
    ground (arith, fits, read_whole value rest arriving, buffer_start-whole value)

read_bulk_string_lem :
    (value rest : Bytes) (arriving : List Bytes)
    → length value + 2 ≤ max_int
    → read_resp_bulk_string (reader (bulk_string value ++ rest) arriving)
      ≡ ok (some value, reader rest arriving)
unfolding read_resp_bulk_string
read_bulk_string_lem value rest arriving fits =
    ap (λ (bytes : Bytes). read_resp_bulk_string (reader (b'$' ∷ bytes) arriving))
      (reassociate (decimal (length value)) value rest)
    ∙ headed
  where
    headed :
        read_resp_bulk_string
          (reader (b'$' ∷ decimal (length value) ++ crlf ++ (value ++ crlf ++ rest)) arriving)
        ≡ ok (some value, reader rest arriving)
    headed = ground (
      arith,
      read_header_buffered bulk b'$' (length value) (value ++ crlf ++ rest) arriving,
      decimal-minus_one (length value),
      atoi-decimal (length value) (omega (arith, fits)),
      read_payload_lem value rest arriving fits,
    )

read_values_lem :
    (values : List Bytes) (rest : Bytes) (arriving : List Bytes)
    → All (λ (v : Bytes). length v + 2 ≤ max_int) values
    → read_values (length values) (reader (bulk_strings values ++ rest) arriving)
      ≡ ok (some values, reader rest arriving)
unfolding read_values bulk_strings
read_values_lem [] rest arriving fits = refl
read_values_lem (value ∷ values) rest arriving (fits, more) =
    let left = bulk_strings values ++ rest in
    ap (λ (bytes : Bytes). read_values (suc (length values)) (reader bytes arriving))
      (append_assoc (bulk_string value) (bulk_strings values) rest)
    ∙ ground (
      arith,
      read_bulk_string_lem value left arriving fits,
      read_values_lem values rest arriving more,
    )

-- The lengths of the values are bounded by that of what is written.
bulk_string-long : (value : Bytes) → length value + 2 ≤ length (bulk_string value)
bulk_string-long value = omega (
  arith,
  length-append (decimal (length value) ++ crlf ++ value) crlf,
  length-append (decimal (length value) ++ crlf) value,
)

bulk_strings-long : (values : List Bytes) → length values ≤ length (bulk_strings values)
unfolding bulk_strings
bulk_strings-long [] = omega arith
bulk_strings-long (value ∷ values) = omega (
  arith,
  length-append (bulk_string value) (bulk_strings values),
  bulk_string-long value,
  bulk_strings-long values,
)

bulk_strings-fit :
    (values : List Bytes)
    → length (bulk_strings values) ≤ 4095
    → All (λ (v : Bytes). length v + 2 ≤ max_int) values
unfolding bulk_strings
bulk_strings-fit [] h = tt
bulk_strings-fit (value ∷ values) h =
    let whole = length-append (bulk_string value) (bulk_strings values) in
    (
      omega (arith, h, whole, bulk_string-long value),
      bulk_strings-fit values (omega (arith, h, whole)),
    )

-- A reply that arrives in one piece, and is with what follows it no longer than the 4096 bytes that
-- are buffered, is read back: of an array that is written as `writeRESPArray` writes it, in front
-- of any bytes, `readRESPArray` returns the values, and leaves these bytes in its buffer.
pub read-write_resp_array :
    (values : List Bytes) (rest : Bytes) (arriving : List Bytes)
    → length (write_resp_array values ++ rest) ≤ buffer_size
    → read_resp_array (reader [] ((write_resp_array values ++ rest) ∷ arriving))
      ≡ ok (some values, reader rest arriving)
unfolding read_resp_array
read-write_resp_array values rest arriving fits =
    ap (λ (bytes : Bytes). read_resp_array (reader [] ((b'*' ∷ bytes) ∷ arriving))) split ∙ headed
  where
    left : Bytes
    left = bulk_strings values ++ rest

    split :
        (decimal (length values) ++ crlf ++ bulk_strings values) ++ rest
        ≡ decimal (length values) ++ crlf ++ left
    split = append_assoc (decimal (length values) ++ crlf) (bulk_strings values) rest

    short : length (decimal (length values) ++ crlf ++ left) ≤ 4095
    short = omega (arith, ap length split, fits)

    few : length (bulk_strings values) ≤ 4095
    few = omega (
      arith,
      short,
      length-append (decimal (length values) ++ crlf) left,
      length-append (bulk_strings values) rest,
    )

    headed :
        read_resp_array (reader [] ((b'*' ∷ decimal (length values) ++ crlf ++ left) ∷ arriving))
        ≡ ok (some values, reader rest arriving)
    headed = ground (
      arith,
      read_header_arriving array b'*' (length values) left arriving short,
      decimal-minus_one (length values),
      atoi-decimal (length values) (omega (arith, few, bulk_strings-long values)),
      read_values_lem values rest arriving (bulk_strings-fit values few),
    )
