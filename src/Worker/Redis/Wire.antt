-- ===== src/Worker/Redis/Wire.antt =====
-- The Redis protocol as internal/worker/redis_queue.go writes and reads it. Texts are their bytes.
use ai_workflow.Base.{
  ℕ, zero, suc, ◌+◌, ◌-◌, Option, none, some, List, [], ◌∷◌, ◌++◌, leb, eqb, if◌then◌else◌, length,
  Result, ok, err,
}
use ai_workflow.Base.Int.{ℤ, pos, negsuc}
use ai_workflow.Base.Lists.{take}
use ai_workflow.Base.Text.{same_codes}
use ai_workflow.Worker.Redis.Decimal.{Bytes, decimal, atoi, max_int}
use ai_workflow.Worker.Redis.Reader.{Reader, read_byte, read_string, read}

abbrev pub crlf : Bytes
crlf = b'\r' ∷ b'\n' ∷ []

abbrev pub bulk_string : Bytes → Bytes
bulk_string value = b'$' ∷ decimal (length value) ++ crlf ++ value ++ crlf

unfoldable pub bulk_strings : List Bytes → Bytes
bulk_strings [] = []
bulk_strings (value ∷ values) = bulk_string value ++ bulk_strings values

-- `writeRESPArray`: the bytes that are flushed.
abbrev pub write_resp_array : List Bytes → Bytes
write_resp_array values = b'*' ∷ decimal (length values) ++ crlf ++ bulk_strings values

pub data Part : Type 0 where
  integer array bulk : Part

-- `panics` is a run-time panic, for a length that is negative or overflows.
pub data RespError : Type 0 where
  prefix_unread : Part → RespError
  unexpected_prefix : Part → ℕ → RespError
  line_unread : RespError
  unparsed : Part → RespError
  payload_unread : RespError
  panics : RespError

-- A value with the reader behind it.
abbrev pub Reading : Type 0 → Type 0
Reading A = Result RespError (A × Reader)

-- `strings.TrimSuffix` with one byte.
unfoldable pub trim_suffix : ℕ → Bytes → Bytes
trim_suffix c [] = []
trim_suffix c (x ∷ []) = if eqb x c then [] else x ∷ []
trim_suffix c (x ∷ y ∷ bytes) = x ∷ trim_suffix c (y ∷ bytes)

unfoldable pub read_resp_line : Reader → Reading Bytes
unfolding trim_suffix
read_resp_line r = elim (read_string r) [
  | none ↦ err line_unread
  | some (line, r') ↦ ok (trim_suffix b'\r' (trim_suffix b'\n' line), r')
]

-- The prefix of a part and the line behind it.
unfoldable pub read_header : Part → ℕ → Reader → Reading Bytes
unfolding read_resp_line
read_header part prefix r = elim (read_byte r) [
  | none ↦ err (prefix_unread part)
  | some (c, r') ↦ if eqb c prefix then read_resp_line r' else err (unexpected_prefix part c)
]

unfoldable pub read_resp_integer : Reader → Reading ℤ
unfolding read_header
read_resp_integer r = elim (read_header integer b':' r) [
  | err e ↦ err e
  | ok (line, r') ↦ elim (atoi line) [ none ↦ err (unparsed integer) | some n ↦ ok (n, r') ]
]

abbrev pub minus_one : Bytes
minus_one = b'-' ∷ b'1' ∷ []

unfoldable pub zeros : ℕ → Bytes
zeros zero = []
zeros (suc n) = 0 ∷ zeros n

-- `buffer[:size]` after the bytes that one `Read` gave were copied to the start of the buffer.
unfoldable pub buffer_start : ℕ → Bytes → Bytes
unfolding zeros
buffer_start size got = take size (got ++ zeros (size + 2 - length got))

-- What follows the size of a bulk string.
unfoldable pub read_payload : Reader → ℤ → Reading (Option Bytes)
unfolding buffer_start
read_payload r (pos size) =
    let filled : Reading (Option Bytes) = elim (read (size + 2) r) [
      | none ↦ err payload_unread
      | some (got, r') ↦ ok (some (buffer_start size got), r')
    ] in
    if leb (size + 2) max_int then filled else err panics
read_payload r (negsuc zero) = elim (read 1 r) [ none ↦ err payload_unread | some _ ↦ err panics ]
read_payload r (negsuc (suc n)) = err panics

-- `none` is the null string.
unfoldable pub read_resp_bulk_string : Reader → Reading (Option Bytes)
unfolding read_header read_payload
read_resp_bulk_string r = elim (read_header bulk b'$' r) [
  | err e ↦ err e
  | ok (line, r') ↦
      if same_codes line minus_one
      then ok (none, r')
      else elim (atoi line) [ none ↦ err (unparsed bulk) | some size ↦ read_payload r' size ]
]

abbrev pub put_first : Bytes → Reading (Option (List Bytes)) → Reading (Option (List Bytes))
put_first value (err e) = err e
put_first value (ok (none, r)) = ok (none, r)
put_first value (ok (some values, r)) = ok (some (value ∷ values), r)

-- The loop of `readRESPArray`.
unfoldable pub read_values : ℕ → Reader → Reading (Option (List Bytes))
unfolding read_resp_bulk_string
read_values zero r = ok (some [], r)
read_values (suc count) r = elim (read_resp_bulk_string r) [
  | err e ↦ err e
  | ok (none, r') ↦ ok (none, r')
  | ok (some value, r') ↦ put_first value (read_values count r')
]

abbrev pub read_counted : Reader → ℤ → Reading (Option (List Bytes))
read_counted r (pos count) = read_values count r
read_counted r (negsuc _) = err panics

-- `none` is the null array.
unfoldable pub read_resp_array : Reader → Reading (Option (List Bytes))
unfolding read_header read_values
read_resp_array r = elim (read_header array b'*' r) [
  | err e ↦ err e
  | ok (line, r') ↦
      if same_codes line minus_one
      then ok (none, r')
      else elim (atoi line) [ none ↦ err (unparsed array) | some count ↦ read_counted r' count ]
]
