-- ===== src/Worker/Redis/Examples.antt =====
-- The Redis protocol of internal/worker/redis_queue.go on small inputs.
use ai_workflow.Base.{◌≡◌, refl, none, some, [], ◌∷◌, ◌++◌, arith, length, ok, err}
use ai_workflow.Base.Text.{codes, same_codes}
use ai_workflow.Base.Int.{pos}
use ai_workflow.Worker.Redis.Decimal.{decimal, atoi, digits, scan, magnitude}
use ai_workflow.Worker.Redis.Reader.{
  reader, read_byte, first_byte, first_arriving, read_string, line_from, line_arriving, cut_line,
  cut_piece,
}
use ai_workflow.Worker.Redis.RoundTrip.{read-write_resp_array}
use ai_workflow.Worker.Redis.Partial.{split_bulk_string, long_bulk_string}
use ai_workflow.Worker.Redis.Wire.{
  crlf, write_resp_array, bulk_strings, read_resp_array, read_resp_bulk_string, read_resp_integer,
  read_header, read_resp_line, trim_suffix, panics, integer, unexpected_prefix, zeros,
}

written :
    write_resp_array (codes "LPUSH" ∷ codes "jobs" ∷ codes "{}" ∷ [])
    ≡ codes "*3\r\n$5\r\nLPUSH\r\n$4\r\njobs\r\n$2\r\n{}\r\n"
unfolding decimal digits bulk_strings
written = refl

numbers :
    (read_resp_integer (reader [] (codes ":1" ∷ codes "2\r\n+" ∷ []))
      ≡ ok (pos 12, reader (codes "+") []))
    × (read_resp_integer (reader (codes "-ERR\r\n") []) ≡ err (unexpected_prefix integer b'-'))
    × (read_resp_bulk_string (reader (codes "$-1\r\n") []) ≡ ok (none, reader [] []))
    × (read_resp_array (reader (codes "*-2\r\n") []) ≡ err panics)
unfolding read_resp_integer read_resp_bulk_string read_resp_array read_header read_byte first_byte
    first_arriving read_resp_line read_string line_from line_arriving cut_line cut_piece trim_suffix
    atoi magnitude scan same_codes
numbers = (refl, refl, refl, refl)

read-write_resp_array_example :
    read_resp_array
      (reader [] ((write_resp_array (codes "jobs" ∷ codes "" ∷ []) ++ codes ":1") ∷ []))
    ≡ ok (some (codes "jobs" ∷ codes "" ∷ []), reader (codes ":1") [])
unfolding decimal bulk_strings
read-write_resp_array_example =
    read-write_resp_array (codes "jobs" ∷ codes "" ∷ []) (codes ":1") [] (omega arith)

split_bulk_string_example :
    read_resp_bulk_string
      (reader [] ((b'$' ∷ decimal 4 ++ crlf ++ codes "jo") ∷ codes "bs\r\n" ∷ []))
    ≡ ok (some (codes "jo" ++ zeros 2), reader [] (codes "bs\r\n" ∷ []))
unfolding decimal
split_bulk_string_example =
    split_bulk_string (codes "jo") (codes "bs") [] (λ e. cc e) (omega arith) (omega arith)

-- 4089 bytes behind a header of seven, and two more.
long_bulk_string_example :
    read_resp_bulk_string (
      reader [] (
        (b'$'
          ∷ (decimal (length (zeros 4089 ++ codes "ab"))
              ++ crlf
              ++ zeros 4089
              ++ (codes "ab" ++ crlf)))
        ∷ []))
    ≡ ok (some (zeros 4089 ++ zeros 2), reader [] ((codes "ab" ++ crlf) ∷ []))
unfolding zeros decimal digits
long_bulk_string_example =
    long_bulk_string (zeros 4089) (codes "ab") [] (λ e. cc e) (omega arith) refl
