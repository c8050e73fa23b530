-- ===== src/Worker/Redis/Partial.antt =====
-- Values that arrive in two pieces, as internal/worker/redis_queue.go reads them.
use ai_workflow.Base.{
  ℕ, zero, suc, ◌+◌, ◌-◌, ◌≤◌, ◌≡◌, ◌≢◌, refl, sym, ap, ◌∙◌, some, List, [], ◌∷◌, ◌++◌, arith,
  length, ok,
}
use ai_workflow.Base.Int.{pos}
use ai_workflow.Base.Lists.{take, drop, length-append}
use ai_workflow.Worker.Redis.Decimal.{Bytes, max_int, decimal, atoi-decimal}
use ai_workflow.Worker.Redis.Reader.{buffer_size, left_over, reader, read, read_some}
use ai_workflow.Worker.Redis.RoundTrip.{
  take-all, drop-all, take-append, drop-append, read_header_arriving, header_filled,
  decimal-minus_one,
}
use ai_workflow.Worker.Redis.Wire.{
  crlf, bulk, zeros, buffer_start, read_payload, read_header, read_resp_bulk_string,
}

take-zeros : (n m : ℕ) → n ≤ m → take n (zeros m) ≡ zeros n
unfolding zeros
take-zeros zero m h = refl
take-zeros (suc n) zero h = absurd (omega (arith, h))
take-zeros (suc n) (suc m) h = ap (◌∷◌ 0) (take-zeros n m (omega (arith, h)))

take-padded :
    (a b : Bytes) (m : ℕ)
    → length b ≤ m
    → take (length (a ++ b)) (a ++ zeros m) ≡ a ++ zeros (length b)
take-padded [] b m h = take-zeros (length b) m h
take-padded (c ∷ a) b m h = ap (◌∷◌ c) (take-padded a b m h)

buffer_start-part : (a b : Bytes) → buffer_start (length (a ++ b)) a ≡ a ++ zeros (length b)
unfolding buffer_start
buffer_start-part a b =
    take-padded a b (length (a ++ b) + 2 - length a) (omega (arith, length-append a b))

read_part :
    (size : ℕ) (a : Bytes) (arriving : List Bytes)
    → a ≢ []
    → length a ≤ size
    → read size (reader a arriving) ≡ some (a, reader [] arriving)
unfolding read read_some
read_part size [] arriving given h = absurd (given refl)
read_part size (c ∷ a) arriving given h = rw (take-all size (c ∷ a) h, drop-all size (c ∷ a) h) refl

read_payload_part :
    (a b : Bytes) (arriving : List Bytes)
    → a ≢ []
    → length (a ++ b) + 2 ≤ max_int
    → read_payload (reader a arriving) (pos (length (a ++ b)))
      ≡ ok (some (a ++ zeros (length b)), reader [] arriving)
unfolding read_payload
read_payload_part a b arriving given fits = ground (
  arith,
  fits,
  read_part (length (a ++ b) + 2) a arriving given (omega (arith, length-append a b)),
  buffer_start-part a b,
)

-- When a value `a ++ b` arrives in two pieces, its size and the bytes `a`, at least one, and then
-- `b`, and the first piece is no longer than the 4096 bytes that are buffered, `readRESPBulkString`
-- does not wait for the second piece: it returns `a` with zero bytes in place of `b`, without an
-- error, and leaves the second piece in front of what is read next.
pub split_bulk_string :
    (a b : Bytes) (arriving : List Bytes)
    → a ≢ []
    → length (a ++ b) + 2 ≤ max_int
    → length (b'$' ∷ decimal (length (a ++ b)) ++ crlf ++ a) ≤ buffer_size
    → read_resp_bulk_string
        (reader [] ((b'$' ∷ decimal (length (a ++ b)) ++ crlf ++ a) ∷ (b ++ crlf) ∷ arriving))
      ≡ ok (some (a ++ zeros (length b)), reader [] ((b ++ crlf) ∷ arriving))
unfolding read_resp_bulk_string
split_bulk_string a b arriving given fits short = ground (
  arith,
  read_header_arriving bulk b'$' (length (a ++ b)) a ((b ++ crlf) ∷ arriving)
      (omega (arith, short)),
  decimal-minus_one (length (a ++ b)),
  atoi-decimal (length (a ++ b)) (omega (arith, fits)),
  read_payload_part a b ((b ++ crlf) ∷ arriving) given fits,
)

left_over-crlf :
    (b : Bytes) (arriving : List Bytes) → left_over (b ++ crlf) arriving ≡ (b ++ crlf) ∷ arriving
left_over-crlf [] arriving = refl
left_over-crlf (c ∷ b) arriving = refl

module _ (a b : Bytes) (full : length (decimal (length (a ++ b)) ++ crlf ++ a) ≡ 4095) where
  abbrev line : Bytes
  line = decimal (length (a ++ b)) ++ crlf ++ a

  taken : take 4095 (line ++ (b ++ crlf)) ≡ line
  taken = ap (λ n. take n (line ++ (b ++ crlf))) (sym full) ∙ take-append line (b ++ crlf)

  dropped : drop 4095 (line ++ (b ++ crlf)) ≡ b ++ crlf
  dropped = ap (λ n. drop n (line ++ (b ++ crlf))) (sym full) ∙ drop-append line (b ++ crlf)

  -- The header of a reply of which the bytes up to `a` are what is buffered.
  read_header_full :
      (arriving : List Bytes)
      → read_header bulk b'$' (reader [] ((b'$' ∷ (line ++ (b ++ crlf))) ∷ arriving))
        ≡ ok (decimal (length (a ++ b)), reader a ((b ++ crlf) ∷ arriving))
  read_header_full arriving =
      header_filled bulk b'$' (length (a ++ b)) a arriving (line ++ (b ++ crlf)) taken
      ∙ ap (λ left. ok (decimal (length (a ++ b)), reader a (left_over left arriving))) dropped
      ∙ ap (λ pieces. ok (decimal (length (a ++ b)), reader a pieces)) (left_over-crlf b arriving)

-- A value that is longer than what is buffered is cut even when all of it arrives in one piece:
-- when its size and the bytes `a`, at least one, are the 4096 bytes that are buffered,
-- `readRESPBulkString` returns for `a ++ b` the bytes `a` with zero bytes in place of `b`, without
-- an error, and leaves `b` in front of what is read next.
pub long_bulk_string :
    (a b : Bytes) (arriving : List Bytes)
    → a ≢ []
    → length (a ++ b) + 2 ≤ max_int
    → length (b'$' ∷ decimal (length (a ++ b)) ++ crlf ++ a) ≡ buffer_size
    → read_resp_bulk_string
        (reader [] ((b'$' ∷ (decimal (length (a ++ b)) ++ crlf ++ a ++ (b ++ crlf))) ∷ arriving))
      ≡ ok (some (a ++ zeros (length b)), reader [] ((b ++ crlf) ∷ arriving))
unfolding read_resp_bulk_string
long_bulk_string a b arriving given fits full = ground (
  arith,
  read_header_full a b (omega (arith, full)) arriving,
  decimal-minus_one (length (a ++ b)),
  atoi-decimal (length (a ++ b)) (omega (arith, fits)),
  read_payload_part a b ((b ++ crlf) ∷ arriving) given fits,
)
