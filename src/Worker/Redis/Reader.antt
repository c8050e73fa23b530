-- ===== src/Worker/Redis/Reader.antt =====
-- The `bufio.Reader` of a connection, as internal/worker/redis_queue.go uses it.
use ai_workflow.Base.{
  ℕ, ◌-◌, Option, none, some, List, [], ◌∷◌, ◌++◌, leb, eqb, if◌then◌else◌, length,
}
use ai_workflow.Base.Lists.{take, drop}
use ai_workflow.Worker.Redis.Decimal.{Bytes}

-- The size of the buffer that `bufio.NewReader` makes.
abbrev pub buffer_size : ℕ
buffer_size = 4096

-- The bytes that are buffered, and what is there for each later read of the connection, which takes
-- as much of it as there is room for; then the connection is closed.
pub record Reader : Type 0 where
  pub buffer : Bytes
  pub arriving : List Bytes

abbrev pub reader : Bytes → List Bytes → Reader
reader buffer arriving = record { buffer = buffer; arriving = arriving }

-- What a read has no room for is there for the next one.
abbrev pub left_over : Bytes → List Bytes → List Bytes
left_over [] arriving = arriving
left_over (c ∷ piece) arriving = (c ∷ piece) ∷ arriving

-- A buffer that a read fills, with room for a number of bytes.
abbrev pub filled : ℕ → Bytes → List Bytes → Reader
filled room piece arriving = reader (take room piece) (left_over (drop room piece) arriving)

-- `ReadByte`: the buffer is filled when it is empty. `none` is the end of the connection.
unfoldable pub first_arriving : List Bytes → Option (ℕ × Reader)
first_arriving [] = none
first_arriving ([] ∷ arriving) = first_arriving arriving
first_arriving ((c ∷ piece) ∷ arriving) = some (c, filled 4095 piece arriving)

unfoldable pub first_byte : Bytes → List Bytes → Option (ℕ × Reader)
unfolding first_arriving
first_byte (c ∷ buffer) arriving = some (c, reader buffer arriving)
first_byte [] arriving = first_arriving arriving

unfoldable pub read_byte : Reader → Option (ℕ × Reader)
unfolding first_byte
read_byte r = first_byte r.buffer r.arriving

-- The bytes up to and with the first newline, and those behind it.
unfoldable pub cut_line : Bytes → Option (Bytes × Bytes)
cut_line [] = none
cut_line (c ∷ bytes) =
    let rest = cut_line bytes in
    if eqb c b'\n'
    then some (c ∷ [], bytes)
    else elim rest [ none ↦ none | some (line, left) ↦ some (c ∷ line, left) ]

-- The room of a fill when one more byte is read: a buffer that is full is set aside.
abbrev pub room_left : ℕ → ℕ
room_left room = if eqb room 0 then 4095 else room - 1

-- A line that ends in a piece, with what is then buffered and what is left over, or the room that
-- is left after the piece.
pub data Cut : Type 0 where
  found : Bytes → Bytes → Bytes → Cut
  missing : ℕ → Cut

abbrev pub cut_cons : ℕ → Cut → Cut
cut_cons c (found line buffer left) = found (c ∷ line) buffer left
cut_cons c (missing room) = missing room

unfoldable pub cut_piece : ℕ → Bytes → Cut
cut_piece room [] = missing room
cut_piece room (c ∷ piece) =
    let rest = cut_piece (room_left room) piece in
    if eqb c b'\n'
    then found (c ∷ []) (take (room_left room) piece) (drop (room_left room) piece)
    else cut_cons c rest

abbrev pub put_before : Bytes → Option (Bytes × Reader) → Option (Bytes × Reader)
put_before bytes none = none
put_before bytes (some (line, r)) = some (bytes ++ line, r)

-- The reads until there is a newline.
unfoldable pub line_arriving : ℕ → List Bytes → Option (Bytes × Reader)
unfolding cut_piece
line_arriving room [] = none
line_arriving room (piece ∷ arriving) = elim (cut_piece room piece) [
  | found line buffer left ↦ some (line, reader buffer (left_over left arriving))
  | missing room' ↦ put_before piece (line_arriving room' arriving)
]

-- `ReadString('\n')`: the buffer is filled until there is a newline.
unfoldable pub line_from : Bytes → List Bytes → Option (Bytes × Reader)
unfolding cut_line line_arriving
line_from buffer arriving = elim (cut_line buffer) [
  | none ↦ put_before buffer (line_arriving (buffer_size - length buffer) arriving)
  | some (line, left) ↦ some (line, reader left arriving)
]

unfoldable pub read_string : Reader → Option (Bytes × Reader)
unfolding line_from
read_string r = line_from r.buffer r.arriving

-- `Read` into a slice of a length, when nothing is buffered: one read of the connection, into the
-- slice if that is as long as the buffer, and else through the buffer.
abbrev pub read_piece : ℕ → Bytes → List Bytes → Bytes × Reader
read_piece size piece arriving =
    if leb buffer_size size
    then (take size piece, reader [] (left_over (drop size piece) arriving))
    else (
      take size (take buffer_size piece),
      reader (drop size (take buffer_size piece)) (left_over (drop buffer_size piece) arriving),
    )

-- `Read`: the bytes that are buffered, or else those of one read, as far as they fit.
unfoldable pub read_some : ℕ → Bytes → List Bytes → Option (Bytes × Reader)
read_some size (c ∷ buffer) arriving =
    some (take size (c ∷ buffer), reader (drop size (c ∷ buffer)) arriving)
read_some size [] [] = none
read_some size [] (piece ∷ arriving) = some (read_piece size piece arriving)

unfoldable pub read : ℕ → Reader → Option (Bytes × Reader)
unfolding read_some
read size r = read_some size r.buffer r.arriving
