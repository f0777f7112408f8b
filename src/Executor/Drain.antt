-- ===== src/Executor/Drain.antt =====
-- The loop that reads the standard output of a step (internal/executor/drain.go). The pipe is the
-- list of the bytes that the process writes until it closes it, or until reading fails.
pub mod Slices
pub mod Lines
use daggle.Prelude.{
  ℕ, zero, suc, ◌+◌, ◌-◌, ◌*◌, ◌/◌, ◌%◌, Bool, true, false, ◌||◌, not, List, [], ◌∷◌, ◌++◌, Option,
  none, some, leb, ltb, nat_eq, if◌then◌else◌, length,
}
use daggle.Go.Text.{Text, codes, is_empty}

abbrev pub newline : ℕ
newline = 10

-- Why ReadSlice returns: its buffer is full, it has read a newline, or there is nothing left.
pub data Why : Type 0 where
  full found ended : Why

pub record Slice : Type 0 where
  pub chunk : Text
  pub why : Why
  pub rest : Text

abbrev pub slice_cons : ℕ → Slice → Slice
slice_cons c s = record s { chunk = c ∷ s.chunk }

-- bufio.Reader.ReadSlice('\n') with a buffer of `size` bytes
unfoldable pub read_slice : ℕ → Text → Slice
read_slice zero input = record { chunk = []; why = full; rest = input }
read_slice (suc size) [] = record { chunk = []; why = ended; rest = [] }
read_slice (suc size) (c ∷ input) =
    let later = read_slice size input in
    if nat_eq c newline
    then record { chunk = c ∷ []; why = found; rest = input }
    else slice_cons c later

abbrev pub take_bytes : ℕ → Text → Text
take_bytes zero s = []
take_bytes (suc n) [] = []
take_bytes (suc n) (c ∷ s) = c ∷ take_bytes n s

-- The line so far and the bytes that were dropped from it, with one more chunk.
unfoldable pub add_chunk : ℕ → Text × ℕ → Text → Text × ℕ
add_chunk max (line, dropped) chunk =
    let room = max - length line in
    if leb (length chunk) room
    then (line ++ chunk, dropped)
    else (line ++ take_bytes room chunk, dropped + (length chunk - room))

-- bytes.TrimSuffix of one byte
abbrev pub trim_byte : ℕ → Text → Text
trim_byte b [] = []
trim_byte b (c ∷ []) = if nat_eq c b then [] else c ∷ []
trim_byte b (c ∷ d ∷ s) = c ∷ trim_byte b (d ∷ s)

-- `%d` of a number
abbrev pub decimal_on : ℕ → ℕ → Text → Text
decimal_on zero n s = s
decimal_on (suc fuel) n s =
    let digit = (n % 10 + b'0') ∷ s in
    let rest = decimal_on fuel (n / 10) digit in if ltb n 10 then digit else rest

abbrev pub decimal : ℕ → Text
decimal n = decimal_on (suc n) n []

unfoldable pub assemble_line : Text → ℕ → Text
assemble_line line dropped =
    let text = trim_byte b'\r' (trim_byte newline line) in
    if nat_eq dropped 0
    then text
    else text
      ++ codes " [daggle: line too long, "
      ++ decimal dropped
      ++ codes " further bytes dropped]"

-- What is emitted at the end: a line that is not empty.
abbrev pub last_line : Text × ℕ → List Text
last_line (line, dropped) =
    if not (is_empty line) || ltb 0 dropped then assemble_line line dropped ∷ [] else []

abbrev pub handled : Text → Option (List Text) → Option (List Text)
handled line none = none
handled line (some lines) = some (line ∷ lines)

-- What follows a read, given what follows with the line so far and with a new line.
abbrev pub after_slice :
    Why → Text × ℕ → Option (List Text) → Option (List Text) → Option (List Text)
after_slice full state more next = more
after_slice found (line, dropped) more next = handled (assemble_line line dropped) next
after_slice ended state more next = some (last_line state)

-- drainLines with a buffer of `size` bytes and lines of at most `max`: the calls of `handle`. `none`
-- is a loop that has not ended after `fuel` reads.
unfoldable pub drain_from : ℕ → ℕ → ℕ → Text × ℕ → Text → Option (List Text)
unfolding read_slice add_chunk assemble_line
drain_from zero size max state input = none
drain_from (suc fuel) size max state input =
    let slice = read_slice size input in
    let state' = add_chunk max state slice.chunk in
    after_slice slice.why state' (drain_from fuel size max state' slice.rest)
      (drain_from fuel size max ([], 0) slice.rest)

abbrev pub buffer_size : ℕ
buffer_size = 65_536

abbrev pub stdout_max_line_bytes : ℕ
stdout_max_line_bytes = 1_048_576

unfoldable pub drain_lines : Text → Option (List Text)
unfolding drain_from
drain_lines input = drain_from (suc (length input)) buffer_size stdout_max_line_bytes ([], 0) input
