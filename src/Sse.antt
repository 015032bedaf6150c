-- ===== src/Sse.antt =====
-- The parser of server-sent events in crates/kong-ai/src/codec/sse.rs.
--
-- A text is the list of its characters. The field `data` of an event is `data_text`.
use mathlib.Core.Option
use kong_rust.Common.{
  ℕ, zero, suc, Bool, true, false, not, ◌&&◌, ◌||◌, Option, none, some, List, [], ◌∷◌, ◌++◌, length,
  is_empty, if◌then◌else◌, nat_beq, leb,
}
use kong_rust.Common.Text.{
  Text, codes, same_text, starts_with, strip_prefix, trim_start, trim_end, join,
}
pub mod Drain
pub mod Chunks
pub mod Blocks
pub mod Print
mod Tests

pub record SseEvent : Type 0 where
  pub event_type : Text
  pub data_text : Text
  pub id : Option Text

pub data SseFormat : Type 0 where
  standard ndjson : SseFormat

pub record SseParser : Type 0 where
  pub format : SseFormat
  pub buffer : Text

-- `char::is_whitespace`: the White_Space property of Unicode.
abbrev pub is_whitespace : ℕ → Bool
is_whitespace c =
    (leb 9 c && leb c 13)
    || (nat_beq c 32
        || (nat_beq c 0x85
            || (nat_beq c 0xa0
                || (nat_beq c 0x1680
                    || ((leb 0x2000 c && leb c 0x200a)
                        || (nat_beq c 0x2028
                            || (nat_beq c 0x2029
                                || (nat_beq c 0x202f
                                    || (nat_beq c 0x205f || nat_beq c 0x3000)))))))))

abbrev pub trim : Text → Text
trim t = trim_end is_whitespace (trim_start is_whitespace t)

unfoldable pub is_done : SseEvent → Bool
is_done e = same_text (trim e.data_text) (codes "[DONE]")

abbrev pub new : SseFormat → SseParser
new format = record { format = format; buffer = [] }

abbrev pub push_char : ℕ → List Text → List Text
push_char c [] = (c ∷ []) ∷ []
push_char c (line ∷ rest) = (c ∷ line) ∷ rest

-- `str::lines`: a line ends at `\n`, or at `\r\n`; the last need not end.
abbrev pub lines : Text → List Text
lines [] = []
lines (c ∷ s) =
    let rest = lines s in
    if nat_beq c b'\n'
    then [] ∷ rest
    else if nat_beq c b'\r' && starts_with s (codes "\n")
    then rest
    else push_char c rest

-- What `parse_single_event` has gathered.
pub record Fields : Type 0 where
  pub event_type : Text
  pub data_lines : List Text
  pub id : Option Text

abbrev pub parse_line : Fields → Text → Fields
parse_line found line = elim (strip_prefix (codes "data:") line) [
  | some value ↦ record found {
    data_lines = found.data_lines ++ (trim_start is_whitespace value ∷ []);
  }
  | none ↦ elim (strip_prefix (codes "event:") line) [
    | some value ↦ record found { event_type = trim_start is_whitespace value }
    | none ↦ elim (strip_prefix (codes "id:") line) [
      | some value ↦ record found { id = some (trim_start is_whitespace value) }
      | none ↦ found
    ]
  ]
]

abbrev pub parse_lines : Fields → List Text → Fields
parse_lines found [] = found
parse_lines found (line ∷ rest) =
    parse_lines (if is_empty line then found else parse_line found line) rest

abbrev pub no_fields : Fields
no_fields = record { event_type = codes "message"; data_lines = []; id = none }

abbrev pub event_of : Fields → SseEvent
event_of found = record {
  event_type = found.event_type;
  data_text = join (codes "\n") found.data_lines;
  id = found.id;
}

unfoldable pub parse_single_event : Text → SseEvent
parse_single_event text = event_of (parse_lines no_fields (lines text))

-- `find(boundary)` and `drain` of what ends with it: the drained text and what remains.
abbrev pub drain_to : Text → Text → Option (Text × Text)
drain_to boundary [] = none
drain_to boundary (c ∷ s) =
    let further = drain_to boundary s in
    elim (strip_prefix boundary (c ∷ s)) [
      | some rest ↦ some (boundary, rest)
      | none ↦ Option.map (λ (p : Text × Text). (c ∷ p.0, p.1)) further
    ]

-- The event of a block, unless it has no data.
abbrev pub standard_event : Text → List SseEvent
standard_event text = let e = parse_single_event text in if is_empty e.data_text then [] else e ∷ []

-- The event of a line, unless it is blank.
abbrev pub ndjson_event : Text → List SseEvent
ndjson_event line =
    let t = trim line in
    if is_empty t
    then []
    else record { event_type = codes "message"; data_text = t; id = none } ∷ []

abbrev pub boundary_of : SseFormat → Text
boundary_of standard = codes "\n\n"
boundary_of ndjson = codes "\n"

abbrev pub events_in : SseFormat → Text → List SseEvent
events_in standard = standard_event
events_in ndjson = ndjson_event

-- The loops of `parse_standard` and `parse_ndjson`, which drain the buffer block by block.
abbrev pub drain_blocks : SseFormat → ℕ → Text → List SseEvent × Text
drain_blocks format zero buffer = ([], buffer)
drain_blocks format (suc fuel) buffer = elim (drain_to (boundary_of format) buffer) [
  | none ↦ ([], buffer)
  | some (text, rest) ↦
      let further = drain_blocks format fuel rest in (events_in format text ++ further.0, further.1)
]

-- Every turn drains at least one character, so the length of the buffer is fuel enough.
unfoldable pub parse_blocks : SseFormat → Text → List SseEvent × Text
parse_blocks format buffer = drain_blocks format (length buffer) buffer

unfoldable pub feed : SseParser → Text → List SseEvent × SseParser
feed p chunk =
    let found = parse_blocks p.format (p.buffer ++ chunk) in
    (found.0, record { format = p.format; buffer = found.1 })

unfoldable pub flush : SseParser → List SseEvent × SseParser
flush p = elim p.format [
  | standard ↦
      if is_empty (trim p.buffer)
      then ([], p)
      else (standard_event p.buffer, record { format = p.format; buffer = [] })
  | ndjson ↦ (ndjson_event p.buffer, record { format = p.format; buffer = [] })
]
