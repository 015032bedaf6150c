-- ===== src/Sse/Chunks.antt =====
-- The parser of crates/kong-ai/src/codec/sse.rs on a stream that comes in chunks.
use mathlib.Core.List
use kong_rust.Common.{◌≡◌, ◌∙◌, sym, ap, none, List, [], ◌∷◌, ◌++◌}
use kong_rust.Common.Text.{Text}
use kong_rust.Sse.{SseEvent, SseParser, drain_to, boundary_of, parse_blocks, feed}
use kong_rust.Sse.Drain.{parse_blocks-none, parse_blocks-IsDrained, parse_blocks-append}

-- The events of a stream, and the parser after it.
abbrev pub feed_all : SseParser → List Text → List SseEvent × SseParser
feed_all p [] = ([], p)
feed_all p (chunk ∷ chunks) =
    let first = feed p chunk in
    let further = feed_all first.1 chunks in (first.0 ++ further.0, further.1)

abbrev pub concat : List Text → Text
concat [] = []
concat (chunk ∷ chunks) = chunk ++ concat chunks

-- No event waits in the buffer.
abbrev pub IsDrained : SseParser → Type 0
IsDrained p = drain_to (boundary_of p.format) p.buffer ≡ none

-- After a chunk no complete event is left in the buffer.
pub feed-IsDrained : (p : SseParser) (chunk : Text) → IsDrained (feed p chunk).1
unfolding feed
feed-IsDrained p chunk = parse_blocks-IsDrained p.format (p.buffer ++ chunk)

-- From a parser with no event in its buffer, a stream gives the same events and leaves the same parser
-- however it is cut into chunks: as if it came in one.
pub feed_all-feed :
    (p : SseParser) (chunks : List Text) → IsDrained p → feed_all p chunks ≡ feed p (concat chunks)
unfolding feed
feed_all-feed p [] h =
    ap (λ found. (found.0, record { format = p.format; buffer = found.1 }))
      (sym (parse_blocks-none p.format p.buffer h)
        ∙ ap (parse_blocks p.format) (sym (List.append-nil p.buffer)))
feed_all-feed p (chunk ∷ chunks) h =
    ap (λ found. ((feed p chunk).0 ++ found.0, found.1))
      (feed_all-feed (feed p chunk).1 chunks (feed-IsDrained p chunk))
    ∙ ap (λ found. (found.0, record { format = p.format; buffer = found.1 }))
        (sym (parse_blocks-append p.format (p.buffer ++ chunk) (concat chunks))
          ∙ ap (parse_blocks p.format) (List.append_assoc p.buffer chunk (concat chunks)))
