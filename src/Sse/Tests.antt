-- ===== src/Sse/Tests.antt =====
-- Runs of the parser of server-sent events.
use kong_rust.Common.{◌≡◌, refl, true, none, some, List, [], ◌∷◌, map}
use kong_rust.Common.Text.{Text, codes}
use kong_rust.Sse.{standard, ndjson, new, feed, flush, is_done, parse_blocks, parse_single_event}
use kong_rust.Sse.Chunks.{feed_all, concat, feed_all-feed}
use kong_rust.Sse.Print.{Message, event_for, print, AreWritable, feed-print}

abbrev cut_stream : List Text
cut_stream = codes "event: delta\nda" ∷ codes "ta: {}\n" ∷ codes "\ndata: [DONE]\n\nda" ∷ []

abbrev delta : Message
delta = record {
  event_type = codes "delta";
  id = some (codes "7");
  data_lines = codes "one" ∷ codes "two" ∷ [];
}

delta_writable : AreWritable (delta ∷ [])
delta_writable = (
  record {
    event_type = (refl, (refl, refl));
    id = (refl, (refl, refl));
    data_lines = ((refl, (refl, refl)), ((refl, (refl, refl)), tt));
    some_data = refl;
  },
  tt,
)

feed_all-feed_example : feed_all (new standard) cut_stream ≡ feed (new standard) (concat cut_stream)
feed_all-feed_example = feed_all-feed (new standard) cut_stream refl

feed-print_example :
    feed (new standard) (print (delta ∷ [])) ≡ (map event_for (delta ∷ []), new standard)
feed-print_example = feed-print (delta ∷ []) delta_writable

-- The events of the cut stream: its last piece stays in the buffer.
cut_events : feed_all (new standard) cut_stream ≡ (
  (record { event_type = codes "delta"; data_text = codes "{}"; id = none }
      ∷ record { event_type = codes "message"; data_text = codes "[DONE]"; id = none }
      ∷ []),
  record { format = standard; buffer = codes "da" },
)
unfolding feed parse_blocks parse_single_event
cut_events = refl

-- A stream of lines, whose last is not ended.
last_line :
    (flush (feed (new ndjson) (codes "{}\n\n [1] ")).1).0
    ≡ (record { event_type = codes "message"; data_text = codes "[1]"; id = none } ∷ [])
unfolding feed parse_blocks flush
last_line = refl

done :
    is_done (record { event_type = codes "message"; data_text = codes " [DONE]"; id = none }) ≡ true
unfolding is_done
done = refl
