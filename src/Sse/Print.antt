-- ===== src/Sse/Print.antt =====
-- Events as they are written on the wire, and the parser of crates/kong-ai/src/codec/sse.rs on them.
use mathlib.Core.List
use kong_rust.Common.{
  ◌≡◌, ◌∙◌, refl, sym, ap, ap₂, false, Option, none, some, List, [], ◌∷◌, ◌++◌, map, is_empty,
  if◌then◌else◌,
}
use kong_rust.Common.Text.{Text, codes, has_char, trim_start, join}
use kong_rust.Sse.{
  SseEvent, standard, is_whitespace, Fields, parse_lines, no_fields, event_of, parse_single_event,
  standard_event, parse_blocks, new, feed,
}
use kong_rust.Sse.Drain.{prepend, parse_blocks-none, parse_blocks-some}
use kong_rust.Sse.Blocks.{block, AreLines, lines-block, drain_to-block}

-- An event with the lines of its data.
pub record Message : Type 0 where
  pub event_type : Text
  pub id : Option Text
  pub data_lines : List Text

abbrev pub event_for : Message → SseEvent
event_for m = record {
  event_type = m.event_type;
  data_text = join (codes "\n") m.data_lines;
  id = m.id;
}

abbrev data_fields : List Text → List Text
data_fields [] = []
data_fields (d ∷ ds) = (codes "data: " ++ d) ∷ data_fields ds

abbrev id_fields : Option Text → List Text → List Text
id_fields none rest = rest
id_fields (some id) rest = (codes "id: " ++ id) ∷ rest

abbrev field_lines : Message → List Text
field_lines m = (codes "event: " ++ m.event_type) ∷ id_fields m.id (data_fields m.data_lines)

abbrev pub print : List Message → Text
print [] = []
print (m ∷ ms) = block (field_lines m) ++ print ms

-- A value that a line can carry: no line breaks, and no space before it.
abbrev pub IsPlain : Text → Type 0
IsPlain t =
    (has_char b'\n' t ≡ false) × ((has_char b'\r' t ≡ false) × (trim_start is_whitespace t ≡ t))

abbrev pub ArePlain : List Text → Type 0
ArePlain [] = Unit
ArePlain (t ∷ ts) = IsPlain t × ArePlain ts

abbrev IsPlain? : Option Text → Type 0
IsPlain? none = Unit
IsPlain? (some t) = IsPlain t

-- A message whose values are plain, with data.
pub record IsWritable (m : Message) : Type 0 where
  pub event_type : IsPlain m.event_type
  pub id : IsPlain? m.id
  pub data_lines : ArePlain m.data_lines
  pub some_data : is_empty (join (codes "\n") m.data_lines) ≡ false

parse_lines-data :
    (found : Fields) (ds : List Text)
    → ArePlain ds
    → parse_lines found (data_fields ds ++ ([] ∷ []))
      ≡ record found { data_lines = found.data_lines ++ ds }
parse_lines-data found [] h =
    ap (λ ds. record found { data_lines = ds }) (sym (List.append-nil found.data_lines))
parse_lines-data found (d ∷ ds) (h, k) =
    ap
      (λ t.
        parse_lines (record found { data_lines = found.data_lines ++ (t ∷ []) })
          (data_fields ds ++ ([] ∷ [])))
      h.1.1
    ∙ parse_lines-data (record found { data_lines = found.data_lines ++ (d ∷ []) }) ds k
    ∙ ap (λ es. record found { data_lines = es }) (List.append_assoc found.data_lines (d ∷ []) ds)

parse_lines-field_lines :
    (event_type : Text) (id : Option Text) (ds : List Text)
    → IsPlain event_type
    → IsPlain? id
    → ArePlain ds
    → parse_lines no_fields
        (((codes "event: " ++ event_type) ∷ id_fields id (data_fields ds)) ++ ([] ∷ []))
      ≡ record { event_type = event_type; data_lines = ds; id = id }
parse_lines-field_lines t none ds p q r =
    ap (λ u. parse_lines (record no_fields { event_type = u }) (data_fields ds ++ ([] ∷ []))) p.1.1
    ∙ parse_lines-data (record no_fields { event_type = t }) ds r
parse_lines-field_lines t (some id) ds p q r =
    ap₂
      (λ u v.
        parse_lines (record no_fields { event_type = u; id = some v })
          (data_fields ds ++ ([] ∷ [])))
      p.1.1 q.1.1
    ∙ parse_lines-data (record no_fields { event_type = t; id = some id }) ds r

data_fields-AreLines : (ds : List Text) → ArePlain ds → AreLines (data_fields ds)
data_fields-AreLines [] h = tt
data_fields-AreLines (d ∷ ds) (h, k) = ((h.0, (h.1.0, refl)), data_fields-AreLines ds k)

field_lines-AreLines : (m : Message) → IsWritable m → AreLines (field_lines m)
field_lines-AreLines m w = ((w.event_type.0, (w.event_type.1.0, refl)), ids m.id w.id)
  where
    ids : (id : Option Text) → IsPlain? id → AreLines (id_fields id (data_fields m.data_lines))
    ids none h = data_fields-AreLines m.data_lines w.data_lines
    ids (some id) h = ((h.0, (h.1.0, refl)), data_fields-AreLines m.data_lines w.data_lines)

-- A written message is parsed to its event.
pub parse_single_event-block :
    (m : Message) → IsWritable m → parse_single_event (block (field_lines m)) ≡ event_for m
unfolding parse_single_event
parse_single_event-block m w =
    ap (λ ls. event_of (parse_lines no_fields ls))
      (lines-block (field_lines m) (field_lines-AreLines m w))
    ∙ ap event_of
        (parse_lines-field_lines m.event_type m.id m.data_lines w.event_type w.id w.data_lines)

parse_blocks-block :
    (m : Message) (rest : Text)
    → IsWritable m
    → parse_blocks standard (block (field_lines m) ++ rest)
      ≡ prepend (event_for m ∷ []) (parse_blocks standard rest)
parse_blocks-block m rest w =
    parse_blocks-some standard (block (field_lines m) ++ rest) (block (field_lines m)) rest (
      drain_to-block (codes "event: " ++ m.event_type) (id_fields m.id (data_fields m.data_lines))
        rest (field_lines-AreLines m w))
    ∙ ap (λ es. prepend es (parse_blocks standard rest)) one
  where
    one : standard_event (block (field_lines m)) ≡ event_for m ∷ []
    one =
        ap (λ e. if is_empty e.data_text then [] else e ∷ []) (parse_single_event-block m w)
        ∙ ap (λ b. if b then [] else event_for m ∷ []) w.some_data

abbrev pub AreWritable : List Message → Type 0
AreWritable [] = Unit
AreWritable (m ∷ ms) = IsWritable m × AreWritable ms

parse_blocks-print :
    (ms : List Message) → AreWritable ms → parse_blocks standard (print ms) ≡ (map event_for ms, [])
parse_blocks-print [] h = parse_blocks-none standard [] refl
parse_blocks-print (m ∷ ms) (h, k) =
    parse_blocks-block m (print ms) h ∙ ap (prepend (event_for m ∷ [])) (parse_blocks-print ms k)

-- A fresh parser that is fed written messages returns their events and keeps nothing back. The values
-- of the messages have no line breaks and no space before them, and each message has data.
pub feed-print :
    (ms : List Message)
    → AreWritable ms
    → feed (new standard) (print ms) ≡ (map event_for ms, new standard)
unfolding feed
feed-print ms h =
    ap (λ found. (found.0, record { format = standard; buffer = found.1 }))
      (parse_blocks-print ms h)
