-- ===== src/Data/Parser/Layout.antt =====
-- The layout of the columns that `DeviceDataParser` keeps, in every state it reaches.
use twinleaf_rust.Shared.{
  ℕ, suc, ◌+◌, ◌≤◌, ◌≡◌, refl, ap, sym, ◌∙◌, subst, Bool, true, false, not, List, [], ◌∷◌, ◌++◌,
  arith, ltb, ◌==◌, ==_iff, if◌then◌else◌, length, Bool-cases, Option-cases, Option, some, none,
  inl, inr, lookup, lookup-insert,
}
use twinleaf_rust.Data.Parser.{
  DeviceDataParser, reload, put_stream, found_stream, get_stream, check_id, is_beyond,
  device_metadata, stream_metadata, segment_metadata, new_segment, column_end, column_offset,
  column_metadata, column_differs, process_metadata, process_reply,
}
use twinleaf_rust.Data.Stream.{DeviceStream, DeviceColumn, fresh}
use twinleaf_rust.Proto.DataType.{size}
use twinleaf_rust.Proto.Meta.Column.{ColumnMetadata}
use twinleaf_rust.Proto.Meta.Device.{DeviceMetadata}
use twinleaf_rust.Proto.Meta.Payload.{MetadataContent, device, stream, segment, column, unknown}
use twinleaf_rust.Data.Equal.{stream_eq, segment_eq}
use twinleaf_rust.Proto.Meta.Stream.{StreamMetadata}
use twinleaf_rust.Proto.Meta.Segment.{SegmentMetadata}

-- The columns of a stream from an index on: in order, one behind the other from the offset.
abbrev pub Laid : ℕ → ℕ → ℕ → List DeviceColumn → Type 0
Laid id index offset [] = Unit
Laid id index offset (col ∷ cols) =
    (col.metadata.stream_id ≡ id)
    × (col.metadata.index ≡ index)
    × (col.offset ≡ offset)
    × Laid id (suc index) (offset + size col.metadata.data_type) cols

pub record IsStream (id : ℕ) (s : DeviceStream) : Type 0 where
  pub own_id : s.id ≡ id
  pub laid : Laid id 0 0 s.columns
  pub no_last_sample : s.last_sample_number ≡ 0

abbrev pub IsParser : DeviceDataParser → Type 0
IsParser p = (id : ℕ) (s : DeviceStream) → lookup id p.streams ≡ some s → IsStream id s

fresh-IsStream : (id : ℕ) → IsStream id (fresh id)
unfolding fresh
fresh-IsStream id = record { own_id = refl; laid = tt; no_last_sample = refl }

-- Where the next column goes, if the columns start at an offset.
unfoldable pub end_from : ℕ → List DeviceColumn → ℕ
end_from offset [] = offset
end_from offset (col ∷ cols) = end_from (offset + size col.metadata.data_type) cols

pub end_from_le : (offset : ℕ) (cols : List DeviceColumn) → offset ≤ end_from offset cols
unfolding end_from
end_from_le offset [] = omega arith
end_from_le offset (col ∷ cols) =
    omega (arith, end_from_le (offset + size col.metadata.data_type) cols)

column_end-Laid :
    (id index offset : ℕ) (col : DeviceColumn) (cols : List DeviceColumn)
    → Laid id index offset (col ∷ cols)
    → column_end (col ∷ cols) (length cols) ≡ end_from offset (col ∷ cols)
unfolding column_end end_from
column_end-Laid id index offset col [] h = ap (λ t. t + size col.metadata.data_type) h.2
column_end-Laid id index offset col (next ∷ cols) h =
    column_end-Laid id (suc index) (offset + size col.metadata.data_type) next cols h.3

column_offset-Laid :
    (id : ℕ) (cols : List DeviceColumn)
    → Laid id 0 0 cols
    → column_offset cols (length cols) ≡ end_from 0 cols
unfolding column_offset end_from
column_offset-Laid id [] h = refl
column_offset-Laid id (col ∷ cols) h = column_end-Laid id 0 0 col cols h

Laid-append :
    (id index offset : ℕ) (cols : List DeviceColumn) (next : DeviceColumn)
    → Laid id index offset cols
    → next.metadata.stream_id ≡ id
    → next.metadata.index ≡ index + length cols
    → next.offset ≡ end_from offset cols
    → Laid id index offset (cols ++ (next ∷ []))
unfolding end_from
Laid-append id index offset [] next h own at place = (own, at ∙ omega arith, place, tt)
Laid-append id index offset (col ∷ cols) next h own at place = (
  h.0,
  h.1,
  h.2,
  Laid-append id (suc index) (offset + size col.metadata.data_type) cols next h.3 own
      (at ∙ omega arith) place,
)

pub put_stream-IsParser :
    (id : ℕ) (s : DeviceStream) (p : DeviceDataParser)
    → IsStream id s
    → IsParser p
    → IsParser (put_stream id s p)
unfolding put_stream
put_stream-IsParser id s p v w q r e =
    let t = sym (lookup-insert q id s p.streams) ∙ e in
    elim (Bool-cases (q == id)) [
      | inl same ↦
          let here : s ≡ r = ground arith in
          let key : id ≡ q = ground arith in
          subst (λ k. IsStream k r) key (subst (λ x. IsStream id x) here v)
      | inr other ↦ w q r (ground arith)
    ]

pub reload-IsParser : (p : DeviceDataParser) → IsParser (reload p)
unfolding reload lookup
reload-IsParser p id s e = cc

check_id-IsParser : (p : DeviceDataParser) (id : ℕ) → IsParser p → IsParser (check_id p id)
unfolding check_id
check_id-IsParser p id w = elim (Bool-cases (is_beyond p.device id)) [
  | inl far ↦ rw far (reload-IsParser p)
  | inr near ↦ rw near w
]

-- A parser with one of its streams.
abbrev pub IsFound : ℕ → DeviceDataParser × DeviceStream → Type 0
IsFound id found = IsParser found.0 × IsStream id found.1

pub get_stream-IsFound : (p : DeviceDataParser) (id : ℕ) → IsParser p → IsFound id (get_stream p id)
unfolding get_stream found_stream
get_stream-IsFound p id w = elim (Option-cases (lookup id p.streams)) [
  | inl missing ↦
      rw missing ((put_stream-IsParser id (fresh id) p (fresh-IsStream id) w, fresh-IsStream id))
  | inr (s, here) ↦ rw here ((w, w id s here))
]

pub if-IsParser :
    (c : Bool) (p q : DeviceDataParser) → IsParser p → IsParser q → IsParser (if c then p else q)
if-IsParser true p q v w = v
if-IsParser false p q v w = w

put_stream_at :
    (id k : ℕ) (s : DeviceStream) (p : DeviceDataParser)
    → k ≡ id
    → IsStream id s
    → IsParser p
    → IsParser (put_stream k s p)
put_stream_at id k s p e v w =
    subst (λ t. IsParser (put_stream t s p)) (sym e) (put_stream-IsParser id s p v w)

device_metadata-IsParser :
    (p : DeviceDataParser) (cur : Option DeviceMetadata) (dm : DeviceMetadata)
    → IsParser p
    → IsParser (device_metadata p cur dm)
unfolding device_metadata reload
device_metadata-IsParser p none dm w = w
device_metadata-IsParser p (some cur) dm w =
    if-IsParser _ _ _ (reload-IsParser p) (if-IsParser _ (record p { device = some dm }) p w w)

stream_metadata-IsParser :
    (id : ℕ) (found : DeviceDataParser × DeviceStream) (known : Option StreamMetadata)
    (sm : StreamMetadata)
    → sm.stream_id ≡ id
    → IsFound id found
    → IsParser (stream_metadata found known sm)
unfolding stream_metadata
stream_metadata-IsParser id (p, s) (some known) sm own w =
    if-IsParser (not (stream_eq known sm)) (reload p) p (reload-IsParser p) w.0
stream_metadata-IsParser id (p, s) none sm own w =
    put_stream_at id sm.stream_id _ p own
      (record { own_id = w.1.own_id; laid = w.1.laid; no_last_sample = w.1.no_last_sample }) w.0

segment_metadata-IsParser :
    (id : ℕ) (found : DeviceDataParser × DeviceStream) (known : Option SegmentMetadata)
    (sm : SegmentMetadata) (from_update : Bool)
    → sm.stream_id ≡ id
    → IsFound id found
    → IsParser (segment_metadata found known sm from_update)
unfolding segment_metadata new_segment
segment_metadata-IsParser id (p, s) (some known) sm from_update own w =
    if-IsParser (not (segment_eq known sm)) _ p
      (put_stream_at id sm.stream_id (new_segment s sm from_update) p own
        (record { own_id = w.1.own_id; laid = w.1.laid; no_last_sample = w.1.no_last_sample }) w.0)
      w.0
segment_metadata-IsParser id (p, s) none sm from_update own w =
    put_stream_at id sm.stream_id (new_segment s sm from_update) p own
      (record { own_id = w.1.own_id; laid = w.1.laid; no_last_sample = w.1.no_last_sample }) w.0

column_appended :
    (id : ℕ) (p : DeviceDataParser) (s : DeviceStream) (cm : ColumnMetadata)
    → cm.stream_id ≡ id
    → cm.index ≡ length s.columns
    → IsFound id (p, s)
    → (next : DeviceColumn)
    → next ≡ record { metadata = cm; offset = column_offset s.columns cm.index }
    → IsParser (put_stream cm.stream_id (record s { columns = s.columns ++ (next ∷ []) }) p)
column_appended id p s cm own at w next e =
    let place =
      ap (λ t. t.offset) e
      ∙ ap (column_offset s.columns) at
      ∙ column_offset-Laid id s.columns w.1.laid in
    put_stream_at id cm.stream_id _ p own
      (record {
        own_id = w.1.own_id;
        laid =
            Laid-append id 0 0 s.columns next w.1.laid (ap (λ t. t.metadata.stream_id) e ∙ own)
              (ap (λ t. t.metadata.index) e ∙ at ∙ omega arith) place;
        no_last_sample = w.1.no_last_sample;
      })
      w.0

column_metadata-IsParser :
    (id : ℕ) (found : DeviceDataParser × DeviceStream) (cm : ColumnMetadata)
    → cm.stream_id ≡ id
    → IsFound id found
    → IsParser (column_metadata found cm)
unfolding column_metadata
column_metadata-IsParser id (p, s) cm own w =
    if-IsParser (ltb cm.index (length s.columns)) _ _
      (if-IsParser (column_differs s.columns cm.index cm) (reload p) p (reload-IsParser p) w.0)
      (elim (Bool-cases (cm.index == length s.columns)) [
        | inl next ↦ rw next (column_appended id p s cm own ((==_iff _ _).0 next) w _ refl)
        | inr gap ↦ rw gap w.0
      ])

get_stream-IsFound_checked :
    (p : DeviceDataParser) (id : ℕ) → IsParser p → IsFound id (get_stream (check_id p id) id)
get_stream-IsFound_checked p id w = get_stream-IsFound (check_id p id) id (check_id-IsParser p id w)

pub process_metadata-IsParser :
    (p : DeviceDataParser) (c : MetadataContent) (from_update : Bool)
    → IsParser p
    → IsParser (process_metadata p c from_update)
unfolding process_metadata
process_metadata-IsParser p (device dm) u w = device_metadata-IsParser p p.device dm w
process_metadata-IsParser p (stream sm) u w =
    stream_metadata-IsParser sm.stream_id _ _ sm refl (get_stream-IsFound_checked p sm.stream_id w)
process_metadata-IsParser p (segment sm) u w =
    segment_metadata-IsParser sm.stream_id _ _ sm u refl
      (get_stream-IsFound_checked p sm.stream_id w)
process_metadata-IsParser p (column cm) u w =
    column_metadata-IsParser cm.stream_id _ cm refl (get_stream-IsFound_checked p cm.stream_id w)
process_metadata-IsParser p (unknown t) u w = w

pub process_reply-IsParser :
    (p : DeviceDataParser) (cs : List MetadataContent) → IsParser p → IsParser (process_reply p cs)
unfolding process_reply
process_reply-IsParser p [] w = w
process_reply-IsParser p (c ∷ cs) w =
    process_reply-IsParser (process_metadata p c false) cs (process_metadata-IsParser p c false w)
