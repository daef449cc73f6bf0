-- ===== src/Data/Stream/Samples.antt =====
-- The samples that a stream's data are parsed into.
use twinleaf_rust.Shared.{
  ℕ, zero, suc, ◌+◌, ◌≤◌, ◌<◌, ◌≡◌, refl, ap, sym, ◌∙◌, Bool, true, false, List, [], ◌∷◌, ◌++◌,
  arith, ◌==◌, ==_iff, le→ltb, lt→leb, length, length-append, length-drop, take, drop, take-append,
  drop-append, All, Bytes, Result, ok, err, some,
}
use twinleaf_rust.Data.Column.{Column, leading, column_value, column_from_le_bytes}
use twinleaf_rust.Data.Parser.Layout.{Laid, end_from, end_from_le}
use twinleaf_rust.Data.Stop.{Stop}
use twinleaf_rust.Data.Stream.{
  Sample, DeviceColumn, DeviceStream, parse_columns, parse_sample, samples_loop, read_samples,
  read_segment, process_known, process_samples,
}
use twinleaf_rust.Proto.DataType.{
  DataType, uint8, int8, uint16, int16, uint24, int24, uint32, int32, uint64, int64, float32,
  float64, unknown, size,
}
use twinleaf_rust.Proto.Meta.Device.{DeviceMetadata}
use twinleaf_rust.Proto.Meta.Segment.{SegmentMetadata}
use twinleaf_rust.Proto.Meta.Stream.{StreamMetadata}
use twinleaf_rust.Proto.StreamData.{StreamDataPayload}

leading_lem : (n : ℕ) (raw : Bytes) → n ≤ length raw → leading n raw ≡ ok (take n raw)
unfolding leading
leading_lem n raw h = rw (le→ltb (length raw) n h) refl

abbrev Works {ℓ} : {A : Type ℓ} → Result A Stop → Type 0
Works (ok a) = Unit
Works (err e) = ⊥

works {ℓ} : {A : Type ℓ} (r : Result A Stop) → Works r → (a : A) × (r ≡ ok a)
works (ok a) h = (a, refl)
works (err e) h = absurd h

-- A value is read from as many bytes as its type has.
column_value-Works : (t : DataType) (raw : Bytes) → size t ≤ length raw → Works (column_value t raw)
unfolding column_value size
column_value-Works uint8 raw h = rw (leading_lem 1 raw h) tt
column_value-Works int8 raw h = rw (leading_lem 1 raw h) tt
column_value-Works uint16 raw h = rw (leading_lem 2 raw h) tt
column_value-Works int16 raw h = rw (leading_lem 2 raw h) tt
column_value-Works uint24 raw h = rw (leading_lem 3 raw h) tt
column_value-Works int24 raw h = rw (leading_lem 3 raw h) tt
column_value-Works uint32 raw h = rw (leading_lem 4 raw h) tt
column_value-Works int32 raw h = rw (leading_lem 4 raw h) tt
column_value-Works uint64 raw h = rw (leading_lem 8 raw h) tt
column_value-Works int64 raw h = rw (leading_lem 8 raw h) tt
column_value-Works float32 raw h = rw (leading_lem 4 raw h) tt
column_value-Works float64 raw h = rw (leading_lem 8 raw h) tt
column_value-Works (unknown b) raw h = tt

parse_columns-Works :
    (id index offset : ℕ) (cols : List DeviceColumn) (raw : Bytes)
    → Laid id index offset cols
    → end_from offset cols ≤ length raw
    → Works (parse_columns cols raw)
unfolding parse_columns end_from column_from_le_bytes
parse_columns-Works id index offset [] raw h fits = tt
parse_columns-Works id index offset (col ∷ cols) raw h fits =
    let t : DataType = col.metadata.data_type in
    let room = end_from_le (offset + size t) cols in
    let left = length-drop col.offset raw in
    let place = h.2 in
    let (v, e) = works _ (column_value-Works t (drop col.offset raw) (omega arith)) in
    let (rest, r) =
      works _ (parse_columns-Works id (suc index) (offset + size t) cols raw h.3 fits) in
    rw (le→ltb (length raw) col.offset (omega arith)) (rw (e, r) tt)

abbrev pub joined : List Bytes → Bytes
joined [] = []
joined (c ∷ cs) = c ++ joined cs

module _ (sm : StreamMetadata) (seg : SegmentMetadata) (dev : DeviceMetadata)
    (cols : List DeviceColumn) where
  -- The samples of the chunks, numbered from the first. Only the first one has the flags.
  pub data IsRun : ℕ → Bool → Bool → List Bytes → List Sample → Type 0 where
    end : {n : ℕ} {segment_changed meta_changed : Bool} → IsRun n segment_changed meta_changed [] []
    sample :
        {n : ℕ} {segment_changed meta_changed : Bool} {chunk : Bytes} {chunks : List Bytes}
        {columns : List Column} {samples : List Sample}
        → parse_columns cols chunk ≡ ok columns
        → IsRun (suc n) false false chunks samples
        → IsRun n segment_changed meta_changed (chunk ∷ chunks) (
            record {
              n = n;
              columns = columns;
              segment = seg;
              stream = sm;
              device = dev;
              segment_changed = segment_changed;
              meta_changed = meta_changed;
            }
            ∷ samples)

  abbrev Runs : ℕ → DeviceStream → ℕ → List Bytes → Type 0
  Runs fuel s n chunks =
      (s' : DeviceStream) × (samples : List Sample) × (samples_loop fuel s sm seg dev n
          (joined chunks)
        ≡ ok (s', samples))
      × IsRun n s.segment_changed s.meta_changed chunks samples

  samples_step :
      (fuel : ℕ) (s s' : DeviceStream) (n b : ℕ) (c rest : Bytes) (columns : List Column)
      (samples : List Sample)
      → length (b ∷ c) ≡ sm.sample_size
      → parse_columns s.columns (b ∷ c) ≡ ok columns
      → n < 0xFFFFFFFF
      → samples_loop fuel
          (record s { segment_changed = false; meta_changed = false })
          sm
          seg
          dev
          (suc n)
          rest
        ≡ ok (s', samples)
      → samples_loop (suc fuel) s sm seg dev n (b ∷ (c ++ rest))
        ≡ ok (
          s',
          record {
            n = n;
            columns = columns;
            segment = seg;
            stream = sm;
            device = dev;
            segment_changed = s.segment_changed;
            meta_changed = s.meta_changed;
          }
              ∷ samples,
        )
  unfolding samples_loop parse_sample
  samples_step fuel s s' n b c rest columns samples whole parsed small run =
      let total = length-append c rest in
      rw
        (
          le→ltb (suc (length (c ++ rest))) sm.sample_size (omega arith),
          take-append sm.sample_size (b ∷ c) rest (sym whole),
          drop-append sm.sample_size (b ∷ c) rest (sym whole),
        )
        (rw (parsed, lt→leb 0xFFFFFFFF n small) (rw run refl))

  samples_loop-Runs :
      (fuel : ℕ) (s : DeviceStream) (id n : ℕ) (chunks : List Bytes)
      → s.columns ≡ cols
      → Laid id 0 0 cols
      → end_from 0 cols ≤ sm.sample_size
      → 1 ≤ sm.sample_size
      → All (λ c. length c ≡ sm.sample_size) chunks
      → n + length chunks < 4294967296
      → length (joined chunks) ≤ fuel
      → Runs fuel s n chunks
  unfolding samples_loop
  samples_loop-Runs fuel s id n [] same laid fits some_size whole range enough = (s, [], refl, end)
  samples_loop-Runs fuel s id n ([] ∷ chunks) same laid fits some_size whole range enough =
      absurd (let h = whole.0 in omega arith)
  samples_loop-Runs zero s id n ((b ∷ c) ∷ chunks) same laid fits some_size whole range enough =
      absurd (omega arith)
  samples_loop-Runs (suc fuel) s id n ((b ∷ c) ∷ chunks) same laid fits some_size whole range
        enough =
      let full = whole.0 in
      let total = length-append c (joined chunks) in
      let (columns, parsed) =
        works _ (parse_columns-Works id 0 0 cols (b ∷ c) laid (omega arith)) in
      let (s', samples, run, is_run) =
        samples_loop-Runs fuel (record s { segment_changed = false; meta_changed = false }) id
          (suc n) chunks same laid fits some_size whole.1 (omega arith) (omega arith) in
      (
        s',
        _,
        samples_step fuel s s' n b c (joined chunks) columns samples full
            (ap (λ t. parse_columns t (b ∷ c)) same ∙ parsed) (omega arith) run,
        sample parsed is_run,
      )

process_known_same :
    (t : DeviceStream) (sm : StreamMetadata) (seg : SegmentMetadata) (dev : DeviceMetadata)
    (p : StreamDataPayload)
    → (seg.segment_id == p.segment_id) ≡ true
    → (sm.n_columns == length t.columns) ≡ true
    → process_known t (some sm) (some seg) dev p
      ≡ samples_loop (length p.samples) t sm seg dev p.first_sample_n p.samples
unfolding process_known read_segment read_samples
process_known_same t sm seg dev p same complete = rw complete (rw (same, read_segment) refl)

process_samples_known :
    (s : DeviceStream) (sm : StreamMetadata) (seg : SegmentMetadata) (dev : DeviceMetadata)
    (p : StreamDataPayload)
    → s.stream ≡ some sm
    → s.segment ≡ some seg
    → (seg.segment_id == p.segment_id) ≡ true
    → (sm.n_columns == length s.columns) ≡ true
    → process_samples s p dev
      ≡ samples_loop
          (length p.samples)
          (record s { last_seg = p.segment_id })
          sm
          seg
          dev
          p.first_sample_n
          p.samples
unfolding process_samples
process_samples_known s sm seg dev p known seg_known same complete =
    let t : DeviceStream = record s { last_seg = p.segment_id } in
    ap (λ x. process_known t x s.segment dev p) known
    ∙ ap (λ x. process_known t (some sm) x dev p) seg_known
    ∙ process_known_same t sm seg dev p same complete

-- Data of the segment that is known are parsed without a panic and to their end, if the metadata are
-- complete, the columns lie one behind the other within a sample, a sample has a byte at least, the
-- data are whole samples, and their numbers fit 32 bits. There is a sample for each, numbered from
-- the first, with its columns read from its own bytes, and only the first sample carries the flags
-- of a change.
pub process_samples-IsRun :
    (s : DeviceStream) (sm : StreamMetadata) (seg : SegmentMetadata) (dev : DeviceMetadata)
    (p : StreamDataPayload) (id : ℕ) (chunks : List Bytes)
    → s.stream ≡ some sm
    → s.segment ≡ some seg
    → seg.segment_id ≡ p.segment_id
    → sm.n_columns ≡ length s.columns
    → Laid id 0 0 s.columns
    → end_from 0 s.columns ≤ sm.sample_size
    → 1 ≤ sm.sample_size
    → p.samples ≡ joined chunks
    → All (λ c. length c ≡ sm.sample_size) chunks
    → p.first_sample_n + length chunks < 4294967296
    → (s' : DeviceStream) × (samples : List Sample) × (process_samples s p dev ≡ ok (s', samples))
      × IsRun sm seg dev s.columns p.first_sample_n s.segment_changed s.meta_changed chunks samples
process_samples-IsRun s sm seg dev p id chunks known seg_known same_seg complete laid fits some_size
      cut whole range =
    let (s', samples, run, is_run) =
      samples_loop-Runs sm seg dev s.columns (length p.samples)
        (record s { last_seg = p.segment_id }) id p.first_sample_n chunks refl laid fits some_size
        whole range (omega (arith, ap length cut)) in
    (
      s',
      samples,
      process_samples_known s sm seg dev p known seg_known ((==_iff _ _).1 same_seg)
            ((==_iff _ _).1 complete)
          ∙ ap
              (samples_loop (length p.samples) (record s { last_seg = p.segment_id }) sm seg dev
                p.first_sample_n)
              cut
          ∙ run,
      is_run,
    )
