-- ===== src/Data/Parser/Reached.antt =====
-- The states that `DeviceDataParser` reaches, one packet after the other.
use twinleaf_rust.Shared.{
  ℕ, zero, suc, ◌≡◌, refl, sym, ◌∙◌, Bool, true, false, not, if◌then◌else◌, take, leb, refuse, List,
  [], ◌∷◌, Bytes, drop, subst, length, ◌==◌, Result, ok, err, ◌>>=◌, ◌>>◌, Option, some, none, ltb,
  lookup,
}
use twinleaf_rust.Data.Parser.{
  DeviceDataParser, new, reload, put_stream, get_stream, process_data, process_payload,
  process_packet, process_reply,
}
use twinleaf_rust.Data.Parser.Layout.{
  IsStream, IsParser, IsFound, Laid, reload-IsParser, if-IsParser, put_stream-IsParser,
  get_stream-IsFound, process_metadata-IsParser, process_reply-IsParser,
}
use twinleaf_rust.Data.Metarep.{parse_metarep}
use twinleaf_rust.Data.Column.{Column}
use twinleaf_rust.Data.Stop.{Stop, panicked}
use twinleaf_rust.Data.Stream.{
  DeviceStream, Sample, process_samples, process_known, read_segment, rolled_over, read_samples,
  samples_loop, parse_sample,
}
use twinleaf_rust.Proto.Heartbeat.{session, any}
use twinleaf_rust.Proto.Meta.Device.{DeviceMetadata}
use twinleaf_rust.Proto.Meta.Payload.{MetadataContent}
use twinleaf_rust.Proto.Meta.Segment.{SegmentMetadata}
use twinleaf_rust.Proto.Meta.Stream.{StreamMetadata}
use twinleaf_rust.Proto.Packet.{Packet}
use twinleaf_rust.Proto.Payload.{
  Payload, log_message, rpc_request, rpc_reply, rpc_error, heartbeat, legacy_timebase_update,
  legacy_source_update, legacy_stream_update, legacy_stream_data, metadata, stream_data, unknown,
}
use twinleaf_rust.Proto.StreamData.{StreamDataPayload}

-- What parsing data leaves of a stream.
record Keeps (s s' : DeviceStream) : Type 0 where
  same_id : s'.id ≡ s.id
  same_columns : s'.columns ≡ s.columns
  same_last : s'.last_sample_number ≡ s.last_sample_number

abbrev Kept : DeviceStream → Result (DeviceStream × List Sample) Stop → Type 0
Kept s (ok found) = Keeps s found.0
Kept s (err e) = Unit

Keeps-refl : (s : DeviceStream) → Keeps s s
Keeps-refl s = record { same_id = refl; same_columns = refl; same_last = refl }

-- A round, with what it checks and computes before the rounds behind it.
round-Kept :
    (s : DeviceStream) (fits : Result (Unit {0}) Stop) (columns : Result (List Column) Stop)
    (small : Result (Unit {0}) Stop) (sample : List Column → Sample)
    (rest : Result (DeviceStream × List Sample) Stop)
    → Kept s rest
    → Kept s (do fits; cols ← columns; small; (s', samples) ← rest; ok (s', sample cols ∷ samples))
round-Kept s (err e) columns small sample rest k = tt
round-Kept s (ok u) (err e) small sample rest k = tt
round-Kept s (ok u) (ok cols) (err e) sample rest k = tt
round-Kept s (ok u) (ok cols) (ok v) sample (err e) k = tt
round-Kept s (ok u) (ok cols) (ok v) sample (ok found) k = k

samples_loop-Kept :
    (fuel : ℕ) (s t : DeviceStream) (sm : StreamMetadata) (seg : SegmentMetadata)
    (dev : DeviceMetadata) (n : ℕ) (raw : Bytes)
    → Keeps s t
    → Kept s (samples_loop fuel t sm seg dev n raw)
unfolding samples_loop
samples_loop-Kept fuel s t sm seg dev n [] k = k
samples_loop-Kept zero s t sm seg dev n (b ∷ raw) k = tt
samples_loop-Kept (suc fuel) s t sm seg dev n (b ∷ raw) k =
    let shown = record t { segment_changed = false; meta_changed = false } in
    round-Kept s (refuse (ltb (length (b ∷ raw)) sm.sample_size) panicked)
      (parse_sample t (take sm.sample_size (b ∷ raw))) (refuse (leb 0xFFFFFFFF n) panicked)
      (λ columns. record {
        n = n;
        columns = columns;
        segment = seg;
        stream = sm;
        device = dev;
        segment_changed = t.segment_changed;
        meta_changed = t.meta_changed;
      })
      (samples_loop fuel shown sm seg dev (suc n) (drop sm.sample_size (b ∷ raw)))
      (samples_loop-Kept fuel s shown sm seg dev (suc n) (drop sm.sample_size (b ∷ raw))
        (record { same_id = k.same_id; same_columns = k.same_columns; same_last = k.same_last }))

rolled-Kept :
    (s t : DeviceStream) (sm : StreamMetadata) (dev : DeviceMetadata) (p : StreamDataPayload)
    (next : Result (Option SegmentMetadata) Stop)
    → Keeps s t
    → Kept s (
        next >>= λ found. elim found [
          | none ↦ ok (t, [])
          | some new_seg ↦ read_samples (record t { segment = some new_seg }) sm new_seg dev p
        ])
unfolding read_samples
rolled-Kept s t sm dev p (err e) k = tt
rolled-Kept s t sm dev p (ok none) k = k
rolled-Kept s t sm dev p (ok (some new_seg)) k =
    samples_loop-Kept (length p.samples) s (record t { segment = some new_seg }) sm new_seg dev
      p.first_sample_n p.samples
      (record { same_id = k.same_id; same_columns = k.same_columns; same_last = k.same_last })

if-Kept :
    (s : DeviceStream) (c : Bool) (a b : Result (DeviceStream × List Sample) Stop)
    → Kept s a
    → Kept s b
    → Kept s (if c then a else b)
if-Kept s true a b k l = k
if-Kept s false a b k l = l

process_known-Kept :
    (s t : DeviceStream) (sm : Option StreamMetadata) (seg : Option SegmentMetadata)
    (dev : DeviceMetadata) (p : StreamDataPayload)
    → Keeps s t
    → Kept s (process_known t sm seg dev p)
unfolding process_known read_segment read_samples
process_known-Kept s t none seg dev p k = k
process_known-Kept s t (some sm) none dev p k = k
process_known-Kept s t (some sm) (some seg) dev p k =
    if-Kept s (not (sm.n_columns == length t.columns)) (ok (t, [])) _ k (
      if-Kept s (seg.segment_id == p.segment_id) _ _
        (samples_loop-Kept (length p.samples) s t sm seg dev p.first_sample_n p.samples k)
        (rolled-Kept s t sm dev p (rolled_over t sm seg p) k))

process_samples-Kept :
    (s : DeviceStream) (p : StreamDataPayload) (dev : DeviceMetadata)
    → Kept s (process_samples s p dev)
unfolding process_samples
process_samples-Kept s p dev =
    process_known-Kept s (record s { last_seg = p.segment_id }) s.stream s.segment dev p
      (record { same_id = refl; same_columns = refl; same_last = refl })

Keeps-IsStream : (id : ℕ) (s s' : DeviceStream) → Keeps s s' → IsStream id s → IsStream id s'
Keeps-IsStream id s s' k w = record {
  own_id = k.same_id ∙ w.own_id;
  laid = subst (Laid id 0 0) (sym k.same_columns) w.laid;
  no_last_sample = k.same_last ∙ w.no_last_sample;
}

-- Every state that a result holds is well-formed.
abbrev Yields : Result (DeviceDataParser × List Sample) Stop → Type 0
Yields (ok found) = IsParser found.0
Yields (err e) = Unit

process_samples-Yields :
    (id : ℕ) (p : DeviceDataParser) (s : DeviceStream)
    (r : Result (DeviceStream × List Sample) Stop)
    → IsFound id (p, s)
    → Kept s r
    → Yields (r >>= λ x. ok (put_stream id x.0 p, x.1))
process_samples-Yields id p s (ok (t, samples)) w k =
    put_stream-IsParser id t p (Keeps-IsStream id s t k w.1) w.0
process_samples-Yields id p s (err e) w k = tt

if-Yields :
    (c : Bool) (a b : Result (DeviceDataParser × List Sample) Stop)
    → Yields a
    → Yields b
    → Yields (if c then a else b)
if-Yields true a b k l = k
if-Yields false a b k l = l

process_data-Yields :
    (p : DeviceDataParser) (dev : Option DeviceMetadata) (d : StreamDataPayload)
    → IsParser p
    → Yields (process_data p dev d)
unfolding process_data
process_data-Yields p none d w = w
process_data-Yields p (some dev) d w =
    let (p', s) = get_stream p d.stream_id in
    if-Yields (ltb dev.n_streams d.stream_id) (ok (reload p, [])) _ (reload-IsParser p) (
      process_samples-Yields d.stream_id p' s (process_samples s d dev)
        (get_stream-IsFound p d.stream_id w) (process_samples-Kept s d dev))

reply-Yields :
    (p : DeviceDataParser) (found : Result (List MetadataContent) Stop)
    → IsParser p
    → Yields (found >>= λ cs. ok (process_reply p cs, []))
reply-Yields p (ok cs) w = process_reply-IsParser p cs w
reply-Yields p (err e) w = tt

process_payload-Yields :
    (p : DeviceDataParser) (payload : Payload) → IsParser p → Yields (process_payload p payload)
unfolding process_payload
process_payload-Yields p (rpc_reply rep) w = reply-Yields p (parse_metarep rep.reply) w
process_payload-Yields p (metadata mp) w = process_metadata-IsParser p mp.content true w
process_payload-Yields p (heartbeat (session id)) w =
    if-IsParser _ (reload p) p (reload-IsParser p) w
process_payload-Yields p (heartbeat (any bytes)) w = w
process_payload-Yields p (stream_data d) w = process_data-Yields p p.device d w
process_payload-Yields p (log_message q) w = w
process_payload-Yields p (rpc_request q) w = w
process_payload-Yields p (rpc_error q) w = w
process_payload-Yields p (legacy_timebase_update q) w = w
process_payload-Yields p (legacy_source_update q) w = w
process_payload-Yields p (legacy_stream_update q) w = w
process_payload-Yields p (legacy_stream_data q) w = w
process_payload-Yields p (unknown q) w = w

-- The states that a new parser reaches, one packet after the other.
pub data Reached : DeviceDataParser → Type 0 where
  start : (ignore_session : Bool) → Reached (new ignore_session)
  next :
      {p p' : DeviceDataParser} {samples : List Sample} (pkt : Packet)
      → Reached p
      → process_packet p pkt ≡ ok (p', samples)
      → Reached p'

Reached-Kept : {p : DeviceDataParser} → Reached p → IsParser p
unfolding process_packet new lookup
Reached-Kept (start ignore_session) = λ id s e. cc
Reached-Kept (next {p = p} pkt r e) =
    subst Yields e (process_payload-Yields p pkt.payload (Reached-Kept r))

-- Whatever packets a parser has processed, each of its streams stands under its own id, its columns
-- belong to it and are numbered from zero without a gap, each starts in a sample where the one
-- before it ends, and the number of its last sample is still zero.
pub Reached-IsStream :
    (p : DeviceDataParser) (id : ℕ) (s : DeviceStream)
    → Reached p
    → lookup id p.streams ≡ some s
    → IsStream id s
Reached-IsStream p id s r e = Reached-Kept r id s e
