-- ===== src/Data/Metarep/RoundTrip.antt =====
-- That `parse_metarep` reads back the entries that a device writes into its reply.
use twinleaf_rust.Shared.{
  ℕ, zero, suc, ◌≤◌, ◌≡◌, refl, ap, ◌∙◌, List, [], ◌∷◌, ◌++◌, arith, length, length-append,
  take-append, drop-append, le→ltb, Bytes, ok, subst, >>=-eq-ok,
}
use twinleaf_rust.Data.Metarep.{read_metadata, metarep_loop, parse_metarep}
use twinleaf_rust.Proto.Meta.Device
use twinleaf_rust.Proto.Meta.Stream
use twinleaf_rust.Proto.Meta.Segment
use twinleaf_rust.Proto.Meta.Column
use twinleaf_rust.Proto.Meta.Payload.{
  MetadataType, device_type, stream_type, segment_type, column_type, unknown_type,
  metadata_type_from, metadata_type_into, MetadataContent, device, stream, segment, column, unknown,
  read_content, write_content,
}
use twinleaf_rust.Proto.Meta.Payload.RoundTrip.{IsContent, reread, read_content-write_content}
use twinleaf_rust.Proto.Vararg.{split}

-- A reply that holds the given metadata: an entry is the kind, the length and the serialised parts.
pub data IsReply : List MetadataContent → Bytes → Type 0 where
  no_entry : IsReply [] []
  entry :
      (c : MetadataContent) {f v : Bytes} {t : MetadataType} {cs : List MetadataContent}
      {rep : Bytes}
      → write_content c [] [] ≡ ok (f, v, t)
      → IsContent c []
      → IsReply cs rep
      → IsReply (c ∷ cs) (metadata_type_into t ∷ length (f ++ v) ∷ ((f ++ v) ++ rep))

reread_plain : (c : MetadataContent) → reread c [] [] [] ≡ ok (c, [], [])
reread_plain (unknown t) = refl
reread_plain (device m) = refl
reread_plain (stream m) = refl
reread_plain (segment m) = refl
reread_plain (column m) = refl

-- A kind that is not known has a fixed part of its own, which no entry has.
read_metadata-read_content :
    (c : MetadataContent) (t : MetadataType) (raw : Bytes)
    → IsContent c []
    → read_content t raw [] ≡ ok (c, [], [])
    → read_metadata t raw ≡ ok (c ∷ [])
unfolding read_metadata read_content
read_metadata-read_content c device_type raw w e =
    let (p, s, q) = >>=-eq-ok (Device.deserialize raw []) _ e in
    rw s (let same : device p.0 ≡ c = ground arith in ap (λ t. ok (t ∷ [])) same)
read_metadata-read_content c stream_type raw w e =
    let (p, s, q) = >>=-eq-ok (Stream.deserialize raw []) _ e in
    rw s (let same : stream p.0 ≡ c = ground arith in ap (λ t. ok (t ∷ [])) same)
read_metadata-read_content c segment_type raw w e =
    let (p, s, q) = >>=-eq-ok (Segment.deserialize raw []) _ e in
    rw s (let same : segment p.0 ≡ c = ground arith in ap (λ t. ok (t ∷ [])) same)
read_metadata-read_content c column_type raw w e =
    let (p, s, q) = >>=-eq-ok (Column.deserialize raw []) _ e in
    rw s (let same : column p.0 ≡ c = ground arith in ap (λ t. ok (t ∷ [])) same)
read_metadata-read_content c (unknown_type b) raw w e =
    let (p, s, q) = >>=-eq-ok (split raw []) _ e in
    let same : c ≡ unknown b = ground arith in absurd (subst (λ t. IsContent t []) same w).1

metarep_loop_step :
    (fuel mtype : ℕ) (raw rep : Bytes) (c : MetadataContent) (cs : List MetadataContent)
    → read_metadata (metadata_type_from mtype) raw ≡ ok (c ∷ [])
    → metarep_loop fuel rep ≡ ok cs
    → metarep_loop (suc fuel) (mtype ∷ length raw ∷ (raw ++ rep)) ≡ ok (c ∷ cs)
unfolding metarep_loop
metarep_loop_step fuel mtype raw rep c cs e r =
    let fits = le→ltb (length (raw ++ rep)) (length raw) (omega (arith, length-append raw rep)) in
    rw fits (
      rw (take-append (length raw) raw rep refl, drop-append (length raw) raw rep refl)
        (rw (e, r) refl))

metarep_loop-IsReply :
    {cs : List MetadataContent} {rep : Bytes} (fuel : ℕ)
    → length rep ≤ fuel
    → IsReply cs rep
    → metarep_loop fuel rep ≡ ok cs
unfolding metarep_loop
metarep_loop-IsReply fuel h no_entry = refl
metarep_loop-IsReply zero h (entry c e w r) = absurd (omega arith)
metarep_loop-IsReply (suc fuel) h (entry c {f = f} {v = v} {t = t} {cs = cs} {rep = rep} e w r) =
    let found =
      read_metadata-read_content c (metadata_type_from (metadata_type_into t)) (f ++ v) w
        (read_content-write_content c [] [] f v t [] e w ∙ reread_plain c) in
    let rest = metarep_loop-IsReply fuel (omega (arith, length-append (f ++ v) rep)) r in
    metarep_loop_step fuel (metadata_type_into t) (f ++ v) rep c cs found rest

-- From the reply to a metadata RPC the parser reads the metadata that the device serialised into
-- it, all of it and in order.
pub parse_metarep-IsReply :
    (cs : List MetadataContent) (rep : Bytes) → IsReply cs rep → parse_metarep rep ≡ ok cs
unfolding parse_metarep
parse_metarep-IsReply cs rep r = metarep_loop-IsReply (length rep) (omega arith) r
