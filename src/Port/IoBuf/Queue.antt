-- ===== src/Port/IoBuf/Queue.antt =====
-- The buffer as a queue of at most 4096 bytes: every operation keeps it valid, and does to its
-- contents what it says.
use twinleaf_rust.Shared.{
  Bool-cases, ltb, ltb→lt, ltb→le, ◌⊎◌, inl, inr, ℕ, ◌+◌, ◌-◌, ◌≤◌, ◌<◌, ◌≡◌, refl, ap, sym, ◌∙◌,
  ◌++◌, append_assoc, arith, leb, ◌==◌, if◌then◌else◌, length, length-append, length-take,
  length-drop, length-replicate, take, drop, slice, take-append, take-min, drop-drop, drop-take,
  le→ltb, Bytes, ok, err, some, none, Bool-cases, inl, inr,
}
use native.Mathlib.Nat.{sub-zero}
use twinleaf_rust.Port.IoBuf.{
  iobuf_size, IoBuf, new, size, bytes, consume, compact, overwrite, add_data, IsValid,
}

pub length-slice :
    (lo hi : ℕ) (xs : Bytes) → lo ≤ hi → hi ≤ length xs → length (slice lo hi xs) ≡ hi - lo
length-slice lo hi xs p q = omega (arith, length-take (hi - lo) (drop lo xs), length-drop lo xs)

pub length-bytes : (b : IoBuf) → IsValid b → length (bytes b) ≡ size b
unfolding bytes size
length-bytes b v = length-slice b.start b.end b.buf v.ordered (omega (arith, v.whole, v.inside))

pub new-IsValid : IsValid new
unfolding new
new-IsValid = record {
  whole = length-replicate {A = ℕ} iobuf_size 0;
  ordered = omega arith;
  inside = omega arith;
}

pub compact-start : (b : IoBuf) → (compact b).start ≡ 0
unfolding compact
compact-start b = ground arith

pub compact-end : (b : IoBuf) → (compact b).end ≡ size b
unfolding compact size
compact-end b = ground arith

length-compact : (b : IoBuf) → IsValid b → length (compact b).buf ≡ iobuf_size
unfolding compact
length-compact b v =
    let front = length-slice b.start b.end b.buf v.ordered (omega (arith, v.whole, v.inside)) in
    let back = length-drop (b.end - b.start) b.buf in
    let both = length-append (slice b.start b.end b.buf) (drop (b.end - b.start) b.buf) in
    ground (arith, v.whole, v.ordered, v.inside)

pub compact-IsValid : (b : IoBuf) → IsValid b → IsValid (compact b)
compact-IsValid b v = record {
  whole = length-compact b v;
  ordered = omega (arith, compact-start b);
  inside = unfold size in omega (arith, compact-end b, v.inside);
}

pub bytes-compact : (b : IoBuf) → IsValid b → bytes (compact b) ≡ bytes b
unfolding bytes compact size
bytes-compact b v = elim (Bool-cases (b.start == 0)) [
  | inl front ↦ rw front
  | inr later ↦ rw later (
      take-append (size b - 0) (slice b.start b.end b.buf) _ (
        omega
          (arith, length-slice b.start b.end b.buf v.ordered (omega (arith, v.whole, v.inside)))))
]

-- A write at `at` keeps what is in front of it, and the array's length.
length-overwrite :
    (buf : Bytes) (at : ℕ) (d : Bytes)
    → at + length d ≤ length buf
    → length (overwrite buf at d) ≡ length buf
length-overwrite buf at d h = omega (
  arith,
  length-append (take at buf) (d ++ drop (at + length d) buf),
  length-append d (drop (at + length d) buf),
  length-take at buf,
  length-drop (at + length d) buf,
)

take-overwrite :
    (buf : Bytes) (at : ℕ) (d : Bytes)
    → at + length d ≤ length buf
    → take (at + length d) (overwrite buf at d) ≡ take at buf ++ d
take-overwrite buf at d h = rw (← append_assoc (take at buf) d (drop (at + length d) buf)) (
    take-append (at + length d) (take at buf ++ d) _
      (omega (arith, length-append (take at buf) d, length-take at buf)))

-- Bytes written behind the data of a compacted buffer.
unfoldable pub appended : IoBuf → Bytes → IoBuf
appended b d = record { buf = overwrite b.buf b.end d; start = b.start; end = b.end + length d }

module _ (b : IoBuf) (d : Bytes) (v : IsValid b) (front : b.start ≡ 0)
    (room : b.end + length d ≤ iobuf_size) where
  pub appended-IsValid : IsValid (appended b d)
  unfolding appended
  appended-IsValid = record {
    whole = length-overwrite b.buf b.end d (omega (arith, v.whole)) ∙ v.whole;
    ordered = omega (arith, v.ordered);
    inside = room;
  }

  pub bytes-appended : bytes (appended b d) ≡ bytes b ++ d
  unfolding bytes appended
  bytes-appended =
      let fits : b.end + length d ≤ length b.buf = omega (arith, v.whole) in
      rw (front, sub-zero (b.end + length d), sub-zero b.end) (take-overwrite b.buf b.end d fits)

module _ (b : IoBuf) (v : IsValid b) where
  pub consume_few :
      (len : ℕ) → len ≤ size b → consume b len ≡ some (record b { start = b.start + len })
  unfolding consume
  consume_few len h = rw (le→ltb (size b) len h)

  pub consumed-IsValid : (len : ℕ) → len ≤ size b → IsValid (record b { start = b.start + len })
  unfolding size
  consumed-IsValid len h = record {
    whole = v.whole;
    ordered = omega (arith, v.ordered);
    inside = v.inside;
  }

  pub bytes-consumed : (len : ℕ) → bytes (record b { start = b.start + len }) ≡ drop len (bytes b)
  unfolding bytes
  bytes-consumed len =
      ap (take (b.end - (b.start + len))) (drop-drop b.start len b.buf)
      ∙ ap (λ (k : ℕ). take k (drop len (drop b.start b.buf))) (omega arith)
      ∙ sym (drop-take len (b.end - b.start) (drop b.start b.buf))

  -- `consume` panics exactly when it is asked for more than the contents; else it drops the front of
  -- the contents and leaves the buffer well-formed.
  pub consume_lem :
      (len : ℕ)
      → (size b < len) × (consume b len ≡ none)
        ⊎ (len ≤ size b)
          × ((b' : IoBuf) × (consume b len ≡ some b')
              × IsValid b'
              × (bytes b' ≡ drop len (bytes b)))
  consume_lem len = elim (Bool-cases (ltb (size b) len)) [
    | inl more ↦ inl (ltb→lt (size b) len more, unfold consume in rw more refl)
    | inr few ↦
        let h = ltb→le (size b) len few in
        inr (h, (_, consume_few len h, consumed-IsValid len h, bytes-consumed len))
  ]

  pub end_room : (compact b).end + (iobuf_size - size b) ≡ iobuf_size
  end_room = omega (arith, compact-end b, compact-IsValid b v)

  add_data-appended :
      (d : Bytes) → (add_data b d).0 ≡ appended (compact b) (take (iobuf_size - size b) d)
  unfolding add_data appended
  add_data-appended d =
      let room : iobuf_size - (compact b).end ≡ iobuf_size - size b =
        ap (λ e. iobuf_size - e) (compact-end b) in
      rw room
        (rw (take-min (iobuf_size - size b) d) (rw (length-take (iobuf_size - size b) d) refl))

  -- As much of the data as there is room for joins the end. The answer says whether all of it did,
  -- or how much.
  pub add_data_lem :
      (d : Bytes)
      → IsValid (add_data b d).0
        × (bytes (add_data b d).0 ≡ bytes b ++ take (iobuf_size - size b) d)
        × ((add_data b d).1
            ≡ (if leb (length d) (iobuf_size - size b) then ok tt else err (iobuf_size - size b)))
  add_data_lem d =
      let c = compact-IsValid b v in
      let few = length-take (iobuf_size - size b) d in
      let fits : (compact b).end + length (take (iobuf_size - size b) d) ≤ iobuf_size =
        omega (arith, end_room) in
      let same = bytes-appended (compact b) _ c (compact-start b) fits in
      (
        rw (add_data-appended d) (appended-IsValid (compact b) _ c (compact-start b) fits),
        rw (add_data-appended d)
            (same ∙ ap (λ t. t ++ take (iobuf_size - size b) d) (bytes-compact b v)),
        unfold add_data in ground (arith, compact-end b),
      )
