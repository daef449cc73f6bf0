-- ===== src/Port/IoBuf/Streams.antt =====
-- The buffer between a packet and a byte stream: reading into it and writing out of it.
use twinleaf_rust.Shared.{
  Bool-cases, ltb, ltb→lt, ltb→le, ◌⊎◌, inl, inr, ℕ, ◌+◌, ◌-◌, ◌≤◌, ◌<◌, ◌≡◌, refl, ap, sym, ◌∙◌,
  [], ◌∷◌, ◌++◌, append-nil, arith, ◌==◌, if◌then◌else◌, length, drop, le→ltb, lt→ltb, Bytes,
  Result, ok, err, Option, some,
}
use twinleaf_rust.Port.Errors.{IoError, RecvError, SendError, must_drain}
use twinleaf_rust.Port.IoBuf.{
  iobuf_size, IoBuf, size, bytes, compact, read_error, write_error, refill, drain, IsValid,
}
use twinleaf_rust.Port.IoBuf.Queue.{
  length-bytes, compact-start, compact-end, compact-IsValid, bytes-compact, appended,
  appended-IsValid, bytes-appended, consume_few, consumed-IsValid, bytes-consumed,
}

-- `io::Read::read` stores no more than it is given room for.
abbrev pub IsReader : (ℕ → Result Bytes IoError) → Type 0
IsReader reader = (room : ℕ) (got : Bytes) → reader room ≡ ok got → length got ≤ room

-- `io::Write::write` takes no more than it is offered.
abbrev pub IsWriter : (Bytes → Result ℕ IoError) → Type 0
IsWriter writer = (offer : Bytes) (n : ℕ) → writer offer ≡ ok n → n ≤ length offer

-- What a read brings, and how it is answered.
abbrev pub received : Result Bytes IoError → Bytes
received (ok got) = got
received (err e) = []

abbrev pub read_answer : Result Bytes IoError → Result (Unit {0}) RecvError
read_answer (ok []) = err RecvError.disconnected
read_answer (ok (c ∷ cs)) = ok tt
read_answer (err e) = err (read_error e)

-- A refill of `b` that brings `got` and answers `a`.
abbrev pub Refilled :
    IoBuf → IoBuf × Result (Unit {0}) RecvError → Bytes → Result (Unit {0}) RecvError → Type 0
Refilled b after got a = IsValid after.0 × (bytes after.0 ≡ bytes b ++ got) × (after.1 ≡ a)

-- What a write takes, and how it is answered when `offered` bytes were there.
abbrev pub taken : Result ℕ IoError → ℕ
taken (ok n) = n
taken (err e) = 0

abbrev pub write_answer : ℕ → Result ℕ IoError → Result (Unit {0}) SendError
write_answer offered (ok n) = if n == offered then ok tt else err must_drain
write_answer offered (err e) = err (write_error e)

-- A drain of `b` that takes `n` bytes and answers `a`.
abbrev pub Drained :
    IoBuf → Option (IoBuf × Result (Unit {0}) SendError) → ℕ → Result (Unit {0}) SendError → Type 0
Drained b after n a =
    (b' : IoBuf) × (after ≡ some (b', a)) × IsValid b' × (bytes b' ≡ drop n (bytes b))

module _ (b : IoBuf) (v : IsValid b) where
  refill_state :
      (reader : ℕ → Result Bytes IoError) (got : Bytes)
      → reader (iobuf_size - (compact b).end) ≡ ok got
      → 0 < length got
      → refill b reader ≡ (appended (compact b) got, ok tt)
  unfolding refill appended
  refill_state reader got e h = rw (e, refill) (rw (lt→ltb 0 (length got) h) refl)

  refill_idle :
      (reader : ℕ → Result Bytes IoError) (a : Result (Unit {0}) RecvError)
      → refill b reader ≡ (compact b, a)
      → Refilled b (refill b reader) [] a
  refill_idle reader a e =
      rw e (compact-IsValid b v, bytes-compact b v ∙ sym (append-nil (bytes b)), refl)

  refill-Refilled :
      (reader : ℕ → Result Bytes IoError) (r : Result Bytes IoError)
      → IsReader reader
      → reader (iobuf_size - (compact b).end) ≡ r
      → Refilled b (refill b reader) (received r) (read_answer r)
  refill-Refilled reader (ok []) lim e =
      refill_idle reader (err RecvError.disconnected) (unfold refill in rw (e, refill) refl)
  refill-Refilled reader (err x) lim e =
      refill_idle reader (err (read_error x)) (unfold refill in rw (e, refill) refl)
  refill-Refilled reader (ok (c ∷ cs)) lim e =
      let k = compact-IsValid b v in
      let fits : (compact b).end + length (c ∷ cs) ≤ iobuf_size =
        omega (arith, lim _ _ e, k.inside) in
      rw (refill_state reader (c ∷ cs) e (omega arith)) (
        appended-IsValid (compact b) (c ∷ cs) k (compact-start b) fits,
        bytes-appended (compact b) (c ∷ cs) k (compact-start b) fits
            ∙ ap (λ t. t ++ (c ∷ cs)) (bytes-compact b v),
        refl,
      )

  -- A refill offers the reader the room behind the contents, keeps the contents, and puts behind
  -- them what was read. An empty read is answered as a disconnection, a blocked one as not ready.
  pub refill_lem :
      (reader : ℕ → Result Bytes IoError)
      → IsReader reader
      → let r = reader (iobuf_size - size b) in
        Refilled b (refill b reader) (received r) (read_answer r)
  refill_lem reader lim =
      refill-Refilled reader _ lim (ap (λ e. reader (iobuf_size - e)) (compact-end b))

  drain-Drained :
      (writer : Bytes → Result ℕ IoError) (r : Result ℕ IoError)
      → IsWriter writer
      → 0 < size b
      → writer (bytes b) ≡ r
      → Drained b (drain b writer) (taken r) (write_answer (size b) r)
  unfolding drain bytes
  drain-Drained writer (err x) lim h e =
      (b, rw (lt→ltb b.start b.end (unfold size in omega arith), e) refl, v, refl)
  drain-Drained writer (ok n) lim h e =
      let few : n ≤ size b = omega (arith, lim _ n e, length-bytes b v) in
      (
        record b { start = b.start + n },
        rw (lt→ltb b.start b.end (unfold size in omega arith), e)
            (rw (consume_few b v n few) (unfold size in ground (arith, v.ordered))),
        consumed-IsValid b v n few,
        bytes-consumed b v n,
      )

  -- A drain of an empty buffer is done, and does not call the writer. Of any other it offers the
  -- contents to a writer that takes no more than it is offered, drops what was taken, and is done when
  -- nothing is left. It never panics.
  pub drain_lem :
      (writer : Bytes → Result ℕ IoError)
      → IsWriter writer
      → let r = writer (bytes b) in
        (size b ≡ 0) × (drain b writer ≡ some (b, ok tt))
        ⊎ (0 < size b) × Drained b (drain b writer) (taken r) (write_answer (size b) r)
  drain_lem writer lim = elim (Bool-cases (ltb 0 (size b))) [
    | inl held ↦ let h = ltb→lt 0 (size b) held in inr (h, drain-Drained writer _ lim h refl)
    | inr idle ↦
        let h : size b ≡ 0 = omega (arith, ltb→le 0 (size b) idle) in
        inl (h, unfold drain in rw (le→ltb b.start b.end (unfold size in omega arith)) refl)
  ]
