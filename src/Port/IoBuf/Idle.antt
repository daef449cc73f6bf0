-- ===== src/Port/IoBuf/Idle.antt =====
-- A buffer with nothing in it.
use twinleaf_rust.Shared.{
  ◌≡◌, refl, ap, ◌∙◌, [], ◌∷◌, ◌++◌, length, take, take_all, Bytes, ok, arith, ◌≤◌, ◌-◌, le→leb,
}
use twinleaf_rust.Port.IoBuf.{IoBuf, bytes, size, iobuf_size, IsValid, add_data}
use twinleaf_rust.Port.IoBuf.Queue.{add_data_lem, length-bytes}

length_zero : (xs : Bytes) → length xs ≡ 0 → xs ≡ []
length_zero [] e = refl
length_zero (x ∷ xs) e = absurd (omega arith)

module _ (b : IoBuf) (v : IsValid b) (idle : size b ≡ 0) where
  pub bytes_idle : bytes b ≡ []
  bytes_idle = length_zero (bytes b) (length-bytes b v ∙ idle)

  -- Up to 4096 bytes fit.
  pub add_data_idle :
      (d : Bytes)
      → length d ≤ iobuf_size
      → IsValid (add_data b d).0 × (bytes (add_data b d).0 ≡ d) × ((add_data b d).1 ≡ ok tt)
  add_data_idle d h =
      let (valid, held, answer) = add_data_lem b v d in
      let room : length d ≤ iobuf_size - size b = omega arith in
      (
        valid,
        held
            ∙ ap (λ t. t ++ take (iobuf_size - size b) d) bytes_idle
            ∙ take_all (iobuf_size - size b) d room,
        answer ∙ rw (le→leb (length d) (iobuf_size - size b) room) refl,
      )
