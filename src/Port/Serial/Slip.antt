-- ===== src/Port/Serial/Slip.antt =====
-- The scan of a SLIP frame.
use twinleaf_rust.Shared.{
  ℕ, ◌+◌, ◌<◌, ◌≡◌, refl, ap, sym, ◌∙◌, true, false, [], ◌∷◌, ◌++◌, append-nil, append_assoc, arith,
  length, length-append, lt→leb, Bool-cases, inl, inr, ◌==◌, ==_iff, if◌then◌else◌, Bytes, Result,
  Option,
}
use twinleaf_rust.Port.Errors.{RecvError}
use twinleaf_rust.Port.Serial.{
  Scan, scan_start, unprintable, is_newline, take_byte, advance, end_frame, max_frame, scan,
}
use twinleaf_rust.Port.Serial.Sender.{stuff}
use twinleaf_rust.Proto.Packet.{Packet}

-- Inside a frame that is known to hold no text.
abbrev pub binary : Bytes → ℕ → Scan
binary pkt consume_to = record { pkt = pkt; esc = false; is_text = false; consume_to = consume_to }

take_byte-binary :
    (pkt : Bytes) (consume_to c : ℕ)
    → (c == 0xDB) ≡ false
    → take_byte (binary pkt consume_to) c ≡ binary (pkt ++ (c ∷ [])) consume_to
unfolding take_byte
take_byte-binary pkt consume_to c plain = elim (Bool-cases (unprintable c)) [
  | inl u ↦ rw (u, plain) refl
  | inr u ↦ rw (u, plain) refl
]

module _ (checksum : Bytes → ℕ) (pkt rest : Bytes) (offset consume_to : ℕ)
    (room : length pkt < max_frame) where
  scan_plain :
      (c : ℕ)
      → (c == 0xC0) ≡ false
      → (c == 0xDB) ≡ false
      → scan checksum (c ∷ rest) offset (binary pkt consume_to)
        ≡ scan checksum rest (offset + 1) (binary (pkt ++ (c ∷ [])) consume_to)
  unfolding scan advance
  scan_plain c a b =
      rw (lt→leb max_frame (length pkt) room, a, take_byte-binary pkt consume_to c b) refl

  scan_pair :
      (c : ℕ)
      → (c == 0xC0) ≡ false
      → scan checksum (0xDB ∷ c ∷ rest) offset (binary pkt consume_to)
        ≡ scan checksum rest
            (offset + 1 + 1)
            (binary (pkt ++ ((if c == 0xDC then 0xC0 else 0xDB) ∷ [])) consume_to)
  unfolding scan advance take_byte
  scan_pair c a = elim (Bool-cases (unprintable c)) [
    | inl u ↦ rw (lt→leb max_frame (length pkt) room, a, u) refl
    | inr u ↦ rw (lt→leb max_frame (length pkt) room, a, u) refl
  ]

pub stuff_mark : (ds : Bytes) → stuff (0xC0 ∷ ds) ≡ 0xDB ∷ 0xDC ∷ stuff ds
unfolding stuff
stuff_mark ds = refl

pub stuff_esc : (ds : Bytes) → stuff (0xDB ∷ ds) ≡ 0xDB ∷ 0xDD ∷ stuff ds
unfolding stuff
stuff_esc ds = refl

pub stuff_plain :
    (c : ℕ) (ds : Bytes) → (c == 0xC0) ≡ false → (c == 0xDB) ≡ false → stuff (c ∷ ds) ≡ c ∷ stuff ds
unfolding stuff
stuff_plain c ds a b = rw (a, b) refl

pub same_end :
    (checksum : Bytes → ℕ) {n m : ℕ} {pkt pkt' : Bytes}
    → n ≡ m
    → pkt ≡ pkt'
    → ◌≡◌ {A = ℕ × Option (Result Packet RecvError)}
        (n, end_frame checksum pkt)
        (m, end_frame checksum pkt')
same_end checksum e e' = rw (e, e') refl

-- The rest of a frame is unstuffed, and ends it.
pub scan-stuff :
    (checksum : Bytes → ℕ) (ds pkt rest : Bytes) (offset consume_to : ℕ)
    → length pkt + length ds < max_frame
    → scan checksum (stuff ds ++ (0xC0 ∷ rest)) offset (binary pkt consume_to)
      ≡ (offset + length (stuff ds) + 1, end_frame checksum (pkt ++ ds))
scan-stuff checksum [] pkt rest offset consume_to h =
    unfold scan advance take_byte stuff in ground (arith, append-nil pkt)
scan-stuff checksum (c ∷ ds) pkt rest offset consume_to h =
    let behind = stuff ds ++ (0xC0 ∷ rest) in
    let size = length-append pkt (c ∷ []) in
    let next = scan-stuff checksum ds (pkt ++ (c ∷ [])) rest in
    let joined = append_assoc pkt (c ∷ []) ds in
    let room : length pkt < max_frame = omega arith in
    elim (Bool-cases (c == 0xC0)) [
      | inl mark ↦
          let same = (==_iff c 0xC0).0 mark in
          ap (λ x. scan checksum (stuff (x ∷ ds) ++ (0xC0 ∷ rest)) offset (binary pkt consume_to))
            same
          ∙ rw (stuff_mark ds) (scan_pair checksum pkt behind offset consume_to room 0xDC refl)
          ∙ ap (λ x. scan checksum behind (offset + 1 + 1) (binary (pkt ++ (x ∷ [])) consume_to))
              (sym same)
          ∙ next (offset + 1 + 1) consume_to (omega arith)
          ∙ same_end checksum (rw (same, stuff_mark ds) (omega arith)) joined
      | inr other ↦ elim (Bool-cases (c == 0xDB)) [
        | inl esc ↦
            let same = (==_iff c 0xDB).0 esc in
            ap (λ x. scan checksum (stuff (x ∷ ds) ++ (0xC0 ∷ rest)) offset (binary pkt consume_to))
              same
            ∙ rw (stuff_esc ds) (scan_pair checksum pkt behind offset consume_to room 0xDD refl)
            ∙ ap (λ x. scan checksum behind (offset + 1 + 1) (binary (pkt ++ (x ∷ [])) consume_to))
                (sym same)
            ∙ next (offset + 1 + 1) consume_to (omega arith)
            ∙ same_end checksum (rw (same, stuff_esc ds) (omega arith)) joined
        | inr plain ↦ rw (stuff_plain c ds other plain) (
            scan_plain checksum pkt behind offset consume_to room c other plain
            ∙ next (offset + 1) consume_to (omega arith)
            ∙ same_end checksum (omega arith) joined)
      ]
    ]

module _ (checksum : Bytes → ℕ) (tail : Bytes) where
  pub scan_first_plain :
      (d : ℕ)
      → unprintable d ≡ true
      → is_newline d ≡ false
      → (d == 0xC0) ≡ false
      → (d == 0xDB) ≡ false
      → scan checksum (d ∷ tail) 0 scan_start ≡ scan checksum tail 1 (binary (d ∷ []) 0)
  unfolding scan advance take_byte
  scan_first_plain d u n a b = rw (n, a, b, u) refl

  pub scan_first_pair :
      (c : ℕ)
      → (c == 0xC0) ≡ false
      → scan checksum (0xDB ∷ c ∷ tail) 0 scan_start
        ≡ scan checksum tail 2 (binary ((if c == 0xDC then 0xC0 else 0xDB) ∷ []) 0)
  unfolding scan advance take_byte unprintable is_newline
  scan_first_pair c a = elim (Bool-cases (unprintable c)) [
    | inl u ↦ rw (a, u) refl
    | inr u ↦ rw (a, u) refl
  ]
