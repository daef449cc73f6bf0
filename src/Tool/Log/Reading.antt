-- ===== src/Tool/Log/Reading.antt =====
-- Reading back what was logged.
use twinleaf_rust.Shared.{
  ℕ, zero, suc, ◌≡◌, ◌≢◌, ◌≤◌, ◌<◌, All, refl, sym, ap, ◌∙◌, subst, arith, List, [], ◌∷◌, ◌++◌,
  length, length-append, length-drop, drop, drop-append, map, Bytes, Result, ok, err, ◌>>=◌,
  >>=-eq-ok, Option, some, none,
}
use twinleaf_rust.Data.Stop.{Stop, panicked, out_of_fuel, unwrap}
use twinleaf_rust.Port.Tcp.Receiving.{sent_form}
use twinleaf_rust.Proto.Limits.{Error}
use twinleaf_rust.Proto.Packet
use twinleaf_rust.Proto.Packet.{Packet}
use twinleaf_rust.Proto.Packet.Prefix.{deserialize_takes}
use twinleaf_rust.Proto.Packet.RoundTrip.{packet_round_trip}
use twinleaf_rust.Proto.Payload.WellFormed.{IsWellFormed}
use twinleaf_rust.Tool.Log.{log, unwrap_parsed, dump_loop, log_dump}

ok_injective : {A : Type 0} {a b : A} → ◌≡◌ {A = Result A Stop} (ok a) (ok b) → a ≡ b
ok_injective e = ground arith

unwrap-ok : {A : Type 0} (r : Result A (Unit {0})) (a : A) → unwrap r ≡ ok a → r ≡ ok a
unwrap-ok (ok b) a e = ground arith
unwrap-ok (err x) a e = absurd (ground arith)

-- One packet at the front of the bytes.
dump_step :
    (fuel : ℕ) (raw rest : Bytes) (pkt : Packet) (pkts : List Packet)
    → 0 < length raw
    → Packet.deserialize (raw ++ rest) ≡ some (ok (pkt, length raw))
    → dump_loop fuel rest ≡ ok pkts
    → dump_loop (suc fuel) (raw ++ rest) ≡ ok (pkt ∷ pkts)
unfolding dump_loop
dump_step fuel [] rest pkt pkts some_bytes parsed later = absurd (omega (arith, some_bytes))
dump_step fuel (b ∷ raw) rest pkt pkts some_bytes parsed later =
    ap
      (λ r. unwrap_parsed r >>= λ x.
        dump_loop fuel (drop x.1 (b ∷ raw ++ rest)) >>= λ more. ok (x.0 ∷ more))
      parsed
    ∙ ap (λ t. dump_loop fuel t >>= λ more. ok (pkt ∷ more))
        (drop-append (length (b ∷ raw)) (b ∷ raw) rest refl)
    ∙ ap (λ r. r >>= λ more. ok (pkt ∷ more)) later

dump_rest :
    (fuel : ℕ) (bytes rest : Bytes) (pkt : Packet) (pkts : List Packet)
    → length (bytes ++ rest) ≤ fuel
    → Packet.deserialize (bytes ++ rest) ≡ some (ok (pkt, length bytes))
    → ((less : ℕ) → length rest ≤ less → dump_loop less rest ≡ ok pkts)
    → dump_loop fuel (bytes ++ rest) ≡ ok (pkt ∷ pkts)
dump_rest fuel bytes rest pkt pkts enough parsed later =
    let taken = (deserialize_takes (bytes ++ rest) pkt (length bytes) parsed).0 in
    let total = length-append bytes rest in
    elim fuel as (λ f. length (bytes ++ rest) ≤ f → dump_loop f (bytes ++ rest) ≡ ok (pkt ∷ pkts)) [
      | zero ↦ λ h. absurd (omega (arith, taken, total, h))
      | suc less ↦ λ h.
          dump_step less bytes rest pkt pkts (omega (arith, taken)) parsed
            (later less (omega (arith, taken, total, h)))
    ]
      enough

logged :
    (pkts : List Packet) (raw : Bytes) (fuel : ℕ)
    → log pkts ≡ ok raw
    → All (λ pkt. IsWellFormed pkt.payload) pkts
    → length raw ≤ fuel
    → dump_loop fuel raw ≡ ok (map sent_form pkts)
unfolding log dump_loop
logged [] raw fuel e w enough = rw⁻¹ (ok_injective e) refl
logged (pkt ∷ pkts) raw fuel e w enough =
    let (bytes, s, e') = >>=-eq-ok (unwrap (Packet.serialize pkt)) _ e in
    let (rest, more, whole) = >>=-eq-ok (log pkts) _ e' in
    let same : bytes ++ rest ≡ raw = ok_injective whole in
    let parsed = packet_round_trip pkt bytes rest (unwrap-ok (Packet.serialize pkt) bytes s) w.0 in
    ap (dump_loop fuel) (sym same)
    ∙ dump_rest fuel bytes rest (sent_form pkt) (map sent_form pkts) (rw same enough) parsed
        (λ less h. logged pkts rest less more w.1 h)

-- What is logged of well-formed packets that serialise is read back: the packets come out in order, but
-- for their ttl, which is not sent.
pub log_dump-log :
    (pkts : List Packet) (raw : Bytes)
    → log pkts ≡ ok raw
    → All (λ pkt. IsWellFormed pkt.payload) pkts
    → log_dump raw ≡ ok (map sent_form pkts)
unfolding log_dump
log_dump-log pkts raw e w = logged pkts raw (length raw) e w (omega arith)

-- A result that the fuel was enough for.
abbrev Ends : Result (List Packet) Stop → Type 0
Ends (ok pkts) = Unit
Ends (err panicked) = Unit
Ends (err out_of_fuel) = ⊥

Ends-bind :
    (r : Result (List Packet) Stop) (pkt : Packet) → Ends r → Ends (r >>= λ pkts. ok (pkt ∷ pkts))
Ends-bind (ok pkts) pkt h = tt
Ends-bind (err panicked) pkt h = tt
Ends-bind (err out_of_fuel) pkt h = h

parsed-Ends :
    (found : Option (Result (Packet × ℕ) Error)) (k : ℕ → Result (List Packet) Stop)
    → ((pkt : Packet) (len : ℕ) → found ≡ some (ok (pkt, len)) → Ends (k len))
    → Ends (unwrap_parsed found >>= λ x. k x.1 >>= λ pkts. ok (x.0 ∷ pkts))
parsed-Ends none k next = tt
parsed-Ends (some (err e)) k next = tt
parsed-Ends (some (ok (pkt, len))) k next = Ends-bind (k len) pkt (next pkt len refl)

dump_loop-Ends : (fuel : ℕ) (raw : Bytes) → length raw ≤ fuel → Ends (dump_loop fuel raw)
unfolding dump_loop
dump_loop-Ends fuel [] enough = tt
dump_loop-Ends zero (b ∷ rest) enough = absurd (omega (arith, enough))
dump_loop-Ends (suc fuel) (b ∷ rest) enough =
    parsed-Ends (Packet.deserialize (b ∷ rest)) (λ len. dump_loop fuel (drop len (b ∷ rest)))
      (λ pkt len parsed.
        let takes = (deserialize_takes (b ∷ rest) pkt len parsed).0 in
        let left = length-drop len (b ∷ rest) in
        dump_loop-Ends fuel (drop len (b ∷ rest)) (omega (arith, takes, left, enough)))

-- The loop over a file ends, whatever its bytes are: with the packets or in a panic.
pub log_dump_ends : (raw : Bytes) → log_dump raw ≢ err out_of_fuel
unfolding log_dump
log_dump_ends raw e = subst Ends e (dump_loop-Ends (length raw) raw (omega arith))
