-- ===== src/Tool/Firmware/Whole.antt =====
-- An upload of firmware from its start to its end.
use twinleaf_rust.Shared.{
  Option, ℕ, zero, suc, ◌*◌, ◌≡◌, ◌≢◌, ◌≤◌, ◌<◌, refl, sym, ap, ◌∙◌, subst, arith, false, not, ◌||◌,
  List, [], ◌++◌, append-nil, All, length, drop_all, ◌==◌, Bytes, ok, err, ◌>>=◌,
}
use twinleaf_rust.Data.Stop.{out_of_fuel}
use twinleaf_rust.Proto.Packet.{Packet}
use twinleaf_rust.Proxy.Port.{Port}
use twinleaf_rust.Tool.Firmware.{Upload, step, upload_loop, upload, begin}
use twinleaf_rust.Tool.Firmware.Chunks.{replies, numbers, concat, requests}
use twinleaf_rust.Tool.Firmware.Uploading.{IsUploading, Holds, Holds-bind, if-Holds, Took}
use twinleaf_rust.Tool.Firmware.Rounds.{Going, step-Holds, true_not_false}

module _ (firmware_data : Bytes) (start : Port) where
  -- The end of the upload.
  abbrev Ended : Upload → Type 0
  Ended u =
      Going firmware_data start u
      × (u.more_to_send ≡ false)
      × (u.next_ack_chunk ≡ u.next_send_chunk)

  upload_loop-Holds :
      (fuel : ℕ) (u : Upload)
      → Going firmware_data start u
      → length u.port.arrivals < fuel
      → Holds firmware_data start Ended (upload_loop fuel firmware_data u)
  unfolding upload_loop
  upload_loop-Holds zero u h enough = absurd (omega (arith, enough))
  upload_loop-Holds (suc fuel) u h enough =
      if-Holds firmware_data start Ended
        (u.more_to_send || not (u.next_ack_chunk == u.next_send_chunk))
        (step firmware_data u >>= upload_loop fuel firmware_data) (ok u)
        (λ e.
          Holds-bind firmware_data start (Took firmware_data start (length u.port.arrivals)) Ended
            (step firmware_data u) (upload_loop fuel firmware_data)
            (step-Holds firmware_data start u h (ground arith))
            (λ v k. upload_loop-Holds fuel v k.0 (omega (arith, k.1, enough))))
        (λ e. (h, ground arith, ground arith))

begun : (firmware_data : Bytes) (port : Port) → IsUploading firmware_data port (begin port)
begun firmware_data port = record {
  chunks = [];
  whole = refl;
  small = tt;
  count = refl;
  sent = sym (append-nil port.sent);
  heard = [];
  arrived = refl;
  replied = refl;
  acked = omega arith;
  in_flight = omega arith;
  all_sent = λ e. absurd (true_not_false e);
}

uploaded :
    (firmware_data : Bytes) (port : Port)
    → Holds firmware_data port (Ended firmware_data port) (upload firmware_data port)
unfolding upload
uploaded firmware_data port =
    upload_loop-Holds firmware_data port (suc (length port.arrivals)) (begin port)
      (begun firmware_data port) (omega arith)

-- The fuel of the upload is enough, whatever arrives.
upload_has_fuel :
    (firmware_data : Bytes) (port : Port) → upload firmware_data port ≢ err out_of_fuel
upload_has_fuel firmware_data port e =
    subst (Holds firmware_data port (Ended firmware_data port)) e (uploaded firmware_data port)

-- An upload that ends has sent the whole firmware, in order and nothing twice: in chunks of at most 288
-- bytes, one request each, numbered from 0, behind what the port had sent before. Each was acknowledged:
-- of what had arrived until then, the replies are one for each chunk, with the chunks' numbers and in
-- their order.
pub upload_sends_firmware :
    (firmware_data : Bytes) (port : Port) (u : Upload)
    → upload firmware_data port ≡ ok u
    → (chunks : List Bytes) × (concat chunks ≡ firmware_data)
      × All (λ chunk. length chunk ≤ 288) chunks
      × (u.port.sent ≡ port.sent ++ requests 0 chunks)
      × ((heard : List (Option Packet)) × (port.arrivals ≡ heard ++ u.port.arrivals)
          × (replies heard ≡ numbers 0 (length chunks)))
upload_sends_firmware firmware_data port u run =
    let (h, done, acked) =
      subst (Holds firmware_data port (Ended firmware_data port)) run
        (uploaded firmware_data port) in
    let none_left = drop_all (u.next_send_chunk * 288) firmware_data (h.all_sent done) in
    (
      h.chunks,
      sym (append-nil (concat h.chunks)) ∙ ap (λ t. concat h.chunks ++ t) (sym none_left) ∙ h.whole,
      h.small,
      h.sent,
      (h.heard, h.arrived, h.replied ∙ ap (numbers 0) (acked ∙ sym h.count)),
    )
