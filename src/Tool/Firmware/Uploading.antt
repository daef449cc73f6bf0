-- ===== src/Tool/Firmware/Uploading.antt =====
-- What an upload of firmware has sent.
use twinleaf_rust.Shared.{
  Option, ℕ, suc, ◌+◌, ◌*◌, ◌-◌, ◌≡◌, ◌≤◌, ◌<◌, refl, sym, ap, ◌∙◌, arith, Bool, true, false, ◌||◌,
  List, [], ◌∷◌, ◌++◌, append_assoc, append-nil, All, All-append, length, length-append, take, drop,
  ltb, ◌==◌, if◌then◌else◌, Bool-cases, Bytes, Result, ok, err, ◌>>=◌, inl, inr,
}
use twinleaf_rust.Data.Stop.{Stop, panicked, out_of_fuel, unwrap}
use twinleaf_rust.Proto.Packet.{Packet}
use twinleaf_rust.Proto.Route.{root}
use twinleaf_rust.Proxy.Port
use twinleaf_rust.Proxy.Port.{Port, RecvError, recv_would_block, recv_disconnected}
use twinleaf_rust.Tool.Firmware.{Upload, upload_rpc, max_chunks_in_flight, send_chunk}
use twinleaf_rust.Util.{make_rpc_request}
use twinleaf_rust.Tool.Firmware.Chunks.{
  concat, requests, replies, numbers, concat-append, requests-append, chunk_end_of, chunk_split,
  chunk_small,
}

module _ (firmware_data : Bytes) (start : Port) where
  -- The chunks that were sent are the front of the firmware, and at most two are not acknowledged.
  pub record IsUploading (u : Upload) : Type 0 where
    pub chunks : List Bytes
    pub whole : concat chunks ++ drop (u.next_send_chunk * 288) firmware_data ≡ firmware_data
    pub small : All (λ chunk. length chunk ≤ 288) chunks
    pub count : length chunks ≡ u.next_send_chunk
    pub sent : u.port.sent ≡ start.sent ++ requests 0 chunks
    pub heard : List (Option Packet)
    pub arrived : start.arrivals ≡ heard ++ u.port.arrivals
    pub replied : replies heard ≡ numbers 0 u.next_ack_chunk
    pub acked : u.next_ack_chunk ≤ u.next_send_chunk
    pub in_flight : u.next_send_chunk ≤ u.next_ack_chunk + max_chunks_in_flight
    pub all_sent : u.more_to_send ≡ false → length firmware_data ≤ u.next_send_chunk * 288

  -- What holds of a result. The fuel is enough for it.
  abbrev pub Holds : {A : Type 0} → (A → Type 0) → Result A Stop → Type 0
  Holds Q (ok a) = Q a
  Holds Q (err panicked) = Unit
  Holds Q (err out_of_fuel) = ⊥

  pub Holds-bind :
      {A B : Type 0} (Q : A → Type 0) (R : B → Type 0) (r : Result A Stop) (k : A → Result B Stop)
      → Holds Q r
      → ((a : A) → Q a → Holds R (k a))
      → Holds R (r >>= k)
  Holds-bind Q R (ok a) k h next = next a h
  Holds-bind Q R (err panicked) k h next = tt
  Holds-bind Q R (err out_of_fuel) k h next = absurd h

  pub if-Holds :
      {A : Type 0} (Q : A → Type 0) (c : Bool) (a b : Result A Stop)
      → (c ≡ true → Holds Q a)
      → (c ≡ false → Holds Q b)
      → Holds Q (if c then a else b)
  if-Holds Q true a b h k = h refl
  if-Holds Q false a b h k = k refl

  -- With what is waited for, and fewer arrivals than before.
  abbrev pub Awaits : ℕ → Upload → Type 0
  Awaits arrivals u =
      IsUploading u × (u.next_ack_chunk < u.next_send_chunk) × (length u.port.arrivals ≤ arrivals)

  abbrev pub Took : ℕ → Upload → Type 0
  Took arrivals u = IsUploading u × (length u.port.arrivals < arrivals)

  Sends : Port → Packet → Result Port Stop → Type 0
  Sends p pkt r = Holds (λ q. (q.sent ≡ p.sent ++ (pkt ∷ [])) × (q.arrivals ≡ p.arrivals)) r

  send-Sends : (p : Port) (pkt : Packet) → Sends p pkt (unwrap (Port.send p pkt))
  unfolding Sends Port.send
  send-Sends p pkt = elim (Bool-cases (ltb p.depth (length pkt.routing.route))) [
    | inl far ↦ rw far tt
    | inr near ↦
        rw near (elim (Bool-cases p.tx_open) [
          | inl there ↦ rw there (refl, refl)
          | inr gone ↦ rw gone tt
        ])
  ]

  -- A chunk more.
  with_chunk :
      (u : Upload) (port : Port) (more : Bool)
      → IsUploading u
      → u.next_send_chunk < u.next_ack_chunk + 2
      → u.next_send_chunk * 288 ≤ length firmware_data
      → (more ≡ false → length firmware_data ≤ u.next_send_chunk * 288 + 288)
      → port.sent
        ≡ u.port.sent
          ++ (make_rpc_request upload_rpc
                (take
                  (chunk_end_of firmware_data (u.next_send_chunk * 288) - u.next_send_chunk * 288)
                  (drop (u.next_send_chunk * 288) firmware_data))
                u.next_send_chunk
                root
              ∷ [])
      → port.arrivals ≡ u.port.arrivals
      → IsUploading
          (record u { port = port; next_send_chunk = suc u.next_send_chunk; more_to_send = more })
  with_chunk u port more h room inside last sent kept =
      let offset = u.next_send_chunk * 288 in
      let chunk = take (chunk_end_of firmware_data offset - offset) (drop offset firmware_data) in
      let size : suc u.next_send_chunk * 288 ≡ offset + 288 = omega arith in
      let number : u.next_send_chunk ≡ 0 + length h.chunks = omega (arith, h.count) in
      record {
        chunks = h.chunks ++ (chunk ∷ []);
        whole =
            ap (λ (k : ℕ). concat (h.chunks ++ (chunk ∷ [])) ++ drop k firmware_data) size
            ∙ ap (λ t. t ++ drop (offset + 288) firmware_data)
                (concat-append h.chunks (chunk ∷ [])
                  ∙ ap (λ t. concat h.chunks ++ t) (append-nil chunk))
            ∙ append_assoc (concat h.chunks) chunk (drop (offset + 288) firmware_data)
            ∙ ap (λ t. concat h.chunks ++ t) (chunk_split firmware_data offset inside)
            ∙ h.whole;
        small =
            All-append (λ chunk. length chunk ≤ 288) h.chunks (chunk ∷ []) h.small
              (chunk_small firmware_data offset, tt);
        count = length-append h.chunks (chunk ∷ []) ∙ omega (arith, h.count);
        sent =
            sent
            ∙ ap (λ t. t ++ (make_rpc_request upload_rpc chunk u.next_send_chunk root ∷ [])) h.sent
            ∙ append_assoc start.sent (requests 0 h.chunks) _
            ∙ ap (λ t. start.sent ++ t)
                (ap
                    (λ (n : ℕ).
                      requests 0 h.chunks ++ (make_rpc_request upload_rpc chunk n root ∷ []))
                    number
                  ∙ sym (requests-append 0 h.chunks chunk));
        heard = h.heard;
        arrived = h.arrived ∙ ap (λ t. h.heard ++ t) (sym kept);
        replied = h.replied;
        acked = omega (arith, h.acked);
        in_flight = omega (arith, room);
        all_sent = λ e. omega (arith, last e);
      }

  pub send_chunk-Holds :
      (u : Upload)
      → IsUploading u
      → u.next_send_chunk < u.next_ack_chunk + 2
      → Holds (Awaits (length u.port.arrivals)) (send_chunk firmware_data u)
  unfolding send_chunk Sends
  send_chunk-Holds u h room =
      let offset = u.next_send_chunk * 288 in
      let chunk_end = chunk_end_of firmware_data offset in
      let chunk = take (chunk_end - offset) (drop offset firmware_data) in
      let request = make_rpc_request upload_rpc chunk u.next_send_chunk root in
      if-Holds (Awaits (length u.port.arrivals))
        (ltb chunk_end offset || u.next_send_chunk == 65535) (err panicked)
        (do
          port ← unwrap (Port.send u.port request)
          ok (record u {
            port = port;
            next_send_chunk = suc u.next_send_chunk;
            more_to_send = ltb chunk_end (length firmware_data);
          }))
        (λ e. tt)
        (λ e.
          Holds-bind
            (λ q. (q.sent ≡ u.port.sent ++ (request ∷ [])) × (q.arrivals ≡ u.port.arrivals))
            (Awaits (length u.port.arrivals)) (unwrap (Port.send u.port request))
            (λ port. ok (record u {
              port = port;
              next_send_chunk = suc u.next_send_chunk;
              more_to_send = ltb chunk_end (length firmware_data);
            }))
            (send-Sends u.port request)
            (λ q k. (
              with_chunk u q (ltb chunk_end (length firmware_data)) h room (ground arith)
                  (λ end. ground arith) k.0 k.1,
              omega (arith, h.acked),
              rw (k.1) (omega arith),
            )))
