-- ===== src/Tool/Firmware/Chunks.antt =====
-- The chunks of an upload of firmware.
use twinleaf_rust.Shared.{
  Option, some, none, zero, ℕ, suc, ◌+◌, ◌-◌, ◌≡◌, ◌≤◌, refl, sym, ap, ◌∙◌, arith, List, [], ◌∷◌,
  ◌++◌, append_assoc, length, length-drop, length-take, drop-drop, take, drop, take-append-drop,
  take-min, min, ltb, if◌then◌else◌, Bytes,
}
use twinleaf_rust.Proto.Packet.{Packet}
use twinleaf_rust.Proto.Payload.{Payload, rpc_reply}
use twinleaf_rust.Proto.Route.{root}
use twinleaf_rust.Tool.Firmware.{upload_rpc}
use twinleaf_rust.Util.{make_rpc_request}

abbrev pub concat : List Bytes → Bytes
concat [] = []
concat (chunk ∷ chunks) = chunk ++ concat chunks

-- One request for each chunk, numbered from `first`.
abbrev pub requests : ℕ → List Bytes → List Packet
requests first [] = []
requests first (chunk ∷ chunks) =
    make_rpc_request upload_rpc chunk first root ∷ requests (suc first) chunks

pub concat-append : (xs ys : List Bytes) → concat (xs ++ ys) ≡ concat xs ++ concat ys
concat-append [] ys = refl
concat-append (x ∷ xs) ys =
    ap (λ t. x ++ t) (concat-append xs ys) ∙ sym (append_assoc x (concat xs) (concat ys))

pub requests-append :
    (first : ℕ) (xs : List Bytes) (y : Bytes)
    → requests first (xs ++ (y ∷ []))
      ≡ requests first xs ++ (make_rpc_request upload_rpc y (first + length xs) root ∷ [])
requests-append first [] y = ap (λ (n : ℕ). make_rpc_request upload_rpc y n root ∷ []) (omega arith)
requests-append first (x ∷ xs) y =
    ap (λ t. make_rpc_request upload_rpc x first root ∷ t)
      (requests-append (suc first) xs y
        ∙ ap (λ (n : ℕ). requests (suc first) xs ++ (make_rpc_request upload_rpc y n root ∷ []))
            (omega arith))

abbrev pub chunk_end_of : Bytes → ℕ → ℕ
chunk_end_of firmware_data offset =
    if ltb (length firmware_data) (offset + 288) then length firmware_data else offset + 288

-- A chunk, and what is left behind it.
pub chunk_split :
    (firmware_data : Bytes) (offset : ℕ)
    → offset ≤ length firmware_data
    → take (chunk_end_of firmware_data offset - offset) (drop offset firmware_data)
        ++ drop (offset + 288) firmware_data
      ≡ drop offset firmware_data
chunk_split firmware_data offset h =
    let rest = drop offset firmware_data in
    let size : chunk_end_of firmware_data offset - offset ≡ min 288 (length rest) =
      ground (arith, length-drop offset firmware_data) in
    ap (λ (k : ℕ). take k rest ++ drop (offset + 288) firmware_data) size
    ∙ ap (λ t. t ++ drop (offset + 288) firmware_data) (take-min 288 rest)
    ∙ ap (λ t. take 288 rest ++ t) (drop-drop offset 288 firmware_data)
    ∙ take-append-drop 288 rest

pub chunk_small :
    (firmware_data : Bytes) (offset : ℕ)
    → length (take (chunk_end_of firmware_data offset - offset) (drop offset firmware_data)) ≤ 288
chunk_small firmware_data offset =
    let size =
      length-take (chunk_end_of firmware_data offset - offset) (drop offset firmware_data) in
    let rest = length-drop offset firmware_data in ground (arith, size, rest)

-- The ids of the replies among what has arrived.
abbrev pub reply_id : Payload → List ℕ
reply_id (rpc_reply rep) = rep.id ∷ []
reply_id payload = []

abbrev pub replies : List (Option Packet) → List ℕ
replies [] = []
replies (none ∷ later) = replies later
replies (some pkt ∷ later) = reply_id pkt.payload ++ replies later

pub replies-append : (xs ys : List (Option Packet)) → replies (xs ++ ys) ≡ replies xs ++ replies ys
replies-append [] ys = refl
replies-append (none ∷ xs) ys = replies-append xs ys
replies-append (some pkt ∷ xs) ys =
    ap (λ t. reply_id pkt.payload ++ t) (replies-append xs ys)
    ∙ sym (append_assoc (reply_id pkt.payload) (replies xs) (replies ys))

-- `count` numbers from `first` on.
abbrev pub numbers : ℕ → ℕ → List ℕ
numbers first zero = []
numbers first (suc count) = first ∷ numbers (suc first) count

pub numbers_last :
    (first count : ℕ) → numbers first (suc count) ≡ numbers first count ++ ((first + count) ∷ [])
numbers_last first zero = ap (λ (n : ℕ). n ∷ []) (omega arith)
numbers_last first (suc count) =
    ap (λ t. first ∷ t)
      (numbers_last (suc first) count
        ∙ ap (λ (n : ℕ). numbers (suc first) count ++ (n ∷ [])) (omega arith))
