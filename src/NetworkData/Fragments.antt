-- ===== src/NetworkData/Fragments.antt =====
-- What `data_to_packet_array` of src/network_data_operations.c makes of a block of data.
use lora_driver_with_network.Prelude.{
  ℕ, zero, suc, ◌+◌, ◌-◌, ◌*◌, ◌<◌, ◌≤◌, ◌≡◌, refl, sym, ap, ◌∙◌, Bool, true, false, not, ◌&&◌,
  ◌||◌, Bool-cases, inl, inr, none, some, List, [], ◌∷◌, ◌++◌, map, map-append, if-and, arith, ltb,
  if◌then◌else◌, take, drop, length, length-take, length-drop, drop-drop, take_all, u8,
}
use lora_driver_with_network.Packet.{Packet, packet_constructor, ack_packet, uint8_max}
use lora_driver_with_network.NetworkData.{
  build, data_to_packet_array, packet_count, payload_size, sizeof_pointer,
}

abbrev pub fragment : ℕ → ℕ → ℕ → ℕ → List ℕ → Packet
fragment dest src id seq bytes = record {
  dest_address = dest;
  src_address = src;
  ack_id = id;
  sequence_number = seq;
  payload_length = length bytes;
  payload = some bytes;
}

take-payload_size : (bytes : List ℕ) → take (payload_size (length bytes)) bytes ≡ take 8 bytes
take-payload_size bytes = elim (Bool-cases (ltb (length bytes) 8)) [
  | inl short ↦
      rw short (take_all (length bytes) bytes (omega arith) ∙ sym (take_all 8 bytes (ground arith)))
  | inr long ↦ rw long
]

module _ (dest src id : ℕ) where
  -- The packets of a block of data: eight bytes each, numbered from `seq`, the number wrapping at
  -- the width of its field.
  abbrev pub fragments : ℕ → ℕ → List ℕ → List Packet
  fragments zero seq bytes = []
  fragments (suc n) seq bytes =
      fragment dest src id (u8 seq) (take 8 bytes) ∷ fragments n (suc seq) (drop 8 bytes)

  constructor-fragment :
      (seq : ℕ) (bytes : List ℕ)
      → packet_constructor dest src id seq
          (u8 (payload_size (length bytes)))
          (some (take (payload_size (length bytes)) bytes))
        ≡ some (fragment dest src id seq (take 8 bytes))
  unfolding packet_constructor
  constructor-fragment seq bytes =
      rw (take-payload_size bytes) (ground (arith, length-take 8 bytes))

  build-fragments :
      (bytes : List ℕ) (offset n i left : ℕ)
      → left ≡ length (drop (i * 8) bytes)
      → build bytes dest src id offset n i left
        ≡ map some (fragments n (offset + i) (drop (i * 8) bytes))
  unfolding build
  build-fragments bytes offset zero i left e = refl
  build-fragments bytes offset (suc n) i left e =
      let rest = drop (i * 8) bytes in
      let next : drop 8 rest ≡ drop ((i + 1) * 8) bytes =
        drop-drop (i * 8) 8 ((i + 1) * 8) bytes (omega arith) in
      let left_next : length rest - payload_size (length rest) ≡ length (drop ((i + 1) * 8) bytes) =
        ground (arith, length-drop (i * 8) bytes, length-drop ((i + 1) * 8) bytes) in
      let ih =
        build-fragments bytes offset n (i + 1) (length rest - payload_size (length rest))
          left_next in
      let number : offset + (i + 1) ≡ suc (offset + i) = omega arith in
      rw (e, constructor-fragment (u8 (offset + i)) rest)
        (ap (λ l. some (fragment dest src id (u8 (offset + i)) (take 8 rest)) ∷ l)
          (rw (next, ← number) ih))

  -- An empty packet with the given number: BEGIN for 0 and END for 255.
  abbrev pub marker : ℕ → Packet
  marker seq = record {
    dest_address = dest;
    src_address = src;
    ack_id = id;
    sequence_number = seq;
    payload_length = 0;
    payload = none;
  }

  -- `n` packets for a block of data, with or without BEGIN and END round them.
  abbrev pub packets_of : ℕ → Bool → List ℕ → List Packet
  packets_of n false bytes = fragments n 0 bytes
  packets_of n true bytes = marker 0 ∷ (fragments n 1 bytes ++ marker uint8_max ∷ [])

  -- The packets for a block of data, as many as the code counts.
  abbrev pub burst : Bool → List ℕ → List Packet
  burst handshakes bytes = packets_of (packet_count (length bytes)) handshakes bytes

  whole_build :
      (bytes : List ℕ) (offset n : ℕ)
      → build bytes dest src id offset n 0 (length bytes) ≡ map some (fragments n offset bytes)
  whole_build bytes offset n =
      let same : offset + 0 ≡ offset = omega arith in
      build-fragments bytes offset n 0 (length bytes) refl
      ∙ ap (λ k. map some (fragments n k bytes)) same

  marker_lem : (seq : ℕ) → ack_packet dest src id seq ≡ some (marker seq)
  unfolding ack_packet
  marker_lem seq = refl

  -- The packet array is the burst of the data, unless one of the two allocations fails; the second
  -- is made only with BEGIN and END.
  pub data_to_packet_array-burst :
      (malloc realloc : ℕ → Bool) (bytes : List ℕ) (handshakes : Bool)
      → let size = packet_count (length bytes) * sizeof_pointer in
        data_to_packet_array malloc realloc bytes (length bytes) dest src id handshakes ≡ (
          if malloc size && (not handshakes || realloc (size + sizeof_pointer * 2))
          then some (map some (burst handshakes bytes))
          else none)
  unfolding data_to_packet_array
  data_to_packet_array-burst malloc realloc bytes true =
      rw
        (
          whole_build bytes 1 (packet_count (length bytes)),
          marker_lem 0,
          marker_lem uint8_max,
          map-append some (fragments (packet_count (length bytes)) 1 bytes) (marker uint8_max ∷ []),
        )
        (if-and (malloc _) (realloc _) _ _)
  data_to_packet_array-burst malloc realloc bytes false =
      rw (whole_build bytes 0 (packet_count (length bytes))) (if-and (malloc _) true _ _)

  -- The least number of packets of eight bytes that hold the data.
  packet_count_least : (len n : ℕ) → len ≤ n * 8 → n * 8 < len + 8 → packet_count len ≡ n
  packet_count_least len n holds least = ground arith

  -- For the least number of packets of eight bytes each that hold the data: the packet array is the data
  -- cut into that many packets, and with handshakes BEGIN before and END behind them, unless an
  -- allocation fails. The first is of a pointer for each packet; the second, of two pointers more,
  -- is made only with handshakes.
  pub data_to_packet_array-packets_of :
      (malloc realloc : ℕ → Bool) (bytes : List ℕ) (handshakes : Bool) (n : ℕ)
      → length bytes ≤ n * 8
      → n * 8 < length bytes + 8
      → data_to_packet_array malloc realloc bytes (length bytes) dest src id handshakes ≡ (
          if malloc (n * sizeof_pointer)
            && (not handshakes || realloc (n * sizeof_pointer + sizeof_pointer * 2))
          then some (map some (packets_of n handshakes bytes))
          else none)
  data_to_packet_array-packets_of malloc realloc bytes handshakes n holds least =
      rw (← packet_count_least (length bytes) n holds least)
        (data_to_packet_array-burst malloc realloc bytes handshakes)
