-- ===== src/Agwpe/Ports.antt =====
-- Which frames Port.write lets through.
use wl2k_go.Prelude.{
  ℕ, zero, suc, ◌≡◌, ◌≢◌, refl, List, [], ◌∷◌, ◌++◌, Bytes, arith, length, length-append,
  length-take, ◌<◌, map, take, drop, replicate,
}
use wl2k_go.Go.Result.{ok, panic}
use wl2k_go.Go.Strings.{Free}
use wl2k_go.Agwpe.{callsign_from_string, str_from_bytes, write_frame}
use wl2k_go.Go.Sort.{All}
use wl2k_go.Agwpe.RoundTrip.{take_field, drop_field}
use wl2k_go.Agwpe.Callsign.{str_from_bytes-callsign_from_string}
use wl2k_go.Agwpe.Kinds.{
  connect_frame, digi_bytes, disconnect_frame, unregister_callsign_frame, register_callsign_frame,
  connected_data_frame, port_write,
}

-- A port other than 0 writes the frames that register it and that carry data, but it panics at those that
-- connect, disconnect and unregister, whatever the callsigns: they name port 0.
pub port_write_ports :
    (port : ℕ) (from to payload : Bytes) (digis : List Bytes)
    → port ≢ 0
    → (port_write port (register_callsign_frame from port)
        ≡ ok (write_frame (register_callsign_frame from port)))
      × (port_write port (connected_data_frame port from to payload)
          ≡ ok (write_frame (connected_data_frame port from to payload)))
      × (port_write port (connect_frame from to port digis) ≡ panic)
      × (port_write port (disconnect_frame from to port) ≡ panic)
      × (port_write port (unregister_callsign_frame from port) ≡ panic)
unfolding port_write connect_frame
port_write_ports zero from to payload digis h = absurd (h refl)
port_write_ports (suc port) from to payload [] h =
    (ground arith, ground arith, ground arith, ground arith, ground arith)
port_write_ports (suc port) from to payload (d ∷ digis) h =
    (ground arith, ground arith, ground arith, ground arith, ground arith)

-- Every ten bytes of a text as a callsign.
unfoldable pub read_digis : ℕ → Bytes → List Bytes
read_digis zero b = []
read_digis (suc n) b = str_from_bytes (take 10 b) ∷ read_digis n (drop 10 b)

length-callsign_from_string : (s : Bytes) → length (callsign_from_string s) ≡ 10
length-callsign_from_string s =
    omega (arith, length-take 10 (s ++ replicate 10 0), length-append s (replicate 10 0))

read_digis-digi_bytes :
    (ds : List Bytes) → All (Free 0) ds → read_digis (length ds) (digi_bytes ds) ≡ map (take 10) ds
unfolding read_digis digi_bytes
read_digis-digi_bytes [] free = refl
read_digis-digi_bytes (d ∷ ds) free = rw (
  take_field (callsign_from_string d) (digi_bytes ds) (length-callsign_from_string d),
  drop_field (callsign_from_string d) (digi_bytes ds) (length-callsign_from_string d),
  str_from_bytes-callsign_from_string d free.0,
  read_digis-digi_bytes ds free.1,
)

-- A frame that connects via digipeaters counts them, in one byte, and lists them: each is read back, cut
-- after ten bytes, if none holds a NUL.
pub read_digis-connect_frame :
    (from to : Bytes) (port : ℕ) (digis : List Bytes)
    → 0 < length digis
    → length digis < 256
    → All (Free 0) digis
    → (list : Bytes) × ((connect_frame from to port digis).payload ≡ length digis ∷ list)
      × (read_digis (length digis) list ≡ map (take 10) digis)
unfolding connect_frame
read_digis-connect_frame from to port [] h lt free = absurd (omega arith)
read_digis-connect_frame from to port (d ∷ digis) h lt free =
    (digi_bytes (d ∷ digis), ground arith, read_digis-digi_bytes (d ∷ digis) free)
