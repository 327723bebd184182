-- ===== src/Agwpe/Kinds.antt =====
-- transport/ax25/agwpe/frame_kinds.go, and Port.write of port.go: the frames that are sent.
use wl2k_go.Prelude.{
  ℕ, ◌%◌, ◌^◌, List, [], ◌∷◌, ◌++◌, Bytes, ◌==◌, if◌then◌else◌, length, take, replicate,
}
use wl2k_go.Go.Result.{ok, panic}
use wl2k_go.Agwpe.{Result, Header, Frame, callsign_from_string, write_frame}

abbrev pub kind_login : ℕ
kind_login = b'P'

abbrev pub kind_register : ℕ
kind_register = b'X'

abbrev pub kind_version_number : ℕ
kind_version_number = b'R'

abbrev pub kind_outstanding_frames_for_port : ℕ
kind_outstanding_frames_for_port = b'y'

abbrev pub kind_port_capabilities : ℕ
kind_port_capabilities = b'g'

abbrev pub kind_connect : ℕ
kind_connect = b'C'

abbrev pub kind_connect_via : ℕ
kind_connect_via = b'v'

abbrev pub kind_disconnect : ℕ
kind_disconnect = b'd'

abbrev pub kind_connected_data : ℕ
kind_connected_data = b'D'

abbrev pub kind_outstanding_frames_for_conn : ℕ
kind_outstanding_frames_for_conn = b'Y'

abbrev pub kind_unproto_information : ℕ
kind_unproto_information = b'M'

-- The zero value, but for the kind.
abbrev pub header_of : ℕ → Header
header_of kind = record {
  port = 0;
  data_kind = kind;
  pid = 0;
  from = replicate 10 0;
  to = replicate 10 0;
  data_len = 0;
}

abbrev pub bare : Header → Frame
bare h = record { header = h; payload = [] }

abbrev pub version_number_frame : Frame
version_number_frame = bare (header_of kind_version_number)

abbrev pub port_capabilities_frame : ℕ → Frame
port_capabilities_frame port = bare (record (header_of kind_port_capabilities) { port = port })

abbrev pub connected_data_frame : ℕ → Bytes → Bytes → Bytes → Frame
connected_data_frame port from to payload = record {
  header = record (header_of kind_connected_data) {
    port = port;
    pid = 240;
    from = callsign_from_string from;
    to = callsign_from_string to;
    data_len = length payload % 2 ^ 32;
  };
  payload = payload;
}

abbrev pub outstanding_frames_for_conn_frame : ℕ → Bytes → Bytes → Frame
outstanding_frames_for_conn_frame port from to =
    bare (record (header_of kind_outstanding_frames_for_conn) {
      port = port;
      from = callsign_from_string from;
      to = callsign_from_string to;
    })

abbrev pub outstanding_frames_for_port_frame : ℕ → Frame
outstanding_frames_for_port_frame port =
    bare (record (header_of kind_outstanding_frames_for_port) { port = port })

-- Two fields of 255 bytes.
abbrev pub login_frame : Bytes → Bytes → Frame
login_frame username password = record {
  header = header_of kind_login;
  payload = take 255 (username ++ replicate 255 0) ++ take 255 (password ++ replicate 255 0);
}

abbrev pub register_callsign_frame : Bytes → ℕ → Frame
register_callsign_frame callsign port =
    bare (record (header_of kind_register) { port = port; from = callsign_from_string callsign })

-- The port is not used.
abbrev pub unregister_callsign_frame : Bytes → ℕ → Frame
unregister_callsign_frame callsign port =
    bare (record (header_of b'x') { from = callsign_from_string callsign })

unfoldable pub digi_bytes : List Bytes → Bytes
digi_bytes [] = []
digi_bytes (d ∷ digis) = callsign_from_string d ++ digi_bytes digis

abbrev pub connect_via_frame : Bytes → Bytes → ℕ → List Bytes → Frame
connect_via_frame from to port digis = record {
  header = record (header_of kind_connect_via) {
    from = callsign_from_string from;
    to = callsign_from_string to;
  };
  payload = length digis % 256 ∷ digi_bytes digis;
}

unfoldable pub connect_frame : Bytes → Bytes → ℕ → List Bytes → Frame
connect_frame from to port [] = bare (record (header_of kind_connect) {
  from = callsign_from_string from;
  to = callsign_from_string to;
})
connect_frame from to port (d ∷ digis) = connect_via_frame from to port (d ∷ digis)

abbrev pub unproto_information_frame : Bytes → Bytes → ℕ → Bytes → Frame
unproto_information_frame from to port payload = record {
  header = record (header_of kind_unproto_information) {
    from = callsign_from_string from;
    to = callsign_from_string to;
  };
  payload = payload;
}

abbrev pub disconnect_frame : Bytes → Bytes → ℕ → Frame
disconnect_frame from to port = bare (record (header_of kind_disconnect) {
  from = callsign_from_string from;
  to = callsign_from_string to;
})

-- `Port.write`: the bytes that go to the modem.
unfoldable pub port_write : ℕ → Frame → Result Bytes
port_write port f = if f.header.port == port then ok (write_frame f) else panic
