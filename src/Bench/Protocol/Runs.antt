-- ===== src/Bench/Protocol/Runs.antt =====
-- Messages of src/bench/protocol.rs on concrete bytes.
use proxypen.Base.{◌≡◌, refl, [], ◌∷◌, err, panic}
use proxypen.Base.Bytes
use proxypen.Stream
use proxypen.Error.{IoError, invalid_data, unexpected_eof}
use proxypen.Bench.Protocol.{read_handshake, encode_udp_header}

bad_version :
    read_handshake (b'P' ∷ b'R' ∷ b'O' ∷ b'X' ∷ b'Y' ∷ b'B' ∷ b'E' ∷ b'N' ∷ 2 ∷ [])
    ≡ err (invalid_data "bench handshake: unsupported version")
unfolding read_handshake Stream.read_exact Stream.read_uint Bytes.from_be
bad_version = refl

bad_magic :
    read_handshake (b'P' ∷ b'R' ∷ b'O' ∷ b'X' ∷ b'Y' ∷ b'B' ∷ b'E' ∷ b'M' ∷ 1 ∷ [])
    ≡ err (invalid_data "bench handshake: bad magic")
unfolding read_handshake Stream.read_exact Stream.read_uint Bytes.from_be
bad_magic = refl

short_handshake : read_handshake (b'P' ∷ b'R' ∷ []) ≡ err unexpected_eof
unfolding read_handshake Stream.read_exact Stream.read_uint Bytes.from_be
short_handshake = refl

short_buffer : encode_udp_header {E = IoError} (1 ∷ 2 ∷ []) 1 2 ≡ panic
unfolding encode_udp_header
short_buffer = refl
