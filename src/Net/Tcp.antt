-- ===== src/Net/Tcp.antt =====
-- TCP sockets (net/tcp.c). Segments are given by their fields in host byte order and the list of
-- their bytes; whether the interface is up and takes a segment is an argument, `send`. The waiting
-- loops of tcp_connect and tcp_recv poll the card and are left out.
use coffee_os_aurora_refresh.Base.{
  ℕ, zero, suc, ◌+◌, ◌-◌, ◌*◌, ◌/◌, ◌%◌, Bool, true, false, not, ◌&&◌, ◌||◌, Option, none, some,
  List, [], ◌∷◌, ◌++◌, length, take, Array, update, ltb, ◌==◌, if◌then◌else◌, u16, u32,
}
use coffee_os_aurora_refresh.Base.Bits.{test_bit}
use coffee_os_aurora_refresh.Base.Search.{first}
pub mod Ring
pub mod Receive

pub data TcpState : Type 0 where
  closed : TcpState
  syn_sent : TcpState
  established : TcpState
  fin_wait1 : TcpState
  fin_wait2 : TcpState
  time_wait : TcpState
  close_wait : TcpState

pub record TcpSocket : Type 0 where
  pub state : TcpState
  pub local_ip : ℕ
  pub local_port : ℕ
  pub remote_ip : ℕ
  pub remote_port : ℕ
  pub seq_send : ℕ
  pub seq_recv : ℕ
  pub rx_buf : Array ℕ
  pub rx_head : ℕ
  pub rx_tail : ℕ
  pub open_flag : Bool

-- The static variables tcp_sockets and tcp_next_port.
pub record Tcp : Type 0 where
  pub tcp_sockets : Array TcpSocket
  pub tcp_next_port : ℕ

-- TCP_RX_BUF_SIZE, TCP_MAX_SOCKETS and TCP_MSS
abbrev pub rx_buf_size : ℕ
rx_buf_size = 4096

abbrev pub tcp_max_sockets : ℕ
tcp_max_sockets = 4

abbrev pub tcp_mss : ℕ
tcp_mss = 1460

-- The fields of a header and the bytes behind it. The flags are bits of `flags`.
pub record Segment : Type 0 where
  pub src_port : ℕ
  pub dst_port : ℕ
  pub seq : ℕ
  pub ack : ℕ
  pub flags : ℕ
  pub bytes : List ℕ

-- tcp_send_segment: whether the segment went out, and the socket after.
unfoldable pub tcp_send_segment : (Segment → Bool) → TcpSocket → ℕ → List ℕ → Bool × TcpSocket
tcp_send_segment send sock flags bytes =
    let sent : Bool = send (record {
      src_port = sock.local_port;
      dst_port = sock.remote_port;
      seq = sock.seq_send;
      ack = sock.seq_recv;
      flags = flags;
      bytes = bytes;
    }) in
    let mark = if test_bit flags 1 == 1 || test_bit flags 0 == 1 then 1 else 0 in
    if ltb tcp_mss (length bytes)
    then (false, sock)
    else if sent
    then (true, record sock { seq_send = u32 (sock.seq_send + mark + length bytes) })
    else (false, sock)

-- tcp_rx_push: bytes go in until the ring is full.
unfoldable pub tcp_rx_push : TcpSocket → List ℕ → TcpSocket
tcp_rx_push sock [] = sock
tcp_rx_push sock (b ∷ bs) =
    let next = u32 (sock.rx_head + 1) % rx_buf_size in
    let rest =
      tcp_rx_push (record sock { rx_buf = update sock.rx_buf sock.rx_head b; rx_head = next }) bs in
    if next == sock.rx_tail then sock else rest

-- The inner loop of tcp_recv, with n bytes of room left.
unfoldable pub tcp_rx_take : ℕ → TcpSocket → List ℕ × TcpSocket
tcp_rx_take zero sock = ([], sock)
tcp_rx_take (suc n) sock =
    let rest = tcp_rx_take n (record sock { rx_tail = u32 (sock.rx_tail + 1) % rx_buf_size }) in
    if sock.rx_tail == sock.rx_head then ([], sock) else (sock.rx_buf sock.rx_tail ∷ rest.0, rest.1)

unfoldable pub tcp_find_socket : Array TcpSocket → ℕ → ℕ → ℕ → Option ℕ
tcp_find_socket sockets src_ip src_port dst_port =
    first
      (λ i.
        (sockets i).open_flag
        && (sockets i).remote_ip == src_ip
        && (sockets i).remote_port == src_port
        && (sockets i).local_port == dst_port)
      tcp_max_sockets 0

-- A socket after tcp_close.
unfoldable pub closed_socket : TcpSocket → TcpSocket
closed_socket sock = record {
  state = TcpState.closed;
  local_ip = 0;
  local_port = 0;
  remote_ip = 0;
  remote_port = 0;
  seq_send = 0;
  seq_recv = 0;
  rx_buf = sock.rx_buf;
  rx_head = 0;
  rx_tail = 0;
  open_flag = false;
}

-- tcp_close for a socket that is open; its FIN may go out or not.
unfoldable pub tcp_close : Array TcpSocket → ℕ → Array TcpSocket
tcp_close sockets fd =
    if not (ltb fd tcp_max_sockets) || not (sockets fd).open_flag
    then sockets
    else update sockets fd (closed_socket (sockets fd))

-- The bytes of a segment in sequence: stored, counted and acknowledged.
unfoldable pub receive_bytes : (Segment → Bool) → TcpSocket → ℕ → List ℕ → TcpSocket
receive_bytes send sock seq bytes =
    let pushed = tcp_rx_push sock bytes in
    if not (length bytes == 0) && seq == sock.seq_recv
    then (tcp_send_segment send (record pushed { seq_recv = u32 (pushed.seq_recv + length bytes) })
        16 []).1
    else sock

-- The state after a FIN.
unfoldable pub after_fin : TcpState → TcpState
after_fin TcpState.closed = TcpState.closed
after_fin TcpState.syn_sent = TcpState.syn_sent
after_fin TcpState.established = TcpState.close_wait
after_fin TcpState.fin_wait1 = TcpState.fin_wait2
after_fin TcpState.fin_wait2 = TcpState.time_wait
after_fin TcpState.time_wait = TcpState.time_wait
after_fin TcpState.close_wait = TcpState.close_wait

unfoldable pub is_close_wait : TcpState → Bool
is_close_wait TcpState.close_wait = true
is_close_wait _ = false

unfoldable pub is_syn_sent : TcpState → Bool
is_syn_sent TcpState.syn_sent = true
is_syn_sent _ = false

unfoldable pub receive_fin : (Segment → Bool) → TcpSocket → TcpSocket
receive_fin send sock =
    let counted : TcpSocket = record sock {
      seq_recv = u32 (sock.seq_recv + 1);
      state = after_fin sock.state;
    } in
    let acked = (tcp_send_segment send counted 16 []).1 in
    if is_close_wait acked.state then (tcp_send_segment send acked 17 []).1 else acked

-- The answer to our SYN.
unfoldable pub receive_syn : (Segment → Bool) → TcpSocket → Segment → TcpSocket
receive_syn send sock s =
    let acked = (tcp_send_segment send (record sock { seq_recv = u32 (s.seq + 1) }) 16 []).1 in
    if test_bit s.flags 1 == 1 && test_bit s.flags 4 == 1 && s.ack == sock.seq_send
    then record acked { state = TcpState.established }
    else sock

-- tcp_receive for the socket that the segment belongs to.
unfoldable pub receive_segment : (Segment → Bool) → TcpSocket → Segment → TcpSocket
receive_segment send sock s =
    let got = receive_bytes send sock s.seq s.bytes in
    if test_bit s.flags 2 == 1
    then record sock { state = TcpState.closed; open_flag = false }
    else if is_syn_sent sock.state
    then receive_syn send sock s
    else if test_bit s.flags 0 == 1
    then receive_fin send got
    else got

-- tcp_receive, behind the checks of the header's length and checksum.
unfoldable pub tcp_receive : (Segment → Bool) → Array TcpSocket → ℕ → Segment → Array TcpSocket
tcp_receive send sockets src_ip s = elim (tcp_find_socket sockets src_ip s.src_port s.dst_port) [
  | none ↦ sockets
  | some fd ↦ update sockets fd (receive_segment send (sockets fd) s)
]
