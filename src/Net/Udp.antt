-- ===== src/Net/Udp.antt =====
-- The sockets of net/udp.c. A callback is known by a number; what it is called with is a record. A
-- datagram is its header's fields in host byte order and its bytes; sending is left out.
use coffee_os_aurora_refresh.Base.{
  ℕ, ◌+◌, ◌-◌, Bool, true, false, not, ◌&&◌, ◌||◌, Option, none, some, List, take, Array, update,
  ltb, ◌==◌, if◌then◌else◌,
}
use coffee_os_aurora_refresh.Base.Search.{first}
pub mod Dispatch

pub record UdpSocket : Type 0 where
  pub local_port : ℕ
  pub callback : Option ℕ
  pub open_flag : Bool

abbrev pub udp_max_sockets : ℕ
udp_max_sockets = 8

-- `udp_sockets[i].open && udp_sockets[i].local_port == port`
abbrev pub bound_to : Array UdpSocket → ℕ → ℕ → Bool
bound_to sockets port i = (sockets i).open_flag && (sockets i).local_port == port

-- udp_open: the index of the socket, or none for -1.
unfoldable pub udp_open : Array UdpSocket → ℕ → Option ℕ → Option ℕ × Array UdpSocket
udp_open sockets port none = (none, sockets)
udp_open sockets port (some cb) =
    let opened : Option ℕ × Array UdpSocket =
      elim (first (λ i. not (sockets i).open_flag) udp_max_sockets 0) [
        | none ↦ (none, sockets)
        | some i ↦ (
          some i,
          update sockets i (record { local_port = port; callback = some cb; open_flag = true }),
        )
      ] in
    if port == 0 then (none, sockets) else elim (first (bound_to sockets port) udp_max_sockets 0) [
      | some i ↦ (none, sockets)
      | none ↦ opened
    ]

unfoldable pub udp_close : Array UdpSocket → ℕ → Array UdpSocket
udp_close sockets fd =
    if ltb fd udp_max_sockets
    then update sockets fd (record { local_port = 0; callback = none; open_flag = false })
    else sockets

-- struct UdpHeader without its checksum, and the bytes behind it.
pub record Datagram : Type 0 where
  pub src_port : ℕ
  pub dst_port : ℕ
  pub udp_len : ℕ
  pub bytes : List ℕ

-- A call of a callback.
pub record Delivery : Type 0 where
  pub callback : Option ℕ
  pub src_ip : ℕ
  pub src_port : ℕ
  pub bytes : List ℕ

-- udp_receive of `len` bytes, header included: the callback that is called, if there is one.
unfoldable pub udp_receive : Array UdpSocket → ℕ → Datagram → ℕ → Option Delivery
udp_receive sockets src_ip d len =
    let delivered : Option Delivery = elim (first (bound_to sockets d.dst_port) udp_max_sockets 0) [
      | none ↦ none
      | some i ↦ some (record {
        callback = (sockets i).callback;
        src_ip = src_ip;
        src_port = d.src_port;
        bytes = take (d.udp_len - 8) d.bytes;
      })
    ] in
    if ltb len 8 then none else if ltb d.udp_len 8 || ltb len d.udp_len then none else delivered
