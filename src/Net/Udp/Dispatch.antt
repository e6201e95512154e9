-- ===== src/Net/Udp/Dispatch.antt =====
-- Which callback of net/udp.c a datagram reaches.
use coffee_os_aurora_refresh.Base.{
  ℕ, ◌-◌, ◌≤◌, ◌<◌, ◌≡◌, inl, inr, refl, sym, true, false, not, none, some, take, Array, update,
  update_ne, ◌==◌, Option-cases, Bool-cases, le→ltb, arith,
}
use coffee_os_aurora_refresh.Base.Search.{first, First, first-First, First-unique}
use coffee_os_aurora_refresh.Net.Udp.{
  UdpSocket, udp_max_sockets, bound_to, udp_open, udp_receive, Datagram,
}

-- A socket opened: a free place, no socket of the port before, and the new socket in that place.
record Opened (sockets : Array UdpSocket) (port cb i : ℕ) (after : Array UdpSocket) : Type 0 where
  unbound : (j : ℕ) → j < udp_max_sockets → bound_to sockets port j ≡ false
  bound : i < udp_max_sockets
  closed : not (sockets i).open_flag ≡ true
  result :
      after ≡ update sockets i (record { local_port = port; callback = some cb; open_flag = true })

udp_open-Opened :
    (sockets : Array UdpSocket) (port cb i : ℕ)
    → (udp_open sockets port (some cb)).0 ≡ some i
    → Opened sockets port cb i (udp_open sockets port (some cb)).1
unfolding udp_open
udp_open-Opened sockets port cb i = elim (Bool-cases (port == 0)) [
  | inl z ↦ rw z (λ h. absurd cc)
  | inr z ↦ elim (Option-cases (first (bound_to sockets port) udp_max_sockets 0)) [
    | inr (k, e) ↦ rw (z, e) (λ h. absurd cc)
    | inl e ↦ elim (Option-cases (first (λ i. not (sockets i).open_flag) udp_max_sockets 0)) [
      | inl f ↦ rw (z, e, f) (λ h. absurd cc)
      | inr (k, f) ↦
          rw (z, e, f)
            (λ h.
              let p : First (λ i. not (sockets i).open_flag) 0 udp_max_sockets (some k) = rw f at (
                first-First (λ i. not (sockets i).open_flag) udp_max_sockets 0 udp_max_sockets
                  refl) in
              let q : First (bound_to sockets port) 0 udp_max_sockets none =
                rw e at
                  (first-First (bound_to sockets port) udp_max_sockets 0 udp_max_sockets refl) in
              let same : k ≡ i = cc in
              record {
                unbound = λ j u. q j (omega arith) u;
                bound = rw (sym same) p.1;
                closed = rw (sym same) p.2;
                result = rw same refl;
              })
    ]
  ]
]

Opened-First :
    (sockets after : Array UdpSocket) (port cb i : ℕ)
    → Opened sockets port cb i after
    → First (bound_to after port) 0 udp_max_sockets (some i)
Opened-First sockets after port cb i o = rw (o.result) (
  omega arith,
  o.bound,
  ground arith,
  λ j l u. rw (update_ne sockets i j _ (omega arith)) (o.unbound j (omega (arith, o.bound))),
)

-- After udp_open succeeds, a well-formed datagram for its port reaches its callback, with the bytes
-- that the header's length covers.
pub receive-open :
    (sockets : Array UdpSocket) (port cb i src_ip len : ℕ) (d : Datagram)
    → (udp_open sockets port (some cb)).0 ≡ some i
    → d.dst_port ≡ port
    → 8 ≤ d.udp_len
    → d.udp_len ≤ len
    → udp_receive (udp_open sockets port (some cb)).1 src_ip d len
      ≡ some (record {
        callback = some cb;
        src_ip = src_ip;
        src_port = d.src_port;
        bytes = take (d.udp_len - 8) d.bytes;
      })
unfolding udp_receive
receive-open sockets port cb i src_ip len d h e k l =
    rw
      (
        udp_receive,
        le→ltb len 8 (omega arith),
        le→ltb d.udp_len 8 k,
        le→ltb len d.udp_len l,
        e,
        found,
        there,
      )
      refl
  where
    after : Array UdpSocket
    after = (udp_open sockets port (some cb)).1

    o : Opened sockets port cb i after
    o = udp_open-Opened sockets port cb i h

    found : first (bound_to after port) udp_max_sockets 0 ≡ some i
    found =
        First-unique (bound_to after port) 0 udp_max_sockets _ (some i)
          (first-First (bound_to after port) udp_max_sockets 0 udp_max_sockets refl)
          (Opened-First sockets after port cb i o)

    there : (after i).callback ≡ some cb
    there = rw (o.result) (ground arith)
