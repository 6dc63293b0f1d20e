-- ===== src/Tlsv/Loop.antt =====
-- What the loop does with each packet, and that it goes on.
use pvn_project.Base.{
  ℕ, ◌+◌, ◌≡◌, ◌≢◌, ◌⊎◌, inl, inr, Bool, true, Bool-cases, List, [], ◌∷◌, Option, none, some, ◌==◌,
  ==_iff, length, arith,
}
use pvn_project.Pnet.{Pnet}
use pvn_project.Flow.{reverse}
use pvn_project.Validator.{Tls, TlsvMiddlebox, TlsvResult}
use pvn_project.Tlsv.{IpNet, Version, tcp_protocol, flow_of, consult, sent, process_packet}

module _ {P Q : Type 0} (net : Pnet P) (ip : IpNet Q) (tcp_new : List ℕ → Option P) (tls : Tls)
    (version : Version P Q) where
  -- The key of a connection is one for both directions: a packet from the client has the flow that
  -- a packet back to it, between the same ends, has after its reversal.
  flow_of-reverse :
      (there back : Q) (a b : P)
      → (ip.header there).source ≡ (ip.header back).destination
      → (ip.header there).destination ≡ (ip.header back).source
      → (net.header a).source ≡ (net.header b).destination
      → (net.header a).destination ≡ (net.header b).source
      → flow_of net ip tcp_new tls version there a
        ≡ reverse (flow_of net ip tcp_new tls version back b)
  unfolding flow_of reverse
  flow_of-reverse there back a b s d sp dp = rw (s, d, sp, dp)

  -- A received packet is not malformed: one of the TCP protocol holds a TCP packet.
  abbrev pub HasTcp : Q → Type 0
  HasTcp packet =
      (ip.header packet).next_protocol ≡ tcp_protocol
      → (t : P) × (tcp_new (ip.payload packet) ≡ some t)

  -- The packet itself, or two packets of which the first keeps its direction and the second turns
  -- it round.
  abbrev pub Answered : Q → List Q → Type 0
  Answered packet out =
      (out ≡ packet ∷ [])
      ⊎ ((forward_packet : P) × (return_packet : P) × (out
            ≡ version.prepare (ip.minimum_packet_size + length (net.packet forward_packet))
                (ip.header packet).source (ip.header packet).destination forward_packet
              ∷ version.prepare (ip.minimum_packet_size + length (net.packet return_packet))
                  (ip.header packet).destination (ip.header packet).source return_packet
              ∷ []))

  -- The interface has room for every packet, and sends it.
  abbrev pub SendsAll : (ℕ → Q → Bool) → Type 0
  SendsAll sends = (now : ℕ) (q : Q) → sends now q ≡ true

  abbrev pub Received : Option Q × ℕ → Type 0
  Received (none, now) = Unit
  Received (some packet, now) = HasTcp packet

  consult_stranger :
      (client now : ℕ) (m : TlsvMiddlebox) (packet : Q) (tcp : P)
      → client ≢ (ip.header packet).source
      → client ≢ (ip.header packet).destination
      → consult net ip tcp_new tls version client m now packet tcp ≡ some (m, TlsvResult.cleared)
  unfolding consult
  consult_stranger client now m packet tcp ns nd = ground arith

  -- A packet that is neither from nor to the client is sent on, and the middlebox does not see it.
  process_packet_stranger :
      (sends : ℕ → Q → Bool) (client now : ℕ) (m : TlsvMiddlebox) (packet : Q)
      → HasTcp packet
      → client ≢ (ip.header packet).source
      → client ≢ (ip.header packet).destination
      → process_packet net ip tcp_new tls sends version client m now packet ≡ some (m, packet ∷ [])
  unfolding process_packet sent
  process_packet_stranger sends client now m packet wf ns nd =
      elim (Bool-cases ((ip.header packet).next_protocol == tcp_protocol)) [
        | inr other ↦ rw other
        | inl is_tcp ↦
            let (t, e) = wf ((==_iff _ _).0 is_tcp) in
            rw (is_tcp, e, consult_stranger client now m packet t ns nd)
      ]
