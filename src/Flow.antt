-- ===== src/Flow.antt =====
-- apps/tls_validator/src/lib.rs: the identifier of a TCP flow, as the key of the middlebox's map.
use pvn_project.Base.{ℕ, ◌≡◌, refl, ◌↔◌, Bool, true, false, ◌&&◌, ◌==◌, Eq, arith}
use pvn_project.Pnet.{IpAddr, v4, v6}

pub record TcpFlow : Type 0 where
  pub source_ip : IpAddr
  pub dest_ip : IpAddr
  pub source_port : ℕ
  pub dest_port : ℕ

unfoldable pub reverse : TcpFlow → TcpFlow
reverse f = record {
  source_ip = f.dest_ip;
  dest_ip = f.source_ip;
  source_port = f.dest_port;
  dest_port = f.source_port;
}

-- The derived `PartialEq`.
abbrev pub ip_eq : IpAddr → IpAddr → Bool
ip_eq (v4 a) (v4 b) = a == b
ip_eq (v6 a) (v6 b) = a == b
ip_eq _ _ = false

pub ip_eq_iff : (a b : IpAddr) → (ip_eq a b ≡ true) ↔ (a ≡ b)
ip_eq_iff (v4 a) (v4 b) = ground arith
ip_eq_iff (v6 a) (v6 b) = ground arith
ip_eq_iff (v4 a) (v6 b) = ground arith
ip_eq_iff (v6 a) (v4 b) = ground arith

abbrev pub flow_eq : TcpFlow → TcpFlow → Bool
flow_eq f g =
    ip_eq f.source_ip g.source_ip
    && (ip_eq f.dest_ip g.dest_ip && (f.source_port == g.source_port && f.dest_port == g.dest_port))

pub flow_eq_iff : (f g : TcpFlow) → (flow_eq f g ≡ true) ↔ (f ≡ g)
flow_eq_iff f g = ground (arith, ip_eq_iff f.source_ip g.source_ip, ip_eq_iff f.dest_ip g.dest_ip)

instance abbrev pub tcp_flow_eq : Eq TcpFlow
tcp_flow_eq = record { beq = flow_eq; beq_iff = flow_eq_iff }

pub reverse-reverse : (f : TcpFlow) → reverse (reverse f) ≡ f
unfolding reverse
reverse-reverse f = refl
