-- ===== src/Tlsv/Tests.antt =====
-- The loop's theorems at concrete inputs.
use pvn_project.Base.{ℕ, refl, List, [], Option, none, some, false}
use pvn_project.Pnet.{v4}
use pvn_project.Pnet.Sample.{Datagram, sample, datagram}
use pvn_project.Validator.{Tls, TlsvMiddlebox}
use pvn_project.Tlsv.{IpHeader, IpNet, IpLaws, Version, prepare_ipv4_packet}

record IpDatagram : Type 0 where
  head : IpHeader
  content : List ℕ

abbrev head_of : ℕ → ℕ → ℕ → IpHeader
head_of src dest protocol = record {
  version = 4;
  source = src;
  destination = dest;
  next_protocol = protocol;
  ttl = 1;
  header_length = 5;
  total_length = 0;
  checksum = 0;
}

abbrev ip_sample : IpNet IpDatagram
ip_sample = record {
  header = λ q. q.head;
  payload = λ q. q.content;
  minimum_packet_size = 20;
  blank = λ n. record { head = head_of 0 0 0; content = [] };
  set_header = λ h q. record q { head = h };
  set_payload = λ b q. record q { content = b };
  checksum_of = λ q. q.head.source;
}

ip_sample_laws : IpLaws ip_sample
ip_sample_laws = record {
  header-set_header = λ h q. refl;
  payload-set_header = λ h q. refl;
  header-set_payload = λ b q. refl;
  payload-set_payload = λ b q. refl;
}

-- Every payload is read as a packet with SYN and the payload's bytes.
abbrev tcp_new : List ℕ → Option Datagram
tcp_new bytes = some (datagram 10 2 bytes)

abbrev tls : Tls
tls = record { read_bytes = λ bytes. none; verify_server_cert = λ leaf others name now. false }

abbrev version : Version Datagram IpDatagram
version = record { address = v4; prepare = prepare_ipv4_packet sample ip_sample }

abbrev empty_box : TlsvMiddlebox
empty_box = record { flows = [] }

abbrev there : IpDatagram
there = record { head = head_of 1 2 6; content = [] }

abbrev back : IpDatagram
back = record { head = head_of 2 1 6; content = [] }

abbrev sent_tcp : Datagram
sent_tcp = datagram 10 2 []

abbrev answer_tcp : Datagram
answer_tcp = record sent_tcp { head = record (sent_tcp.head) { source = 50000; destination = 443 } }
