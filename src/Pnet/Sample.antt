-- ===== src/Pnet/Sample.antt =====
-- A packet library that meets the interface: packets as records.
use pvn_project.Base.{ℕ, ◌+◌, refl, List, [], ◌∷◌, ◌++◌}
use pvn_project.Pnet.{Header, Pnet, PnetLaws}

pub record Datagram : Type 0 where
  pub head : Header
  pub content : List ℕ

abbrev pub zero_header : Header
zero_header = record {
  source = 0;
  destination = 0;
  sequence = 0;
  flags = 0;
  data_offset = 0;
  checksum = 0;
}

abbrev pub header_bytes : Header → List ℕ
header_bytes h = h.source ∷ h.destination ∷ h.sequence ∷ h.flags ∷ h.data_offset ∷ h.checksum ∷ []

abbrev pub sample : Pnet Datagram
sample = record {
  header = λ p. p.head;
  payload = λ p. p.content;
  packet = λ p. header_bytes p.head ++ p.content;
  minimum_packet_size = 20;
  owned = λ n. record { head = zero_header; content = [] };
  set_source = λ v p. record p { head = record (p.head) { source = v } };
  set_destination = λ v p. record p { head = record (p.head) { destination = v } };
  set_sequence = λ v p. record p { head = record (p.head) { sequence = v } };
  set_flags = λ v p. record p { head = record (p.head) { flags = v } };
  set_data_offset = λ v p. record p { head = record (p.head) { data_offset = v } };
  set_checksum = λ v p. record p { head = record (p.head) { checksum = v } };
  ipv4_checksum = λ bytes skip a b. a + b;
  ipv6_checksum = λ bytes skip a b. a + b;
}

pub sample_laws : PnetLaws sample
sample_laws = record {
  header-set_source = λ v p. refl;
  header-set_destination = λ v p. refl;
  header-set_sequence = λ v p. refl;
  header-set_flags = λ v p. refl;
  header-set_data_offset = λ v p. refl;
  header-set_checksum = λ v p. refl;
  payload-set_flags = λ v p. refl;
  payload-set_checksum = λ v p. refl;
}

-- A packet with a sequence number, flags and content.
abbrev pub datagram : ℕ → ℕ → List ℕ → Datagram
datagram seqno flags content = record {
  head = record zero_header { source = 443; destination = 50000; sequence = seqno; flags = flags };
  content = content;
}
