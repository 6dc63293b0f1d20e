-- ===== src/Pnet.antt =====
-- The packet library that apps/tls_validator reads and builds TCP packets with, as an interface:
-- the packet type and its operations are parameters. Also the addresses of the standard library.
pub mod Sample
use pvn_project.Base.{ℕ, ◌≡◌, List}

-- The fixed header fields, as the library's getters read them.
pub record Header : Type 0 where
  pub source : ℕ
  pub destination : ℕ
  pub sequence : ℕ
  pub flags : ℕ
  pub data_offset : ℕ
  pub checksum : ℕ

-- `packet` is the whole packet as bytes, `payload` what follows the header.
-- `owned n` is a packet over `n` zero bytes.
pub record Pnet (P : Type 0) : Type 0 where
  pub header : P → Header
  pub payload : P → List ℕ
  pub packet : P → List ℕ
  pub minimum_packet_size : ℕ
  pub owned : ℕ → P
  pub set_source : ℕ → P → P
  pub set_destination : ℕ → P → P
  pub set_sequence : ℕ → P → P
  pub set_flags : ℕ → P → P
  pub set_data_offset : ℕ → P → P
  pub set_checksum : ℕ → P → P
  pub ipv4_checksum : List ℕ → ℕ → ℕ → ℕ → ℕ
  pub ipv6_checksum : List ℕ → ℕ → ℕ → ℕ → ℕ

-- A setter writes its own field and no other, and those of flags and checksum keep the payload.
pub record PnetLaws {P : Type 0} (net : Pnet P) : Type 0 where
  pub header-set_source :
      (v : ℕ) (p : P) → net.header (net.set_source v p) ≡ record (net.header p) { source = v }
  pub header-set_destination :
      (v : ℕ) (p : P)
      → net.header (net.set_destination v p) ≡ record (net.header p) { destination = v }
  pub header-set_sequence :
      (v : ℕ) (p : P) → net.header (net.set_sequence v p) ≡ record (net.header p) { sequence = v }
  pub header-set_flags :
      (v : ℕ) (p : P) → net.header (net.set_flags v p) ≡ record (net.header p) { flags = v }
  pub header-set_data_offset :
      (v : ℕ) (p : P)
      → net.header (net.set_data_offset v p) ≡ record (net.header p) { data_offset = v }
  pub header-set_checksum :
      (v : ℕ) (p : P) → net.header (net.set_checksum v p) ≡ record (net.header p) { checksum = v }
  pub payload-set_flags : (v : ℕ) (p : P) → net.payload (net.set_flags v p) ≡ net.payload p
  pub payload-set_checksum : (v : ℕ) (p : P) → net.payload (net.set_checksum v p) ≡ net.payload p

-- `std::net::IpAddr`: the address as the number that its bytes spell.
pub data IpAddr : Type 0 where
  v4 v6 : ℕ → IpAddr
