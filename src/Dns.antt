-- ===== src/Dns.antt =====
-- The captive-portal name server, esp32/shared/src/dns_server.cpp: the reply to one packet, and the
-- life of its task. A packet is the list of its bytes, and each field of the header is the number
-- that its two bytes spell in network order.
pub mod Reader
pub mod Answers
pub mod Life
use ray_z.Prelude.{
  Bytes, Option, [], if◌then◌else◌, leb, length, none, some, ℕ, ◌%◌, ◌*◌, ◌++◌, ◌+◌, ◌/◌, ◌∷◌,
  ◌>>=◌,
}

pub record DnsHeader : Type 0 where
  pub id : ℕ
  pub flags : ℕ
  pub qdcount : ℕ
  pub ancount : ℕ
  pub nscount : ℕ
  pub arcount : ℕ

unfoldable pub read_u16 : Bytes → Option (ℕ × Bytes)
read_u16 [] = none
read_u16 (_ ∷ []) = none
read_u16 (hi ∷ lo ∷ rest) = some (hi * 256 + lo, rest)

abbrev pub u16_bytes : ℕ → Bytes
u16_bytes n = (n / 256) ∷ (n % 256) ∷ []

-- The packet as `(dns_header*)buf` and what follows, if it is long enough for one.
unfoldable pub read_header : Bytes → Option (DnsHeader × Bytes)
unfolding read_u16
read_header buf = do
  (id, b1) ← read_u16 buf
  (flags, b2) ← read_u16 b1
  (qdcount, b3) ← read_u16 b2
  (ancount, b4) ← read_u16 b3
  (nscount, b5) ← read_u16 b4
  (arcount, b6) ← read_u16 b5
  some (
    record {
      id = id;
      flags = flags;
      qdcount = qdcount;
      ancount = ancount;
      nscount = nscount;
      arcount = arcount;
    },
    b6,
  )

unfoldable pub header_bytes : DnsHeader → Bytes
header_bytes h =
    u16_bytes h.id
    ++ u16_bytes h.flags
    ++ u16_bytes h.qdcount
    ++ u16_bytes h.ancount
    ++ u16_bytes h.nscount
    ++ u16_bytes h.arcount

-- The answer record: a pointer to the question's name, type A, class IN, no time to live, and the
-- address 192.168.4.1.
abbrev pub dns_ans_suffix : Bytes
dns_ans_suffix =
    0xC0 ∷ 0x0C ∷ 0x00 ∷ 0x01 ∷ 0x00 ∷ 0x01 ∷ 0x00 ∷ 0x00 ∷ 0x00 ∷ 0x00 ∷ 0x00 ∷ 0x04 ∷ 192 ∷ 168
    ∷ 4 ∷ 1 ∷ []

-- The size of `buf`.
abbrev pub dns_buf_size : ℕ
dns_buf_size = 512

-- What is sent for a received packet, if anything: one round of the loop.
unfoldable pub dns_reply : Bytes → Option Bytes
unfolding header_bytes
dns_reply buf = elim (read_header buf) [
  | none ↦ none
  | some (hdr, rest) ↦
      if leb (length buf + length dns_ans_suffix) dns_buf_size
      then some (
          header_bytes
            (record hdr { flags = 0x8400; ancount = hdr.qdcount; nscount = 0; arcount = 0 })
          ++ (rest ++ dns_ans_suffix))
      else none
]
