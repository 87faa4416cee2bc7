-- ===== src/Dns/Reader.antt =====
-- How a client reads a reply of the name server (RFC 1035), independently of
-- esp32/shared/src/dns_server.cpp.
use ray_z.Dns.{DnsHeader, read_header, read_u16, u16_bytes}
use ray_z.Prelude.{
  Bytes, List, Option, [], false, if◌then◌else◌, leb, length, none, suc, take, true, zero, ℕ, ◌++◌,
  ◌<◌, ◌==◌, ◌∷◌, ◌≤◌, ◌>>=◌, some,
}

-- Skips the rest of a label of which `k` bytes are left, and the labels behind it.
unfoldable pub skip_name : ℕ → Bytes → Option Bytes
skip_name k [] = none
skip_name zero (n ∷ rest) = elim (n == 0) [ true ↦ some rest | false ↦ skip_name n rest ]
skip_name (suc k) (b ∷ rest) = skip_name k rest

-- A name is a pointer of two bytes or is spelled out.
unfoldable pub skip_owner : Bytes → Option Bytes
unfolding skip_name
skip_owner [] = none
skip_owner (b ∷ []) = skip_name 0 (b ∷ [])
skip_owner (b ∷ c ∷ rest) = if leb 192 b then some rest else skip_name 0 (b ∷ c ∷ rest)

unfoldable pub skip_question : Bytes → Option Bytes
unfolding skip_name
skip_question s = do r ← skip_name 0 s; (_, r1) ← read_u16 r; (_, r2) ← read_u16 r1; some r2

unfoldable pub skip_questions : ℕ → Bytes → Option Bytes
skip_questions zero s = some s
skip_questions (suc n) s = elim (skip_question s) [ none ↦ none | some r ↦ skip_questions n r ]

-- A resource record: type, class and data; the time to live is not kept.
pub record Resource : Type 0 where
  pub type : ℕ
  pub class : ℕ
  pub payload : Bytes

unfoldable pub read_resource : Bytes → Option Resource
unfolding skip_owner read_u16
read_resource s = do
  r ← skip_owner s
  (type, r1) ← read_u16 r
  (class, r2) ← read_u16 r1
  (_, r3) ← read_u16 r2
  (_, r4) ← read_u16 r3
  (size, r5) ← read_u16 r4
  some (record { type = type; class = class; payload = take size r5 })

-- The first answer of a packet: its header, and the record behind its questions.
unfoldable pub first_answer : Bytes → Option (DnsHeader × Resource)
unfolding skip_questions read_resource
first_answer packet = do
  (h, body) ← read_header packet
  r ← skip_questions h.qdcount body
  a ← read_resource r
  some (h, a)

-- A name as a client writes it: labels of 1 to 63 bytes, each behind its length.
abbrev pub IsLabels : List Bytes → Type 0
IsLabels [] = Unit {0}
IsLabels (l ∷ ls) = (1 ≤ length l) × (length l < 64) × IsLabels ls

unfoldable pub name_bytes : List Bytes → Bytes
name_bytes [] = 0 ∷ []
name_bytes (l ∷ ls) = length l ∷ (l ++ name_bytes ls)

-- A question for the name, of a type and a class.
unfoldable pub question_bytes : List Bytes → ℕ → ℕ → Bytes
unfolding name_bytes
question_bytes name type class = name_bytes name ++ (u16_bytes type ++ u16_bytes class)
