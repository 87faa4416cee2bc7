-- ===== src/Tests/Names.antt =====
-- Packets of the captive portal's name server.
use ray_z.Dns.{DnsHeader, dns_reply, header_bytes}
use ray_z.Dns.Answers.{answered, dns_reply_lem}
use ray_z.Dns.Reader.{first_answer, name_bytes, question_bytes}
use ray_z.Prelude.{Bytes, List, [], arith, codes, refl, some, ◌++◌, ◌∷◌, ◌≡◌}

-- A client asks for the address of `a.io` under the identifier 258.
abbrev asked : DnsHeader
asked = record { id = 258; flags = 256; qdcount = 1; ancount = 0; nscount = 0; arcount = 0 }

abbrev a_io : List Bytes
a_io = codes "a" ∷ codes "io" ∷ []

dns_reply_lem_example :
    (r : Bytes) × (dns_reply (header_bytes asked ++ question_bytes a_io 1 1) ≡ some r)
    × (first_answer r
        ≡ some (answered asked, record { type = 1; class = 1; payload = 192 ∷ 168 ∷ 4 ∷ 1 ∷ [] }))
unfolding question_bytes name_bytes
dns_reply_lem_example = dns_reply_lem asked a_io 1 1 (omega arith) refl (omega arith) (omega arith)
