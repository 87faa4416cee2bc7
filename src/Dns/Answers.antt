-- ===== src/Dns/Answers.antt =====
-- What a client reads in the replies of esp32/shared/src/dns_server.cpp.
use mathlib.Core.List.{append_assoc, append-nil}
use ray_z.Dns.{DnsHeader, header_bytes, read_header, read_u16, u16_bytes, dns_ans_suffix, dns_reply}
use ray_z.Dns.Reader.{
  IsLabels, name_bytes, skip_name, question_bytes, skip_question, Resource, first_answer,
  read_resource, skip_questions,
}
use ray_z.Prelude.{
  Bytes, List, [], arith, length, none, refl, some, ℕ, ◌++◌, ◌<◌, ◌^◌, ◌∷◌, ◌≡◌, suc, zero, ◌↔◌,
  ◌∙◌, ◌+◌, ◌≤◌, length-append, sym, ◌⊎◌, Option-cases, inl, inr,
}

-- The fields of a header fit 16 bits.
pub record IsHeader (h : DnsHeader) : Type 0 where
  pub id_fits : h.id < 2 ^ 16
  pub flags_fit : h.flags < 2 ^ 16
  pub qdcount_fits : h.qdcount < 2 ^ 16
  pub ancount_fits : h.ancount < 2 ^ 16
  pub nscount_fits : h.nscount < 2 ^ 16
  pub arcount_fits : h.arcount < 2 ^ 16

read_header-header_bytes :
    (h : DnsHeader) (rest : Bytes)
    → IsHeader h
    → read_header (header_bytes h ++ rest) ≡ some (h, rest)
unfolding read_header header_bytes
read_header-header_bytes h rest v = ground arith

read_header_iff : (s : Bytes) → (read_header s ≡ none) ↔ (length s < 12)
unfolding read_header read_u16
read_header_iff s = ground arith

skip_label : (n : ℕ) (s : Bytes) → 0 < n → skip_name 0 (n ∷ s) ≡ skip_name n s
unfolding skip_name
skip_label n s h = ground arith

skip_name-append :
    (k : ℕ) (l rest : Bytes) → k ≡ length l → skip_name k (l ++ rest) ≡ skip_name 0 rest
unfolding skip_name
skip_name-append k [] rest h = rw h refl
skip_name-append zero (b ∷ l) rest h = absurd (omega arith)
skip_name-append (suc k) (b ∷ l) rest h = skip_name-append k l rest (omega arith)

skip_name-name_bytes :
    (name : List Bytes) (rest : Bytes)
    → IsLabels name
    → skip_name 0 (name_bytes name ++ rest) ≡ some rest
unfolding skip_name name_bytes
skip_name-name_bytes [] rest v = refl
skip_name-name_bytes ([] ∷ ls) rest v = absurd (omega arith)
skip_name-name_bytes ((b ∷ l) ∷ ls) rest v =
    let tail : Bytes = name_bytes ls ++ rest in
    rw (append_assoc (b ∷ l) (name_bytes ls) rest) (
      skip_label (length (b ∷ l)) ((b ∷ l) ++ tail) (omega arith)
      ∙ skip_name-append (length (b ∷ l)) (b ∷ l) tail refl
      ∙ skip_name-name_bytes ls rest v.2)

skip_question-question_bytes :
    (name : List Bytes) (type class : ℕ) (rest : Bytes)
    → IsLabels name
    → skip_question (question_bytes name type class ++ rest) ≡ some rest
unfolding skip_question question_bytes read_u16
skip_question-question_bytes name type class rest v =
    rw (append_assoc (name_bytes name) (u16_bytes type ++ u16_bytes class) rest)
      (rw (skip_name-name_bytes name ((u16_bytes type ++ u16_bytes class) ++ rest) v) refl)

length-header_bytes : (h : DnsHeader) → length (header_bytes h) ≡ 12
unfolding header_bytes
length-header_bytes h = refl

-- The reply to a packet, in the terms of the client that wrote it.
abbrev pub answered : DnsHeader → DnsHeader
answered h = record h { flags = 0x8400; ancount = h.qdcount; nscount = 0; arcount = 0 }

dns_reply-header_bytes :
    (h : DnsHeader) (body : Bytes)
    → IsHeader h
    → length body + 28 ≤ 512
    → dns_reply (header_bytes h ++ body)
      ≡ some (header_bytes (answered h) ++ (body ++ dns_ans_suffix))
unfolding dns_reply
dns_reply-header_bytes h body v fits = ground (
  arith,
  read_header-header_bytes h body v,
  length-append (header_bytes h) body,
  length-header_bytes h,
)

-- What a client finds where it looks for the answer, if it wrote `extra` behind its question.
skip_one : (s r : Bytes) → skip_question s ≡ some r → skip_questions 1 s ≡ some r
unfolding skip_questions
skip_one s r h = ground arith

read_resource-dns_ans_suffix :
    read_resource dns_ans_suffix
    ≡ some (record { type = 1; class = 1; payload = 192 ∷ 168 ∷ 4 ∷ 1 ∷ [] })
unfolding read_resource
read_resource-dns_ans_suffix = refl

answered-IsHeader : (h : DnsHeader) → IsHeader h → IsHeader (answered h)
answered-IsHeader h v = ground arith

first_answer-reply :
    (h : DnsHeader) (name : List Bytes) (type class : ℕ) (extra : Bytes) (a : Resource)
    → IsHeader h
    → h.qdcount ≡ 1
    → IsLabels name
    → read_resource (extra ++ dns_ans_suffix) ≡ some a
    → first_answer
        (header_bytes (answered h) ++ ((question_bytes name type class ++ extra) ++ dns_ans_suffix))
      ≡ some (answered h, a)
unfolding first_answer
first_answer-reply h name type class extra a v one labels found =
    let tail : Bytes = extra ++ dns_ans_suffix in
    let body : Bytes = question_bytes name type class ++ tail in
    rw (
      append_assoc (question_bytes name type class) extra dns_ans_suffix,
      read_header-header_bytes (answered h) body (answered-IsHeader h v),
      one,
      skip_one (question_bytes name type class ++ tail) tail
          (skip_question-question_bytes name type class tail labels),
      found,
    )

-- An option record without options: the root's name, type 41, a class that gives a size, and four
-- zero bytes of flags.
abbrev pub opt_record : ℕ → Bytes
opt_record size = 0 ∷ 0 ∷ 41 ∷ (u16_bytes size ++ (0 ∷ 0 ∷ 0 ∷ 0 ∷ 0 ∷ 0 ∷ []))

module _ (h : DnsHeader) (name : List Bytes) (type class : ℕ) (header : IsHeader h)
    (one : h.qdcount ≡ 1) (labels : IsLabels name) where
  reply_found :
      (extra : Bytes) (a : Resource)
      → length (question_bytes name type class ++ extra) + 28 ≤ 512
      → read_resource (extra ++ dns_ans_suffix) ≡ some a
      → (r : Bytes) × (dns_reply (header_bytes h ++ (question_bytes name type class ++ extra))
          ≡ some r)
        × (first_answer r ≡ some (answered h, a))
  reply_found extra a fits found = (
    header_bytes (answered h) ++ ((question_bytes name type class ++ extra) ++ dns_ans_suffix),
    dns_reply-header_bytes h (question_bytes name type class ++ extra) header fits,
    first_answer-reply h name type class extra a header one labels found,
  )

  -- A client that asks one question and sends nothing behind it, in a packet of at most 496 bytes,
  -- gets a reply under its identifier, marked as an authoritative answer without other records, and
  -- finds the address 192.168.4.1 where it looks for the answer, whatever it asked for.
  pub dns_reply_lem :
      length (question_bytes name type class) + 28 ≤ 512
      → (r : Bytes) × (dns_reply (header_bytes h ++ question_bytes name type class) ≡ some r)
        × (first_answer r
            ≡ some (answered h, record { type = 1; class = 1; payload = 192 ∷ 168 ∷ 4 ∷ 1 ∷ [] }))
  dns_reply_lem fits = rw (sym (append-nil (question_bytes name type class))) (
      reply_found [] (record { type = 1; class = 1; payload = 192 ∷ 168 ∷ 4 ∷ 1 ∷ [] })
        (rw append-nil fits) read_resource-dns_ans_suffix)

  -- A client that sends the option record of EDNS behind its question, which announces the size
  -- `size`, finds this record where it looks for the answer, and no address.
  pub dns_reply_edns :
      (size : ℕ)
      → size < 2 ^ 16
      → length (question_bytes name type class) + 39 ≤ 512
      → (r : Bytes) × (dns_reply
            (header_bytes h ++ (question_bytes name type class ++ opt_record size))
          ≡ some r)
        × (first_answer r ≡ some (answered h, record { type = 41; class = size; payload = [] }))
  unfolding read_resource
  dns_reply_edns size small fits =
      reply_found (opt_record size) (record { type = 41; class = size; payload = [] })
        (omega (arith, length-append (question_bytes name type class) (opt_record size)))
        (ground arith)

length-read_header :
    (s : Bytes) (h : DnsHeader) (rest : Bytes)
    → read_header s ≡ some (h, rest)
    → length s ≡ 12 + length rest
unfolding read_header read_u16
length-read_header s h rest e = ground arith

length-answered :
    (h : DnsHeader) (rest : Bytes)
    → length (header_bytes (answered h) ++ (rest ++ dns_ans_suffix)) ≡ length rest + 28
length-answered h rest = omega (
  arith,
  length-append (header_bytes (answered h)) (rest ++ dns_ans_suffix),
  length-append rest dns_ans_suffix,
  length-header_bytes (answered h),
)

-- No reply is sent exactly if the packet is shorter than a header or leaves no room in the buffer
-- for the answer; every reply is 16 bytes longer than the packet and fits the buffer.
pub dns_reply-none_iff :
    (packet : Bytes)
    → ((dns_reply packet ≡ none) ↔ (length packet < 12 ⊎ 496 < length packet))
      × ((r : Bytes)
          → dns_reply packet ≡ some r
          → (length r ≡ length packet + 16) × (length r ≤ 512))
unfolding dns_reply
dns_reply-none_iff packet = elim (Option-cases (read_header packet)) [
  | inl short ↦ ground (arith, read_header_iff packet)
  | inr ((h, rest), long) ↦
      ground (
        arith,
        read_header_iff packet,
        length-read_header packet h rest long,
        length-answered h rest,
      )
]
