-- ===== src/Wifi/Scan/Page.antt =====
-- The answer to `/scan` fits its buffer (esp32/shared/src/wifi_http.cpp).
use mathlib.Core.List.{append_assoc, append-nil}
use ray_z.Prelude.{
  Bytes, List, [], arith, codes, length, length-append, length-print_number, some, suc, take,
  take_all, zero, ℕ, ◌++◌, ◌+◌, ◌-◌, ◌<◌, ◌∷◌, ◌≡◌, ◌≤◌, refl, true, ◌*◌, Bool, false,
  if◌then◌else◌, ◌&&◌,
}
use ray_z.Prelude.Int.{negsuc, pos, ℤ}
use ray_z.Wifi.Scan.{Filled, print_int, put, scan_entry, put_entries, scan_get_handler, scan_page}
use ray_z.Wifi.Start.{ApRecord}

-- A signed byte.
abbrev pub IsSignedByte : ℤ → Type 0
IsSignedByte (pos n) = n < 128
IsSignedByte (negsuc n) = n < 128

-- What the driver documents of its records: at most 32 characters, and the level in a signed byte.
abbrev pub AreScanned : List ApRecord → Type 0
AreScanned [] = Unit {0}
AreScanned (seen ∷ aps) = ((length seen.seen_ssid ≤ 32) × IsSignedByte seen.rssi) × AreScanned aps

-- The entries that follow others, each behind a comma.
unfoldable pub more_entries : List ApRecord → Bytes
more_entries [] = []
more_entries (seen ∷ aps) = b',' ∷ (scan_entry seen ++ more_entries aps)

-- Entries with commas between them.
unfoldable pub entries : List ApRecord → Bytes
entries [] = []
entries (seen ∷ aps) = scan_entry seen ++ more_entries aps

take-AreScanned : (n : ℕ) (aps : List ApRecord) → AreScanned aps → AreScanned (take n aps)
take-AreScanned zero aps h = tt
take-AreScanned (suc n) [] h = tt
take-AreScanned (suc n) (seen ∷ aps) h = (h.0, take-AreScanned n aps h.1)

print_int_short : (z : ℤ) → IsSignedByte z → length (print_int z) ≤ 4
unfolding print_int
print_int_short (pos n) h = omega (arith, length-print_number n (omega arith))
print_int_short (negsuc n) h = omega (arith, length-print_number (suc n) (omega arith))

scan_entry_short :
    (seen : ApRecord)
    → length seen.seen_ssid ≤ 32
    → IsSignedByte seen.rssi
    → length (scan_entry seen) ≤ 55
unfolding scan_entry
scan_entry_short seen h k = omega (
  arith,
  length-append seen.seen_ssid (codes "\",\"rssi\":" ++ (print_int seen.rssi ++ codes "}")),
  length-append (print_int seen.rssi) (codes "}"),
  print_int_short seen.rssi k,
)

abbrev filled : Bytes → Filled
filled t = record { written = length t; json = t }

put_fits :
    (size : ℕ) (s t : Bytes)
    → length t + length s < size
    → put size s (filled t) ≡ some (filled (t ++ s))
unfolding put
put_fits size s t h =
    rw (take_all (size - length t - 1) s (omega arith), length-append t s) (ground arith)

le-length-more_entries :
    (aps : List ApRecord) → AreScanned aps → length (more_entries aps) ≤ 56 * length aps
unfolding more_entries
le-length-more_entries [] h = omega arith
le-length-more_entries (seen ∷ aps) h = omega (
  arith,
  length-append (scan_entry seen) (more_entries aps),
  scan_entry_short seen h.0.0 h.0.1,
  le-length-more_entries aps h.1,
)

put_more :
    (size : ℕ) (aps : List ApRecord) (t : Bytes)
    → AreScanned aps
    → length t + 56 * length aps < size
    → put_entries size true aps (filled t) ≡ some (filled (t ++ more_entries aps))
unfolding put_entries more_entries
put_more size [] t h room = rw (append-nil t) refl
put_more size (seen ∷ aps) t h room =
    let short = scan_entry_short seen h.0.0 h.0.1 in
    rw
      (
        put_fits size (codes ",") t (omega arith),
        put_fits size (scan_entry seen) (t ++ codes ",")
            (omega (arith, length-append t (codes ","))),
        put_more size aps ((t ++ codes ",") ++ scan_entry seen) h.1 (
            omega (
              arith,
              length-append (t ++ codes ",") (scan_entry seen),
              length-append t (codes ","),
            )),
      )
      (rw
        (
          append_assoc (t ++ codes ",") (scan_entry seen) (more_entries aps),
          append_assoc t (codes ",") (scan_entry seen ++ more_entries aps),
        )
        refl)

put_all :
    (size : ℕ) (aps : List ApRecord) (t : Bytes)
    → AreScanned aps
    → length t + 56 * length aps < size
    → put_entries size false aps (filled t) ≡ some (filled (t ++ entries aps))
unfolding put_entries entries
put_all size [] t h room = rw (append-nil t) refl
put_all size (seen ∷ aps) t h room =
    let short = scan_entry_short seen h.0.0 h.0.1 in
    rw
      (
        put_fits size (scan_entry seen) t (omega arith),
        put_more size aps (t ++ scan_entry seen) h.1
            (omega (arith, length-append t (scan_entry seen))),
        append_assoc t (scan_entry seen) (more_entries aps),
      )
      refl

le-length-entries : (aps : List ApRecord) → AreScanned aps → length (entries aps) ≤ 56 * length aps
unfolding entries
le-length-entries [] h = omega arith
le-length-entries (seen ∷ aps) h = omega (
  arith,
  length-append (scan_entry seen) (more_entries aps),
  scan_entry_short seen h.0.0 h.0.1,
  le-length-more_entries aps h.1,
)

scan_page_lem :
    (aps : List ApRecord)
    → AreScanned aps
    → scan_page aps ≡ some ((codes "[" ++ entries aps) ++ codes "]")
unfolding scan_page
scan_page_lem aps h =
    let size = length aps * 64 + 16 in
    let short = le-length-entries aps h in
    rw
      (
        put_fits size (codes "[") [] (omega arith),
        put_all size aps (codes "[") h (omega arith),
        put_fits size (codes "]") (codes "[" ++ entries aps) (omega arith),
      )
      refl

-- With records as the driver documents them, the page of networks is never cut and no write leaves
-- its buffer, however many are seen: it holds the first 20 of them in order, or none if there is no
-- memory.
pub scan_get_handler_lem :
    (list_ok json_ok : Bool) (found : List ApRecord)
    → AreScanned found
    → scan_get_handler list_ok json_ok (some found)
      ≡ some (
          if list_ok && json_ok
          then (codes "[" ++ entries (take 20 found)) ++ codes "]"
          else codes "[]")
unfolding scan_get_handler
scan_get_handler_lem false json_ok found h = refl
scan_get_handler_lem true false found h = refl
scan_get_handler_lem true true found h = scan_page_lem (take 20 found) (take-AreScanned 20 found h)
