-- ===== src/Wifi/Scan.antt =====
-- The list of the networks in sight that the provisioning page asks for, the handler of `/scan` in
-- esp32/shared/src/wifi_http.cpp.
pub mod Page
use ray_z.Prelude.{
  Bool, Bytes, List, Option, [], codes, false, if◌then◌else◌, length, ltb, none, not, print_number,
  some, suc, take, true, ℕ, ◌*◌, ◌++◌, ◌+◌, ◌-◌, ◌==◌, ◌>>=◌, ◌∷◌,
}
use ray_z.Prelude.Int.{negsuc, pos, ℤ}
use ray_z.Wifi.Start.{ApRecord}

-- What `snprintf` with `%d` makes of an int.
unfoldable pub print_int : ℤ → Bytes
print_int (pos n) = print_number n
print_int (negsuc n) = b'-' ∷ print_number (suc n)

-- The buffer being filled: `written` is the variable `pos`, and `json` the text before the NUL.
pub record Filled : Type 0 where
  pub written : ℕ
  pub json : Bytes

-- One `pos += snprintf(json + pos, size - pos, ...)` of the text `s`. Once `pos` is past the end, the
-- size left is negative, a huge number as size_t, and the write is outside the buffer: `none`.
unfoldable pub put : ℕ → Bytes → Filled → Option Filled
put size s p =
    if ltb size p.written
    then none
    else some (record {
      written = p.written + length s;
      json = if p.written == size then p.json else p.json ++ take (size - p.written - 1) s;
    })

unfoldable pub scan_entry : ApRecord → Bytes
scan_entry seen =
    codes "{\"ssid\":\""
    ++ (seen.seen_ssid ++ (codes "\",\"rssi\":" ++ (print_int seen.rssi ++ codes "}")))

-- The loop; `later` is `i > 0`.
unfoldable pub put_entries : ℕ → Bool → List ApRecord → Filled → Option Filled
put_entries size later [] p = some p
put_entries size later (seen ∷ aps) p = do
  p1 ← if later then put size (codes ",") p else some p
  p2 ← put size (scan_entry seen) p1
  put_entries size true aps p2

-- The text of the records, in a buffer of 64 bytes for each and 16 more.
unfoldable pub scan_page : List ApRecord → Option Bytes
scan_page aps = do
  let size = length aps * 64 + 16
  p ← put size (codes "[") (record { written = 0; json = [] })
  q ← put_entries size false aps p
  r ← put size (codes "]") q
  some r.json

-- The text that is sent. `none` is a scan that fails; `list_ok` and `json_ok` are whether there is
-- memory for the records and for the text.
unfoldable pub scan_get_handler : Bool → Bool → Option (List ApRecord) → Option Bytes
scan_get_handler list_ok json_ok none = some (codes "[]")
scan_get_handler list_ok json_ok (some found) =
    if not list_ok
    then some (codes "[]")
    else if not json_ok
    then some (codes "[]")
    else scan_page (take 20 found)
