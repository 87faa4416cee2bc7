-- ===== src/Dns/Life.antt =====
-- Start and stop of the name server's task (`dns_server_start`, `dns_server_stop` and the beginning
-- of `dns_task`, esp32/shared/src/dns_server.cpp).
use ray_z.Prelude.{Bool, Option, false, if◌then◌else◌, none, some, true, ℕ, ◌≡◌, ◌⊎◌, arith}

-- `s_dns_task`, `s_sock`, and whether the task that the handle stands for exists. A handle is
-- modelled by its being set; the socket is its number.
pub record DnsServer : Type 0 where
  pub dns_task_set : Bool
  pub sock : Option ℕ
  pub alive : Bool

abbrev pub stopped : DnsServer
stopped = record { dns_task_set = false; sock = none; alive = false }

-- `created` is whether `xTaskCreate` succeeds; it writes the handle only then.
unfoldable pub dns_server_start : Bool → DnsServer → DnsServer
dns_server_start created s =
    if s.dns_task_set
    then s
    else if created
    then record s { dns_task_set = true; alive = true }
    else s

-- The task opens its socket: the answers of `socket` (`none` is a negative number) and of `bind`.
-- A task that fails ends itself, and leaves the handle as it is.
unfoldable pub open_socket : Option ℕ → Bool → DnsServer → DnsServer
open_socket none bound s = record s { sock = none; alive = false }
open_socket (some fd) bound s =
    if bound then record s { sock = some fd } else record s { sock = none; alive = false }

unfoldable pub dns_server_stop : DnsServer → DnsServer
dns_server_stop s = record {
  dns_task_set = false;
  sock = none;
  alive = if s.dns_task_set then false else s.alive;
}

-- The server started from rest, whose socket cannot be opened or bound, has no task any more, and
-- every later start leaves it so until it is stopped; after a stop a start creates the task again.
pub dns_server_start-open_socket :
    (opened : Option ℕ) (bound created : Bool)
    → opened ≡ none ⊎ bound ≡ false
    → let failed = open_socket opened bound (dns_server_start true stopped) in
      (failed.alive ≡ false)
      × (dns_server_start created failed ≡ failed)
      × ((dns_server_start true (dns_server_stop failed)).alive ≡ true)
unfolding open_socket dns_server_start dns_server_stop
dns_server_start-open_socket opened bound created h = ground arith
