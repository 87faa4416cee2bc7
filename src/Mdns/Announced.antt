-- ===== src/Mdns/Announced.antt =====
-- What others see of a device (esp32/shared/src/mdns_service.cpp).
use ray_z.Prelude.{Bytes, ℕ, codes, copy_str, print_number, ◌++◌, ◌∷◌}

-- The name that a device is announced under.
abbrev pub host_name : Bytes → ℕ → Bytes
host_name role device_id = copy_str 32 (codes "rayz-" ++ (role ++ (b'-' ∷ print_number device_id)))
