-- ===== src/Tests/Station.antt =====
-- A station that loses its access point.
use ray_z.GameState.Texts.{state_text, to_json}
use ray_z.GameState.Texts.Members.{state_members, to_json_lem}
use ray_z.GameState.Texts.Reader.{read_object}
use ray_z.Prelude.{
  [], arith, false, none, some, true, ◌%◌, ◌*◌, ◌+◌, ◌/◌, ◌∷◌, ◌≡◌, ◌≤◌, length, ◌<◌, ◌↔◌, ◌≢◌,
}
use ray_z.Tests.Data.{alice}
use ray_z.Tests.Flash.{flash}
use ray_z.Wifi.{Link, auth_fail}
use ray_z.Wifi.Calls.{is_connect, is_restore, total, waited}
use ray_z.Wifi.Retry.{Loss, lose_all, lose_all-cycle, retries_go_on}

-- An access point that refuses the password; the driver reports no configuration.
abbrev refused : Loss flash
refused = record {
  reason = some auth_fail;
  replies = record { early_config = none; relax_config = none; accepted = false };
  store = [];
}

abbrev trying : Link
trying = record { retry_count = 6; connected_bit = some true }

lose_all-cycle_example :
    ((lose_all flash (refused ∷ refused ∷ refused ∷ []) trying).1.retry_count ≡ (6 + 3) % 15)
    × (total is_restore (lose_all flash (refused ∷ refused ∷ refused ∷ []) trying).0 + (6 + 7) / 15
        ≡ (6 + 3 + 7) / 15 + (6 + 3) / 15)
lose_all-cycle_example =
    lose_all-cycle flash (refused ∷ refused ∷ refused ∷ []) trying (omega arith)

retries_go_on_example :
    (2 ≤ total is_connect (lose_all flash (refused ∷ refused ∷ []) trying).0)
    × (total waited (lose_all flash (refused ∷ refused ∷ []) trying).0 ≤ 7000 * 2)
retries_go_on_example = retries_go_on flash (refused ∷ refused ∷ []) trying

to_json_lem_example :
    let (len, s) = to_json 256 5000000 alice in
    ((len ≢ none) ↔ (length (state_text 5000000 alice) < 256))
    × (len ≢ none → (len ≡ some (length s)) × (read_object s ≡ some (state_members 5000000 alice)))
    × (length s < 256)
to_json_lem_example = to_json_lem 256 5000000 alice (omega arith)
