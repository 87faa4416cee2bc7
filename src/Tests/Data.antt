-- ===== src/Tests/Data.antt =====
-- Test data: a device in a game, and the arithmetic of a light receiver in hundredths.
use ray_z.GameState.Config.{default_game_config}
use ray_z.GameState.Defs.{Vars, zero_device_config, zero_state, zero_vars}
use ray_z.Photodiode.{FloatOps}
use ray_z.Prelude.{ltb, ℕ, ◌*◌, ◌+◌, ◌-◌, ◌/◌, ◌^◌}
use ray_z.Protocol.{target}

abbrev pub alice : Vars
alice = record zero_vars {
  config = record zero_device_config { device_id = 9; player_id = 5; team_id = 1; color_rgb = 255 };
  game_cfg = default_game_config;
  state = record zero_state { hearts_remaining = 3 };
}

abbrev pub bob : Vars
bob = record zero_vars {
  config = record zero_device_config { device_id = 20; player_id = 7; team_id = 2; role = target };
  game_cfg = default_game_config;
  state = record zero_state { hearts_remaining = 3 };
}

-- Fixed-point numbers in hundredths.
abbrev pub hundredths : FloatOps
hundredths = record {
  Float = ℕ;
  decimal = λ m k. m * 100 / 10 ^ k;
  of_int = λ n. n * 100;
  add = λ a b. a + b;
  sub = λ a b. a - b;
  neg = λ a. a;
  mul = λ a b. a * b / 100;
  div = λ a b. a * 100 / b;
  lt = ltb;
}
