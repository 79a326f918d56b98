-- ===== src/Config.antt =====
-- internal/config/config.go, and the tests of main in cmd/x_sticker_bot/main.go on what it reads.
-- `Flags` is what package flag has found on the command line, `env` is os.Getenv.
use x_sticker_bot.Base.{
  Bool, false, Option, none, some, [], ◌∷◌, if◌then◌else◌, ◌==◌, ◌||◌, Bytes, codes, eq_bytes,
  to_lower, is_some,
}
use x_sticker_bot.Base.Int.{ℤ, pos, atoi}

pub record Config : Type 0 where
  pub bot_token : Bytes
  pub admin_uid : ℤ
  pub admin_token : Bytes
  pub data_dir : Bytes
  pub log_level : Bytes
  pub monitor_listen_addr : Bytes

pub record Flags : Type 0 where
  pub bot_token : Option Bytes
  pub admin_uid : Option ℤ
  pub admin_token : Option Bytes
  pub data_dir : Option Bytes
  pub log_level : Option Bytes
  pub monitor_listen_addr : Option Bytes

abbrev pub flag_or {ℓ} : {A : Type ℓ} → A → Option A → A
flag_or default none = default
flag_or default (some v) = v

module _ (env : Bytes → Bytes) where
  unfoldable pub env_str : Bytes → Bytes → Bytes
  env_str key dst = if eq_bytes (env key) [] then dst else env key

  unfoldable pub env_int64 : Bytes → ℤ → ℤ
  env_int64 key dst =
      if eq_bytes (env key) [] then dst else elim (atoi (env key)) [ none ↦ dst | some n ↦ n ]

  unfoldable pub parse : Flags → Config
  unfolding env_str env_int64
  parse f = record {
    bot_token = env_str (codes "BOT_TOKEN") (flag_or [] f.bot_token);
    admin_uid = env_int64 (codes "ADMIN_UID") (flag_or (pos 0) f.admin_uid);
    admin_token = env_str (codes "ADMIN_TOKEN") (flag_or [] f.admin_token);
    data_dir = env_str (codes "DATA_DIR") (flag_or [] f.data_dir);
    log_level = env_str (codes "LOG_LEVEL") (flag_or (codes "info") f.log_level);
    monitor_listen_addr =
        env_str (codes "MONITOR_LISTEN_ADDR") (flag_or (codes ":9090") f.monitor_listen_addr);
  }

-- The text before the first sign, and the text from it on.
pub cut_sign : Bytes → Bytes × Bytes
cut_sign [] = ([], [])
cut_sign (c ∷ s) =
    let (name, offset) = cut_sign s in
    if (c == b'+') || (c == b'-') then ([], c ∷ s) else (c ∷ name, offset)

-- Whether slog.Level.UnmarshalText takes the text: a name of a level, in any case, with an offset.
unfoldable pub is_level : Bytes → Bool
unfolding cut_sign
is_level s =
    let (name, offset) = cut_sign s in
    let known =
      eq_bytes (to_lower name) (codes "debug")
      || eq_bytes (to_lower name) (codes "info")
      || eq_bytes (to_lower name) (codes "warn")
      || eq_bytes (to_lower name) (codes "error") in
    if eq_bytes offset [] then known else if is_some (atoi offset) then known else false
