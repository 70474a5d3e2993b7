-- ===== src/Config/Local.antt =====
-- src/config/local.rs: the configuration file of a client.
pub mod Validation
mod Tests
use rbackup.Base.{ℕ, String, ◌<>◌, Bool, Option, ◌⊎◌, inl, inr, is_empty, if◌then◌else◌}
use rbackup.Base.Decimal.{print}
use rbackup.Error.{
  Result, ok, err, AppError, load_failed, parse_failed, validation_failed, and_then,
}

pub record DeviceConfig : Type 0 where
  pub id : String

-- The port is a `u16`.
pub record DatabaseConfig : Type 0 where
  pub host : String
  pub port : ℕ
  pub user : String
  pub password : String
  pub ssl_mode : String

pub record ClientConfig : Type 0 where
  pub http_bind : String
  pub log_file : String

pub record MetricsConfig : Type 0 where
  pub enabled : Bool
  pub prometheus_pushgateway : Option String

pub record LocalConfig : Type 0 where
  pub device : DeviceConfig
  pub database : DatabaseConfig
  pub client : ClientConfig
  pub metrics : MetricsConfig

-- What stands for the two fields that the file may leave out.
abbrev pub default_ssl_mode : String
default_ssl_mode = "require"

abbrev pub default_http_bind : String
default_http_bind = "127.0.0.1:1201"

module _ {SqlxError : Type 0} where
  -- `return Err(ConfigError::ValidationFailed(..).into())`
  abbrev invalid : String → Result SqlxError (Unit {0})
  invalid message = err (AppError.config (validation_failed message))

  unfoldable pub validate : LocalConfig → Result SqlxError (Unit {0})
  validate self =
      if is_empty self.device.id
      then invalid "device.id cannot be empty"
      else if is_empty self.database.host
      then invalid "database.host cannot be empty"
      else if is_empty self.database.user
      then invalid "database.user cannot be empty"
      else if is_empty self.client.log_file
      then invalid "client.log_file cannot be empty"
      else ok tt

  -- `.map_err(..)?` on the result of a library, over the text of its error or the error itself.
  abbrev pub mapped : {E A : Type 0} → E ⊎ A → (E → AppError SqlxError) → Result SqlxError A
  mapped (inl e) f = err (f e)
  mapped (inr a) f = ok a

  -- `content` is what `read_to_string` yields, and `from_str` is `serde_yaml::from_str`.
  unfoldable pub from_file :
      String ⊎ String → (String → String ⊎ LocalConfig) → Result SqlxError LocalConfig
  from_file content from_str =
      and_then
        (mapped content (λ e. AppError.config (load_failed ("Failed to read config file: " <> e))))
        λ text.
          and_then
            (mapped (from_str text)
              (λ e. AppError.config (parse_failed ("Failed to parse YAML: " <> e))))
            λ config. and_then (validate config) λ _. ok config

unfoldable pub database_url : LocalConfig → String
unfolding print
database_url self =
    "postgresql://"
    <> self.database.user
    <> ":"
    <> self.database.password
    <> "@"
    <> self.database.host
    <> ":"
    <> print self.database.port
    <> "/"
    <> self.database.user
    <> "?sslmode="
    <> self.database.ssl_mode
