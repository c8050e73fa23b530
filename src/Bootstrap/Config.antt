-- ===== src/Bootstrap/Config.antt =====
-- internal/platform/config/config.go: the configuration that the environment gives.
use ai_workflow.Base.{
  ℕ, ◌*◌, String, Bool, false, Option, none, some, List, if◌then◌else◌, Result, ok, err, ◌==◌,
  trim_space,
}
use ai_workflow.Base.Int.{ℤ, pos}
use ai_workflow.Bootstrap as Bootstrap
use ai_workflow.Bootstrap.{BootstrapApiKey, parse_bootstrap_api_keys}

-- `os.Getenv`, the empty text for a variable that is not set, and the functions of the standard
-- library that parse its values; `Float` stands for the numbers of type `float64`.
pub record Environment (Float : Type 0) : Type 0 where
  pub getenv : String → String
  pub parse_duration : String → Result String ℤ
  pub atoi : String → Option ℤ
  pub parse_float : String → Option Float
  pub parse_bool : String → Option Bool
  pub decimal : ℕ → String
  -- `filepath.Join(os.TempDir(), "workflow-objects")`
  pub temp_objects : String
  -- the literal `1.0`
  pub one : Float

pub record HttpConfig : Type 0 where
  pub addr : String
  pub read_timeout : ℤ
  pub write_timeout : ℤ
  pub idle_timeout : ℤ

pub record DependencyConfig : Type 0 where
  pub postgres_addr : String
  pub postgres_dsn : String
  pub redis_addr : String
  pub minio_addr : String
  pub readiness_timeout : ℤ

pub record S3StorageConfig : Type 0 where
  pub endpoint : String
  pub access_key : String
  pub secret_key : String
  pub bucket : String
  pub use_ssl : Bool

pub record LimitsConfig : Type 0 where
  pub tenant_execute_limit : ℤ
  pub tenant_execute_window : ℤ

pub record ObservabilityConfig (Float : Type 0) : Type 0 where
  pub exporter : String
  pub sample_ratio : Float

pub record Config (Float : Type 0) : Type 0 where
  pub service_name : String
  pub app_env : String
  pub http : HttpConfig
  pub bootstrap_api_keys : List BootstrapApiKey
  pub limits : LimitsConfig
  pub observability : ObservabilityConfig Float
  pub object_dir : String
  pub s3 : S3StorageConfig
  pub dependencies : DependencyConfig
  pub shutdown_timeout : ℤ

pub data Error : Type 0 where
  parse_failed : String → String → Error
  bootstrap_failed : Bootstrap.Error → Error

unfoldable pub and_then : {A B : Type 0} → Result Error A → (A → Result Error B) → Result Error B
and_then (err e) next = err e
and_then (ok a) next = next a

-- A value that is given, or else the fallback.
abbrev pub or_default : {A : Type 0} → A → Option A → A
or_default fallback none = fallback
or_default fallback (some a) = a

-- Nanoseconds.
abbrev pub milliseconds : ℕ → ℤ
milliseconds n = pos (n * 1000000)

module _ {Float : Type 0} (env : Environment Float) where
  unfoldable pub string_env : String → String → String
  string_env key fallback = let value = env.getenv key in if value == "" then fallback else value

  abbrev pub parsed : String → Result String ℤ → Result Error ℤ
  parsed key (err e) = err (parse_failed key e)
  parsed key (ok duration) = ok duration

  unfoldable pub duration_env : String → ℤ → Result Error ℤ
  duration_env key fallback =
      let value = env.getenv key in
      if value == "" then ok fallback else parsed key (env.parse_duration value)

  unfoldable pub int_env : String → ℤ → ℤ
  int_env key fallback =
      let value = env.getenv key in
      if value == "" then fallback else or_default fallback (env.atoi value)

  unfoldable pub float_env : String → Float → Float
  float_env key fallback =
      let value = env.getenv key in
      if value == "" then fallback else or_default fallback (env.parse_float value)

  unfoldable pub bool_env : String → Bool → Bool
  bool_env key fallback =
      let value = trim_space (env.getenv key) in
      if value == "" then fallback else or_default fallback (env.parse_bool value)

  abbrev pub with_bootstrap :
      Result Bootstrap.Error (List BootstrapApiKey) → Result Error (List BootstrapApiKey)
  with_bootstrap (err e) = err (bootstrap_failed e)
  with_bootstrap (ok keys) = ok keys

  -- `bootstrapAuthConfig`
  unfoldable pub bootstrap_auth_config : Result Error (List BootstrapApiKey)
  bootstrap_auth_config =
      with_bootstrap (parse_bootstrap_api_keys env.decimal (env.getenv "BOOTSTRAP_API_KEYS"))

  unfoldable pub load : String → Result Error (Config Float)
  unfolding string_env duration_env int_env float_env bool_env bootstrap_auth_config
  load default_service_name =
      and_then (duration_env "HTTP_READ_TIMEOUT" (milliseconds 5000)) λ read_timeout.
        and_then (duration_env "HTTP_WRITE_TIMEOUT" (milliseconds 10000)) λ write_timeout.
          and_then (duration_env "HTTP_IDLE_TIMEOUT" (milliseconds 60000)) λ idle_timeout.
            and_then (duration_env "SHUTDOWN_TIMEOUT" (milliseconds 10000)) λ shutdown_timeout.
              and_then (duration_env "READINESS_TIMEOUT" (milliseconds 750)) λ readiness_timeout.
                and_then (duration_env "TENANT_EXECUTE_WINDOW" (milliseconds 60000))
                  λ execute_window. and_then bootstrap_auth_config λ keys. ok record {
                    service_name = string_env "SERVICE_NAME" default_service_name;
                    app_env = string_env "APP_ENV" "development";
                    http = record {
                      addr = string_env "API_ADDR" ":8080";
                      read_timeout = read_timeout;
                      write_timeout = write_timeout;
                      idle_timeout = idle_timeout;
                    };
                    bootstrap_api_keys = keys;
                    limits = record {
                      tenant_execute_limit = int_env "TENANT_EXECUTE_LIMIT" (pos 20);
                      tenant_execute_window = execute_window;
                    };
                    observability = record {
                      exporter = string_env "OTEL_EXPORTER" "none";
                      sample_ratio = float_env "OTEL_SAMPLE_RATIO" env.one;
                    };
                    object_dir = string_env "OBJECT_STORAGE_DIR" env.temp_objects;
                    s3 = record {
                      endpoint = trim_space (env.getenv "MINIO_ENDPOINT");
                      access_key = trim_space (env.getenv "MINIO_ACCESS_KEY");
                      secret_key = trim_space (env.getenv "MINIO_SECRET_KEY");
                      bucket = trim_space (env.getenv "MINIO_BUCKET");
                      use_ssl = bool_env "MINIO_USE_SSL" false;
                    };
                    dependencies = record {
                      postgres_addr = env.getenv "POSTGRES_ADDR";
                      postgres_dsn = trim_space (env.getenv "POSTGRES_DSN");
                      redis_addr = env.getenv "REDIS_ADDR";
                      minio_addr = env.getenv "MINIO_ADDR";
                      readiness_timeout = readiness_timeout;
                    };
                    shutdown_timeout = shutdown_timeout;
                  }
