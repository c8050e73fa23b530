-- ===== src/Bootstrap/Examples.antt =====
-- The keys of internal/platform/config/bootstrap.go, run on small inputs.
use ai_workflow.Base.{
  ◌↔◌, ◌≡◌, refl, String, ℕ, List, [], ◌∷◌, ok, err, All, length, is_blank, trim_space, none, false,
  if◌then◌else◌, ◌==◌,
}
use ai_workflow.Auth.{Identity, authenticate}
use ai_workflow.Auth.Keys.{Separates, none_left, one_more}
use ai_workflow.Bootstrap.Access.{Owns, authenticate-Owns}
use ai_workflow.Bootstrap.Repositories.{open_repositories, build_bootstrap_api_keys}
use ai_workflow.Tenant.Service
use ai_workflow.Bootstrap.{
  BootstrapApiKey, expected_three_fields, empty_field, split, parse_fields, parse_items,
  parse_bootstrap_api_keys,
}
use ai_workflow.Base.Int.{pos}
use ai_workflow.Bootstrap.Config.{
  Environment, Config, load, string_env, duration_env, int_env, float_env, bool_env,
  bootstrap_auth_config, and_then, milliseconds,
}
use ai_workflow.Bootstrap.Keys.{IsCleanKey, entries, parse_bootstrap_api_keys-IsCleanKey}

abbrev pub decimal : ℕ → String
decimal n = "n"

abbrev pub raw : String
raw = " acme | Acme |one, other|Other| two "

abbrev pub keys : List BootstrapApiKey
keys =
    record {
      api_key_id = "bootstrap-key-n";
      label = "bootstrap";
      tenant_id = "acme";
      tenant_name = "Acme";
      plaintext_key = "one";
    }
    ∷ record {
      api_key_id = "bootstrap-key-n";
      label = "bootstrap";
      tenant_id = "other";
      tenant_name = "Other";
      plaintext_key = "two";
    }
    ∷ []

parsed_keys : parse_bootstrap_api_keys decimal raw ≡ ok keys
unfolding parse_bootstrap_api_keys parse_items parse_fields split is_blank trim_space
parsed_keys = refl

refused_texts :
    (parse_bootstrap_api_keys decimal "a|b" ≡ err (expected_three_fields "a|b"))
    × (parse_bootstrap_api_keys decimal "a|b| " ≡ err (empty_field "a|b|"))
unfolding parse_bootstrap_api_keys parse_items parse_fields split is_blank trim_space
refused_texts = (refl, refl)

parse_bootstrap_api_keys-IsCleanKey_example : All IsCleanKey keys × (length keys ≡ entries raw)
parse_bootstrap_api_keys-IsCleanKey_example =
    parse_bootstrap_api_keys-IsCleanKey decimal raw keys parsed_keys

-- Each text is its own hash.
abbrev same : String → String
same s = s

abbrev identity : Identity
identity = record {
  tenant_id = "other";
  tenant_name = "Other";
  tenant_status = Service.active;
  api_key_id = "bootstrap-key-n";
  api_key_label = "bootstrap";
}

separated : Separates same (trim_space " two ") (build_bootstrap_api_keys keys)
separated = one_more (λ e. e) (one_more (λ e. e) none_left)

authenticate-Owns_example :
    (authenticate same
        (open_repositories same keys).auth
        (open_repositories same keys).tenants
        " two "
      ≡ ok identity)
    ↔ Owns keys " two " identity
authenticate-Owns_example = authenticate-Owns same keys " two " identity separated

-- Only `BOOTSTRAP_API_KEYS` and one address are set; numbers of type `float64` are texts here.
abbrev env : Environment String
env = record {
  getenv = λ key.
      if key == "BOOTSTRAP_API_KEYS" then raw else if key == "REDIS_ADDR" then "redis:6379" else "";
  parse_duration = λ text. err "unused";
  atoi = λ text. none;
  parse_float = λ text. none;
  parse_bool = λ text. none;
  decimal = decimal;
  temp_objects = "/tmp/workflow-objects";
  one = "1";
}

abbrev pub cfg : Config String
cfg = record {
  service_name = "api";
  app_env = "development";
  http = record {
    addr = ":8080";
    read_timeout = milliseconds 5000;
    write_timeout = milliseconds 10000;
    idle_timeout = milliseconds 60000;
  };
  bootstrap_api_keys = keys;
  limits = record { tenant_execute_limit = pos 20; tenant_execute_window = milliseconds 60000 };
  observability = record { exporter = "none"; sample_ratio = "1" };
  object_dir = "/tmp/workflow-objects";
  s3 = record { endpoint = ""; access_key = ""; secret_key = ""; bucket = ""; use_ssl = false };
  dependencies = record {
    postgres_addr = "";
    postgres_dsn = "";
    redis_addr = "redis:6379";
    minio_addr = "";
    readiness_timeout = milliseconds 750;
  };
  shutdown_timeout = milliseconds 10000;
}

loaded : load env "api" ≡ ok cfg
unfolding load and_then duration_env string_env int_env float_env bool_env bootstrap_auth_config
    parse_bootstrap_api_keys parse_items parse_fields split is_blank trim_space
loaded = refl

abbrev entry : BootstrapApiKey
entry = record {
  api_key_id = "bootstrap-key-n";
  label = "bootstrap";
  tenant_id = "other";
  tenant_name = "Other";
  plaintext_key = "two";
}
