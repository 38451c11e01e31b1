-- ===== src/Gate/Tests.antt =====
-- Runs of the checks before the routes.
use sih.Prelude.{
  ◌≤◌, ◌≡◌, ◌≢◌, ◌↔◌, refl, true, false, Option, none, some, String, List, [], ◌∷◌, ltb,
}
use sih.Prelude.Int.{ℤ}
use sih.Prelude.Text.{codes}
use sih.Prelude.Bytes.{Bytes, bytes_eq, str_strip, is_str_space}
use sih.Gate.{
  Message, http_request, other_message, Scope, is_upload, declares_more, limit_size, Environment,
  get_expected_token, granted, verify_bearer_token, validate_probe_destination, get_allowed_hosts,
  is_allowed_host, normal, default_allowed_hosts, is_named, split_comma,
}
use sih.Gate.Body.{body_size, limit_size_lem}
use sih.Gate.Token.{Expects, verify_bearer_token_lem}

abbrev policies : Scope
policies = record { type = "http"; path = "/api/v1/policies"; content_length = none }

abbrev messages : List Message
messages = http_request (codes "abc") ∷ http_request (codes "de") ∷ other_message ∷ []

abbrev no_number : String → Option ℤ
no_number text = none

limit_size_lem_example :
    let s = limit_size no_number 4 policies messages in
    (body_size s.delivered ≤ 4)
    × (declares_more no_number 4 policies.content_length ≡ false
        → s.too_large ≡ ltb 4 (body_size messages))
    × (s.too_large ≡ false → s.delivered ≡ messages)
unfolding is_upload
limit_size_lem_example = limit_size_lem no_number 4 policies messages refl refl

abbrev production : Environment
production = record { api_token = codes " secret "; dev_mode = false }

verify_bearer_token_lem_example :
    ((verify_bearer_token production (some (codes "secret")) ≡ granted (codes "secret"))
      ↔ ((some (codes "secret") ≡ some (codes "secret")) × Expects production (codes "secret")))
    × (str_strip production.api_token ≡ []
        → production.dev_mode ≡ false
        → verify_bearer_token production (some (codes "secret")) ≢ granted (codes "secret"))
verify_bearer_token_lem_example =
    verify_bearer_token_lem production (some (codes "secret")) (codes "secret")

secret_expected : Expects production (codes "secret")
unfolding get_expected_token str_strip is_str_space
secret_expected = refl

-- Outside of the list no destination is let through; the names are compared in lower case.
abbrev same : Bytes → Bytes
same s = s

guard_runs :
    (validate_probe_destination same [] (codes "example.com") ≡ false)
    × (validate_probe_destination same (codes "a.lan, b.lan") (codes " b.lan ") ≡ true)
unfolding validate_probe_destination is_allowed_host get_allowed_hosts default_allowed_hosts
    bytes_eq normal str_strip is_str_space is_named split_comma
guard_runs = (refl, refl)
