-- ===== src/Workflow/Egress.antt =====
-- internal/platform/egress/policy.go: which targets an http_tool node may have, and `anyString` of
-- internal/workflow/service.go.
use ai_workflow.Base.{
  ℕ, String, Bool, false, not, ◌&&◌, ◌||◌, Option, none, some, List, [], ◌∷◌, if◌then◌else◌, ◌==◌,
  trim_space,
}
use ai_workflow.Base.{lower_is, lower, has_suffix, codes}
use ai_workflow.Base.Value.{Value, null, str}

-- What net/url and net/netip say of a text; the parsers are not part of the program.
pub record Url : Type 0 where
  pub is_abs : Bool
  pub scheme : String
  pub has_user : Bool
  pub hostname : String

-- `fmt.Sprint` on a value that is no string, `url.Parse`, and whether `net.ParseIP` succeeds with a
-- loopback, private, link-local, multicast or unspecified address.
pub record Platform : Type 0 where
  pub sprint : Value → String
  pub parse_url : String → Option Url
  pub is_blocked_ip : List ℕ → Bool

-- A local or private host is named in the error.
pub data UrlError : Type 0 where
  missing_url invalid_url unsafe_credentials : UrlError
  unsafe_host : String → UrlError

-- `anyString`
unfoldable pub any_string : Platform → Value → String
any_string p null = ""
any_string p (str s) = s
any_string p v = p.sprint v

any_has_suffix : List ℕ → List String → Bool
any_has_suffix host [] = false
any_has_suffix host (s ∷ suffixes) = has_suffix host (codes s) || any_has_suffix host suffixes

is_blocked_hostname : String → Bool
unfolding any_has_suffix
is_blocked_hostname host =
    lower_is host "localhost"
    || any_has_suffix (lower host)
        (".localhost" ∷ ".local" ∷ ".internal" ∷ ".localdomain" ∷ ".home.arpa" ∷ [])

validate_target : Platform → Url → Option UrlError
unfolding is_blocked_hostname
validate_target p u =
    let host = trim_space u.hostname in
    if not (lower_is u.scheme "http") && not (lower_is u.scheme "https")
    then some invalid_url
    else if u.has_user
    then some unsafe_credentials
    else if host == ""
    then some invalid_url
    else if is_blocked_hostname host
    then some (unsafe_host host)
    else if p.is_blocked_ip (lower host)
    then some (unsafe_host host)
    else none

-- `egress.ValidateHTTPToolURL`; `none` is the result `nil`.
unfoldable pub validate_http_tool_url : Platform → String → Option UrlError
unfolding validate_target
validate_http_tool_url p raw =
    let raw' = trim_space raw in
    if raw' == "" then some missing_url else elim (p.parse_url raw') [
      | none ↦ some invalid_url
      | some u ↦ if u.is_abs then validate_target p u else some invalid_url
    ]
