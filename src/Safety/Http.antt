-- ===== src/Safety/Http.antt =====
-- internal/safety/http.go: the limit on what is read, and the checks of URLs. The parsers of URLs and of
-- IP addresses are parameters; the client's timeouts are not modelled.
pub mod Limit
use ocp_offline.Prelude.{
  ℕ, ◌+◌, Text, codes, text_eq, Bool, true, false, not, ◌&&◌, ◌||◌, [], Option, none, some, Result,
  ok, err, ◌==◌, if◌then◌else◌, is_empty, ltb, length, take, reverse, has_prefix, ℤ, pos, negsuc,
  to_int64,
}

-- What a reader delivers, and whether an error and not the end of the file follows.
pub record Stream : Type 0 where
  pub bytes : Text
  pub fails : Bool

pub data ReadError : Type 0 where
  invalid_limit read_failed body_too_large : ReadError

-- io.ReadAll of an io.LimitReader: a limit that is not positive is the end of the file.
abbrev pub read_limited : ℤ → Stream → Result ReadError Text
read_limited (negsuc n) s = ok []
read_limited (pos n) s =
    if ltb (length s.bytes) n && s.fails then err read_failed else ok (take n s.bytes)

abbrev pub check_length : ℕ → Result ReadError Text → Result ReadError Text
check_length limit (err e) = err e
check_length limit (ok content) =
    if ltb limit (length content) then err body_too_large else ok content

-- ReadAllWithLimit, with the int64 sum of the limit and one
unfoldable pub read_all_with_limit : Stream → ℤ → Result ReadError Text
read_all_with_limit s (negsuc n) = err invalid_limit
read_all_with_limit s (pos n) =
    if ltb 0 n then check_length n (read_limited (to_int64 (n + 1)) s) else err invalid_limit

-- What the source reads of a parsed URL.
pub record Url : Type 0 where
  pub scheme : Text
  pub host : Text
  pub hostname : Text
  pub has_user : Bool

pub data UrlError : Type 0 where
  invalid_url host_required userinfo_not_allowed : UrlError
  unsupported_scheme : Text → UrlError

abbrev pub check_url : Option Url → Result UrlError Url
check_url none = err invalid_url
check_url (some u) =
    if not (u.scheme == codes "http") && not (u.scheme == codes "https")
    then err (unsupported_scheme u.scheme)
    else if is_empty u.host
    then err host_required
    else if u.has_user
    then err userinfo_not_allowed
    else ok u

-- ValidateHTTPURL
unfoldable pub validate_http_url : (Text → Option Url) → Text → Result UrlError Url
validate_http_url parse_url raw = check_url (parse_url raw)

-- IsLoopbackHost; `is_loopback_ip` tells whether a text is an IP address that is a loopback one
unfoldable pub is_loopback_host : (Text → Bool) → Url → Bool
is_loopback_host is_loopback_ip u =
    (u.hostname == codes "localhost" || has_prefix (reverse u.hostname) (codes "tsohlacol."))
    || is_loopback_ip u.hostname
