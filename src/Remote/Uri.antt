-- ===== src/Remote/Uri.antt =====
-- util.go of internal/pkg/remote/util: which URIs name one service. `url.Parse` is an argument.
use apptainer.Prelude.{
  String, Bool, false, ◌&&◌, ◌||◌, Option, none, some, if◌then◌else◌, ◌==◌, append, has_infix,
}

-- What a parsed URL answers: its scheme and `Host`, and `Hostname()` and `Port()`.
pub record Url : Type 0 where
  pub scheme : String
  pub host : String
  pub hostname : String
  pub port : String

abbrev pub Parse : Type 0
Parse = String → Option Url

-- `net.JoinHostPort`
unfoldable pub join_host_port : String → String → String
unfolding has_infix
join_host_port host port =
    if has_infix host ":"
    then append "[" (append host (append "]:" port))
    else append host (append ":" port)

abbrev pub with_hkp_port : Url → Url
with_hkp_port u =
    if u.port == ""
    then record u { scheme = "http"; host = join_host_port u.hostname "11371" }
    else record u { scheme = "http" }

abbrev pub normalize_url : Option Url → Option Url
normalize_url none = none
normalize_url (some u) =
    if u.scheme == "http" || u.scheme == "https"
    then some u
    else if u.scheme == "hkp"
    then some (with_hkp_port u)
    else if u.scheme == "hkps"
    then some (record u { scheme = "https" })
    else none

unfoldable pub normalize_keyserver_uri : Parse → String → Option Url
unfolding join_host_port
normalize_keyserver_uri parse uri = normalize_url (parse uri)

abbrev pub equal : Url → Url → Bool
equal a b = if a.host == "" || b.host == "" then false else a.host == b.host && a.scheme == b.scheme

abbrev pub both_equal : Option Url → Option Url → Bool
both_equal (some a) (some b) = equal a b
both_equal _ _ = false

unfoldable pub same_keyserver : Parse → String → String → Bool
unfolding normalize_keyserver_uri
same_keyserver parse a b =
    both_equal (normalize_keyserver_uri parse a) (normalize_keyserver_uri parse b)

unfoldable pub same_uri : Parse → String → String → Bool
same_uri parse a b = both_equal (parse a) (parse b)
