-- ===== src/Fetching.antt =====
-- services/url_fetcher.py: a URL that a user gives is fetched. `urlparse`, `getaddrinfo`,
-- `ipaddress`, the HTTP client and the join of URLs are arguments. `fetch` also returns the URLs that
-- it asked for, in order. A port that is no number, for which `urlparse` raises, is left out.
pub mod Vetted
use knowledgeos.Retrieval.Query.{codes}
use knowledgeos.Ingestion.{Attempt, returned, raised}
use knowledgeos.Prelude.{
  ℕ, ◌*◌, Bool, true, ◌&&◌, ◌||◌, not, Option, none, some, List, [], ◌∷◌, ◌==◌, if◌then◌else◌, zero,
  suc, false, ltb, leb, length,
}
use knowledgeos.Text.{Text, text_eq, is_empty, strip, Unicode, starts_with}
use knowledgeos.Errors.{
  status_code, Kind, Detail, AppError, Result, literal, with_text, ok, err, plain, with_number,
}

abbrev pub max_redirects : ℕ
max_redirects = 3

abbrev pub max_bytes : ℕ
max_bytes = 10 * 1024 * 1024

pub record ParsedUrl : Type 0 where
  pub scheme : Text
  pub hostname : Option Text
  pub port : Option ℕ

-- The properties of `ipaddress.ip_address`
pub record Ip : Type 0 where
  pub is_private : Bool
  pub is_loopback : Bool
  pub is_link_local : Bool
  pub is_reserved : Bool
  pub is_multicast : Bool
  pub is_unspecified : Bool

pub record Response : Type 0 where
  pub is_redirect : Bool
  pub location : Option Text
  pub status_code : ℕ
  pub content_type : Option Text
  pub content : Text

-- What the libraries and the network do.
pub record Net : Type 0 where
  pub urlparse : Text → ParsedUrl
  -- the addresses, `none` for `gaierror`
  pub getaddrinfo : Text → ℕ → Option (List Text)
  pub ip_address : Text → Ip
  -- the first of a set of addresses
  pub first : List Text → Text
  -- `client.get(url)`, which resolves the host of the URL itself
  pub get : Text → Attempt Response
  pub join_url : Text → Text → Text

pub record FetchedResource : Type 0 where
  pub url : Text
  pub content : Text
  pub content_type : Text

abbrev invalid : Detail → AppError
invalid detail = record { kind = Kind.validation; detail = detail; retry_after = none }

abbrev not_public : AppError
not_public = invalid (literal "That URL resolves to a non-public address and cannot be fetched.")

abbrev pub is_public : Ip → Bool
is_public ip = not (
    ip.is_private
    || (ip.is_loopback
        || (ip.is_link_local || (ip.is_reserved || (ip.is_multicast || ip.is_unspecified)))))

-- `_assert_public` of each address
unfoldable pub all_public : Net → List Text → Bool
all_public net [] = true
all_public net (a ∷ as_) = is_public (net.ip_address a) && all_public net as_

abbrev unresolved : Text → AppError
unresolved host = invalid (with_text "Could not resolve host " host ".")

-- `_resolve`, from the addresses
unfoldable pub check_addresses : Net → Text → Option (List Text) → Result Text
unfolding all_public
check_addresses net host none = err (unresolved host)
check_addresses net host (some []) = err (unresolved host)
check_addresses net host (some (a ∷ rest)) =
    if all_public net (a ∷ rest) then ok (net.first (a ∷ rest)) else err not_public

abbrev pub allowed_scheme : Text → Bool
allowed_scheme s = text_eq s (codes "http") || text_eq s (codes "https")

-- `parsed.port or (443 if parsed.scheme == "https" else 80)`
abbrev pub port_of : ParsedUrl → ℕ
port_of parsed =
    let standard = if text_eq parsed.scheme (codes "https") then 443 else 80 in
    elim parsed.port [ none ↦ standard | some p ↦ if p == 0 then standard else p ]

-- `_vet` with a host, and without one: its address.
unfoldable pub vet_host : Net → ParsedUrl → Option Text → Result Text
unfolding check_addresses
vet_host net parsed none = err (invalid (literal "That URL has no host."))
vet_host net parsed (some []) = err (invalid (literal "That URL has no host."))
vet_host net parsed (some (c ∷ host)) =
    check_addresses net (c ∷ host) (net.getaddrinfo (c ∷ host) (port_of parsed))

unfoldable pub vet : Net → Text → Result Text
unfolding vet_host
vet net url =
    let parsed = net.urlparse url in
    if allowed_scheme parsed.scheme
    then vet_host net parsed parsed.hostname
    else err (invalid (literal "Only http and https URLs can be ingested."))

-- `content_type.startswith(a)` of an allowed type
abbrev pub allowed_type : Text → Bool
allowed_type t =
    starts_with (codes "text/html") t
    || (starts_with (codes "text/plain") t
        || (starts_with (codes "text/markdown") t
            || (starts_with (codes "application/xhtml+xml") t
                || starts_with (codes "application/pdf") t)))

-- `text.split(c)[0]`
abbrev before_char : ℕ → Text → Text
before_char c [] = []
before_char c (d ∷ s) = if d == c then [] else d ∷ before_char c s

unfoldable pub media_type : Unicode → Option Text → Text
unfolding strip
media_type u none = u.lower (strip u [])
media_type u (some t) = u.lower (strip u (before_char b';' t))

-- What a response means: another URL to go to, or the end.
pub data Verdict : Type 0 where
  redirected : Text → Verdict
  finished : Result FetchedResource → Verdict

abbrev pub html_if_empty : Text → Text
html_if_empty [] = codes "text/html"
html_if_empty (c ∷ t) = c ∷ t

-- The checks of a response that is no redirect.
unfoldable pub accept : Text → Text → Response → Result FetchedResource
accept current kind r =
    if leb 400 r.status_code
    then err (invalid (with_number "The URL returned HTTP " r.status_code "."))
    else if not (is_empty kind) && not (allowed_type kind)
    then err (invalid (with_text "Unsupported content type at that URL: " kind "."))
    else if ltb max_bytes (length r.content)
    then err (invalid (literal "That URL returned more data than the ingestion limit allows."))
    else ok (record { url = current; content = r.content; content_type = html_if_empty kind })

unfoldable pub redirect : (Text → Text → Text) → Text → Option Text → Verdict
redirect join_url current none =
    finished (err (invalid (literal "The URL redirected without a destination.")))
redirect join_url current (some []) =
    finished (err (invalid (literal "The URL redirected without a destination.")))
redirect join_url current (some (c ∷ location)) = redirected (join_url current (c ∷ location))

unfoldable pub judge : Unicode → (Text → Text → Text) → Text → Attempt Response → Verdict
unfolding accept redirect media_type
judge u join_url current (raised message) =
    finished (err (invalid (with_text "Could not fetch that URL: " message "")))
judge u join_url current (returned r) =
    if r.is_redirect
    then redirect join_url current r.location
    else finished (accept current (media_type u r.content_type) r)

abbrev pub next_url : Verdict → Text
next_url (redirected url) = url
next_url (finished result) = []

-- The rest of a turn of the loop, once `_vet` is called: the result and the URLs that were asked for.
abbrev pub follow :
    Text
    → Result Text
    → Verdict
    → Result FetchedResource × List Text
    → Result FetchedResource × List Text
follow current (err e) verdict rest = (err e, [])
follow current (ok ip) (finished result) rest = (result, current ∷ [])
follow current (ok ip) (redirected url) rest = (rest.0, current ∷ rest.1)

-- The loop of `fetch`, for a number of turns.
unfoldable pub fetch_hops : Unicode → Net → ℕ → Text → Result FetchedResource × List Text
unfolding vet judge
fetch_hops u net zero current = (err (invalid (literal "Too many redirects.")), [])
fetch_hops u net (suc hops) current =
    let verdict = judge u net.join_url current (net.get current) in
    follow current (vet net current) verdict (fetch_hops u net hops (next_url verdict))

unfoldable pub fetch : Unicode → Net → Text → Result FetchedResource × List Text
unfolding fetch_hops
fetch u net url = fetch_hops u net (suc max_redirects) url
