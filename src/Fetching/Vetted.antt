-- ===== src/Fetching/Vetted.antt =====
-- `fetch` of services/url_fetcher.py: what it asks for, and what it returns.
use knowledgeos.Prelude.{
  ◌≡◌, refl, inl, inr, Bool, true, Option, none, some, List, [], ◌∷◌, Bool-cases, All, ℕ, zero, suc,
  ◌+◌, ◌≤◌, ◌<◌, false, ◌&&◌, arith, if◌then◌else◌, length, sym, ap, ◌∙◌, subst, not, ltb, leb, ◌⊎◌,
}
use knowledgeos.Text.{Text, Unicode, is_empty}
use knowledgeos.Errors.{passed, not_stopped, ok, AppError, Result, err}
use knowledgeos.Ingestion.{Attempt, returned, raised}
use knowledgeos.Fetching.{
  is_public, all_public, check_addresses, allowed_scheme, port_of, vet_host, vet, ParsedUrl, Net,
  max_redirects, max_bytes, allowed_type, accept, redirect, judge, next_url, follow, fetch_hops,
  fetch, Response, FetchedResource, Verdict, redirected, finished, media_type, html_if_empty,
}

-- The vetting of a URL: its scheme is allowed, and each address of its host is public.
abbrev pub IsVetted : Net → Text → Type 0
IsVetted net url =
    (allowed_scheme (net.urlparse url).scheme ≡ true)
    × (host : Text) × (addresses : List Text) × ((net.urlparse url).hostname ≡ some host)
    × (net.getaddrinfo host (port_of (net.urlparse url)) ≡ some addresses)
    × All (λ a. is_public (net.ip_address a) ≡ true) addresses

not-false : (b : Bool) → not b ≡ false → b ≡ true
not-false true h = refl
not-false false h = cc h

and_both : (a b : Bool) → (a && b) ≡ true → (a ≡ true) × (b ≡ true)
and_both a b h = ground (arith, h)

typed :
    (kind : Text)
    → (not (is_empty kind) && not (allowed_type kind)) ≡ false
    → allowed_type (html_if_empty kind) ≡ true
typed [] h = refl
typed (c ∷ t) h = not-false (allowed_type (c ∷ t)) h

all_public-All :
    (net : Net) (addresses : List Text)
    → all_public net addresses ≡ true
    → All (λ a. is_public (net.ip_address a) ≡ true) addresses
unfolding all_public
all_public-All net [] h = tt
all_public-All net (a ∷ rest) h =
    let both = and_both (is_public (net.ip_address a)) (all_public net rest) h in
    (both.0, all_public-All net rest both.1)

module _ (net : Net) where
  checked :
      (host ip : Text) (o : Option (List Text))
      → check_addresses net host o ≡ ok ip
      → (addresses : List Text) × (o ≡ some addresses)
        × All (λ a. is_public (net.ip_address a) ≡ true) addresses
  unfolding check_addresses
  checked host ip none h = cc h
  checked host ip (some []) h = cc h
  checked host ip (some (a ∷ rest)) h = elim (Bool-cases (all_public net (a ∷ rest))) [
    | inl public ↦ (a ∷ rest, refl, all_public-All net (a ∷ rest) public)
    | inr private ↦ cc (private, h)
  ]

  vetted_host :
      (parsed : ParsedUrl) (ip : Text) (o : Option Text)
      → vet_host net parsed o ≡ ok ip
      → (host : Text) × (addresses : List Text) × (o ≡ some host)
        × (net.getaddrinfo host (port_of parsed) ≡ some addresses)
        × All (λ a. is_public (net.ip_address a) ≡ true) addresses
  unfolding vet_host
  vetted_host parsed ip none h = cc h
  vetted_host parsed ip (some []) h = cc h
  vetted_host parsed ip (some (c ∷ host)) h =
      let (addresses, found, public) = checked (c ∷ host) ip _ h in
      (c ∷ host, addresses, refl, found, public)

  vet-IsVetted : (url ip : Text) → vet net url ≡ ok ip → IsVetted net url
  unfolding vet
  vet-IsVetted url ip h =
      let parsed = net.urlparse url in
      let (scheme, host_ok) =
        passed (allowed_scheme parsed.scheme) (vet_host net parsed parsed.hostname) _ ip h in
      let (host, addresses, named, found, public) = vetted_host parsed ip parsed.hostname host_ok in
      (scheme, host, addresses, named, found, public)

  -- The requests of a turn.
  follow-All :
      (n : ℕ) (current : Text) (v : Result Text) (verdict : Verdict)
      (rest : Result FetchedResource × List Text)
      → vet net current ≡ v
      → All (IsVetted net) rest.1 × (length rest.1 ≤ n)
      → All (IsVetted net) (follow current v verdict rest).1
        × (length (follow current v verdict rest).1 ≤ n + 1)
  follow-All n current (err e) verdict rest v h = (tt, omega arith)
  follow-All n current (ok ip) (finished result) rest v h =
      ((vet-IsVetted current ip v, tt), omega arith)
  follow-All n current (ok ip) (redirected url) rest v h =
      ((vet-IsVetted current ip v, h.0), omega (arith, h.1))

  module _ (u : Unicode) where
    fetch_hops-All :
        (hops : ℕ) (current : Text)
        → All (IsVetted net) (fetch_hops u net hops current).1
          × (length (fetch_hops u net hops current).1 ≤ hops)
    unfolding fetch_hops
    fetch_hops-All zero current = (tt, omega arith)
    fetch_hops-All (suc hops) current =
        let verdict = judge u net.join_url current (net.get current) in
        let (vetted, few) =
          follow-All hops current (vet net current) verdict
            (fetch_hops u net hops (next_url verdict)) refl
            (fetch_hops-All hops (next_url verdict)) in
        (vetted, omega (arith, few))

    -- A resource is the content of the response, no redirect and no error, to the URL it names, which
    -- was vetted; it is within the limit and of an allowed type.
    abbrev pub IsDelivered : FetchedResource → Type 0
    IsDelivered f =
        (r : Response) × (net.get f.url ≡ returned r)
        × (r.is_redirect ≡ false)
        × (r.status_code < 400)
        × (f.content ≡ r.content)
        × (length r.content ≤ max_bytes)
        × (allowed_type f.content_type ≡ true)
        × IsVetted net f.url

    accepted :
        (current kind : Text) (r : Response) (f : FetchedResource)
        → accept current kind r ≡ ok f
        → (r.status_code < 400)
          × (length r.content ≤ max_bytes)
          × (allowed_type f.content_type ≡ true)
          × (f.content ≡ r.content)
          × (f.url ≡ current)
    unfolding accept
    accepted current kind r f h =
        let (low, h1) = not_stopped (leb 400 r.status_code) _ _ f h in
        let (kind_ok, h2) = not_stopped (not (is_empty kind) && not (allowed_type kind)) _ _ f h1 in
        let (small, h3) = not_stopped (ltb max_bytes (length r.content)) _ _ f h2 in
        let made : FetchedResource = record {
          url = current;
          content = r.content;
          content_type = html_if_empty kind;
        } in
        let same : made ≡ f = cc h3 in
        (
          ground (arith, low),
          ground (arith, small),
          subst (λ (g : FetchedResource). allowed_type g.content_type ≡ true) same
              (typed kind kind_ok),
          ap (λ (g : FetchedResource). g.content) (sym same),
          ap (λ (g : FetchedResource). g.url) (sym same),
        )

    -- A turn whose response is at hand.
    module _ (rest : Result FetchedResource × List Text) (f : FetchedResource)
        (later : rest.0 ≡ ok f → IsDelivered f) (current ip : Text) where
      redirect-IsDelivered :
          (location : Option Text)
          → (follow current (ok ip) (redirect net.join_url current location) rest).0 ≡ ok f
          → IsDelivered f
      unfolding redirect
      redirect-IsDelivered none h = cc h
      redirect-IsDelivered (some []) h = cc h
      redirect-IsDelivered (some (c ∷ location)) h = later h

      response-IsDelivered :
          (kind : Text) (r : Response) (b : Bool)
          → vet net current ≡ ok ip
          → net.get current ≡ returned r
          → r.is_redirect ≡ b
          → (follow current
              (ok ip)
              (if b
                then redirect net.join_url current r.location
                else finished (accept current kind r))
              rest).0
            ≡ ok f
          → IsDelivered f
      response-IsDelivered kind r true vetted asked is_it h = redirect-IsDelivered r.location h
      response-IsDelivered kind r false vetted asked is_not h =
          let (low, small, kind_ok, same_content, same_url) = accepted current kind r f h in
          (
            r,
            ap net.get same_url ∙ asked,
            is_not,
            low,
            same_content,
            small,
            kind_ok,
            subst (IsVetted net) (sym same_url) (vet-IsVetted current ip vetted),
          )

    follow-IsDelivered :
        (current : Text) (v : Result Text) (a : Attempt Response)
        (rest : Result FetchedResource × List Text) (f : FetchedResource)
        → vet net current ≡ v
        → net.get current ≡ a
        → (rest.0 ≡ ok f → IsDelivered f)
        → (follow current v (judge u net.join_url current a) rest).0 ≡ ok f
        → IsDelivered f
    unfolding judge
    follow-IsDelivered current (err e) a rest f vetted asked later h = cc h
    follow-IsDelivered current (ok ip) (raised message) rest f vetted asked later h = cc h
    follow-IsDelivered current (ok ip) (returned r) rest f vetted asked later h =
        response-IsDelivered rest f later current ip (media_type u r.content_type) r r.is_redirect
          vetted asked refl h

    fetch_hops-IsDelivered :
        (hops : ℕ) (current : Text) (f : FetchedResource)
        → (fetch_hops u net hops current).0 ≡ ok f
        → IsDelivered f
    unfolding fetch_hops
    fetch_hops-IsDelivered zero current f h = cc h
    fetch_hops-IsDelivered (suc hops) current f h =
        let verdict = judge u net.join_url current (net.get current) in
        follow-IsDelivered current (vet net current) (net.get current)
          (fetch_hops u net hops (next_url verdict)) f refl refl
          (fetch_hops-IsDelivered hops (next_url verdict) f) h

    pub fetch-delivers :
        (url : Text) (f : FetchedResource) → (fetch u net url).0 ≡ ok f → IsDelivered f
    unfolding fetch
    fetch-delivers url f h = fetch_hops-IsDelivered (suc max_redirects) url f h

    ended :
        (r : Result FetchedResource)
        → ((e : AppError) × (r ≡ err e)) ⊎ ((f : FetchedResource) × (r ≡ ok f))
    ended (err e) = inl (e, refl)
    ended (ok f) = inr (f, refl)

    -- Whatever the servers answer, `fetch` asks for four URLs at most, and only for URLs with an allowed
    -- scheme whose host resolved to public addresses alone when it was vetted. It ends in an error, or
    -- returns the content of a response, no redirect and no error, to a URL that was vetted, within the
    -- limit and of an allowed type.
    pub fetch-IsDelivered :
        (url : Text)
        → All (IsVetted net) (fetch u net url).1
          × (length (fetch u net url).1 ≤ max_redirects + 1)
          × (((e : AppError) × ((fetch u net url).0 ≡ err e))
              ⊎ ((f : FetchedResource) × ((fetch u net url).0 ≡ ok f) × IsDelivered f))
    unfolding fetch
    fetch-IsDelivered url =
        let (vetted, few) = fetch_hops-All (suc max_redirects) url in
        (
          vetted,
          few,
          elim (ended (fetch_hops u net (suc max_redirects) url).0) [
            | inl failed ↦ inl failed
            | inr (f, delivered) ↦
                inr (f, delivered, fetch_hops-IsDelivered (suc max_redirects) url f delivered)
          ],
        )
