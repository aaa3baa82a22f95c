-- ===== src/Web/Pages/SignIn.antt =====
-- Where a sign-in leads: from the sign-in page over the start page to a redirect target.
use oidc_proxy.Base.{
  ℕ, ◌≡◌, ◌⊎◌, inl, inr, refl, false, [], ◌∷◌, ◌++◌, Text, arith, codes, is_empty, cut, split,
  has_prefix, cut_prefix, text_eq, if◌then◌else◌,
}
use oidc_proxy.Http.{Request, first_value, get}
use oidc_proxy.Url.Query.{query_escape, escape_byte, is_unreserved}
use oidc_proxy.Url.Values.{
  parse_query, parse_pair, parse_pairs, or_empty, encode, sort_keys, join_pairs, insert,
}
use oidc_proxy.Url.Values.RoundTrip.{IsBytes}
use oidc_proxy.Url.Values.Encoded.{parse_query-encode}
use oidc_proxy.Utils.{sanitize_redirect}
use oidc_proxy.Utils.Redirect.{IsSlashPath, sanitize_redirect_iff}
use oidc_proxy.Web.Response.{FlowData, SignInData, sign_in_page, start_page}
use oidc_proxy.Web.Pages.{PageConfig, render_html, flow_data, handle_sign_in, handle_start}

-- A request for a URL: the handler reads the query that stands behind the question mark.
abbrev pub Visits : Text → Request → Type 0
Visits url r = r.query ≡ parse_query (or_empty (cut b'?' url).1)

-- The redirect target for what a request asks for: the same if it begins with exactly one
-- slash, or the root.
abbrev pub IsTargetOf : Text → Text → Type 0
IsTargetOf asked target =
    (IsSlashPath asked × (target ≡ asked)) ⊎ ((¬ IsSlashPath asked) × (target ≡ codes "/"))

sanitize_none : sanitize_redirect [] ≡ []
unfolding sanitize_redirect has_prefix cut_prefix codes
sanitize_none = refl

filled-IsSlashPath : (s : Text) → IsSlashPath s → is_empty s ≡ false
filled-IsSlashPath [] h = absurd h
filled-IsSlashPath (b ∷ s) h = refl

-- The query of a link with a redirect target is read as that target.
read_rd :
    (rd : Text) → IsBytes rd → parse_query (codes "rd=" ++ query_escape rd) ≡ (codes "rd", rd) ∷ []
unfolding codes encode sort_keys join_pairs insert query_escape escape_byte is_unreserved
read_rd rd h =
    parse_query-encode ((codes "rd", rd) ∷ []) (((omega arith, (omega arith, tt)), h), tt)

get_rd : (rd : Text) → get ((codes "rd", rd) ∷ []) "rd" ≡ rd
unfolding get first_value text_eq codes
get_rd rd = refl

no_query : get (parse_query []) "rd" ≡ []
unfolding get first_value parse_query parse_pairs parse_pair split
no_query = refl

IsBytes-sanitize_redirect : (s : Text) → IsBytes s → IsBytes (sanitize_redirect s)
IsBytes-sanitize_redirect s h = elim (sanitize_redirect_iff s) [
  | inl (same, slash) ↦ rw same h
  | inr (gone, other) ↦ rw gone tt
]

-- What is sanitized on the sign-in page and again on the start page.
sanitized_twice :
    (asked : Text)
    → IsTargetOf asked (
        let rd = sanitize_redirect (sanitize_redirect asked) in
        if is_empty rd then codes "/" else rd)
unfolding codes
sanitized_twice asked = elim (sanitize_redirect_iff asked) [
  | inl (same, slash) ↦ inl (slash, rw (same, same, filled-IsSlashPath asked slash) refl)
  | inr (gone, other) ↦ inr (other, rw (gone, sanitize_none) refl)
]

-- The link of the sign-in page that redirects to `rd`, which is empty for none.
abbrev link_to : Text → Text
link_to rd = codes "/oauth2/start" ++ (if is_empty rd then [] else codes "?rd=" ++ query_escape rd)

link_eq : {d e : SignInData} → sign_in_page d ≡ sign_in_page e → d.start_url ≡ e.start_url
link_eq h = ground (arith, h)

-- What a request for that link asks for.
link-asks :
    (rd : Text) (next : Request) → IsBytes rd → Visits (link_to rd) next → get next.query "rd" ≡ rd
unfolding cut codes parse_query
link-asks [] next bytes visits = rw visits no_query
link-asks (b ∷ rd) next bytes visits = rw (visits, read_rd (b ∷ rd) bytes) (get_rd (b ∷ rd))

module _ (rand : ℕ → Text) (cfg : PageConfig) where
  -- Whoever asks the sign-in page for a redirect target and follows its link gets a start page whose
  -- redirect is the target asked for if that begins with exactly one slash, and the root otherwise. The
  -- first character after the slash may be a backslash.
  pub sign_in-start :
      (r next : Request) (draws later : ℕ) (page : SignInData)
      → IsBytes (get r.query "rd")
      → (handle_sign_in rand cfg r draws).1.body ≡ sign_in_page page
      → Visits page.start_url next
      → (start : FlowData) × ((handle_start rand cfg next later).1.body ≡ start_page start)
        × IsTargetOf (get r.query "rd") start.redirect
  unfolding handle_sign_in handle_start render_html flow_data
  sign_in-start r next draws later page bytes shown visits =
      let asked = get r.query "rd" in
      let visits' : Visits (link_to (sanitize_redirect asked)) next = rw (link_eq shown) visits in
      let asks : get next.query "rd" ≡ sanitize_redirect asked =
        link-asks (sanitize_redirect asked) next (IsBytes-sanitize_redirect asked bytes) visits' in
      (_, refl, rw asks (sanitized_twice asked))
