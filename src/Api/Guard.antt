-- ===== src/Api/Guard.antt =====
-- Who gets past the middleware of mesh/api/auth.py.
use cluster_mesh.Prelude.{
  String, true, false, Bool, ◌||◌, Option, none, some, ◌≡◌, ◌≢◌, ◌↔◌, ◌==◌, refl, sym, ap, ◌∙◌,
  arith, eq_iff, eq_refl, starts_with, if◌then◌else◌,
}
use cluster_mesh.Prelude.Text.{is_ascii}
use cluster_mesh.Api.Auth.{
  AuthConfig, Request, compare_digest, check_key, validate_key, extract_api_key, response, reply_of,
  answer_verdict, dispatch,
}

not_both : true ≡ false → ⊥
not_both h = cc h

-- The test on two texts that are there.
texts_match :
    (k p : String)
    → (if (k == "") || (p == "") then some false else compare_digest p k) ≡ some true
    → ((k == "") ≡ false) × ((p == k) ≡ true) × (is_ascii k ≡ true)
unfolding compare_digest
texts_match k p h = ground arith

same_text_matches :
    (k : String)
    → k ≢ ""
    → is_ascii k ≡ true
    → (if (k == "") || (k == "") then some false else compare_digest k k) ≡ some true
unfolding compare_digest
same_text_matches k n a =
    let differs : (k == "") ≡ false = ground (arith, (eq_iff k "").0) in ground (arith, eq_refl k)

check_key_iff :
    (configured provided : Option String)
    → (check_key configured provided ≡ some true) ↔ (
        (key : String) × (key ≢ "")
        × (configured ≡ some key)
        × (provided ≡ some key)
        × (is_ascii key ≡ true))
unfolding check_key compare_digest
check_key_iff none provided = (λ h. absurd (cc h), λ (key, n, c, p, a). absurd (cc c))
check_key_iff (some k) none = (λ h. absurd (cc h), λ (key, n, c, p, a). absurd (cc p))
check_key_iff (some k) (some p) = (
  λ h.
      let (n, e, a) = texts_match k p h in
      (k, λ empty. not_both (sym ((eq_iff k "").1 empty) ∙ n), refl, ap some ((eq_iff p k).0 e), a),
  λ (key, n, c, q, a).
      let same : k ≡ key = cc c in
      let given : p ≡ key = cc q in rw (same, given) (same_text_matches key n a),
)

reply_of_iff {ℓ} : {R : Type ℓ} (o : Option R) (r : R) → (reply_of o ≡ response r) ↔ (o ≡ some r)
reply_of_iff none r = (λ h. absurd (cc h), λ e. absurd (cc e))
reply_of_iff (some x) r = (λ h. cc h, λ e. cc e)

pub answer_verdict_iff {ℓ} :
    {R : Type ℓ} (call_next : Option String → Option R) (tenant old : Option String)
    (verdict : Option Bool) (r : R)
    → ((answer_verdict call_next tenant old verdict).0 ≡ response r)
      ↔ ((verdict ≡ some true) × (call_next tenant ≡ some r))
unfolding answer_verdict
answer_verdict_iff call_next tenant old none r = (λ h. absurd (cc h), λ (v, e). absurd (cc v))
answer_verdict_iff call_next tenant old (some false) r =
    (λ h. absurd (cc h), λ (v, e). absurd (cc v))
answer_verdict_iff call_next tenant old (some true) r =
    let (there, back) = reply_of_iff (call_next tenant) r in
    (λ h. (refl, there h), λ (v, e). back e)

-- Where the key is asked for, an answer of the application is returned exactly when the request
-- carries the configured key, which is neither empty nor outside ASCII, and the application gives
-- that answer under the request's tenant.
pub dispatch_admits_iff {ℓ} :
    {R : Type ℓ} (config : AuthConfig) (call_next : Option String → Option R) (request : Request)
    (current : Option String) (r : R)
    → config.enabled ≡ true
    → starts_with request.path "/api/" ≡ true
    → ((dispatch config call_next request current).0 ≡ response r) ↔ (
        ((key : String) × (key ≢ "")
          × (config.api_key ≡ some key)
          × (extract_api_key request ≡ some key)
          × (is_ascii key ≡ true))
        × (call_next (request.header "X-Tenant-Id") ≡ some r))
unfolding dispatch answer_verdict validate_key
dispatch_admits_iff config call_next request current r on guarded =
    let tenant = request.header "X-Tenant-Id" in
    let key = extract_api_key request in
    let (there, back) =
      answer_verdict_iff call_next tenant current (check_key config.api_key key) r in
    let (opens, shuts) = check_key_iff config.api_key key in
    rw (on, guarded) (λ h. (opens (there h).0, (there h).1), λ (k, e). back (shuts k, e))
