-- ===== src/Access/Served.antt =====
-- What is known of a request that reaches the router.
use austro_os.Common.{
  Bool, true, false, if◌then◌else◌, Option, none, some, List, [], ◌∷◌, any, ◌≡◌, ◌≢◌, refl, sym, ap,
  ◌∙◌, Bool-cases, ◌⊎◌, inl, inr, arith,
}
use mathlib.Core.Path.{subst}
use austro_os.Common.Text.{Text, text_eq, is_empty, bytes, trim_space}
use austro_os.Access.Roles.{
  Role, founder, workspace_admin, workspace_member, unknown_role, Claims, ClaimsError, valid_role,
  consistent, validate_claims_shape,
}
use austro_os.Access.Implemented.{implemented_rules}
use austro_os.Access.Authorizer.{AccessError, split_path, authorize_claims}
use austro_os.Access.Requests.{
  Request, Outcome, reached, after_prefix, is_public_endpoint, checked, verify_parsed,
  verify_access_token, verified, bearer_raw, bearer_rest, bearer_claims, decided, authz_middleware,
  with_claims, serve,
}
use austro_os.Access.PublicPaths.{not_public, workspaces_held, publications_held}
use austro_os.Access.Isolation.{tenant_stays_in_workspace, decision_needs_admin}
use austro_os.Access.RuleChecks.{decisions}

-- the claims that a token may carry
consistent_cases :
    (role : Role) (ws : Text)
    → valid_role role ≡ true
    → consistent role ws ≡ true
    → ((role ≡ founder) × (ws ≡ [])) ⊎ ((role ≢ founder) × (ws ≢ []))
unfolding valid_role consistent
consistent_cases founder [] v c = inl (refl, refl)
consistent_cases founder (x ∷ ws) v c = cc
consistent_cases workspace_admin [] v c = cc
consistent_cases workspace_admin (x ∷ ws) v c = inr ((λ e. cc), (λ e. cc))
consistent_cases workspace_member [] v c = cc
consistent_cases workspace_member (x ∷ ws) v c = inr ((λ e. cc), (λ e. cc))
consistent_cases (unknown_role r) ws v c = cc

shape_cases :
    (c : Claims)
    → validate_claims_shape (some c) ≡ none
    → ((c.role ≡ founder) × (c.workspace_id ≡ [])) ⊎ ((c.role ≢ founder) × (c.workspace_id ≢ []))
unfolding validate_claims_shape
shape_cases c h = consistent_cases c.role c.workspace_id (ground arith) (ground arith)

tenant_or_founder :
    (c : Claims) (ws : Text)
    → ((c.role ≡ founder) × (c.workspace_id ≡ [])) ⊎ ((c.role ≢ founder) × (c.workspace_id ≢ []))
    → (c.role ≡ founder) ⊎ (ws ≡ c.workspace_id)
    → ((c.role ≡ founder) × (c.workspace_id ≡ [])) ⊎ ((ws ≡ c.workspace_id) × (ws ≢ []))
tenant_or_founder c ws (inl f) i = inl f
tenant_or_founder c ws (inr (other, bound)) (inl f) = absurd (other f)
tenant_or_founder c ws (inr (other, bound)) (inr e) = inr (e, λ n. bound (sym e ∙ n))

checked_shape :
    (t c : Claims) (o : Option ClaimsError) → verified (checked t o) ≡ some c → (t ≡ c) × (o ≡ none)
checked_shape t c none h = (ground arith, refl)
checked_shape t c (some e) h = cc

token_shape :
    (c : Claims) (o : Option Claims)
    → verified (verify_parsed o) ≡ some c
    → validate_claims_shape (some c) ≡ none
token_shape c none h = cc
token_shape c (some t) h =
    let (same, good) = checked_shape t c (validate_claims_shape (some t)) h in
    subst (λ u. validate_claims_shape (some u) ≡ none) same good

decided_reached :
    (c : Option Claims) (o : Option AccessError) (k : Option Claims)
    → decided c o ≡ reached k
    → (k ≡ c) × (o ≡ none)
decided_reached c none k h = (ground arith, refl)
decided_reached c (some e) k h = cc

authz_reached :
    (c : Option Claims) (r : Request) (k : Option Claims)
    → is_public_endpoint r.method r.path ≡ false
    → authz_middleware c r ≡ reached k
    → (k ≡ c) × (authorize_claims implemented_rules c r.method r.path ≡ none)
unfolding authz_middleware
authz_reached c r k p h =
    decided_reached c (authorize_claims implemented_rules c r.method r.path) k (
      ap
        (λ b.
          if b then reached c else decided c (authorize_claims implemented_rules c r.method r.path))
        (sym p)
      ∙ h)

bare_reached :
    (r : Request) (k : Option Claims)
    → is_public_endpoint r.method r.path ≡ false
    → authz_middleware none r ≢ reached k
unfolding authorize_claims
bare_reached r k p h = let (same, granted) = authz_reached none r k p h in cc granted

claims_reached :
    (o : Option Claims) (r : Request) (k : Option Claims)
    → is_public_endpoint r.method r.path ≡ false
    → with_claims o r ≡ reached k
    → (c : Claims) × (k ≡ some c)
      × (o ≡ some c)
      × (authorize_claims implemented_rules (some c) r.method r.path ≡ none)
claims_reached none r k p h = cc
claims_reached (some c) r k p h =
    let (same, granted) = authz_reached (some c) r k p h in (c, same, refl, granted)

-- what a request with an accepted token has shown
module _ (parse : Text → Option Claims) where
  raw_shape :
      (c : Claims) (raw : Text)
      → bearer_raw parse raw ≡ some c
      → validate_claims_shape (some c) ≡ none
  unfolding verify_access_token
  raw_shape c [] h = cc h
  raw_shape c (x ∷ raw) h = token_shape c (parse (x ∷ raw)) h

  rest_shape :
      (c : Claims) (o : Option Text)
      → bearer_rest parse o ≡ some c
      → validate_claims_shape (some c) ≡ none
  rest_shape c none h = cc
  rest_shape c (some rest) h = raw_shape c (trim_space rest) h

  bearer_claims-shape :
      (c : Claims) (header : Text)
      → bearer_claims parse header ≡ some c
      → validate_claims_shape (some c) ≡ none
  unfolding bearer_claims
  bearer_claims-shape c header h =
      rest_shape c (after_prefix (bytes "Bearer ") (trim_space header)) h

  unfoldable way : Request → Bool → Outcome
  way r bare =
      if bare then authz_middleware none r else with_claims (bearer_claims parse r.authorization) r

  -- a request that needs a token reaches the router with good claims that the rules let through
  serve_reached :
      (r : Request) (k : Option Claims)
      → is_public_endpoint r.method r.path ≡ false
      → serve parse r ≡ reached k
      → (c : Claims) × (k ≡ some c)
        × (bearer_claims parse r.authorization ≡ some c)
        × (validate_claims_shape (some c) ≡ none)
        × (authorize_claims implemented_rules (some c) r.method r.path ≡ none)
  unfolding serve way
  serve_reached r k p h = elim (Bool-cases (is_empty r.authorization)) [
    | inl bare ↦ absurd (bare_reached r k p (ap (way r) (sym bare) ∙ h))
    | inr full ↦
        let (c, same, from, granted) =
          claims_reached (bearer_claims parse r.authorization) r k p (ap (way r) (sym full) ∙ h) in
        (c, same, from, bearer_claims-shape c r.authorization from, granted)
  ]

  -- A request for a path under `/workspaces/{id}` reaches the router only with the claims of its own bearer token, and these
  -- are the founder's, bound to no workspace, or name the workspace of the path.
  pub served_tenant :
      (r : Request) (k : Option Claims) (ws : Text) (rest : List Text)
      → serve parse r ≡ reached k
      → split_path r.path ≡ bytes "workspaces" ∷ ws ∷ rest
      → (c : Claims) × (k ≡ some c)
        × (bearer_claims parse r.authorization ≡ some c)
        × (((c.role ≡ founder) × (c.workspace_id ≡ [])) ⊎ ((ws ≡ c.workspace_id) × (ws ≢ [])))
  served_tenant r k ws rest h at =
      let (c, same, from, shape, granted) =
        serve_reached r k
          (not_public r.method r.path (bytes "workspaces") (ws ∷ rest) at workspaces_held) h in
      (
        c,
        same,
        from,
        tenant_or_founder c ws (shape_cases c shape)
            (tenant_stays_in_workspace c r.method r.path ws rest granted at),
      )

  -- A request to approve, reject, release or retry a publication reaches the router only with the claims of its own
  -- bearer token, and these are a workspace admin's, of some workspace.
  pub served_decision :
      (r : Request) (k : Option Claims) (id verb : Text)
      → serve parse r ≡ reached k
      → split_path r.path ≡ bytes "publications" ∷ id ∷ verb ∷ []
      → any (text_eq verb) decisions ≡ true
      → (c : Claims) × (k ≡ some c)
        × (bearer_claims parse r.authorization ≡ some c)
        × (c.role ≡ workspace_admin)
        × (c.workspace_id ≢ [])
  served_decision r k id verb h at d =
      let (c, same, from, shape, granted) =
        serve_reached r k
          (not_public r.method r.path (bytes "publications") (id ∷ verb ∷ []) at publications_held)
          h in
      let (admin, bound) = decision_needs_admin c r.method r.path id verb granted at d in
      (c, same, from, admin, bound)
