-- ===== src/Access/Surface.antt =====
-- The routes that the server registers (internal/api/routes.go), against the rules that it carries (internal/rbac/rbac.go) and the
-- endpoints that need no token (`isPublicEndpoint` of main.go).
use austro_os.Common.{Bool, true, ◌&&◌, ◌||◌, not, any, ◌≡◌, refl, arith}
use mathlib.Core.Path.{subst}
use austro_os.Common.Text.{Text, text_eq, eq_of_text_eq}
use austro_os.Access.Roles.{Rule}
use austro_os.Access.Implemented.{implemented_rules}
use austro_os.Access.Requests.{is_public_endpoint}
use austro_os.Access.Routes.{Route, routes}
use austro_os.Access.Tables.{all, any_checked, Bool_eq}

abbrev pub is_route : Text → Text → Route → Bool
is_route method pattern r = text_eq r.method method && text_eq r.pattern pattern

abbrev pub is_rule : Text → Text → Rule → Bool
is_rule method pattern e = text_eq e.action method && text_eq e.resource_pattern pattern

-- a registered route that needs a token
abbrev pub is_guarded : Text → Text → Bool
is_guarded method pattern =
    any (is_route method pattern) routes && not (is_public_endpoint method pattern)

abbrev is_ruled : Text → Text → Bool
is_ruled method pattern = any (is_rule method pattern) implemented_rules

routes-ruled :
    all (λ r. is_public_endpoint r.method r.pattern || is_ruled r.method r.pattern) routes ≡ true
unfolding all is_public_endpoint text_eq
routes-ruled = refl

rules-guarded : all (λ e. is_guarded e.action e.resource_pattern) implemented_rules ≡ true
unfolding all is_public_endpoint text_eq
rules-guarded = refl

and_left : (a b : Bool) → (a && b) ≡ true → a ≡ true
and_left a b h = ground arith

and_right : (a b : Bool) → (a && b) ≡ true → b ≡ true
and_right a b h = ground arith

or_right : (a b : Bool) → not a ≡ true → (a || b) ≡ true → b ≡ true
or_right a b n h = ground arith

at_names :
    (P : Text → Text → Bool) (m p n q : Text)
    → (text_eq m n && text_eq p q) ≡ true
    → P m p ≡ true
    → P n q ≡ true
at_names P m p n q same h =
    subst (λ t. P n t ≡ true) (eq_of_text_eq p q (ground arith))
      (subst (λ t. P t p ≡ true) (eq_of_text_eq m n (ground arith)) h)

-- A method and a path template are a registered route that needs a token exactly when a rule of the server names them.
pub routes_exact :
    (method pattern : Text)
    → is_guarded method pattern ≡ any (is_rule method pattern) implemented_rules
routes_exact method pattern =
    Bool_eq _ _
      (λ h.
        let (r, ruled, same) =
          any_checked (λ r. is_public_endpoint r.method r.pattern || is_ruled r.method r.pattern)
            (is_route method pattern) routes routes-ruled (and_left _ _ h) in
        or_right (is_public_endpoint method pattern) _ (and_right _ _ h) (
          at_names (λ m p. is_public_endpoint m p || is_ruled m p) r.method r.pattern method pattern
            same ruled))
      (λ h.
        let (e, guarded, same) =
          any_checked (λ e. is_guarded e.action e.resource_pattern) (is_rule method pattern)
            implemented_rules rules-guarded h in
        at_names is_guarded e.action e.resource_pattern method pattern same guarded)
