-- ===== src/Access/Tables.antt =====
-- The permissions that a token carries against the rules of the server.
use austro_os.Common.{
  Bool, true, false, ◌&&◌, ◌||◌, not, List, [], ◌∷◌, any, ◌≡◌, refl, Bool-cases, inl, inr, arith,
}
use mathlib.Core.Path.{subst}
use austro_os.Common.Text.{Text, text_eq, eq_of_text_eq}
use austro_os.Access.Roles.{
  Role, founder, workspace_admin, workspace_member, unknown_role, Rule, Permissions, same_role,
}
use austro_os.Access.Permissions.{permissions_for_role}
use austro_os.Access.Implemented.{implemented_rules}
use austro_os.Access.Authorizer.{has_role, granted_for, has_permission, match_resource, is_match}

unfoldable pub all {ℓ} : {A : Type ℓ} → (A → Bool) → List A → Bool
all p [] = true
all p (x ∷ xs) = p x && all p xs

-- the first element that passes one test, where all pass another
pub any_checked {ℓ} :
    {A : Type ℓ} (check p : A → Bool) (xs : List A)
    → all check xs ≡ true
    → any p xs ≡ true
    → (x : A) × (check x ≡ true) × (p x ≡ true)
unfolding all
any_checked check p [] c h = cc
any_checked check p (x ∷ xs) c h = elim (Bool-cases (p x)) [
  | inl here ↦ (x, ground arith, here)
  | inr there ↦ any_checked check p xs (ground arith) (ground arith)
]

any_mono {ℓ} :
    {A : Type ℓ} (p q : A → Bool) (xs : List A)
    → ((x : A) → p x ≡ true → q x ≡ true)
    → any p xs ≡ true
    → any q xs ≡ true
any_mono p q [] f h = h
any_mono p q (x ∷ xs) f h = elim (Bool-cases (p x)) [
  | inl here ↦ ground (arith, f x here)
  | inr there ↦ ground (arith, any_mono p q xs f (ground arith))
]

pub Bool_eq : (a b : Bool) → (a ≡ true → b ≡ true) → (b ≡ true → a ≡ true) → a ≡ b
Bool_eq true true f g = refl
Bool_eq true false f g = cc (f refl)
Bool_eq false true f g = cc (g refl)
Bool_eq false false f g = refl

-- a rule that names a role, a method and a template
abbrev named_by : Role → Text → Text → Rule → Bool
named_by r action pattern e =
    has_role e.roles r && text_eq e.action action && text_eq e.resource_pattern pattern

-- a rule that names a role and a method, and fits the path of a request
abbrev pub names_request : Role → Text → Text → Rule → Bool
names_request r action resource e =
    text_eq e.action action
    && is_match (match_resource e.resource_pattern resource)
    && has_role e.roles r

permissions_ruled : Role → Permissions → Bool
unfolding all
permissions_ruled r = all λ m. all (λ p. any (named_by r m.0 p) implemented_rules) m.1

rule_permitted : Role → Rule → Bool
rule_permitted r e =
    not (has_role e.roles r)
    || any (text_eq e.resource_pattern) (granted_for e.action (permissions_for_role r))

permissions_for_role-ruled : (r : Role) → permissions_ruled r (permissions_for_role r) ≡ true
unfolding permissions_ruled has_role same_role text_eq
permissions_for_role-ruled founder = refl
permissions_for_role-ruled workspace_admin = refl
permissions_for_role-ruled workspace_member = refl
permissions_for_role-ruled (unknown_role r) = refl

implemented_rules-permitted : (r : Role) → all (rule_permitted r) implemented_rules ≡ true
unfolding rule_permitted all has_role same_role text_eq
implemented_rules-permitted founder = refl
implemented_rules-permitted workspace_admin = refl
implemented_rules-permitted workspace_member = refl
implemented_rules-permitted (unknown_role r) = refl

granted_for-ruled :
    (r : Role) (action : Text) (perms : Permissions)
    → permissions_ruled r perms ≡ true
    → all (λ p. any (named_by r action p) implemented_rules) (granted_for action perms) ≡ true
unfolding permissions_ruled all
granted_for-ruled r action [] h = refl
granted_for-ruled r action ((a, ps) ∷ m) h = elim (Bool-cases (text_eq a action)) [
  | inl same ↦ rw same (
      subst (λ t. all (λ p. any (named_by r t p) implemented_rules) ps ≡ true)
        (eq_of_text_eq a action same) (ground arith))
  | inr other ↦ rw other (granted_for-ruled r action m (ground arith))
]

module _ (r : Role) (action resource : Text) where
  abbrev fits : Text → Bool
  fits p = is_match (match_resource p resource)

  permitted-ruled :
      has_permission (permissions_for_role r) action resource ≡ true
      → any (names_request r action resource) implemented_rules ≡ true
  unfolding has_permission
  permitted-ruled h =
      let (p, named, fit) =
        any_checked (λ p. any (named_by r action p) implemented_rules) fits
          (granted_for action (permissions_for_role r))
          (granted_for-ruled r action (permissions_for_role r) (permissions_for_role-ruled r)) h in
      any_mono (named_by r action p) (names_request r action resource) implemented_rules
        (λ e n.
          subst (λ t. fits t ≡ true → names_request r action resource e ≡ true)
            (eq_of_text_eq e.resource_pattern p (ground arith)) (λ f. ground arith) fit)
        named

  ruled-permitted :
      any (names_request r action resource) implemented_rules ≡ true
      → has_permission (permissions_for_role r) action resource ≡ true
  unfolding has_permission rule_permitted
  ruled-permitted h =
      let (e, permitted, names) =
        any_checked (rule_permitted r) (names_request r action resource) implemented_rules
          (implemented_rules-permitted r) h in
      subst (λ t. any fits (granted_for t (permissions_for_role r)) ≡ true)
        (eq_of_text_eq e.action action (ground arith))
        (any_mono (text_eq e.resource_pattern) fits (granted_for e.action (permissions_for_role r))
          (λ p same.
            subst (λ t. fits t ≡ true) (eq_of_text_eq e.resource_pattern p same) (ground arith))
          (ground arith))

  -- The permissions that are minted for a role permit a request exactly when a rule of the server names the role and the
  -- method and fits the path.
  pub permissions_for_role_exact :
      has_permission (permissions_for_role r) action resource
      ≡ any (names_request r action resource) implemented_rules
  permissions_for_role_exact = Bool_eq _ _ permitted-ruled ruled-permitted
