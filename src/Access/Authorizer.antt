-- ===== src/Access/Authorizer.antt =====
-- internal/authz/authz.go.
use austro_os.Common.{
  ℕ, Bool, true, false, ◌&&◌, not, ltb, ◌==◌, if◌then◌else◌, Option, none, some, List, [], ◌∷◌,
  length, any,
}
use mathlib.Core.List.{reverse}
use austro_os.Common.Text.{Text, text_eq, is_empty}
use austro_os.Access.Roles.{
  Role, valid_role, same_role, Scope, scope_none, scope_self, scope_path, Rule, Permissions, Claims,
}

pub data AccessError : Type 0 where
  denied : AccessError

abbrev slash : ℕ
slash = 47

abbrev pub drop_slashes : Text → Text
drop_slashes [] = []
drop_slashes (c ∷ s) = let rest = drop_slashes s in if c == slash then rest else c ∷ s

-- `strings.Trim(p, "/")`
abbrev pub trim_slashes : Text → Text
trim_slashes p = reverse (drop_slashes (reverse (drop_slashes p)))

abbrev pub onto_first : ℕ → List Text → List Text
onto_first c [] = (c ∷ []) ∷ []
onto_first c (s ∷ ss) = (c ∷ s) ∷ ss

-- `strings.Split(p, "/")`
abbrev pub split_slash : Text → List Text
split_slash [] = [] ∷ []
split_slash (c ∷ s) =
    let rest = split_slash s in if c == slash then [] ∷ rest else onto_first c rest

abbrev pub segments : Text → List Text
segments [] = []
segments (c ∷ s) = split_slash (c ∷ s)

-- `splitPath`
unfoldable pub split_path : Text → List Text
split_path p = segments (trim_slashes p)

abbrev pub first_is : ℕ → Text → Bool
first_is b [] = false
first_is b (c ∷ s) = c == b

-- a segment `{name}` with a name
unfoldable pub is_placeholder : Text → Bool
is_placeholder s = ltb 2 (length s) && first_is 123 s && first_is 125 (reverse s)

-- the loop of `matchResource`, with what was captured so far
unfoldable pub match_segments : List Text → List Text → Text → Option Text
match_segments [] acts captured = some captured
match_segments (p ∷ ps) [] captured = none
match_segments (p ∷ ps) (a ∷ acts) captured =
    let kept = match_segments ps acts captured in
    let taken = match_segments ps acts (if is_empty captured then a else captured) in
    if is_placeholder p
    then (if is_empty a then none else taken)
    else if text_eq p a
    then kept
    else none

-- `matchResource` on the segments
unfoldable pub match_split : List Text → List Text → Option Text
match_split ps acts = if length ps == length acts then match_segments ps acts [] else none

-- `matchResource`
unfoldable pub match_resource : Text → Text → Option Text
match_resource pattern actual = match_split (split_path pattern) (split_path actual)

abbrev pub is_match : Option Text → Bool
is_match none = false
is_match (some captured) = true

-- `hasRole`
unfoldable pub has_role : List Role → Role → Bool
has_role roles r = any (λ s. same_role s r) roles

abbrev pub granted_for : Text → Permissions → List Text
granted_for action [] = []
granted_for action ((a, rs) ∷ m) =
    let rest = granted_for action m in if text_eq a action then rs else rest

-- `hasPermission`
unfoldable pub has_permission : Permissions → Text → Text → Bool
has_permission perms action resource =
    any (λ granted. is_match (match_resource granted resource)) (granted_for action perms)

-- `inScope`
unfoldable pub in_scope : Scope → Text → Text → Bool
in_scope scope_none captured ws = true
in_scope scope_self captured ws = not (is_empty ws)
in_scope scope_path captured ws =
    not (is_empty ws) && not (is_empty captured) && text_eq captured ws

abbrev pub allows_match : Rule → Claims → Text → Text → Option Text → Bool
allows_match e c action resource none = false
allows_match e c action resource (some captured) =
    has_role e.roles c.role
    && has_permission c.permissions action resource
    && in_scope e.scope captured c.workspace_id

-- one round of the loop over the rules: no `continue` is reached
unfoldable pub allows : Claims → Text → Text → Rule → Bool
allows c action resource e =
    text_eq e.action action
    && allows_match e c action resource (match_resource e.resource_pattern resource)

-- `AuthorizeClaims`; nil claims are `none`, and so is the error nil
unfoldable pub authorize_claims : List Rule → Option Claims → Text → Text → Option AccessError
authorize_claims rules none action resource = some denied
authorize_claims rules (some c) action resource =
    if not (valid_role c.role)
    then some denied
    else if any (allows c action resource) rules
    then none
    else some denied
