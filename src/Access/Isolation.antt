-- ===== src/Access/Isolation.antt =====
-- What the rules of the server let nobody do: leave its workspace, or decide without being an admin.
use austro_os.Common.{
  ℕ, Bool, true, false, ◌||◌, none, some, List, [], ◌∷◌, any, ◌≡◌, ◌≢◌, refl, sym, ◌∙◌,
  Option-cases, Bool-cases, ap, ◌⊎◌, inl, inr, arith,
}
use mathlib.Core.Path.{subst}
use austro_os.Common.Text.{Text, text_eq, eq_of_text_eq, bytes}
use austro_os.Access.Roles.{
  Role, founder, workspace_admin, workspace_member, unknown_role, Rule, Scope, scope_none,
  scope_self, scope_path, valid_role, Claims,
}
use austro_os.Access.Implemented.{implemented_rules}
use austro_os.Access.Authorizer.{
  has_role, in_scope, is_placeholder, split_path, match_segments, match_split, match_resource,
  allows, authorize_claims,
}
use austro_os.Access.Tables.{all, any_checked}
use austro_os.Access.RuleChecks.{
  can_be, is_path, is_bound, isolates, isolates_rule, decisions, admins_only, admins_only_rule,
  implemented_rules-isolate, implemented_rules-admins_only,
}

captured_stays :
    (ps acts : List Text) (x : ℕ) (xs k : Text)
    → match_segments ps acts (x ∷ xs) ≡ some k
    → k ≡ x ∷ xs
unfolding match_segments
captured_stays [] acts x xs k h = cc
captured_stays (p ∷ ps) [] x xs k h = cc
captured_stays (p ∷ ps) (a ∷ acts) x xs k h = ground (arith, captured_stays ps acts x xs k)

first_can_be :
    (p a : Text) (ps acts : List Text) {k : Text}
    → match_split (p ∷ ps) (a ∷ acts) ≡ some k
    → can_be p a ≡ true
unfolding match_split match_segments
first_can_be p a ps acts h = ground arith

second_captured :
    (p a q b : Text) (ps acts : List Text) (k : Text)
    → is_placeholder p ≡ false
    → is_placeholder q ≡ true
    → match_split (p ∷ q ∷ ps) (a ∷ b ∷ acts) ≡ some k
    → k ≡ b
unfolding match_split match_segments
second_captured p a q [] ps acts k u v h = ground arith
second_captured p a q (x ∷ b) ps acts k u v h = ground (arith, captured_stays ps acts x b k)

third_can_be :
    (p a q b v c : Text) {k : Text}
    → match_split (p ∷ q ∷ v ∷ []) (a ∷ b ∷ c ∷ []) ≡ some k
    → can_be v c ≡ true
unfolding match_split match_segments
third_can_be p a q b v c h = ground arith

path_binds : (s : Scope) (k ws : Text) → is_path s ≡ true → in_scope s k ws ≡ true → k ≡ ws
unfolding in_scope
path_binds scope_path k ws p h = eq_of_text_eq k ws (ground arith)
path_binds scope_none k ws p h = cc
path_binds scope_self k ws p h = cc

tenant_bound :
    (s : Scope) (roles : List Role) (ps : List Text) (ws : Text) (rest : List Text) (k own : Text)
    → isolates s roles ps ≡ true
    → (has_role roles workspace_admin || has_role roles workspace_member) ≡ true
    → in_scope s k own ≡ true
    → match_split ps (bytes "workspaces" ∷ ws ∷ rest) ≡ some k
    → ws ≡ own
unfolding isolates
tenant_bound s roles [] ws rest k own i h n m = unfold match_split match_segments in ground arith
tenant_bound s roles (p ∷ []) ws rest k own i h n m =
    unfold match_split match_segments in ground arith
tenant_bound s roles (p ∷ q ∷ ps) ws rest k own i h n m =
    let can = first_can_be p (bytes "workspaces") (q ∷ ps) (ws ∷ rest) m in
    sym (second_captured p (bytes "workspaces") q ws ps rest k (ground arith) (ground arith) m)
    ∙ path_binds s k own (ground arith) n

split_isolates :
    (s : Scope) (roles : List Role) (role : Role) (ps : List Text) (ws : Text) (rest : List Text)
    (k own : Text)
    → isolates s roles ps ≡ true
    → valid_role role ≡ true
    → has_role roles role ≡ true
    → in_scope s k own ≡ true
    → match_split ps (bytes "workspaces" ∷ ws ∷ rest) ≡ some k
    → (role ≡ founder) ⊎ (ws ≡ own)
split_isolates s roles founder ps ws rest k own i v h n m = inl refl
split_isolates s roles (unknown_role r) ps ws rest k own i v h n m = unfold valid_role in cc
split_isolates s roles workspace_admin ps ws rest k own i v h n m =
    inr (tenant_bound s roles ps ws rest k own i (ground arith) n m)
split_isolates s roles workspace_member ps ws rest k own i v h n m =
    inr (tenant_bound s roles ps ws rest k own i (ground arith) n m)

-- what it takes to be let through
granted_by :
    (check : Rule → Bool) (rules : List Rule) (c : Claims) (action resource : Text)
    → all check rules ≡ true
    → authorize_claims rules (some c) action resource ≡ none
    → (valid_role c.role ≡ true)
      × ((e : Rule) × (check e ≡ true) × (allows c action resource e ≡ true))
unfolding authorize_claims
granted_by check rules c action resource h g =
    (ground arith, any_checked check (allows c action resource) rules h (ground arith))

allows-matched :
    (c : Claims) (action resource : Text) (e : Rule)
    → allows c action resource e ≡ true
    → (k : Text) × (match_split (split_path e.resource_pattern) (split_path resource) ≡ some k)
      × (has_role e.roles c.role ≡ true)
      × (in_scope e.scope k c.workspace_id ≡ true)
unfolding allows match_resource
allows-matched c action resource e h =
    elim (Option-cases (match_split (split_path e.resource_pattern) (split_path resource))) [
      | inl no_match ↦ absurd (ground arith)
      | inr (k, match) ↦ (k, match, ground arith, ground arith)
    ]

pub tenant_stays_in_workspace :
    (c : Claims) (action resource ws : Text) (rest : List Text)
    → authorize_claims implemented_rules (some c) action resource ≡ none
    → split_path resource ≡ bytes "workspaces" ∷ ws ∷ rest
    → (c.role ≡ founder) ⊎ (ws ≡ c.workspace_id)
unfolding isolates_rule
tenant_stays_in_workspace c action resource ws rest g path =
    let (valid, (e, i, allowed)) =
      granted_by isolates_rule implemented_rules c action resource implemented_rules-isolate g in
    let (k, match, named, bound) = allows-matched c action resource e allowed in
    split_isolates e.scope e.roles c.role (split_path e.resource_pattern) ws rest k c.workspace_id i
      valid named bound (ap (match_split (split_path e.resource_pattern)) (sym path) ∙ match)

can_be-any :
    (v verb : Text) (ds : List Text)
    → can_be v verb ≡ true
    → any (text_eq verb) ds ≡ true
    → any (can_be v) ds ≡ true
can_be-any v verb [] c h = h
can_be-any v verb (d ∷ ds) c h = elim (Bool-cases (text_eq verb d)) [
  | inl same ↦
      subst (λ t. can_be v t || any (can_be v) ds ≡ true) (eq_of_text_eq verb d same) (ground arith)
  | inr other ↦ ground (arith, can_be-any v verb ds c (ground arith))
]

only_admin :
    (roles : List Role) (role : Role)
    → valid_role role ≡ true
    → has_role roles role ≡ true
    → has_role roles founder ≡ false
    → has_role roles workspace_member ≡ false
    → role ≡ workspace_admin
unfolding valid_role
only_admin roles workspace_admin v h f m = refl
only_admin roles founder v h f m = cc
only_admin roles workspace_member v h f m = cc
only_admin roles (unknown_role r) v h f m = cc

bound_workspace :
    (s : Scope) (k own : Text) → is_bound s ≡ true → in_scope s k own ≡ true → own ≢ []
unfolding in_scope
bound_workspace scope_none k own b h = cc
bound_workspace scope_self k own b h = λ e. ground arith
bound_workspace scope_path k own b h = λ e. ground arith

decision_bound :
    (s : Scope) (roles : List Role) (role : Role) (ps : List Text) (id verb k own : Text)
    → admins_only s roles ps ≡ true
    → valid_role role ≡ true
    → has_role roles role ≡ true
    → in_scope s k own ≡ true
    → any (text_eq verb) decisions ≡ true
    → match_split ps (bytes "publications" ∷ id ∷ verb ∷ []) ≡ some k
    → (role ≡ workspace_admin) × (own ≢ [])
unfolding admins_only
decision_bound s roles role [] id verb k own a v n b d m = unfold match_split in cc
decision_bound s roles role (p ∷ []) id verb k own a v n b d m = unfold match_split in cc
decision_bound s roles role (p ∷ q ∷ []) id verb k own a v n b d m = unfold match_split in cc
decision_bound s roles role (p ∷ q ∷ r ∷ []) id verb k own a v n b d m =
    let first = first_can_be p (bytes "publications") (q ∷ r ∷ []) (id ∷ verb ∷ []) m in
    let third =
      can_be-any r verb decisions (third_can_be p (bytes "publications") q id r verb m) d in
    (
      only_admin roles role v n (ground arith) (ground arith),
      bound_workspace s k own (ground arith) b,
    )
decision_bound s roles role (p ∷ q ∷ r ∷ t ∷ ps) id verb k own a v n b d m =
    unfold match_split in ground arith

pub decision_needs_admin :
    (c : Claims) (action resource id verb : Text)
    → authorize_claims implemented_rules (some c) action resource ≡ none
    → split_path resource ≡ bytes "publications" ∷ id ∷ verb ∷ []
    → any (text_eq verb) decisions ≡ true
    → (c.role ≡ workspace_admin) × (c.workspace_id ≢ [])
unfolding admins_only_rule
decision_needs_admin c action resource id verb g path d =
    let (valid, (e, a, allowed)) =
      granted_by admins_only_rule implemented_rules c action resource implemented_rules-admins_only
        g in
    let (k, match, named, bound) = allows-matched c action resource e allowed in
    decision_bound e.scope e.roles c.role (split_path e.resource_pattern) id verb k c.workspace_id a
      valid named bound d (ap (match_split (split_path e.resource_pattern)) (sym path) ∙ match)
