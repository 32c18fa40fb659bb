-- ===== src/Tools/Interceptor/Authorization.antt =====
-- Who may call a tool.
use intellisphere.Common.{
  String, ◌≡◌, refl, Bool, false, ◌&&◌, ◌||◌, Option, none, some, List, [], ◌∷◌, is_ok, all,
  is_empty, arith,
}
use intellisphere.Common.Text.{mem_str}
use intellisphere.Auth.Identity.{Identity}
use intellisphere.Tools.Registry.{ToolRegistration}
use intellisphere.Tools.Interceptor.{check_roles, check_scopes, check_identity, check_authorization}

check_roles-all :
    (roles : List String) (i : Identity)
    → is_ok (check_roles roles i) ≡ all (λ r. mem_str r i.roles) roles
unfolding check_roles
check_roles-all [] i = refl
check_roles-all (r ∷ rs) i = ground (arith, check_roles-all rs i)

check_scopes-all :
    (scopes roles : List String) (i : Identity)
    → is_ok (check_scopes scopes roles i)
      ≡ (all (λ s. mem_str s i.scopes) scopes && all (λ r. mem_str r i.roles) roles)
unfolding check_scopes
check_scopes-all [] roles i = check_roles-all roles i
check_scopes-all (s ∷ ss) roles i = ground (arith, check_scopes-all ss roles i)

-- The caller holds every scope and every role that the tool requires.
abbrev pub holds_all : ToolRegistration → Option Identity → Bool
holds_all reg none = false
holds_all reg (some i) =
    all (λ s. mem_str s i.scopes) reg.required_scopes
    && all (λ r. mem_str r i.roles) reg.required_roles

check_identity-holds :
    (reg : ToolRegistration) (caller : Option Identity)
    → is_ok (check_identity reg caller) ≡ holds_all reg caller
unfolding check_identity
check_identity-holds reg none = refl
check_identity-holds reg (some i) = check_scopes-all reg.required_scopes reg.required_roles i

-- A call is authorised exactly when the tool requires nothing, or there is an identity that holds
-- every required scope and every required role.
pub check_authorization-is_ok :
    (reg : ToolRegistration) (caller : Option Identity)
    → is_ok (check_authorization reg caller)
      ≡ ((is_empty reg.required_scopes && is_empty reg.required_roles) || holds_all reg caller)
unfolding check_authorization
check_authorization-is_ok reg caller = ground (arith, check_identity-holds reg caller)
