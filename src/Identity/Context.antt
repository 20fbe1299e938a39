-- ===== src/Identity/Context.antt =====
-- pkg/authctx/authctx.go: the identity in a request's context, and the questions asked of it.
use spur_messaging.Prelude.{
  String, Bool, true, false, ◌||◌, ◌==◌, Option, none, some, List, [], ◌∷◌, ◌++◌, is_empty, str_eq,
  if◌then◌else◌,
}
use spur_messaging.Domain.Errors.{other}
use spur_messaging.Domain.Message.{Uuid}
use spur_messaging.Calls.{Result, ok, err}

-- The values that a context has under the keys of this package.
pub record Context : Type 0 where
  pub tenant : Option Uuid
  pub user : Option Uuid
  pub roles : Option (List String)
  pub permissions : Option (List String)
  pub method : Option String

-- `Identity`; `uuid.Nil` is 0.
pub record Principal : Type 0 where
  pub tenant_id : Uuid
  pub user_id : Uuid
  pub roles : List String
  pub permissions : List String
  pub auth_method : String
  pub super_admin : Bool

abbrev pub unless_nil : Uuid → Option Uuid → Option Uuid
unless_nil id old = if id == 0 then old else some id

abbrev pub unless_empty : String → Option String → Option String
unless_empty s old = if is_empty s then old else some s

abbrev pub with_star : Bool → List String → List String
with_star false ps = ps
with_star true ps = ps ++ ("*" ∷ [])

-- `WithIdentity`.
unfoldable pub with_identity : Context → Principal → Context
with_identity ctx p = record {
  tenant = unless_nil p.tenant_id ctx.tenant;
  user = unless_nil p.user_id ctx.user;
  roles = some p.roles;
  permissions = some (with_star p.super_admin p.permissions);
  method = unless_empty p.auth_method ctx.method;
}

-- `WithAPIKey`.
unfoldable pub with_api_key : Context → Uuid → List String → Context
unfolding with_identity
with_api_key ctx tenant_id scopes = with_identity ctx (record {
  tenant_id = tenant_id;
  user_id = 0;
  roles = [];
  permissions = scopes;
  auth_method = "api_key";
  super_admin = false;
})

-- `IsAuthenticated`.
unfoldable pub is_authenticated : Context → Bool
is_authenticated ctx = elim ctx.tenant [ some t ↦ true | none ↦ false ]

-- `TenantID`, which panics where there is none.
unfoldable pub tenant_id_of : Context → Result Uuid
tenant_id_of ctx = elim ctx.tenant [
  | some t ↦ ok t
  | none ↦ err (other "authctx: tenant_id missing from context — auth middleware not applied")
]

-- `UserID`.
unfoldable pub user_id_of : Context → Uuid
user_id_of ctx = elim ctx.user [ some u ↦ u | none ↦ 0 ]

unfoldable pub grants : String → List String → Bool
grants permission [] = false
grants permission (p ∷ ps) = str_eq p permission || str_eq p "*" || grants permission ps

-- `HasPermission`.
unfoldable pub has_permission : Context → String → Bool
unfolding grants
has_permission ctx permission = elim ctx.permissions [
  | some ps ↦ grants permission ps
  | none ↦ false
]

unfoldable pub is_among : String → List String → Bool
is_among s [] = false
is_among s (x ∷ xs) = str_eq x s || is_among s xs

-- `HasRole`.
unfoldable pub has_role : Context → String → Bool
unfolding is_among
has_role ctx role = elim ctx.roles [ some rs ↦ is_among role rs | none ↦ false ]

-- `AuthMethod`.
unfoldable pub auth_method_of : Context → String
auth_method_of ctx = elim ctx.method [ some m ↦ m | none ↦ "" ]
