-- ===== src/Http/Denied.antt =====
-- adapters/http: what becomes of a request without the permission, and of one without a tenant.
use spur_messaging.Prelude.{false, ◌≡◌, refl, some, arith}
use spur_messaging.Domain.Errors.{sentinel, forbidden, is_error, error_text}
use spur_messaging.Domain.Message.{Uuid}
use spur_messaging.Identity.Context.{tenant_id_of, has_permission, is_authenticated}
use spur_messaging.Api.Respond.{error_code_map, respond_error, as_domain_error, search}
use spur_messaging.Http.Env.{Request, HttpHistory, HttpEnv}
use spur_messaging.Http.Steps.{refused, failed, respond}
use spur_messaging.Http.Routes.{Endpoint, documented}
use spur_messaging.Http.Dispatch.{handle}
use spur_messaging.Http.Guarded.{needed}

module _ (env : HttpEnv) (req : Request) (h : HttpHistory) where
  handle_lem :
      (e : Endpoint) {t : Uuid}
      → req.context.tenant ≡ some t
      → has_permission req.context (needed e) ≡ false
      → handle env req e h ≡ (refused (sentinel forbidden), h)
  unfolding handle documented tenant_id_of is_authenticated
  handle_lem e own bare = ground arith

  -- A request of a tenant without the permission of the route is answered with 403 and FORBIDDEN, and
  -- nothing is asked of any service.
  pub handle_forbidden :
      (e : Endpoint) {t : Uuid}
      → req.context.tenant ≡ some t
      → has_permission req.context (needed e) ≡ false
      → (respond error_code_map (handle env req e h).0
          ≡ failed (record { status = 403; code = "FORBIDDEN"; message = "forbidden"; field = "" }))
        × ((handle env req e h).1 ≡ h)
  unfolding respond respond_error as_domain_error search is_error error_text
  handle_forbidden e own bare = rw (handle_lem e own bare) (refl, refl)
