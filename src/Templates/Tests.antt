-- ===== src/Templates/Tests.antt =====
-- core/services/template_service.go on one environment, whose template is rejected.
use spur_messaging.Prelude.{true, refl, none, some, [], ◌∷◌}
use spur_messaging.Domain.Errors.{sentinel, not_found}
use spur_messaging.Domain.Message.{whatsapp}
use spur_messaging.Domain.Template.{EmailTemplate, Template, rejected, approved, draft}
use spur_messaging.Templates.Emails.{EmailEnv}
use spur_messaging.Templates.Versions.{
  asks_duplicate, obey_email, AllKeepVersions, obey_email-AllKeepVersions,
}
use spur_messaging.Calls.{ok, err}
use spur_messaging.Registry.Lookup.{platform_config}
use spur_messaging.Templates.Env.{TemplateEnv}
use spur_messaging.Templates.Approval.{asks_submit, obey, AllMayWrite, obey-AllMayWrite}

abbrev tmpl : Template
tmpl = record {
  id = 8;
  tenant_id = 7;
  channel = whatsapp;
  name = "spring";
  language = "en";
  category = "marketing";
  components = [];
  status = rejected;
  provider_template_id = some "p1";
  rejection_reason = some "TAG_CONTENT_MISMATCH";
  created_at = 0;
  updated_at = 0;
}

abbrev env_of : Template → TemplateEnv
env_of t = record {
  new_uuid = λ h. 9;
  clock = λ h. 1000;
  get_by_id = λ h u id. ok t;
  get_by_name = λ h u n l. err (sentinel not_found);
  create = λ h x. ok tt;
  update = λ h x. ok tt;
  delete = λ h u id. ok tt;
  update_status = λ h u id s p r. ok tt;
  get_provider = λ h u c. ok (platform_config (Unit {0}) 7 whatsapp "meta_cloud" none);
  submit_template = λ h c x. ok "p2";
  get_template_status = λ h c p. ok (approved, none);
}

abbrev drafted : Template
drafted = record tmpl { status = draft; provider_template_id = none }

obey-AllMayWrite_example : AllMayWrite 7 8 drafted (obey (env_of drafted) 7 8 asks_submit []).1
obey-AllMayWrite_example = obey-AllMayWrite (env_of drafted) 7 8 asks_submit {tmpl = drafted} refl

abbrev email_tmpl : EmailTemplate
email_tmpl = record {
  id = 4;
  tenant_id = 7;
  name = "welcome_email";
  subject = "Hello {{name}}";
  preview_text = "";
  html_body = "<p>{{name}}</p>";
  text_body = "{{name}}";
  category = "transactional";
  variables = "name" ∷ [];
  is_active = true;
  version = 2;
  created_at = 0;
  updated_at = 0;
}

abbrev email_env : EmailEnv
email_env = record {
  new_uuid = λ h. 9;
  clock = λ h. 1000;
  get_by_id = λ h u id. ok email_tmpl;
  create = λ h x. ok tt;
  update = λ h x. ok tt;
  delete = λ h u id. ok tt;
}

obey_email-AllKeepVersions_example :
    AllKeepVersions email_tmpl (obey_email email_env 7 4 (asks_duplicate "welcome_2") []).1
obey_email-AllKeepVersions_example =
    obey_email-AllKeepVersions email_env 7 4 (asks_duplicate "welcome_2") {tmpl = email_tmpl} refl
