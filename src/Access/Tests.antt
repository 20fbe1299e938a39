-- ===== src/Access/Tests.antt =====
-- adapters/http/middleware.go: two requests a window, for a tenant that makes three.
use spur_messaging.Prelude.{◌≤◌, List, [], ◌∷◌, arith}
use spur_messaging.Domain.Message.{Uuid, Time}
use spur_messaging.Access.Windows.{recent_count, admitted_of, serve_all, serve_all-recent_count}

abbrev requests : List (Uuid × Time)
requests = (7, 100) ∷ (8, 110) ∷ (7, 120) ∷ (7, 130) ∷ []

serve_all-recent_count_example :
    recent_count 60 130 (admitted_of 7 (serve_all 2 60 (λ t. []) [] requests).1) ≤ 2
serve_all-recent_count_example =
    serve_all-recent_count 2 60 requests 7 130
      (omega arith, (omega arith, (omega arith, (omega arith, omega arith))))
