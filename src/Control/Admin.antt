-- ===== src/Control/Admin.antt =====
-- `handle` of crates/conduit-control/src/admin.rs: the routing of admin requests. `metrics_page` is the body
-- of `metrics_response`, whose numbers Control/Metrics models, and `view` the renderer, if there is one.
use ferroxy.Prelude.{ℕ, Option, none, some, if◌then◌else◌}
use ferroxy.Prelude.Text.{Text, codes, text_eq}

pub record AdminResponse : Type 0 where
  pub status : ℕ
  pub content_type : Text
  pub body : Text

unfoldable pub plain_text : ℕ → Text → AdminResponse
plain_text status body = record {
  status = status;
  content_type = codes "text/plain; charset=utf-8";
  body = body;
}

abbrev metrics_response : Text → AdminResponse
metrics_response page = record {
  status = 200;
  content_type = codes "text/plain; version=0.0.4; charset=utf-8";
  body = page;
}

abbrev view_response : Option Text → AdminResponse
view_response none = plain_text 404 (codes "not found\n")
view_response (some body) = plain_text 200 body

unfoldable pub handle_admin : Text → Option Text → Text → Text → AdminResponse
handle_admin metrics_page view method path =
    if text_eq method (codes "GET")
    then (if text_eq path (codes "/health")
        then plain_text 200 (codes "ok\n")
        else if text_eq path (codes "/ready")
        then plain_text 200 (codes "ready\n")
        else if text_eq path (codes "/metrics")
        then metrics_response metrics_page
        else if text_eq path (codes "/upstreams")
        then view_response view
        else if text_eq path (codes "/")
        then plain_text 200 (codes "conduit admin\nendpoints: /health /ready /metrics /upstreams\n")
        else plain_text 404 (codes "not found\n"))
    else plain_text 404 (codes "not found\n")
