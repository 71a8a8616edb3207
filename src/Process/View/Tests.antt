-- ===== src/Process/View/Tests.antt =====
-- The page of two upstreams, in both orders.
use ferroxy.Prelude.{◌≡◌, ◌≢◌, refl, true, [], ◌∷◌, ◌++◌}
use ferroxy.Prelude.Text.{codes, text_eq, text_eq_iff}
use ferroxy.Upstream.Pool.{Upstream, breaker_state, tally}
use ferroxy.Upstream.Retry.{no_retry}
use ferroxy.Process.View.{
  Entry, text_le, insert_by_name, sort_by_name, render_entry, render_entries, render_upstreams,
}
use ferroxy.Process.View.Order.{swapped, render_upstreams-Shuffled}

abbrev idle : Upstream
idle = record { retry = no_retry; addrs = []; authorities = []; next = 0; breakers = [] }

abbrev api : Entry
api = (codes "api", record idle { addrs = codes "10.0.0.1:80" ∷ codes "10.0.0.2:80" ∷ [] })

abbrev web : Entry
web = (codes "web", idle)

page :
    render_upstreams 0 (web ∷ api ∷ [])
    ≡ codes "upstream api addrs=[\"10.0.0.1:80\",\"10.0.0.2:80\"] breaker=closed\n"
      ++ codes "upstream web addrs=[] breaker=closed\n"
unfolding render_upstreams render_entries render_entry sort_by_name insert_by_name text_le
    breaker_state tally
page = refl

nothing : render_upstreams 0 [] ≡ codes "(no upstreams)\n"
unfolding render_upstreams render_entries sort_by_name
nothing = refl

differ : web.0 ≢ api.0
unfolding text_eq
differ = λ e. let q : text_eq web.0 api.0 ≡ true = (text_eq_iff web.0 api.0).1 e in cc

render_upstreams-Shuffled_example :
    render_upstreams 0 (web ∷ api ∷ []) ≡ render_upstreams 0 (api ∷ web ∷ [])
render_upstreams-Shuffled_example =
    render_upstreams-Shuffled 0 (web ∷ api ∷ []) (api ∷ web ∷ []) (swapped web api [] differ)
