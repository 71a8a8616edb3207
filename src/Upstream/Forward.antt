-- ===== src/Upstream/Forward.antt =====
-- `Upstream::forward` of crates/conduit-upstream/src/lib.rs. The HTTP client is a parameter: `client i out`
-- is its reply to the request `out` of the attempt `i`. `clock 0` is the instant of the choice of a
-- backend, and `clock n` the instant after `n` calls of the client. Beside its result `forward`
-- returns the new state of the upstream and the requests handed to the client, oldest first.
pub mod Attempts
pub mod Outcomes
pub mod Promises
pub mod Effects
pub mod Reach
pub mod Until
mod Tests
use ferroxy.Prelude.{
  ℕ, zero, suc, ◌+◌, Bool, true, false, not, ◌&&◌, List, [], ◌∷◌, Option, none, some, length, max,
  get_elem?, is_empty, ltb, leb, ◌==◌, if◌then◌else◌,
}
use ferroxy.Prelude.Text.{Text, codes}
use ferroxy.Prelude.Checked.{Checked, done, expect, ◌>>=◌}
use ferroxy.Prelude.Result.{Result, ok, err}
use ferroxy.Http.{Http, UriParts}
use ferroxy.Upstream.Retry.{RetryPolicy, RetryDecision, stop, retry, decide_status}
use ferroxy.Upstream.Pool.{Upstream, SocketAddr, pick_addr, observe_breaker_outcome}
use ferroxy.Upstream.Timed.{TimedBody}
use ferroxy.Upstream.Timed

pub data Version : Type 0 where
  http_10 http_11 http_2 http_3 : Version

pub record Parts (h : Http) : Type 0 where
  pub method : Text
  pub uri : h.Uri
  pub version : Version
  pub headers : h.HeaderMap

-- A request body as `forward` sees it: the size that it knows, and what collecting it yields.
pub record RequestBody : Type 0 where
  pub exact : Option ℕ
  pub collect : Option Text

pub record Request (h : Http) : Type 0 where
  pub parts : Parts h
  pub body : RequestBody

pub record Response (h : Http) (B : Type 0) : Type 0 where
  pub status : ℕ
  pub headers : h.HeaderMap
  pub body : B

pub data ForwardError : Type 0 where
  client_error : Bool → ForwardError
  body_error : ForwardError
  retries_exhausted : ℕ → ForwardError
  breaker_open : ForwardError

-- What the client replies to one request; a failure says whether it was in the connect phase.
pub data Reply (h : Http) : Type 0 where
  answered : Response h h.Incoming → Reply h
  broken : Bool → Reply h

abbrev pub Outgoing : Http → Type 0
Outgoing h = Parts h × Text

-- How the retry loop ends.
pub data Outcome (h : Http) : Type 0 where
  stopped : Response h h.Incoming → Outcome h
  gave_up : Bool → Outcome h
  exhausted : ℕ → Outcome h

abbrev pub attempt_limit : RetryPolicy → ℕ
attempt_limit p = max p.attempts 1

abbrev pub is_server_error : ℕ → Bool
is_server_error status = leb 500 status && ltb status 600

-- `parts.path_and_query`, or a single slash.
abbrev path_or_root : Option Text → Text
path_or_root none = codes "/"
path_or_root (some p) = p

module _ (h : Http) where
  unfoldable pub rewrite_uri : h.Uri → Text → Option h.Uri
  rewrite_uri original authority = h.from_parts (record {
    scheme = some (codes "http");
    authority = some authority;
    path_and_query = some (path_or_root (h.into_parts original).path_and_query);
  })

  -- The head as it goes to the backend: HTTP/1.1, and no `host` header.
  unfoldable pub egress_parts : Parts h → Parts h
  egress_parts p = record p { version = http_11; headers = h.remove p.headers h.host_name }

  module _ (client : ℕ → Outgoing h → Reply h) (p : RetryPolicy) where
    -- The `for attempt in 0..attempts` loop; the first number counts the rounds left. `iter` holds
    -- the head and the body until the last attempt takes them.
    unfoldable pub attempts_loop :
        ℕ → ℕ → Option (Outgoing h) → ℕ → Checked (Outcome h × List (Outgoing h))
    attempts_loop zero attempt iter last_status = done (exhausted last_status, [])
    attempts_loop (suc rounds) attempt iter last_status =
        let left : Option (Outgoing h) = if attempt + 1 == attempt_limit p then none else iter in
        do
          out ← expect iter
          (ending, sent) ← elim (client attempt out) [
            | answered resp ↦ elim (decide_status p resp.status attempt) [
              | stop ↦ done (stopped resp, [])
              | retry ↦ attempts_loop rounds (attempt + 1) left resp.status
            ]
            | broken connect ↦
                let again = attempts_loop rounds (attempt + 1) left last_status in
                if connect && p.on_connect_error && ltb (attempt + 1) p.attempts
                then again
                else done (gave_up connect, [])
          ]
          done (ending, out ∷ sent)

  -- What the choice of a backend leaves for the rest of `forward`.
  pub data Chosen : Type 0 where
    ready : Parts h → Option ℕ → Upstream → Chosen
    refused : ForwardError → Upstream → Chosen

  abbrev with_uri : Parts h → ℕ → Upstream → Option h.Uri → Chosen
  with_uri parts idx u none = refused body_error u
  with_uri parts idx u (some uri) = ready (record parts { uri = uri }) (some idx) u

  unfoldable pub choose : Upstream → Parts h → ℕ → Checked Chosen
  choose u parts now = if is_empty u.addrs then done (ready parts none u) else do
    (picked, u') ← pick_addr u now
    elim picked [
      | none ↦ done (refused breaker_open u')
      | some (addr, idx) ↦ do
        authority ← expect (get_elem? u'.authorities idx)
        done (with_uri parts idx u' (rewrite_uri parts.uri authority))
    ]

  -- The body is collected unless it is known to be empty.
  unfoldable pub buffered : RequestBody → Option Text
  buffered body = elim body.exact [
    | some n ↦ if n == 0 then some [] else body.collect
    | none ↦ body.collect
  ]

  abbrev pub Reported : Type 0
  Reported = Result ForwardError (Response h (TimedBody h.Incoming)) × Upstream × List (Outgoing h)

  -- The end of `forward`: the outcome is recorded with the breaker, and becomes the result.
  unfoldable pub conclude : Upstream → Option ℕ → ℕ → ℕ → Outcome h × List (Outgoing h) → Reported
  conclude u idx read_timeout now (stopped resp, sent) = (
    ok (record {
      status = resp.status;
      headers = resp.headers;
      body = Timed.new resp.body read_timeout;
    }),
    observe_breaker_outcome u idx (not (is_server_error resp.status)) now,
    sent,
  )
  conclude u idx read_timeout now (gave_up connect, sent) =
      (err (client_error connect), observe_breaker_outcome u idx false now, sent)
  conclude u idx read_timeout now (exhausted last_status, sent) =
      (err (retries_exhausted last_status), observe_breaker_outcome u idx false now, sent)

  module _ (client : ℕ → Outgoing h → Reply h) (clock : ℕ → ℕ) (p : RetryPolicy)
      (read_timeout : ℕ) where
    -- From the buffered body on.
    unfoldable pub send : Parts h → Option ℕ → Upstream → Option Text → Checked Reported
    send parts idx u none = done (err body_error, u, [])
    send parts idx u (some bytes) = do
      (ending, sent) ← attempts_loop client p (attempt_limit p) 0 (some (parts, bytes)) 500
      done (conclude u idx read_timeout (clock (length sent)) (ending, sent))

    -- From the chosen backend on.
    unfoldable pub proceed : RequestBody → Chosen → Checked Reported
    unfolding send
    proceed body (refused e u) = done (err e, u, [])
    proceed body (ready parts idx u) = send parts idx u (buffered body)

  unfoldable pub forward :
      (ℕ → Outgoing h → Reply h) → (ℕ → ℕ) → Upstream → Request h → ℕ → Checked Reported
  unfolding proceed
  forward client clock u req read_timeout = do
    chosen ← choose u (egress_parts req.parts) (clock 0)
    proceed client clock u.retry read_timeout req.body chosen
