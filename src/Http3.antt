-- ===== src/Http3.antt =====
-- `drive_request` of crates/conduit-h3/src/lib.rs, with the stream of the crate `h3` as arguments: what its
-- calls to receive return, in order, and whether the call `k` to send succeeds. The result is what was
-- sent, in order, and whether the function returned without an error.
pub mod Stream
mod Tests
use ferroxy.Prelude.{
  ℕ, zero, suc, ◌+◌, ◌++◌, Bool, true, false, List, [], ◌∷◌, Option, none, some, if◌then◌else◌,
}
use ferroxy.Prelude.Text.{Text}
use ferroxy.Http.{Http}
use ferroxy.Proto.Body.{Frame, data_frame, trailers_frame}
use ferroxy.Upstream.Forward.{Parts, Response}

-- What `recv_data` returns: a buffer as its contiguous slices, or an error. After the last comes `None`.
pub data Received : Type 0 where
  buffer : List Text → Received
  recv_failed : Received

-- What the response's body yields: a frame, or an error. After the last comes `None`.
pub data Yielded (T : Type 0) : Type 0 where
  yielded : Frame T → Yielded T
  body_failed : Yielded T

-- The head of a response, a chunk of data, or the end of the stream.
pub data Sent (T : Type 0) : Type 0 where
  head : ℕ → T → Sent T
  data_ : Text → Sent T
  finished : Sent T

-- The loop over the slices of one buffer.
unfoldable pub extend : Text → List Text → Text
extend buf [] = buf
extend buf (s ∷ slices) = extend (buf ++ s) slices

unfoldable pub recv_body : Text → List Received → Option Text
unfolding extend
recv_body buf [] = some buf
recv_body buf (recv_failed ∷ rest) = none
recv_body buf (buffer slices ∷ rest) = recv_body (extend buf slices) rest

module _ {T : Type 0} (sends : ℕ → Bool) where
  abbrev sent_first : Sent T → List (Sent T) × Bool → List (Sent T) × Bool
  sent_first s (trace, result) = (s ∷ trace, result)

  -- The loop over the frames and the call of `finish`.
  unfoldable pub stream_body : ℕ → List (Yielded T) → List (Sent T) × Bool
  stream_body k [] = if sends k then (finished ∷ [], true) else ([], false)
  stream_body k (body_failed ∷ rest) = ([], false)
  stream_body k (yielded (trailers_frame t) ∷ rest) = stream_body k rest
  stream_body k (yielded (data_frame d) ∷ rest) =
      let after = stream_body (k + 1) rest in
      if sends k then sent_first (data_ d) after else ([], false)

  unfoldable pub send_response : ℕ → T → List (Yielded T) → List (Sent T) × Bool
  unfolding stream_body
  send_response status headers frames =
      let after = stream_body 1 frames in
      if sends 0 then sent_first (head status headers) after else ([], false)

module _ (h : Http) (sends : ℕ → Bool)
    (handler : Parts h → Text → Response h (List (Yielded h.HeaderMap))) where
  abbrev respond : Response h (List (Yielded h.HeaderMap)) → List (Sent h.HeaderMap) × Bool
  respond resp = send_response sends resp.status resp.headers resp.body

  abbrev pub after_body : Parts h → Option Text → List (Sent h.HeaderMap) × Bool
  after_body parts none = ([], false)
  after_body parts (some body) = respond (handler parts body)

  -- `resolved` is what `resolve_request` returns.
  unfoldable pub drive_request : Option (Parts h) → List Received → List (Sent h.HeaderMap) × Bool
  unfolding recv_body send_response
  drive_request none received = ([], false)
  drive_request (some parts) received = after_body parts (recv_body [] received)

-- What `accept` of the connection returns: a stream, with what its calls return, the end, or an error.
pub data Incoming (h : Http) : Type 0 where
  stream : (ℕ → Bool) → Option (Parts h) → List Received → Incoming h
  peer_closed connection_failed : Incoming h

module _ (h : Http) (handler : Parts h → Text → Response h (List (Yielded h.HeaderMap))) where
  abbrev with_task :
      List (Sent h.HeaderMap) × Bool
      → Option (Bool × List (List (Sent h.HeaderMap) × Bool))
      → Option (Bool × List (List (Sent h.HeaderMap) × Bool))
  with_task task none = none
  with_task task (some (clean, tasks)) = some (clean, task ∷ tasks)

  -- The loop of `serve_connection`: whether it ended cleanly, and what each task did. `none` is a
  -- connection that still waits.
  unfoldable pub serve_connection :
      List (Incoming h) → Option (Bool × List (List (Sent h.HeaderMap) × Bool))
  unfolding drive_request
  serve_connection [] = none
  serve_connection (peer_closed ∷ rest) = some (true, [])
  serve_connection (connection_failed ∷ rest) = some (false, [])
  serve_connection (stream sends resolved received ∷ rest) =
      with_task (drive_request h sends handler resolved received) (serve_connection rest)
