-- ===== src/Http3/Stream.antt =====
-- What a client of the HTTP/3 server receives.
use ferroxy.Prelude.{
  ℕ, ◌+◌, ◌≡◌, refl, ◌∙◌, sym, ap, ◌++◌, inl, inr, Bool, true, false, List, [], ◌∷◌, map, Option,
  none, some, Bool-cases,
}
use ferroxy.Prelude.Text.{Text}
use ferroxy.Http.{Http}
use ferroxy.Proto.Body.{Frame, data_frame, trailers_frame}
use ferroxy.Upstream.Forward.{Parts, Response}
use ferroxy.Http3.{
  Received, buffer, Yielded, yielded, body_failed, Sent, head, data_, finished, extend, recv_body,
  stream_body, send_response, after_body, drive_request,
}

unfoldable pub concat : List Text → Text
concat [] = []
concat (s ∷ ss) = s ++ concat ss

unfoldable pub concat_all : List (List Text) → Text
concat_all [] = []
concat_all (b ∷ bs) = concat b ++ concat_all bs

-- The data among the frames, and the end of the stream after it.
unfoldable pub data_of : {T : Type 0} → List (Frame T) → List (Sent T)
data_of [] = finished ∷ []
data_of (data_frame d ∷ fs) = data_ d ∷ data_of fs
data_of (trailers_frame t ∷ fs) = data_of fs

append_assoc : {A : Type 0} (xs ys zs : List A) → (xs ++ ys) ++ zs ≡ xs ++ (ys ++ zs)
append_assoc [] ys zs = refl
append_assoc (x ∷ xs) ys zs = ap (λ l. x ∷ l) (append_assoc xs ys zs)

append_nil : {A : Type 0} (xs : List A) → xs ++ [] ≡ xs
append_nil [] = refl
append_nil (x ∷ xs) = ap (λ l. x ∷ l) (append_nil xs)

extend-concat : (buf : Text) (slices : List Text) → extend buf slices ≡ buf ++ concat slices
unfolding extend concat
extend-concat buf [] = sym (append_nil buf)
extend-concat buf (s ∷ slices) =
    extend-concat (buf ++ s) slices ∙ append_assoc buf s (concat slices)

recv_body-concat_all :
    (buf : Text) (bs : List (List Text))
    → recv_body buf (map buffer bs) ≡ some (buf ++ concat_all bs)
unfolding recv_body concat_all
recv_body-concat_all buf [] = ap some (sym (append_nil buf))
recv_body-concat_all buf (b ∷ bs) =
    recv_body-concat_all (extend buf b) bs
    ∙ ap (λ t. some (t ++ concat_all bs)) (extend-concat buf b)
    ∙ ap some (append_assoc buf (concat b) (concat_all bs))

module _ {T : Type 0} (sends : ℕ → Bool) where
  stream_body-data_of :
      (k : ℕ) (fs : List (Frame T))
      → ((j : ℕ) → sends j ≡ true)
      → stream_body sends k (map yielded fs) ≡ (data_of fs, true)
  unfolding stream_body data_of
  stream_body-data_of k [] ok = rw (ok k) refl
  stream_body-data_of k (data_frame d ∷ fs) ok = rw (ok k, stream_body-data_of (k + 1) fs ok) refl
  stream_body-data_of k (trailers_frame t ∷ fs) ok = stream_body-data_of k fs ok

-- The stream ends properly.
pub data Ends {T : Type 0} : List (Sent T) → Type 0 where
  ends : Ends (finished ∷ [])
  later : {s : Sent T} {trace : List (Sent T)} → Ends trace → Ends (s ∷ trace)

abbrev pub NotFinished : {T : Type 0} → List (Sent T) → Type 0
NotFinished [] = Unit
NotFinished (head n t ∷ trace) = NotFinished trace
NotFinished (data_ d ∷ trace) = NotFinished trace
NotFinished (finished ∷ trace) = ⊥

-- A stream that returned without an error was finished, and no other was.
abbrev pub Closed : {T : Type 0} → List (Sent T) × Bool → Type 0
Closed (trace, true) = Ends trace
Closed (trace, false) = NotFinished trace

module _ {T : Type 0} (sends : ℕ → Bool) where
  stream_body-Closed : (k : ℕ) (ys : List (Yielded T)) → Closed (stream_body sends k ys)
  unfolding stream_body
  stream_body-Closed k [] = elim (Bool-cases (sends k)) [ inl e ↦ rw e ends | inr e ↦ rw e tt ]
  stream_body-Closed k (body_failed ∷ rest) = tt
  stream_body-Closed k (yielded (trailers_frame t) ∷ rest) = stream_body-Closed k rest
  stream_body-Closed k (yielded (data_frame d) ∷ rest) = elim (Bool-cases (sends k)) [
    | inl e ↦ rw e (go (stream_body sends (k + 1) rest) (stream_body-Closed (k + 1) rest))
    | inr e ↦ rw e tt
  ]
    where
      go : (r : List (Sent T) × Bool) → Closed r → Closed (data_ d ∷ r.0, r.1)
      go (trace, true) c = later c
      go (trace, false) c = c

  send_response-Closed :
      (status : ℕ) (headers : T) (ys : List (Yielded T))
      → Closed (send_response sends status headers ys)
  unfolding send_response
  send_response-Closed status headers ys = elim (Bool-cases (sends 0)) [
    | inl e ↦ rw e (go (stream_body sends 1 ys) (stream_body-Closed 1 ys))
    | inr e ↦ rw e tt
  ]
    where
      go : (r : List (Sent T) × Bool) → Closed r → Closed (head status headers ∷ r.0, r.1)
      go (trace, true) c = later c
      go (trace, false) c = c

module _ {T : Type 0} (sends : ℕ → Bool) where
  send_response-data_of :
      (status : ℕ) (headers : T) (ys : List (Yielded T)) (fs : List (Frame T))
      → ((j : ℕ) → sends j ≡ true)
      → ys ≡ map yielded fs
      → send_response sends status headers ys ≡ (head status headers ∷ data_of fs, true)
  unfolding send_response
  send_response-data_of status headers ys fs ok e =
      rw (ok 0, e, stream_body-data_of sends 1 fs ok) refl

module _ (h : Http) (sends : ℕ → Bool)
    (handler : Parts h → Text → Response h (List (Yielded h.HeaderMap))) where
  -- If nothing fails, the handler gets the slices of all received buffers put together, and the client
  -- gets the head of its response, the data of the response's frames in order, and the end of the
  -- stream; trailers are not sent.
  pub drive_request-data_of :
      (parts : Parts h) (bs : List (List Text)) (fs : List (Frame h.HeaderMap))
      → ((j : ℕ) → sends j ≡ true)
      → (handler parts (concat_all bs)).body ≡ map yielded fs
      → drive_request h sends handler (some parts) (map buffer bs) ≡ (
        head (handler parts (concat_all bs)).status (handler parts (concat_all bs)).headers
            ∷ data_of fs,
        true,
      )
  unfolding drive_request
  drive_request-data_of parts bs fs ok e =
      ap (after_body h sends handler parts) (recv_body-concat_all [] bs)
      ∙ send_response-data_of sends _ _ _ fs ok e

  after_body-Closed :
      (parts : Parts h) (o : Option Text) → Closed (after_body h sends handler parts o)
  after_body-Closed parts none = tt
  after_body-Closed parts (some body) = send_response-Closed sends _ _ _

  -- Whatever fails, the stream is finished exactly if the function returns without an error, and
  -- then that is the last thing sent.
  pub drive_request-Closed :
      (resolved : Option (Parts h)) (received : List Received)
      → Closed (drive_request h sends handler resolved received)
  unfolding drive_request
  drive_request-Closed none received = tt
  drive_request-Closed (some parts) received = after_body-Closed parts (recv_body [] received)
