-- ===== src/Http3/Tests.antt =====
-- A request in two buffers, answered with two chunks and trailers.
use ferroxy.Prelude.{ℕ, ◌≡◌, refl, Bool, true, false, List, [], ◌∷◌, map, some, leb, not}
use ferroxy.Prelude.Text.{Text, codes}
use ferroxy.Http.Sample.{sample_http}
use ferroxy.Proto.Body.{Frame, data_frame, trailers_frame}
use ferroxy.Lifecycle.Dispatch.Tests.{get_index}
use ferroxy.Upstream.Forward.{Parts, Response}
use ferroxy.Http3.{
  buffer, recv_failed, Yielded, yielded, head, data_, drive_request, recv_body, extend,
  send_response, stream_body,
}
use ferroxy.Http3.Stream.{concat_all, data_of, drive_request-data_of}

abbrev no_headers : List (Text × Text)
no_headers = []

abbrev frames : List (Frame (List (Text × Text)))
frames = data_frame (codes "a") ∷ trailers_frame no_headers ∷ data_frame (codes "b") ∷ []

abbrev echo : Parts sample_http → Text → Response sample_http (List (Yielded (List (Text × Text))))
echo parts body = record {
  status = 200;
  headers = no_headers;
  body = yielded (data_frame body) ∷ map yielded frames;
}

abbrev always : ℕ → Bool
always k = true

abbrev arrived : List (List Text)
arrived = (codes "x" ∷ codes "y" ∷ []) ∷ (codes "z" ∷ []) ∷ []

cut_short :
    drive_request sample_http (λ k. not (leb 2 k)) echo (some get_index.parts) (map buffer arrived)
    ≡ (head 200 no_headers ∷ data_ (codes "xyz") ∷ [], false)
unfolding drive_request recv_body extend send_response stream_body
cut_short = refl

lost : drive_request sample_http always echo (some get_index.parts) (recv_failed ∷ []) ≡ ([], false)
unfolding drive_request recv_body
lost = refl

same_frames :
    (echo get_index.parts (concat_all arrived)).body
    ≡ map yielded (data_frame (concat_all arrived) ∷ frames)
same_frames = refl

drive_request-data_of_example :
    drive_request sample_http always echo (some get_index.parts) (map buffer arrived)
    ≡ (head 200 no_headers ∷ data_of (data_frame (concat_all arrived) ∷ frames), true)
drive_request-data_of_example =
    drive_request-data_of sample_http always echo get_index.parts arrived
      (data_frame (concat_all arrived) ∷ frames) (λ j. refl) same_frames
