-- ===== src/Proto/Body/Laws.antt =====
-- A body in memory delivers its chunks in order, then its trailers, and then ends.
use ferroxy.Prelude.{
  ℕ, zero, suc, ◌+◌, ◌≤◌, ◌≡◌, refl, ◌↔◌, ap, ◌++◌, true, List, [], ◌∷◌, Option, none, some, length,
  map, arith,
}
use ferroxy.Prelude.Text.{Text}
use ferroxy.Proto.Body.{
  Frame, data_frame, trailers_frame, VecBody, remaining, is_end_stream, poll_frame, collect,
  trailer_frames,
}

module _ {T : Type 0} where
  -- Polled once for each chunk, once for the trailers and once more, a body has delivered each of its
  -- chunks in order and then its trailers, if it has any.
  pub collect_lem :
      (b : VecBody T) (n : ℕ)
      → length b.chunks + 2 ≤ n
      → collect n b ≡ map data_frame b.chunks ++ trailer_frames b.trailers
  unfolding collect poll_frame
  collect_lem b n h = go b.chunks b.trailers n h
    where
      go :
          (cs : List Text) (t : Option T) (n : ℕ)
          → length cs + 2 ≤ n
          → collect n (record { chunks = cs; trailers = t }) ≡ map data_frame cs ++ trailer_frames t
      go cs t zero h = absurd (omega arith)
      go [] none (suc n) h = refl
      go [] (some t) (suc zero) h = absurd (omega arith)
      go [] (some t) (suc (suc n)) h = refl
      go (c ∷ cs) t (suc n) h = ap (λ fs. data_frame c ∷ fs) (go cs t n (omega arith))

  abbrev pub frame_len : Option (Frame T) → ℕ
  frame_len (some (data_frame c)) = length c
  frame_len (some (trailers_frame t)) = 0
  frame_len none = 0

  -- `is_end_stream` holds exactly if the next poll ends the body, and each poll takes the length of
  -- its frame off the exact size that `size_hint` reports.
  pub poll_frame_lem :
      (b : VecBody T)
      → ((is_end_stream b ≡ true) ↔ ((poll_frame b).0 ≡ none))
        × (remaining b ≡ frame_len (poll_frame b).0 + remaining (poll_frame b).1)
  unfolding is_end_stream poll_frame remaining
  poll_frame_lem b = go b.chunks b.trailers
    where
      go :
          (cs : List Text) (t : Option T)
          → ((is_end_stream (record { chunks = cs; trailers = t }) ≡ true)
              ↔ ((poll_frame (record { chunks = cs; trailers = t })).0 ≡ none))
            × (remaining (record { chunks = cs; trailers = t })
                ≡ frame_len (poll_frame (record { chunks = cs; trailers = t })).0
                  + remaining (poll_frame (record { chunks = cs; trailers = t })).1)
      go [] none = ((λ e. refl, λ e. refl), omega arith)
      go [] (some t) = ((λ e. cc, λ e. cc), omega arith)
      go (c ∷ cs) none = ((λ e. cc, λ e. cc), omega arith)
      go (c ∷ cs) (some t) = ((λ e. cc, λ e. cc), omega arith)
