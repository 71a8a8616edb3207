-- ===== src/Proto/Body.antt =====
-- `VecBody` of crates/conduit-proto/src/body.rs, with chunks as lists of bytes. `Trailers` is
-- `http::HeaderMap`. Each method that takes `&mut self` returns the new body.
pub mod Laws
mod Tests
use ferroxy.Prelude.{
  ℕ, zero, suc, ◌+◌, ◌≡◌, refl, ◌∙◌, ap, sym, ◌&&◌, ◌++◌, Bool, List, [], ◌∷◌, Option, none, some,
  is_empty, length, length-append, if◌then◌else◌, map, arith,
}
use ferroxy.Prelude.Text.{Text}

pub data Frame (Trailers : Type 0) : Type 0 where
  data_frame : Text → Frame Trailers
  trailers_frame : Trailers → Frame Trailers

pub record VecBody (Trailers : Type 0) : Type 0 where
  pub chunks : List Text
  pub trailers : Option Trailers

abbrev pub sum_len : List Text → ℕ
sum_len [] = 0
sum_len (c ∷ cs) = length c + sum_len cs

module _ {T : Type 0} where
  abbrev pub empty : VecBody T
  empty = record { chunks = []; trailers = none }

  unfoldable pub from_chunks : List Text → VecBody T
  from_chunks chunks = record { chunks = chunks; trailers = none }

  unfoldable pub from_bytes : Text → VecBody T
  from_bytes bytes =
      if is_empty bytes then empty else record { chunks = bytes ∷ []; trailers = none }

  unfoldable pub with_trailers : VecBody T → T → VecBody T
  with_trailers b t = record b { trailers = some t }

  unfoldable pub remaining : VecBody T → ℕ
  remaining b = sum_len b.chunks

  unfoldable pub is_end_stream : VecBody T → Bool
  is_end_stream b = is_empty b.chunks && elim b.trailers [ none ↦ Bool.true | some t ↦ Bool.false ]

  abbrev poll_trailers : Option T → Option (Frame T) × VecBody T
  poll_trailers (some t) = (some (trailers_frame t), empty)
  poll_trailers none = (none, empty)

  -- `poll_frame`, which is always ready and never fails.
  unfoldable pub poll_frame : VecBody T → Option (Frame T) × VecBody T
  poll_frame b = elim b.chunks [
    | c ∷ cs ↦ (some (data_frame c), record b { chunks = cs })
    | [] ↦ poll_trailers b.trailers
  ]

  -- The frames of a body that is polled up to its end, in at most so many polls.
  unfoldable pub collect : ℕ → VecBody T → List (Frame T)
  collect zero b = []
  collect (suc n) b = elim (poll_frame b).0 [ none ↦ [] | some f ↦ f ∷ collect n (poll_frame b).1 ]

  abbrev pub trailer_frames : Option T → List (Frame T)
  trailer_frames none = []
  trailer_frames (some t) = trailers_frame t ∷ []
