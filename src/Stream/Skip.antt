-- ===== src/Stream/Skip.antt =====
-- `ActorSkipStream` of src/stream.rs against `ActorStream`.
use actix_send.Prelude.{◌≡◌, refl, List, [], ◌∷◌, Option, none, some}
use actix_send.Error.{Result}
use actix_send.FutureHandle.{Poll, ready, pending}
use actix_send.Stream.{
  ActorStreamState, next, last, Answers, poll_next, skip_loop, poll_skip, outputs, skip_outputs,
}

-- The answers of the inner stream without the items that are skipped.
abbrev pub compact :
    {Item : Type 0} → List (Poll (Option (Option Item))) → List (Poll (Option Item))
compact [] = []
compact (pending ∷ xs) = pending ∷ compact xs
compact (ready none ∷ xs) = ready none ∷ compact xs
compact (ready (some none) ∷ xs) = compact xs
compact (ready (some (some item)) ∷ xs) = ready (some item) ∷ compact xs

module _ {Item Reply Output : Type 0} (map_result : Reply → Result Output) where
  skip_loop-poll_next :
      (source : List (Poll (Option (Option Item)))) (a : Answers Reply)
      → let (out, state, rest) = skip_loop map_result source a in
        (out, state, compact rest) ≡ poll_next map_result (next, compact source) a
  unfolding skip_loop poll_next
  skip_loop-poll_next [] a = refl
  skip_loop-poll_next (pending ∷ xs) a = refl
  skip_loop-poll_next (ready none ∷ xs) a = refl
  skip_loop-poll_next (ready (some none) ∷ xs) a = skip_loop-poll_next xs a
  skip_loop-poll_next (ready (some (some item)) ∷ xs) a = refl

  poll_skip-poll_next :
      (state : ActorStreamState) (source : List (Poll (Option (Option Item)))) (a : Answers Reply)
      → let (out, state', rest) = poll_skip map_result (state, source) a in
        (out, state', compact rest) ≡ poll_next map_result (state, compact source) a
  unfolding poll_skip
  poll_skip-poll_next next source a = skip_loop-poll_next source a
  poll_skip-poll_next (last rx) source a = unfold poll_next in refl

  -- Poll for poll, a skip stream yields what a plain stream yields over the same inner answers
  -- without the skipped items, whatever the actor and its channel answer.
  pub skip_outputs-outputs :
      (state : ActorStreamState) (source : List (Poll (Option (Option Item))))
      (later : List (Answers Reply))
      → skip_outputs map_result (state, source) later
        ≡ outputs map_result (state, compact source) later
  unfolding outputs skip_outputs
  skip_outputs-outputs state source [] = refl
  skip_outputs-outputs state source (a ∷ later) =
      let r = poll_skip map_result (state, source) a in
      rw (← poll_skip-poll_next state source a, skip_outputs-outputs r.1 r.2 later)
