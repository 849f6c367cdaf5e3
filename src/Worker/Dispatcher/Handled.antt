-- ===== src/Worker/Dispatcher/Handled.antt =====
-- `_handle_message`: how the handling of one message ends.
use allocation_key_generatio.Base.{
  ℕ, ◌≡◌, ap, ◌∙◌, if◌then◌else◌, ◌⊎◌, inl, inr, Bool, true, false, none, some, [], ◌∷◌, ◌++◌,
}
use allocation_key_generatio.Base.Text.{Text, codes}
use allocation_key_generatio.Base.Num.{Num}
use allocation_key_generatio.Worker.World.{
  World, Action, ◌>>◌, reply, count, worker_messages, ack, nak, Outcome, done, transient, raised,
  without,
}
use allocation_key_generatio.Worker.Persistence.{claimable, save_failure}
use allocation_key_generatio.Worker.Persistence.Settles.{Quiet, Saved, save_failure-Saved}
use allocation_key_generatio.Worker.Dispatcher.{
  Delivery, event, Terminal, process, conclude, handle_generation, handle_message,
  nak_retry_delay_seconds,
}
use allocation_key_generatio.Worker.Dispatcher.Sources.{Ends}
use allocation_key_generatio.Worker.Dispatcher.Process.{process-Ends}

module _ {F : Num} where
  -- The three ways, for generation `id` and the worlds before and after: acked with the generation
  -- settled and at most one object deleted; nakked with every object kept; or not replied to at
  -- all, with every object kept, so that the message comes back after ack_wait.
  pub data Handled (id : ℕ) (v w : World F) : Type 0 where
    acked :
        w.replies ≡ v.replies ++ ack ∷ []
        → claimable F id w ≡ none
        → (w.objects ≡ v.objects) ⊎ ((key : Text) × (w.objects ≡ without key v.objects))
        → Handled id v w
    nakked :
        w.replies ≡ v.replies ++ nak nak_retry_delay_seconds ∷ []
        → w.objects ≡ v.objects
        → Handled id v w
    unanswered : w.replies ≡ v.replies → w.objects ≡ v.objects → Handled id v w

module _ {F : Num} {Bytes : Type 0} (env : Delivery F Bytes) where
  abbrev pub ack_unhandled : Action F (Unit {0})
  ack_unhandled = do reply ack; count (worker_messages env.algorithm (codes "ack_unhandled"))

  unhandled-Handled :
      (id : ℕ) (v u : World F) (end : Outcome (Unit {0}) × World F)
      → Quiet v u
      → Saved id u end
      → Handled id v (((λ _. end) >> ack_unhandled) u).1
  unhandled-Handled id v u (done _, w) q s =
      let r = s.quiet.replies ∙ q.replies in
      acked (ap (λ l. l ++ ack ∷ []) r) s.settles (inl (s.quiet.objects ∙ q.objects))
  unhandled-Handled id v u (transient x, w) q s =
      unanswered (s.quiet.replies ∙ q.replies) (s.quiet.objects ∙ q.objects)
  unhandled-Handled id v u (raised x, w) q s =
      unanswered (s.quiet.replies ∙ q.replies) (s.quiet.objects ∙ q.objects)

  deleted-Handled :
      (deletes : Bool) (id : ℕ) (key : Text) (v w : World F)
      → Quiet v w
      → claimable F id w ≡ none
      → let replied = record w { replies = w.replies ++ ack ∷ [] } in
        Handled id v
          (if deletes then record replied { objects = without key replied.objects } else replied)
  deleted-Handled true id key v w q s =
      acked (ap (λ l. l ++ ack ∷ []) q.replies) s (inr (key, ap (without key) q.objects))
  deleted-Handled false id key v w q s = acked (ap (λ l. l ++ ack ∷ []) q.replies) s (inl q.objects)

  conclude-Handled :
      (id : ℕ) (v : World F) (end : Outcome Terminal × World F)
      → Ends id v end
      → Handled id v (conclude env id end.0 end.1).1
  conclude-Handled id v (done none, w) (q, s) =
      acked (ap (λ l. l ++ ack ∷ []) q.replies) s (inl q.objects)
  conclude-Handled id v (done (some key), w) (q, s) = deleted-Handled env.deletes id key v w q s
  conclude-Handled id v (transient e, w) q =
      nakked (ap (λ l. l ++ nak nak_retry_delay_seconds ∷ []) q.replies) q.objects
  conclude-Handled id v (raised e, w) q =
      unhandled-Handled id v w
        (save_failure F env.unhandled_db id (codes "unhandled_worker_error") w) q
        (save_failure-Saved env.unhandled_db id (codes "unhandled_worker_error") w)

  -- Whatever the databases, the object store, the solver and the other workers do, as long as
  -- nobody else touches the object store or answers this message: a message for a generation is
  -- acked only once the generation is not pending any more (or gone), and an object is deleted
  -- only with that ack; a nakked or unanswered message, which comes back, finds every object.
  pub handle_message-Handled :
      (id : ℕ) (v : World F)
      → ((w : World F) → Quiet w (env.meanwhile w))
      → Handled id v (handle_message env (event (some id)) v).1
  unfolding handle_message handle_generation
  handle_message-Handled id v calm =
      conclude-Handled id v (process env id v) (process-Ends env calm id v)
