-- ===== src/App/Pipeline/Closing.antt =====
-- That a worker behind a closed ring finishes, whichever steps were taken.
use lockfree_matching_engine.Prelude.{
  ℕ, ◌≡◌, refl, sym, ap, ◌∙◌, subst, ◌≢◌, ◌⊎◌, inl, inr, Bool, true, false, List, [], ◌∷◌, ◌++◌,
  append_assoc, append-nil,
}
use lockfree_matching_engine.App.Pipeline.{
  WorkerAt, Stage, looping, missed, ended, new_stage, popped, failed_pop, Step, push, finish,
  raise_stop, pop, miss, retry, leave, Steps, here, next,
}
use lockfree_matching_engine.App.Pipeline.Shutdown.{Steps-IsStage, Steps-new_stage, Steps-trans}

module _ {A : Type 0} (capacity : ℕ) (other_ring : Bool) where
  -- With the flag up, a worker before its pop can take everything and end.
  drains :
      (ms : List A) (s : Stage A)
      → s.worker ≡ looping
      → s.stop ≡ true
      → s.ring ≡ ms
      → Steps capacity other_ring s
          (record s { ring = []; worker = ended; handled = s.handled ++ ms; late = [] })
  drains [] s at_top up e = rw (append-nil s.handled) (
      subst (λ r. Steps capacity other_ring s (record s { ring = r; worker = ended; late = [] })) e
        (next (next here (miss s at_top e)) (leave (failed_pop capacity other_ring s) refl up)))
  drains (m ∷ ms) s at_top up e =
      let s1 = popped capacity other_ring m ms s in
      let rest = drains ms s1 refl up refl in
      subst
        (λ hs.
          Steps capacity other_ring s
            (record s { ring = []; worker = ended; handled = hs; late = [] }))
        (append_assoc s.handled (m ∷ []) ms)
        (Steps-trans capacity other_ring (next here (pop m ms s at_top e)) rest)

  -- A worker behind a failed pop, or behind its loop, has an empty ring.
  data Rests (u : Stage A) : Type 0 where
    before_pop : u.worker ≡ looping → Rests u
    behind_miss : u.worker ≡ missed → u.ring ≡ [] → Rests u
    behind_loop : u.worker ≡ ended → u.ring ≡ [] → Rests u

  -- The flag is up and the thread in front has ended, after it has sent `all`.
  record Closing (all : List A) (u : Stage A) : Type 0 where
    up : u.stop ≡ true
    done : u.producer_done ≡ true
    sent : u.sent ≡ all
    rests : Rests u

  leave-Rests : (u : Stage A) → u.worker ≡ missed → Rests u → u.ring ≡ []
  leave-Rests u at (before_pop e) = absurd (before e at)
    where
      before : {w : WorkerAt} → w ≡ looping → w ≡ missed → ⊥
      before e at = cc
  leave-Rests u at (behind_miss e empty) = empty
  leave-Rests u at (behind_loop e empty) = empty

  Rests-flag : (u v : Stage A) → v.worker ≡ u.worker → v.ring ≡ u.ring → Rests u → Rests v
  Rests-flag u v w r (before_pop e) = before_pop (w ∙ e)
  Rests-flag u v w r (behind_miss e empty) = behind_miss (w ∙ e) (r ∙ empty)
  Rests-flag u v w r (behind_loop e empty) = behind_loop (w ∙ e) (r ∙ empty)

  Step-Closing :
      (all : List A) {u v : Stage A} → Step capacity other_ring u v → Closing all u → Closing all v
  Step-Closing all (push m u going room) c = absurd (ended_already c.done going)
    where
      ended_already : {b : Bool} → b ≡ true → b ≡ false → ⊥
      ended_already e going = cc
  Step-Closing all (finish u) c = record {
    up = c.up;
    done = refl;
    sent = c.sent;
    rests = Rests-flag u _ refl refl c.rests;
  }
  Step-Closing all (raise_stop u h) c = record {
    up = refl;
    done = c.done;
    sent = c.sent;
    rests = Rests-flag u _ refl refl c.rests;
  }
  Step-Closing all (pop m ms u at e) c = record {
    up = c.up;
    done = c.done;
    sent = c.sent;
    rests = before_pop refl;
  }
  Step-Closing all (miss u at e) c = record {
    up = c.up;
    done = c.done;
    sent = c.sent;
    rests = behind_miss refl e;
  }
  Step-Closing all (retry u at h) c = record {
    up = c.up;
    done = c.done;
    sent = c.sent;
    rests = before_pop refl;
  }
  Step-Closing all (leave u at h) c = record {
    up = c.up;
    done = c.done;
    sent = c.sent;
    rests = behind_loop refl (leave-Rests u at c.rests);
  }

  Steps-Closing :
      (all : List A) {u v : Stage A} → Steps capacity other_ring u v → Closing all u → Closing all v
  Steps-Closing all here c = c
  Steps-Closing all (next r st) c = Step-Closing all st (Steps-Closing all r c)

  -- The worker has ended, and has handled all that was sent.
  pub record Finished (s : Stage A) : Type 0 where
    pub worker : s.worker ≡ ended
    pub ring : s.ring ≡ []
    pub handled : s.handled ≡ s.sent

  -- The worker has finished, or it has not ended yet and can still finish.
  abbrev pub Finishes : Stage A → Type 0
  Finishes u =
      Finished u ⊎ ((u.worker ≢ ended) × (w : Stage A) × Steps capacity other_ring u w × Finished w)

  finishes : (u : Stage A) → u.stop ≡ true → u.sent ≡ u.handled ++ u.ring → Rests u → Finishes u
  finishes u up order (before_pop e) = inr (
    not_ended e,
    record u { ring = []; worker = ended; handled = u.handled ++ u.ring; late = [] },
    drains u.ring u e up refl,
    record { worker = refl; ring = refl; handled = sym order },
  )
    where
      not_ended : {w : WorkerAt} → w ≡ looping → w ≢ ended
      not_ended e h = cc
  finishes u up order (behind_miss e empty) = inr (
    not_ended e,
    record u { worker = ended },
    next here (leave u e up),
    record {
      worker = refl;
      ring = empty;
      handled = sym (order ∙ ap (λ xs. u.handled ++ xs) empty ∙ append-nil u.handled);
    },
  )
    where
      not_ended : {w : WorkerAt} → w ≡ missed → w ≢ ended
      not_ended e h = cc
  finishes u up order (behind_loop e empty) = inl (record {
    worker = e;
    ring = empty;
    handled = sym (order ∙ ap (λ xs. u.handled ++ xs) empty ∙ append-nil u.handled);
  })

  -- After any steps from a reachable state in which the stop flag is up and the worker is before
  -- its pop: nothing more was sent, and the worker has either ended, with its ring empty and all
  -- that was sent handled in its order, or has not ended and there are steps after which it has,
  -- with its ring empty and all that was sent handled in its order.
  pub Steps-Finished :
      {s u : Stage A}
      → Steps capacity other_ring new_stage s
      → s.stop ≡ true
      → s.worker ≡ looping
      → Steps capacity other_ring s u
      → (u.sent ≡ s.sent) × Finishes u
  Steps-Finished {s} {u} r up at_top q =
      let v = Steps-new_stage capacity other_ring r in
      let c =
        Steps-Closing s.sent q
          (record { up = up; done = v.joined up; sent = refl; rests = before_pop at_top }) in
      (c.sent, finishes u c.up (Steps-IsStage capacity other_ring q v).in_order c.rests)
