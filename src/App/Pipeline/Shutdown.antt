-- ===== src/App/Pipeline/Shutdown.antt =====
-- What the shutdown of a stage guarantees, and what it does not.
use lockfree_matching_engine.Prelude.{
  ℕ, ◌+◌, ◌<◌, ◌≡◌, refl, sym, ap, ◌∙◌, Bool, true, false, List, [], ◌∷◌, ◌++◌, append_assoc,
  append-nil, length, length-append, arith,
}
use lockfree_matching_engine.App.Pipeline.{
  Stage, missed, ended, new_stage, pushed, failed_pop, Step, push, finish, raise_stop, pop, miss,
  retry, leave, Steps, here, next,
}

module _ {A : Type 0} (capacity : ℕ) (other_ring : Bool) where
  -- Nothing is lost or reordered, the flag follows the producer's end and the worker's end the flag,
  -- and a worker past a failed pop has in its ring just what came since.
  pub record IsStage (s : Stage A) : Type 0 where
    pub in_order : s.sent ≡ s.handled ++ s.ring
    pub joined : s.stop ≡ true → s.producer_done ≡ true
    pub stopped : s.worker ≡ ended → s.stop ≡ true
    pub late_missed : s.worker ≡ missed → s.ring ≡ s.late
    pub late_ended : s.worker ≡ ended → s.ring ≡ s.late

  Step-IsStage : {s t : Stage A} → Step capacity other_ring s t → IsStage s → IsStage t
  Step-IsStage (push m s going room) v = record {
    in_order = ap (λ xs. xs ++ m ∷ []) v.in_order ∙ append_assoc s.handled s.ring (m ∷ []);
    joined = v.joined;
    stopped = v.stopped;
    late_missed = λ h. ap (λ xs. xs ++ m ∷ []) (v.late_missed h);
    late_ended = λ h. ap (λ xs. xs ++ m ∷ []) (v.late_ended h);
  }
  Step-IsStage (finish s) v = record {
    in_order = v.in_order;
    joined = λ h. refl;
    stopped = v.stopped;
    late_missed = v.late_missed;
    late_ended = v.late_ended;
  }
  Step-IsStage (raise_stop s done) v = record {
    in_order = v.in_order;
    joined = λ h. done;
    stopped = λ h. refl;
    late_missed = v.late_missed;
    late_ended = v.late_ended;
  }
  Step-IsStage (pop m ms s at_top e) v = record {
    in_order = v.in_order ∙ ap (λ xs. s.handled ++ xs) e ∙ sym (append_assoc s.handled (m ∷ []) ms);
    joined = v.joined;
    stopped = λ h. cc;
    late_missed = λ h. cc;
    late_ended = λ h. cc;
  }
  Step-IsStage (miss s at_top e) v = record {
    in_order = v.in_order;
    joined = v.joined;
    stopped = λ h. cc;
    late_missed = λ h. e;
    late_ended = λ h. cc;
  }
  Step-IsStage (retry s at_test down) v = record {
    in_order = v.in_order;
    joined = v.joined;
    stopped = λ h. cc;
    late_missed = λ h. cc;
    late_ended = λ h. cc;
  }
  Step-IsStage (leave s at_test up) v = record {
    in_order = v.in_order;
    joined = v.joined;
    stopped = λ h. up;
    late_missed = λ h. cc;
    late_ended = λ h. v.late_missed at_test;
  }

  pub Steps-IsStage : {s t : Stage A} → Steps capacity other_ring s t → IsStage s → IsStage t
  Steps-IsStage here v = v
  Steps-IsStage (next r st) v = Step-IsStage st (Steps-IsStage r v)

  new_stage-IsStage : IsStage new_stage
  new_stage-IsStage = record {
    in_order = refl;
    joined = λ h. cc;
    stopped = λ h. cc;
    late_missed = λ h. refl;
    late_ended = λ h. refl;
  }

  -- In every state that the steps of a worker, of the thread in front of it and of `main` reach:
  -- what went into the ring is what the worker has handled, in the same order, followed by what
  -- is in the ring; the stop flag is up only after the thread in front has ended; the worker has
  -- ended only after the flag was up; and a worker past a failed pop, or past its loop, has in
  -- the ring just what came in since that pop.
  pub Steps-new_stage : {s : Stage A} → Steps capacity other_ring new_stage s → IsStage s
  Steps-new_stage r = Steps-IsStage r new_stage-IsStage

  pub Steps-trans :
      {s t u : Stage A}
      → Steps capacity other_ring s t
      → Steps capacity other_ring t u
      → Steps capacity other_ring s u
  Steps-trans r here = r
  Steps-trans r (next q st) = next (Steps-trans r q) st

  pushes :
      (ms : List A) (s : Stage A)
      → s.producer_done ≡ false
      → length s.ring + length ms < capacity
      → Steps capacity other_ring s
          (record s { ring = s.ring ++ ms; sent = s.sent ++ ms; late = s.late ++ ms })
  pushes [] s going room = rw (append-nil s.ring, append-nil s.sent, append-nil s.late) here
  pushes (m ∷ ms) s going room =
      let s1 = pushed capacity other_ring m s in
      let first = push m s going (omega arith) in
      let rest = pushes ms s1 going (omega (arith, length-append s.ring (m ∷ []))) in
      rw
        (
          ← append_assoc s.ring (m ∷ []) ms,
          ← append_assoc s.sent (m ∷ []) ms,
          ← append_assoc s.late (m ∷ []) ms,
        )
        (Steps-trans (next here first) rest)

  -- For any list of fewer messages than the ring's capacity, a state is reachable in which the
  -- worker has ended, the messages are all that was sent, they are still in the ring, and none
  -- is handled.
  pub Steps-abandoned :
      (ms : List A)
      → length ms < capacity
      → (s : Stage A) × Steps capacity other_ring new_stage s
        × (s.worker ≡ ended)
        × (s.ring ≡ ms)
        × (s.sent ≡ ms)
        × (s.handled ≡ [])
  Steps-abandoned ms room =
      let s1 = failed_pop capacity other_ring new_stage in
      let s2 = record s1 { ring = ms; sent = ms; late = ms } in
      let s3 = record s2 { producer_done = true } in
      let s4 = record s3 { stop = true } in
      (
        record s4 { worker = ended },
        next
            (next
              (next
                (Steps-trans (next here (miss new_stage refl refl))
                  (pushes ms s1 refl (omega arith)))
                (finish s2))
              (raise_stop s3 refl))
            (leave s4 refl refl),
        refl,
        refl,
        refl,
        refl,
      )
