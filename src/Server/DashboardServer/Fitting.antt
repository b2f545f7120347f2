-- ===== src/Server/DashboardServer/Fitting.antt =====
-- The frames that a session is given while its queue has room.
use Prim.Native.String.{String}
use lockfree_matching_engine.Prelude.{
  ℕ, append-nil, ltb, ◌≡◌, sym, ap, ◌∙◌, true, false, List, [], ◌∷◌, ◌++◌, append_assoc,
  if◌then◌else◌, leb, arith,
}
use lockfree_matching_engine.Server.DashboardServer.{max_queued}

-- The frames that came while fewer than 64 waited.
abbrev pub fitting : List (String × ℕ) → List String
fitting [] = []
fitting ((frame, waiting) ∷ gs) = (if ltb waiting 64 then frame ∷ [] else []) ++ fitting gs

fitting-append :
    (gs : List (String × ℕ)) (frame : String) (waiting : ℕ)
    → fitting (gs ++ (frame, waiting) ∷ [])
      ≡ fitting gs ++ (if ltb waiting 64 then frame ∷ [] else [])
fitting-append [] frame waiting = append-nil (if ltb waiting 64 then frame ∷ [] else [])
fitting-append ((f, n) ∷ gs) frame waiting =
    ap (λ fs. (if ltb n 64 then f ∷ [] else []) ++ fs) (fitting-append gs frame waiting)
    ∙ sym (append_assoc (if ltb n 64 then f ∷ [] else []) (fitting gs) _)

pub fitting-fits :
    (gs : List (String × ℕ)) (frame : String) (waiting : ℕ)
    → leb max_queued waiting ≡ false
    → fitting (gs ++ (frame, waiting) ∷ []) ≡ fitting gs ++ frame ∷ []
fitting-fits gs frame waiting room =
    let l : ltb waiting 64 ≡ true = ground arith in
    fitting-append gs frame waiting ∙ ap (λ b. fitting gs ++ (if b then frame ∷ [] else [])) l

pub fitting-refused :
    (gs : List (String × ℕ)) (frame : String) (waiting : ℕ)
    → leb max_queued waiting ≡ true
    → fitting (gs ++ (frame, waiting) ∷ []) ≡ fitting gs
fitting-refused gs frame waiting full =
    let l : ltb waiting 64 ≡ false = ground arith in
    fitting-append gs frame waiting
    ∙ ap (λ b. fitting gs ++ (if b then frame ∷ [] else [])) l
    ∙ append-nil (fitting gs)
