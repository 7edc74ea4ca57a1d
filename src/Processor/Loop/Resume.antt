-- ===== src/Processor/Loop/Resume.antt =====
-- What is left of the loop of cpp/BulkIOToSDDSProcessor.cpp for a thread that is blocked in the read.
use sink_sdds.Base.{List, [], ◌∷◌}
use sink_sdds.Processor.Types.{Env, Read, testing, Processor}
use sink_sdds.Processor.Loop.{resume, body, no_data}
use sink_sdds.Processor.Loop.Ending.{IsBalanced, IsBalanced-trans, body-IsBalanced, loop-IsBalanced}

returned : (p q : Processor) → IsBalanced (record p { thread = testing }) q → IsBalanced p q
returned p q h = record {
  same_held = h.same_held;
  same_callbacks = h.same_callbacks;
  grows = h.grows;
}

pub resume-IsBalanced :
    (E : Env) (reads : List Read) (p : Processor) → IsBalanced p (resume E reads p)
unfolding resume
resume-IsBalanced E [] p =
    let back : Processor = record p { thread = testing } in
    IsBalanced-trans p (body E (no_data p) back) _
      (returned p (body E (no_data p) back) (body-IsBalanced E (no_data p) back))
      (loop-IsBalanced E [] (body E (no_data p) back))
resume-IsBalanced E (r ∷ reads) p =
    let back : Processor = record p { thread = testing } in
    IsBalanced-trans p (body E r back) _ (returned p (body E r back) (body-IsBalanced E r back))
      (loop-IsBalanced E reads (body E r back))
