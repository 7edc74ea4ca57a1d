-- ===== src/Processor/Moves.antt =====
-- The processing thread of cpp/BulkIOToSDDSProcessor.cpp a step at a time, so that other threads can act
-- between its steps. The thread begins, tests `m_shutdown`, and reads and sends; sendPacket and the
-- rest of a round touch nothing that another thread writes but `m_shutdown`, and are one step.
pub mod Runs
pub mod Active
use sink_sdds.Base.{◌≡◌, true, false}
use sink_sdds.Processor.Types.{Env, Read, spawned, testing, reading, Processor}
use sink_sdds.Processor.Loop.{body, begin, end_run}

pub data Move (E : Env) (p q : Processor) : Type 0 where
  begins : p.thread ≡ spawned → q ≡ begin p → Move E p q
  leaves : p.thread ≡ testing → p.shutdown_flag ≡ true → q ≡ end_run p → Move E p q
  enters :
      p.thread ≡ testing → p.shutdown_flag ≡ false → q ≡ record p { thread = reading } → Move E p q
  reads :
      (r : Read) → p.thread ≡ reading → q ≡ body E r (record p { thread = testing }) → Move E p q

pub data Moves (E : Env) : Processor → Processor → Type 0 where
  done : (p : Processor) → Moves E p p
  then_on : (p q r : Processor) → Move E p q → Moves E q r → Moves E p r
