-- ===== src/App/Bookkeeping.antt =====
-- src/main.cpp: what holds of the shared variables whatever the order of the threads' steps.
pub mod Books
pub mod Control
pub mod Worker
use btccpu.Prelude.{ℕ, List, refl, arith}
use btccpu.Target.{FloatingPoint}
use btccpu.Json.{Json}
use btccpu.Connection.{Connection}
use btccpu.Client.{Client}
use btccpu.App.System.{AppSystem, start, Step, by_control, by_worker, by_main, Reach, here, later}
use btccpu.App.Bookkeeping.Books.{IsSound, Sound}
use btccpu.App.Bookkeeping.Control.{ControlStep-Sound}
use btccpu.App.Bookkeeping.Worker.{WorkerStep-Sound, MainStep-Sound}

module _ (f : FloatingPoint) (json : Json f.Double) (c : Connection) (beyond : List ℕ) where
  Step-Sound :
      (s t : AppSystem f json c beyond)
      → Step f json c beyond s t
      → Sound f json c beyond s
      → Sound f json c beyond t
  Step-Sound s t (by_control step) x = ControlStep-Sound f json c beyond s t step x
  Step-Sound s t (by_worker step) x = WorkerStep-Sound f json c beyond s t step x
  Step-Sound s t (by_main step) x = MainStep-Sound f json c beyond s t step x

  -- In whatever order the control thread, the worker and the main thread access the shared variables,
  -- the exceptions and the exits of the threads included: the published work is of the current
  -- generation, or of the one before it while the control thread has counted a generation up and not
  -- stored its work; no adopted work and no queued share is of a later generation; the shares counted
  -- as accepted and rejected are the submissions that are told in events, and one while it is about
  -- to be; and the shares counted as found are those submitted and discarded in events, those in the
  -- queue, those that a thread holds, and those that were lost, where all counters count modulo 2 ^ 64.
  pub Reach-Sound :
      (client : Client f json c) (s : AppSystem f json c beyond)
      → Reach f json c beyond (start f json c beyond client) s
      → Sound f json c beyond s
  Reach-Sound client s here = record {
    current = λ p e. cc;
    known = λ p e. cc;
    in_queue = tt;
    holds = tt;
    finds = tt;
    answers = refl;
    shares = refl;
  }
  Reach-Sound client s (later {s = before} run step) =
      Step-Sound before s step (Reach-Sound client before run)
