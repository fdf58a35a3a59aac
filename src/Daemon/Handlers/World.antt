-- ===== src/Daemon/Handlers/World.antt =====
-- daemon/handlers/test.hpp, `Context`: what the handlers share, beside the peer's uid.
use chowdy.Base.{◌≡◌}
use chowdy.Files.{FileSystem}
use chowdy.Daemon.Store.{EnrollmentStore}
use chowdy.Daemon.Sessions.{SessionManager}
use chowdy.Daemon.Pipeline.{Pipeline}

pub record World : Type 0 where
  pub fs : FileSystem
  pub store : EnrollmentStore
  pub sessions : SessionManager
  pub pipeline : Pipeline

-- Files and sessions are the same.
abbrev pub IsKept : World → World → Type 0
IsKept w w' = (w'.fs ≡ w.fs) × (w'.sessions ≡ w.sessions)
