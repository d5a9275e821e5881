-- ===== src/Cli/Login.antt =====
-- Lemmas on the registry of the configuration after cmdLogin (cmd/krate/cmd_account.go).
use agentreg.Base.{Text}
use agentreg.Program.Runs.{Runs}
use agentreg.Process.{Process, C}
use agentreg.Cli.Formats.{Formats}
use agentreg.Cli.Saved.{AnyError, IsHome}

module _ (f : Formats) (home : Text) where
  abbrev Stays : {A : Type 0} → C A → Type 0
  Stays m = Runs (IsHome f home) m (λ a. IsHome f home) AnyError
