-- ===== src/Examples.antt =====
-- Tests: the theorems at concrete inputs, by component.
mod RegistryRuns
mod ExplorerRuns
mod ViewRuns
mod ScreenRuns
mod FlowRuns
mod WalletRuns
mod SubmitRuns
mod IssuerAppRuns
mod VerifierRuns
mod SomeVerifierRuns
mod HashRuns
mod PageRuns
mod TestToolRuns
mod ButtonRuns
mod FieldRuns
mod SomeIssuerRuns
