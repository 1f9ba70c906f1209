-- ===== src/Aiger/Read/Legal.antt =====
-- A file of the binary form is read and translated to a circuit that the checkers can rely on.
use modelchecker.Common.{ℕ, suc, ◌+◌, ◌*◌, ◌<◌, length, All}
use modelchecker.Aiger.{Aiger, AigerLatch, AigerAnd}
use modelchecker.Aiger.Read.Print.{File, IsBinary}

abbrev pub num_vars : File → ℕ
num_vars f = suc (length f.inputs + length f.latches + length f.ands)

-- All literals are of the file's variables, the gates' inputs are smaller than the gates, and there
-- is a property.
pub record IsLegal (f : File) : Type 0 where
  pub binary : IsBinary f
  pub nexts : All (λ (l : AigerLatch). l.next < 2 * num_vars f) f.latches
  pub outputs : All (λ l. l < 2 * num_vars f) f.outputs
  pub bads : All (λ l. l < 2 * num_vars f) f.bads
  pub constraints : All (λ l. l < 2 * num_vars f) f.constraints
  pub smaller : All (λ (g : AigerAnd). g.i1 < g.o) f.ands
  pub has_property : 0 < length f.bads + length f.outputs
