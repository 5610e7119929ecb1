-- ===== src/Optimizer/Hang.antt =====
-- util/opt.c: a jump into a cycle of jumps that it is not part of.
use ivm.Base.{List}
use ivm.Exec.{Exec}
