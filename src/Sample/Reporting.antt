-- ===== src/Sample/Reporting.antt =====
-- The machine on which process 5 stops at system calls until one of them was cancelled, and then exits.
use reproduce.Prelude.{◌==◌, if◌then◌else◌}
use reproduce.Kernel.{Kernel, Wait, Target, changed, any, only, minus_one}
use reproduce.Kernel.Frames.{Frames}
use reproduce.Kernel.Laws.{Ptrace}
use reproduce.Sample.Machine.{World, machine, view, laws, frames, stopped_status}

abbrev wait : Target → World → Wait × World
wait any w = (changed 5 (if w.regs.orig_rax == minus_one then 0 else 0x857f), w)
wait (only p) w = (changed p stopped_status, w)

instance abbrev pub reporting : Kernel
reporting = record machine { waitpid = wait }

pub reporting-laws : Ptrace ⦃k = reporting⦄ view
reporting-laws = record {
  byte-lt = laws.byte-lt;
  mapped-lt = laws.mapped-lt;
  peek = laws.peek;
  peek_unmapped = laws.peek_unmapped;
  peek-memory = laws.peek-memory;
  peek-regs = laws.peek-regs;
  poke = laws.poke;
  poke-memory = laws.poke-memory;
  poke_unmapped = laws.poke_unmapped;
  peekuser_rsp = laws.peekuser_rsp;
  peekuser-memory = laws.peekuser-memory;
  setregs = laws.setregs;
  setregs-memory = laws.setregs-memory;
  setregs-regs = laws.setregs-regs;
  malloc-memory = laws.malloc-memory;
  getregs = laws.getregs;
  getregs-memory = laws.getregs-memory;
  getregs-regs = laws.getregs-regs;
  resume = laws.resume;
  getregs-entry = laws.getregs-entry;
  setregs-entry = laws.setregs-entry;
  peek-entry = laws.peek-entry;
  cancel_wait = laws.cancel_wait;
  cancel-memory = laws.cancel-memory;
}

pub reporting-frames : Frames ⦃k = reporting⦄ view
reporting-frames = record {
  geteventmsg = frames.geteventmsg;
  malloc = frames.malloc;
  waitpid = frames.waitpid;
  syscall = frames.syscall;
}
