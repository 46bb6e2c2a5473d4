-- ===== src/Trap/Tests.antt =====
-- Frames of a device interrupt and of a load from a page that is not there.
use risky.Base.{ℕ, ◌+◌, ◌^◌, ◌≡◌, refl, arith}
use risky.Trap.{TrapFrame, trap_handler, trap_mode_name}
use risky.Trap.Dispatch.{Panics, trap_handler_exception}

abbrev frame_of : (scause : ℕ) → TrapFrame
frame_of scause = record {
  ra = 1;
  sp = 2;
  gp = 3;
  tp = 4;
  t0 = 5;
  t1 = 6;
  t2 = 7;
  s0 = 8;
  s1 = 9;
  a0 = 10;
  a1 = 11;
  a2 = 12;
  a3 = 13;
  a4 = 14;
  a5 = 15;
  a6 = 16;
  a7 = 17;
  s2 = 18;
  s3 = 19;
  s4 = 20;
  s5 = 21;
  s6 = 22;
  s7 = 23;
  s8 = 24;
  s9 = 25;
  s10 = 26;
  s11 = 27;
  t3 = 28;
  t4 = 29;
  t5 = 30;
  t6 = 31;
  sstatus = 256;
  sepc = 2149580800;
  scause = scause;
  stval = 4096;
}

abbrev device_interrupt : TrapFrame
device_interrupt = frame_of (2 ^ 63 + 9)

abbrev load_fault : TrapFrame
load_fault = frame_of 13

mode_test : trap_mode_name load_fault ≡ "S-mode"
mode_test = refl

trap_handler_exception_example : Panics load_fault (trap_handler load_fault)
trap_handler_exception_example = trap_handler_exception load_fault (omega arith)
