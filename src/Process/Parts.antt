-- ===== src/Process/Parts.antt =====
-- The 14 blocks that `process_system_initialize` allocates, in order.
use rpiosv.Base.{
  ℕ, ◌^◌, ◌≤◌, ◌<◌, ◌≡◌, ◌≢◌, refl, true, false, List, [], ◌∷◌, Addr, null, arith, has, Distinct,
}
use rpiosv.Memory.{round_size}
use rpiosv.Queue.{queue_size, node_size}
use rpiosv.Kernel.{saved_size}
use rpiosv.Semaphore.{semaphore_size}
use rpiosv.Memory.Grants.{Within}
use rpiosv.Process.{process_size, stacksize}
use rpiosv.Process.Entered.{Stacks}

-- The sizes of what is allocated, in order.
abbrev pub sizes : List ℕ
sizes =
    queue_size ∷ node_size ∷ queue_size ∷ node_size ∷ queue_size ∷ node_size ∷ semaphore_size
    ∷ queue_size ∷ node_size ∷ process_size ∷ process_size ∷ stacksize ∷ process_size ∷ stacksize
    ∷ []

pub has-fourth : (a b c d : Addr) → has d (a ∷ b ∷ c ∷ d ∷ []) ≡ true
has-fourth a b c d = ground arith

-- What is used of the addresses.
pub record Parts (run s1 dead s2 tick s3 wait s4 idle reaper main : Addr) : Type 0 where
  pub queues : Distinct (wait ∷ tick ∷ dead ∷ run ∷ [])
  pub sentinals : Distinct (s4 ∷ s3 ∷ s2 ∷ s1 ∷ [])
  pub processes : Distinct (main ∷ reaper ∷ idle ∷ [])
  pub idle_new : has idle (s4 ∷ s3 ∷ s2 ∷ s1 ∷ []) ≡ false
  pub reaper_new : has reaper (s4 ∷ s3 ∷ s2 ∷ s1 ∷ []) ≡ false
  pub main_new : has main (s4 ∷ s3 ∷ s2 ∷ s1 ∷ []) ≡ false
  pub real_queues : has null (run ∷ s1 ∷ dead ∷ s2 ∷ tick ∷ s3 ∷ []) ≡ false
  pub real_wait : wait ≢ null
  pub real_s4 : s4 ≢ null
  pub real_idle : idle ≢ null
  pub real_processes : has null (reaper ∷ main ∷ []) ≡ false
  pub two : reaper ≢ main
  pub reaper_other : reaper ≢ idle
  pub main_other : main ≢ idle

pub parts :
    (run s1 dead s2 tick s3 sem wait s4 idle reaper base1 main base2 : Addr)
    → Distinct (
        run ∷ s1 ∷ dead ∷ s2 ∷ tick ∷ s3 ∷ sem ∷ wait ∷ s4 ∷ idle ∷ reaper ∷ base1 ∷ main ∷ base2
        ∷ [])
    → has null (
        run ∷ s1 ∷ dead ∷ s2 ∷ tick ∷ s3 ∷ sem ∷ wait ∷ s4 ∷ idle ∷ reaper ∷ base1 ∷ main ∷ base2
        ∷ [])
      ≡ false
    → Parts run s1 dead s2 tick s3 wait s4 idle reaper main
parts run s1 dead s2 tick s3 sem wait s4 idle reaper base1 main base2
      (r, (a, (d, (b, (t, (c, (e, (w, (f, (i, (p, (q, (m, _))))))))))))) real =
    record {
      queues = (ground (arith, r, d, t), (ground (arith, r, d), (ground (arith, r), (refl, tt))));
      sentinals =
          (ground (arith, a, b, c), (ground (arith, a, b), (ground (arith, a), (refl, tt))));
      processes = (ground (arith, i, p), (ground (arith, i), (refl, tt)));
      idle_new = ground (arith, a, b, c, f);
      reaper_new = ground (arith, a, b, c, f);
      main_new = ground (arith, a, b, c, f);
      real_queues = ground (arith, real);
      real_wait = ground (arith, real);
      real_s4 = ground (arith, real);
      real_idle = ground (arith, real);
      real_processes = ground (arith, real);
      two = ground (arith, p);
      reaper_other = ground (arith, i);
      main_other = ground (arith, i);
    }

-- The two stacks lie in the heap, above the stack that the kernel started on.
pub stacks :
    (sp lo hi : ℕ) (run s1 dead s2 tick s3 sem wait s4 idle reaper base1 main base2 : Addr)
    → saved_size ≤ sp
    → sp ≤ lo
    → hi < 2 ^ 32
    → Within lo hi sizes (
        run ∷ s1 ∷ dead ∷ s2 ∷ tick ∷ s3 ∷ sem ∷ wait ∷ s4 ∷ idle ∷ reaper ∷ base1 ∷ main ∷ base2
        ∷ [])
    → Distinct (
        run ∷ s1 ∷ dead ∷ s2 ∷ tick ∷ s3 ∷ sem ∷ wait ∷ s4 ∷ idle ∷ reaper ∷ base1 ∷ main ∷ base2
        ∷ [])
    → Stacks sp base1 base2
unfolding round_size
stacks sp lo hi run s1 dead s2 tick s3 sem wait s4 idle reaper base1 main base2 low below high
      (
        _,
        _,
        (
          _,
          _,
          (
            _,
            _,
            (
              _,
              _,
              (
                _,
                _,
                (
                  _,
                  _,
                  (_, _, (_, _, (_, _, (_, _, (_, _, (from1, to1, (_, _, (from2, to2, _)))))))),
                ),
              ),
            ),
          ),
        ),
      )
      (_, (_, (_, (_, (_, (_, (_, (_, (_, (_, (_, (other, _)))))))))))) =
    record {
      low = low;
      below1 = omega (arith, below, from1);
      below2 = omega (arith, below, from2);
      high1 = omega (arith, high, to1);
      high2 = omega (arith, high, to2);
      apart = ground (arith, other);
    }
