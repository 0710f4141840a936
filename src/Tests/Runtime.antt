-- ===== src/Tests/Runtime.antt =====
-- The runtime at concrete inputs.
use morpheus.Prelude.{
  ℕ, u32, read_at, ◌+◌, ◌<◌, ◌≡◌, ◌≢◌, ◌≤◌, refl, false, some, [], ◌∷◌, if◌then◌else◌, arith,
  update, insert, remove, lookup-insert, lookup-remove, nat_eq, length,
}
use morpheus.Common.Hint.{MorpheusHint, IsWord}
use morpheus.Runtime.Error.{Result, ok}
use morpheus.Runtime.ScbHandle.Race.{
  System, Inv, here, next, request, thread, load_preempt, idle, Steps-ordered, loaded_target,
}
use morpheus.Runtime.Critical.{critical_section, drop, in_critical_section}
use morpheus.Runtime.Critical.Nesting.{nesting, take, give}
use morpheus.Runtime.Critical.Nesting
use morpheus.Runtime.HintConsumer.{new}
use morpheus.Runtime.HintConsumer.Accounting.{receive_all, receive_all-accounts}
use morpheus.Runtime.BpfMaps.{Bpf, TidMap, done, failed}
use morpheus.Runtime.BpfMaps.Attr.{
  update_bytes, update_attr, delete_bytes, as_written, widest_first, delete_attr, obj_get_bytes,
  obj_get_attr, fd_of, key_of, value_of, flags_of, attrs-read,
}
use morpheus.Runtime.Builder.{RuntimeConfig, default_config}
use morpheus.Tests.Kernel.{hog}
use morpheus.Tests.System.{worker, holds}

abbrev pub grant : ℕ → ℕ → Result (Unit {0})
grant offset len = ok tt

abbrev start : System
start = record { scb = hog; pc = λ i. idle }

abbrev raised : System
raised = record { scb = record hog { preempt_seq = 5 }; pc = λ i. idle }

abbrev loaded : System
loaded = record { scb = raised.scb; pc = update raised.pc 1 (loaded_target 5) }

calm : Inv start
calm = record { acked = omega arith; knows = λ i. tt }

Steps-ordered_example : Inv loaded × (4 ≤ 4) × (4 ≤ 5)
Steps-ordered_example =
    Steps-ordered {s = start} {t = loaded} calm (next (next here request) (thread 1 load_preempt))
      ((tt, omega arith), tt)

nesting_example :
    ((drop (critical_section worker).0).critical_depth ≡ 0)
    × ((drop (critical_section worker).0).scb.is_in_critical_section
        ≡ (if in_critical_section (drop (critical_section worker).0) then 1 else 0))
    × (in_critical_section (drop (critical_section worker).0) ≡ false)
nesting_example =
    nesting {n = 0} {m = 0} {t = worker} {u = drop (critical_section worker).0} holds
      (Nesting.next (Nesting.next Nesting.here take) (give refl)) ((tt, omega arith), omega arith)

abbrev pub hint : ℕ → MorpheusHint
hint seq = record { seq = seq; reason = 1; target_tid = 77; deadline_ns = 5000 }

pub hint-IsWord : (seq : ℕ) → seq < 256 → IsWord (hint seq)
hint-IsWord seq small = record {
  seq = omega arith;
  reason = omega arith;
  target_tid = omega arith;
  deadline_ns = omega arith;
}

receive_all-accounts_example :
    let c = receive_all (hint 3 ∷ hint 4 ∷ hint 9 ∷ []) new in
    c.hints_received + c.hints_dropped + 3 ≡ c.last_seq + 1
receive_all-accounts_example =
    receive_all-accounts (hint 3) (hint 4 ∷ hint 9 ∷ []) (omega arith)
      (omega arith, omega arith, (omega arith, omega arith, (omega arith, omega arith, tt)))

pub done-injective : {m m' : TidMap} → done m ≡ done m' → m ≡ m'
done-injective e = cc

pub not_failed : {m : TidMap} {errno : ℕ} → done m ≢ failed errno
not_failed e = cc

abbrev pub bpf : Bpf
bpf = record {
  update_elem = λ tid worker_id m. done (insert tid worker_id m);
  delete_elem = λ tid m. done (remove tid m);
  update_done = λ tid worker_id m e j. rw (← done-injective e) (lookup-insert tid j worker_id m);
  delete_done = λ tid m e j. rw (← done-injective e) (lookup-remove tid j m);
  delete_missing = λ tid m e. absurd (not_failed e);
}

attrs-read_example :
    let update = update_bytes (update_attr 5 4096 8192) in
    let written = delete_bytes as_written (delete_attr 5 4096) in
    let widest = delete_bytes widest_first (delete_attr 5 4096) in
    let get = obj_get_bytes (obj_get_attr 12288) in
    ((length update ≡ 32)
      × (fd_of update ≡ 5)
      × (key_of update ≡ 4096)
      × (value_of update ≡ 8192)
      × (flags_of update ≡ 0))
    × ((length written ≡ 16) × (fd_of written ≡ 5) × (key_of written ≡ 4096))
    × ((length widest ≡ 16) × (fd_of widest ≡ u32 4096) × (key_of widest ≡ 5))
    × ((length get ≡ 16) × (read_at 0 8 get ≡ 12288))
attrs-read_example =
    attrs-read 5 4096 8192 12288 (omega arith) (omega arith) (omega arith) (omega arith)

-- A process that sets the global instance twice, keeps one it has built, and gives one up.
abbrev configured : RuntimeConfig
configured = default_config (some 4)
