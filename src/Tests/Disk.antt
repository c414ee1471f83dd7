-- ===== src/Tests/Disk.antt =====
-- Dumps that are cut off or fail, and the recovery behind them.
use lloogg.Prelude.{◌≡◌, refl, sym, ap, ◌∙◌, inl, none, some, [], ◌∷◌, ◌++◌, arith, take}
use lloogg.Error.{ok}
use lloogg.Files.{read}
use lloogg.Store.{Store, push_record, erase}
use lloogg.Store.View.{IsValid, view}
use lloogg.Store.Push.{push_record_lem}
use lloogg.Aof.{flush_once}
use lloogg.Aof.Entry.{push, del, entry_bytes, entries_bytes}
use lloogg.Snapshot.{dump_bytes}
use lloogg.Snapshot.Disk.{Directory, Disk, affected, reading, dump_to_path}
use lloogg.Snapshot.Atomic.{IsAtomic, dump_to_path-IsAtomic}
use lloogg.Recovery.{replay_aof, recover}
use lloogg.Recovery.Round.{IsTorn}
use lloogg.Recovery.Replay.{apply_all}
use lloogg.Recovery.Tail.{torn_push, spliced, replay_aof-cut_tail}
use lloogg.Recovery.Crash.{IsSnapshot, crash_restart_lem}
use lloogg.Tests.Stores.{visit, visit-IsTyped, two_slots, two_slots-IsValid, two-IsCapacity}
use lloogg.Tests.Logs.{two_slots-HasLogs, whole_writes}
use lloogg.Tests.Restart.{
  stored, one_pushed, own_order, len-one_pushed, logging, erased_after, pushed-IsRecorded,
  erased-IsRecorded,
}

-- The sync of this disk fails.
abbrev unsynced : Disk
unsynced = record {
  create = none;
  write = λ i. none;
  flush = none;
  into_inner = none;
  sync = some 5;
  rename = none;
}

abbrev old_snapshot : Directory
old_snapshot = record {
  buffer = [];
  tmp = none;
  bin = some (dump_bytes one_pushed one_pushed.map_of 20);
}

dump_to_path-IsAtomic_example :
    IsAtomic 3 old_snapshot
      (dump_bytes one_pushed one_pushed.map_of 22)
      (dump_to_path unsynced one_pushed one_pushed.map_of 22)
dump_to_path-IsAtomic_example =
    dump_to_path-IsAtomic unsynced one_pushed one_pushed.map_of 22 3 old_snapshot (λ i h. refl)

before : IsSnapshot 2 2 one_pushed one_pushed.map_of 20 (push 7 visit 9 ∷ []) (del 7 25 ∷ [])
before = record {
  writer = logging (push 7 visit 9 ∷ []);
  recorded = pushed-IsRecorded;
  iteration = own_order;
  covered = omega arith;
  behind = omega arith;
  small = omega (arith, len-one_pushed);
  word = omega arith;
}

after : IsSnapshot 2 2 one_pushed one_pushed.map_of 22 (push 7 visit 9 ∷ []) (del 7 25 ∷ [])
after = record {
  writer = logging (push 7 visit 9 ∷ []);
  recorded = pushed-IsRecorded;
  iteration = own_order;
  covered = omega arith;
  behind = omega arith;
  small = omega (arith, len-one_pushed);
  word = omega arith;
}

-- A crash after three calls of a second dump, and a removal behind it.
crash_restart_example :
    (s' : Store) × (recover
        (reading
          (affected old_snapshot
            (take 3 (dump_to_path unsynced one_pushed one_pushed.map_of 22).0)).bin)
        (read (flush_once whole_writes (logging erased_after)).file)
        two_slots
      ≡ some (some (ok s')))
    × IsValid 2 s'
    × (s'.capacity ≡ 2)
    × (view s' ≡ view (erase one_pushed 7))
crash_restart_example =
    crash_restart_lem unsynced 3 old_snapshot whole_writes (push 7 visit 9 ∷ []) [] (del 7 25 ∷ [])
      one_pushed one_pushed.map_of two_slots (λ i h. refl) refl before after erased-IsRecorded
      (λ i n. refl) two-IsCapacity two_slots-HasLogs (omega (arith, len-one_pushed))
      (omega (arith, len-one_pushed))

one_pushed-eq : push_record two_slots 7 visit 9 ≡ some one_pushed
one_pushed-eq =
    let (s', pushed, p) =
      push_record_lem 7 visit 9 visit-IsTyped two-IsCapacity two_slots-IsValid
        (inl (omega arith)) in
    pushed ∙ ap some (sym (ap stored pushed))

apply_all-one :
    (s s' : Store)
    → push_record s 7 visit 9 ≡ some s'
    → apply_all 0 (push 7 visit 9 ∷ []) s ≡ some s'
unfolding apply_all
apply_all-one s s' h = rw (apply_all, h)

-- User 8's push was cut behind five bytes of its record, and user 7 is then removed.
replay_aof-cut_tail_example :
    IsTorn (torn_push 8 visit 11 5)
    × (replay_aof
          (entries_bytes (push 7 visit 9 ∷ [])
            ++ (torn_push 8 visit 11 5 ++ entry_bytes (del 7 12)))
          0
          two_slots
        ≡ some (push_record one_pushed 8 (spliced visit 5 (entry_bytes (del 7 12))) 11))
replay_aof-cut_tail_example =
    replay_aof-cut_tail (push 7 visit 9 ∷ []) 8 visit 11 5 7 12 0 two_slots
      ((omega arith, omega arith, visit-IsTyped), tt) (omega arith) (omega arith) (omega arith)
      (omega arith) (omega arith) (apply_all-one two_slots one_pushed one_pushed-eq)
